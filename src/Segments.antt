-- ===== src/Segments.antt =====
-- The segment descriptors of student-distrib/x86_desc.h, and the two that `entry` of
-- student-distrib/kernel.c makes.
use illinix_os.Prelude.{ℕ, ◌+◌, ◌*◌, ◌/◌, ◌%◌, ◌<◌, ◌^◌, ◌≡◌, arith}

-- `seg_desc_t`
pub record SegDesc : Type 0 where
  pub seg_lim_15_00 : ℕ
  pub base_15_00 : ℕ
  pub base_23_16 : ℕ
  pub type : ℕ
  pub sys : ℕ
  pub dpl : ℕ
  pub present : ℕ
  pub seg_lim_19_16 : ℕ
  pub avail : ℕ
  pub reserved : ℕ
  pub opsize : ℕ
  pub granularity : ℕ
  pub base_31_24 : ℕ

-- SET_LDT_PARAMS and SET_TSS_PARAMS, which have the same body.
unfoldable pub set_params : ℕ → ℕ → SegDesc → SegDesc
set_params addr lim d = record d {
  base_31_24 = addr / 16777216 % 256;
  base_23_16 = addr / 65536 % 256;
  base_15_00 = addr % 65536;
  seg_lim_19_16 = lim / 65536 % 16;
  seg_lim_15_00 = lim % 65536;
}

-- The fields that the macro sets are those that `d` held; the code does not initialize them.
unfoldable pub the_ldt_desc : ℕ → ℕ → SegDesc → SegDesc
unfolding set_params
the_ldt_desc addr lim d = set_params addr lim (record d {
  granularity = 0;
  opsize = 1;
  reserved = 0;
  avail = 0;
  present = 1;
  dpl = 0;
  sys = 0;
  type = 2;
})

unfoldable pub the_tss_desc : ℕ → ℕ → SegDesc → SegDesc
unfolding set_params
the_tss_desc addr lim d = set_params addr lim (record d {
  granularity = 0;
  opsize = 0;
  reserved = 0;
  avail = 0;
  seg_lim_19_16 = 0;
  present = 1;
  dpl = 0;
  sys = 0;
  type = 9;
  seg_lim_15_00 = 104;
})

-- The address and the limit that the processor reads from a descriptor.
abbrev pub base_of : SegDesc → ℕ
base_of d = d.base_15_00 + 65536 * d.base_23_16 + 16777216 * d.base_31_24

abbrev pub limit_of : SegDesc → ℕ
limit_of d = d.seg_lim_15_00 + 65536 * d.seg_lim_19_16

-- Whatever a descriptor held, the macros make the processor read the address and the limit that they
-- are given, for an address of 32 bits and a limit of 20.
pub set_params_lem :
    (addr lim : ℕ) (d : SegDesc)
    → addr < 2 ^ 32
    → lim < 2 ^ 20
    → (base_of (set_params addr lim d) ≡ addr) × (limit_of (set_params addr lim d) ≡ lim)
unfolding set_params
set_params_lem addr lim d p q = (omega arith, omega arith)
