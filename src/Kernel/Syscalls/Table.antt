-- ===== src/Kernel/Syscalls/Table.antt =====
-- The descriptor table of a process: every open descriptor has the functions of one driver, so that
-- no call jumps through a null pointer.
use illinix_os.Prelude.{
  ℕ, ◌≤◌, ◌<◌, ◌^◌, ◌≡◌, ◌⊎◌, inl, inr, refl, ap, false, ◌||◌, some, arith, ◌==◌, update,
  update_self, update_ne, ℕ_discrete, if_intro,
}
use illinix_os.Prelude.Word.{bad_fd, bad_fd-lt}
use illinix_os.Rtc.{rtc_close}
use illinix_os.Kernel.{
  Driver, null, terminal, rtc, directory, file, Descriptor, Pcb, Kernel, current, descriptor,
  set_descriptor,
}
use illinix_os.Kernel.Files.{file_close}
use illinix_os.Kernel.Syscalls.{
  Call, returned, waiting, fault, all_ops, closed, call_close, sys_close,
}

-- One of the three drivers that sys_open knows.
abbrev pub IsFileDriver : Driver → Type 0
IsFileDriver d = (d ≡ rtc) ⊎ ((d ≡ directory) ⊎ (d ≡ file))

-- A descriptor is free, or its four functions are one driver's.
abbrev pub IsSound : Descriptor → Type 0
IsSound e = (e.flags ≡ 0) ⊎ ((d : Driver) × IsFileDriver d × (e.ops ≡ all_ops d))

pub record IsTable (fds : ℕ → Descriptor) : Type 0 where
  pub stdin : (fds 0).ops.read_op ≡ terminal
  pub stdout : (fds 1).ops.write_op ≡ terminal
  pub files : (i : ℕ) → 2 ≤ i → i < 8 → IsSound (fds i)

update-IsTable :
    (fds : ℕ → Descriptor) (fd : ℕ) (e : Descriptor)
    → IsTable fds
    → 2 ≤ fd
    → IsSound e
    → IsTable (update fds fd e)
update-IsTable fds fd e v h s = record {
  stdin = rw (update_ne fds fd 0 e (omega arith)) v.stdin;
  stdout = rw (update_ne fds fd 1 e (omega arith)) v.stdout;
  files = λ i low high. elim (ℕ_discrete i fd) [
    | yes same ↦ rw (same, update_self fds fd e) s
    | no other ↦ rw (update_ne fds fd i e other) (v.files i low high)
  ];
}

-- A write to a descriptor of the running process changes that descriptor only.
pub set_descriptor_lem :
    (k : Kernel) (fd : ℕ) (e : Descriptor)
    → (current (set_descriptor k fd e)).fd_entry ≡ update (current k).fd_entry fd e
unfolding set_descriptor
set_descriptor_lem k fd e =
    ap (λ (p : Pcb). p.fd_entry) (update_self k.pcbs k.current_process_idx _)

pub set_descriptor-IsTable :
    (k : Kernel) (fd : ℕ) (e : Descriptor)
    → IsTable (current k).fd_entry
    → 2 ≤ fd
    → IsSound e
    → IsTable (current (set_descriptor k fd e)).fd_entry
set_descriptor-IsTable k fd e v h s =
    rw (set_descriptor_lem k fd e) (update-IsTable (current k).fd_entry fd e v h s)

-- The table of the state that a call leaves, if it returns.
abbrev pub TableAfter : Call (ℕ × Kernel) → Type 0
TableAfter (returned (ret, k)) = IsTable (current k).fd_entry
TableAfter waiting = Unit {0}
TableAfter fault = ⊥

close_driver : (d : Driver) (fd : ℕ) → IsFileDriver d → fd < 8 → call_close d fd ≡ some 0
unfolding call_close file_close rtc_close
close_driver rtc fd h low = refl
close_driver directory fd h low = ground arith
close_driver file fd h low = ground arith
close_driver null fd h low = ground arith
close_driver terminal fd h low = ground arith

pub close_sound :
    (e : Descriptor) (fd : ℕ)
    → IsSound e
    → (e.flags == 0) ≡ false
    → fd < 8
    → call_close e.ops.close_op fd ≡ some 0
close_sound e fd (inl free) used low = absurd (ground arith)
close_sound e fd (inr (d, h, ops)) used low = rw ops (close_driver d fd h low)

-- The tests of sys_close leave the descriptors from 2 to 7.
from_two : (fd : ℕ) → (fd == 0 || fd == 1) ≡ false → 2 ≤ fd
from_two fd h = ground arith

-- With a sound table sys_close returns, whatever the word that it is given, and keeps the table
-- sound.
pub sys_close-IsTable :
    (k : Kernel) (fd : ℕ) → fd < 2 ^ 32 → IsTable (current k).fd_entry → TableAfter (sys_close k fd)
unfolding sys_close
sys_close-IsTable k fd w v =
    if_intro TableAfter (fd == 0 || fd == 1) (λ _. v)
      λ high.
        if_intro TableAfter (bad_fd fd) (λ _. v)
          λ good.
            if_intro TableAfter ((descriptor k fd).flags == 0) (λ _. v)
              λ used.
                let low : fd < 8 = bad_fd-lt fd w good in
                let sound = v.files fd (from_two fd high) low in
                rw (close_sound (descriptor k fd) fd sound used low, sys_close)
                  (set_descriptor-IsTable k fd closed v (from_two fd high) (inl refl))
