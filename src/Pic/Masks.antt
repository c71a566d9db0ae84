-- ===== src/Pic/Masks.antt =====
-- The interrupt lines that the masks of the two controllers let through.
use illinix_os.Prelude.{
  ℕ, ◌+◌, ◌-◌, ◌*◌, ◌/◌, ◌%◌, ◌^◌, ◌<◌, ◌≡◌, refl, true, arith, ltb, ◌==◌, ==_iff, if◌then◌else◌,
}
use illinix_os.Prelude.Bits.{agree, agree_sound, passes, passes_lem}
use illinix_os.Pic.{Pic, clear_bit, set_bit, enable_irq, disable_irq, i8259_init}

abbrev bit : ℕ → ℕ → ℕ
bit m n = m / 2 ^ n % 2

-- 1 for a line that is masked, 0 for one that is let through.
unfoldable pub masked : Pic → ℕ → ℕ
masked p irq = if ltb irq 8 then bit p.master_mask irq else bit p.slave_mask (irq - 8)

pub record IsPic (p : Pic) : Type 0 where
  pub master_byte : p.master_mask < 256
  pub slave_byte : p.slave_mask < 256

-- Two lines of one controller in a number below 64.
clear_table :
    agree 256 64
      (λ m x. bit (clear_bit m (x / 8)) (x % 8))
      (λ m x. if x % 8 == x / 8 then 0 else bit m (x % 8))
    ≡ true
unfolding agree clear_bit
clear_table = refl

set_table :
    agree 256 64
      (λ m x. bit (set_bit m (x / 8)) (x % 8))
      (λ m x. if x % 8 == x / 8 then 1 else bit m (x % 8))
    ≡ true
unfolding agree set_bit
set_table = refl

-- A number below 64 that holds two below 8.
clear_bit-bit :
    (m i j : ℕ) → m < 256 → i < 8 → j < 8 → bit (clear_bit m i) j ≡ (if j == i then 0 else bit m j)
clear_bit-bit m i j p q r =
    let row : (8 * i + j) / 8 ≡ i = omega arith in
    let column : (8 * i + j) % 8 ≡ j = omega arith in
    rw (row, column) at (agree_sound 256 64 _ _ m (8 * i + j) clear_table p (omega arith))

set_bit-bit :
    (m i j : ℕ) → m < 256 → i < 8 → j < 8 → bit (set_bit m i) j ≡ (if j == i then 1 else bit m j)
set_bit-bit m i j p q r =
    let row : (8 * i + j) / 8 ≡ i = omega arith in
    let column : (8 * i + j) % 8 ≡ j = omega arith in
    rw (row, column) at (agree_sound 256 64 _ _ m (8 * i + j) set_table p (omega arith))

-- Unmasking a line lets it through and leaves the other 15 lines as they were.
pub enable_irq-masked :
    (p : Pic) (irq j : ℕ)
    → IsPic p
    → irq < 16
    → j < 16
    → masked (enable_irq p irq) j ≡ (if j == irq then 0 else masked p j)
unfolding masked enable_irq
enable_irq-masked p irq j v h k = ground (
  arith,
  clear_bit-bit p.master_mask irq j v.master_byte,
  clear_bit-bit p.slave_mask (irq - 8) (j - 8) v.slave_byte,
)

-- Masking a line stops it and leaves the other 15 lines as they were.
pub disable_irq-masked :
    (p : Pic) (irq j : ℕ)
    → IsPic p
    → irq < 16
    → j < 16
    → masked (disable_irq p irq) j ≡ (if j == irq then 1 else masked p j)
unfolding masked disable_irq
disable_irq-masked p irq j v h k = ground (
  arith,
  set_bit-bit p.master_mask irq j v.master_byte,
  set_bit-bit p.slave_mask (irq - 8) (j - 8) v.slave_byte,
)

abbrev expected_lines : ℕ → ℕ
expected_lines j =
    if j == 0 then 0 else if j == 1 then 0 else if j == 2 then 0 else if j == 8 then 0 else 1

boot_table :
    (p : Pic)
    → passes
        (λ j.
          masked (enable_irq (enable_irq (enable_irq (i8259_init p) 1) 8) 0) j == expected_lines j)
        16
      ≡ true
unfolding passes masked i8259_init
boot_table p = refl

-- After the boot sequence of kernel.c, which initializes the controllers and enables the keyboard,
-- the clock and the timer, exactly lines 0, 1, 2 and 8 are let through.
pub boot_lines :
    (p : Pic) (j : ℕ)
    → j < 16
    → masked (enable_irq (enable_irq (enable_irq (i8259_init p) 1) 8) 0) j
      ≡ (if j == 0 then 0 else if j == 1 then 0 else if j == 2 then 0 else if j == 8 then 0 else 1)
boot_lines p j h = (==_iff _ _).0 (passes_lem _ 16 j h (boot_table p))
