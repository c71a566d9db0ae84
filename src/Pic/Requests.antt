-- ===== src/Pic/Requests.antt =====
-- What i8259.c promises: a set of interrupt lines that are let through, and the ends of interrupts
-- sent so far. The calls that the drivers make, in any order, act on it as on the two masks.
use illinix_os.Prelude.{
  ℕ, ◌+◌, ◌-◌, ◌/◌, ◌<◌, ◌≡◌, refl, sym, ap, ◌∙◌, Bool, true, false, List, [], ◌∷◌, ◌++◌, arith,
  ltb, ◌==◌, ==_iff, if◌then◌else◌, bit_or,
}
use illinix_os.Prelude.Bits.{agree, agree_sound, passes, passes_lem}
use illinix_os.Pic.{Pic, eoi, clear_bit, set_bit, enable_irq, disable_irq, send_eoi, i8259_init}
use illinix_os.Pic.Masks.{masked, IsPic, enable_irq-masked, disable_irq-masked}
use mathlib.Core.List.{append_assoc, append-nil}

pub data Request : Type 0 where
  enable disable acknowledge : ℕ → Request

abbrev line : Request → ℕ
line (enable irq) = irq
line (disable irq) = irq
line (acknowledge irq) = irq

unfoldable pub perform : Pic → Request → Pic
perform p (enable irq) = enable_irq p irq
perform p (disable irq) = disable_irq p irq
perform p (acknowledge irq) = send_eoi p irq

unfoldable pub run : List Request → Pic → Pic
run [] p = p
run (r ∷ rs) p = run rs (perform p r)

-- Every request names one of the 16 lines.
unfoldable pub OnLines : List Request → Type 0
OnLines [] = 0 < 1
OnLines (r ∷ rs) = (line r < 16) × OnLines rs

-- The abstract controller: whether each line is let through.
abbrev change : (ℕ → Bool) → Request → ℕ → Bool
change through (enable irq) j = if j == irq then true else through j
change through (disable irq) j = if j == irq then false else through j
change through (acknowledge irq) j = through j

unfoldable pub changes : List Request → (ℕ → Bool) → ℕ → Bool
changes [] through = through
changes (r ∷ rs) through = changes rs (change through r)

-- A line of the second controller is acknowledged on both, on the first as its line 2.
abbrev answer : ℕ → List (ℕ × ℕ)
answer irq = if ltb irq 8 then (0x20, 0x60 + irq) ∷ [] else (0x20, 0x62) ∷ (0xA0, 0x58 + irq) ∷ []

unfoldable pub answers : List Request → List (ℕ × ℕ)
answers [] = []
answers (enable irq ∷ rs) = answers rs
answers (disable irq ∷ rs) = answers rs
answers (acknowledge irq ∷ rs) = answer irq ++ answers rs

-- A controller shows a set of lines when exactly the others are masked.
abbrev Shows : Pic → (ℕ → Bool) → Type 0
Shows p through = (j : ℕ) → j < 16 → masked p j ≡ (if through j then 0 else 1)

clear_table : agree 256 8 (λ m i. clear_bit m i / 256) (λ m i. 0) ≡ true
unfolding agree clear_bit
clear_table = refl

set_table : agree 256 8 (λ m i. set_bit m i / 256) (λ m i. 0) ≡ true
unfolding agree set_bit
set_table = refl

clear_bit_byte : (m i : ℕ) → m < 256 → i < 8 → clear_bit m i < 256
clear_bit_byte m i p q =
    let quotient : clear_bit m i / 256 ≡ 0 = agree_sound 256 8 _ _ m i clear_table p q in
    omega arith

set_bit_byte : (m i : ℕ) → m < 256 → i < 8 → set_bit m i < 256
set_bit_byte m i p q =
    let quotient : set_bit m i / 256 ≡ 0 = agree_sound 256 8 _ _ m i set_table p q in omega arith

eoi_table : passes (λ i. bit_or eoi i == 0x60 + i) 8 ≡ true
unfolding passes
eoi_table = refl

eoi_lem : (i : ℕ) → i < 8 → bit_or eoi i ≡ 0x60 + i
eoi_lem i h = (==_iff _ _).0 (passes_lem _ 8 i h eoi_table)

perform-IsPic : (p : Pic) (r : Request) → IsPic p → line r < 16 → IsPic (perform p r)
unfolding perform enable_irq disable_irq send_eoi
perform-IsPic p (enable irq) v h = record {
  master_byte = ground (arith, v.master_byte, clear_bit_byte p.master_mask irq v.master_byte);
  slave_byte = ground (arith, v.slave_byte, clear_bit_byte p.slave_mask (irq - 8) v.slave_byte);
}
perform-IsPic p (disable irq) v h = record {
  master_byte = ground (arith, v.master_byte, set_bit_byte p.master_mask irq v.master_byte);
  slave_byte = ground (arith, v.slave_byte, set_bit_byte p.slave_mask (irq - 8) v.slave_byte);
}
perform-IsPic p (acknowledge irq) v h = record {
  master_byte = ground (arith, v.master_byte);
  slave_byte = ground (arith, v.slave_byte);
}

send_eoi-masked : (p : Pic) (irq j : ℕ) → masked (send_eoi p irq) j ≡ masked p j
unfolding send_eoi masked
send_eoi-masked p irq j = ground arith

perform-Shows :
    (p : Pic) (r : Request) (through : ℕ → Bool)
    → IsPic p
    → line r < 16
    → Shows p through
    → Shows (perform p r) (change through r)
unfolding perform
perform-Shows p (enable irq) through v h s j k =
    ground (arith, enable_irq-masked p irq j v h k, s j k)
perform-Shows p (disable irq) through v h s j k =
    ground (arith, disable_irq-masked p irq j v h k, s j k)
perform-Shows p (acknowledge irq) through v h s j k = send_eoi-masked p irq j ∙ s j k

enable_irq-sent : (p : Pic) (irq : ℕ) → (enable_irq p irq).sent ≡ p.sent
unfolding enable_irq
enable_irq-sent p irq = ground arith

disable_irq-sent : (p : Pic) (irq : ℕ) → (disable_irq p irq).sent ≡ p.sent
unfolding disable_irq
disable_irq-sent p irq = ground arith

send_eoi-sent : (p : Pic) (irq : ℕ) → irq < 16 → (send_eoi p irq).sent ≡ p.sent ++ answer irq
unfolding send_eoi
send_eoi-sent p irq h = ground (arith, eoi_lem irq, eoi_lem (irq - 8))

run-Shows :
    (rs : List Request) (p : Pic) (through : ℕ → Bool)
    → IsPic p
    → OnLines rs
    → Shows p through
    → Shows (run rs p) (changes rs through)
unfolding run changes OnLines
run-Shows [] p through v h s = s
run-Shows (r ∷ rs) p through v h s =
    run-Shows rs (perform p r) (change through r) (perform-IsPic p r v h.0) h.1
      (perform-Shows p r through v h.0 s)

run-sent : (rs : List Request) (p : Pic) → OnLines rs → (run rs p).sent ≡ p.sent ++ answers rs
unfolding run answers OnLines perform
run-sent [] p h = sym (append-nil p.sent)
run-sent (enable irq ∷ rs) p h =
    run-sent rs (enable_irq p irq) h.1 ∙ ap (λ s. s ++ answers rs) (enable_irq-sent p irq)
run-sent (disable irq ∷ rs) p h =
    run-sent rs (disable_irq p irq) h.1 ∙ ap (λ s. s ++ answers rs) (disable_irq-sent p irq)
run-sent (acknowledge irq ∷ rs) p h =
    run-sent rs (send_eoi p irq) h.1
    ∙ ap (λ s. s ++ answers rs) (send_eoi-sent p irq h.0)
    ∙ append_assoc p.sent (answer irq) (answers rs)

-- i8259_init leaves line 2, which the second controller is wired to, alone let through.
abbrev pub only_cascade : ℕ → Bool
only_cascade j = j == 2

boot_table :
    (p : Pic) → passes (λ j. masked (i8259_init p) j == (if only_cascade j then 0 else 1)) 16 ≡ true
unfolding passes masked i8259_init
boot_table p = refl

i8259_init-Shows : (p : Pic) → Shows (i8259_init p) only_cascade
i8259_init-Shows p j h = (==_iff _ _).0 (passes_lem _ 16 j h (boot_table p))

i8259_init-IsPic : (p : Pic) → IsPic (i8259_init p)
unfolding i8259_init
i8259_init-IsPic p = record { master_byte = omega arith; slave_byte = omega arith }

-- Once i8259_init has run, any sequence of enable_irq, disable_irq and send_eoi on the 16 lines leaves
-- masked exactly the lines that the same changes leave out of a set that begins with line 2 alone,
-- and sends the ends of interrupts in order: one for a line of the first controller, 0x60 and the
-- line, and for a line of the second 0x62 to the first and 0x60 and the line less 8 to the second.
pub run-refines :
    (p : Pic) (rs : List Request) (j : ℕ)
    → OnLines rs
    → j < 16
    → (masked (run rs (i8259_init p)) j ≡ (if changes rs only_cascade j then 0 else 1))
      × ((run rs (i8259_init p)).sent ≡ (i8259_init p).sent ++ answers rs)
run-refines p rs j h k = (
  run-Shows rs (i8259_init p) only_cascade (i8259_init-IsPic p) h (i8259_init-Shows p) j k,
  run-sent rs (i8259_init p) h,
)
