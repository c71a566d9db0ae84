-- ===== src/Idt/Gates.antt =====
-- Which vectors initialize_idt opens, and to whom.
use illinix_os.Prelude.{
  ℕ, zero, suc, ◌+◌, ◌*◌, ◌/◌, ◌%◌, ◌≤◌, ◌<◌, ◌^◌, ◌≡◌, ◌≢◌, ◌⊎◌, inl, inr, refl, sym, ap, ◌∙◌,
  Bool, true, false, arith, ltb, ◌&&◌, ◌||◌, not, dec_lt, ◌==◌, if◌then◌else◌, update, update_ne,
  update_self, eq_false, ℕ_discrete, Bool-cases, if_intro,
}
use illinix_os.Idt.{
  Gate, Wrappers, zero_gate, set_idt_entry, set_fields, set_exception_params, zero_gates,
  exception_gate, exception_gates, device_gates, initialize_idt,
}

ltb-true : (a b : ℕ) → a < b → ltb a b ≡ true
ltb-true a b h = ground arith

ltb-false : (a b : ℕ) → (a < b → ⊥) → ltb a b ≡ false
ltb-false a b h = ground arith

-- The vectors of the devices and of the system call.
abbrev is_device : ℕ → Bool
is_device i = i == 0x80 || (i == 0x21 || (i == 0x28 || i == 0x20))

zero_gates-below : (n i j : ℕ) (d : ℕ → Gate) → j < i → zero_gates n i d j ≡ d j
unfolding zero_gates
zero_gates-below zero i j d h = refl
zero_gates-below (suc n) i j d h =
    zero_gates-below n (suc i) j _ (omega arith) ∙ update_ne d i j zero_gate (omega arith)

zero_gates-at : (n i j : ℕ) (d : ℕ → Gate) → i ≤ j → j < i + n → zero_gates n i d j ≡ zero_gate
unfolding zero_gates
zero_gates-at zero i j d low high = absurd (omega arith)
zero_gates-at (suc n) i j d low high = elim (ℕ_discrete j i) [
  | yes same ↦ rw same (
      zero_gates-below n (suc i) i (update d i zero_gate) (omega arith) ∙ update_self d i zero_gate)
  | no other ↦ zero_gates-at n (suc i) j _ (omega arith) (omega arith)
]

exception_gates-below :
    (w : Wrappers) (n i j : ℕ) (d : ℕ → Gate) → j < i → exception_gates w n i d j ≡ d j
unfolding exception_gates
exception_gates-below w zero i j d h = refl
exception_gates-below w (suc n) i j d h =
    exception_gates-below w n (suc i) j _ (omega arith) ∙ update_ne d i j _ (omega arith)

exception_gates-above :
    (w : Wrappers) (n i j : ℕ) (d : ℕ → Gate) → i + n ≤ j → exception_gates w n i d j ≡ d j
unfolding exception_gates
exception_gates-above w zero i j d h = refl
exception_gates-above w (suc n) i j d h =
    exception_gates-above w n (suc i) j _ (omega arith) ∙ update_ne d i j _ (omega arith)

exception_gates-at :
    (w : Wrappers) (n i j : ℕ) (d : ℕ → Gate)
    → i ≤ j
    → j < i + n
    → exception_gates w n i d j ≡ exception_gate w j (d j)
unfolding exception_gates
exception_gates-at w zero i j d low high = absurd (omega arith)
exception_gates-at w (suc n) i j d low high = elim (ℕ_discrete j i) [
  | yes same ↦ rw same (
      exception_gates-below w n (suc i) i _ (omega arith)
      ∙ update_self d i (exception_gate w i (d i)))
  | no other ↦
      exception_gates-at w n (suc i) j _ (omega arith) (omega arith)
      ∙ ap (exception_gate w j) (update_ne d i j _ other)
]

module _ (w : Wrappers) (d : ℕ → Gate) where
  device_gates-other :
      (i : ℕ) → i ≢ 0x80 → i ≢ 0x21 → i ≢ 0x28 → i ≢ 0x20 → device_gates w d i ≡ d i
  unfolding device_gates update
  device_gates-other i a b c e = rw (eq_false e, eq_false c, eq_false b, eq_false a) refl

-- A vector that is none of the four after the exceptions.
module _ (w : Wrappers) (d : ℕ → Gate) (i : ℕ) (byte : i < 256) where
  other_gate :
      i ≢ 0x80
      → i ≢ 0x21
      → i ≢ 0x28
      → i ≢ 0x20
      → initialize_idt w d i ≡ (if ltb i 21 then exception_gate w i zero_gate else zero_gate)
  unfolding initialize_idt
  other_gate a b c e = device_gates-other w _ i a b c e ∙ elim (dec_lt i 21) [
    | yes low ↦ rw (ltb-true i 21 low) (
        exception_gates-at w 21 0 i (zero_gates 256 0 d) (omega arith) low
        ∙ ap (exception_gate w i) (zero_gates-at 256 0 i d (omega arith) byte))
    | no high ↦ rw (ltb-false i 21 high) (
        exception_gates-above w 21 0 i (zero_gates 256 0 d) (omega arith)
        ∙ zero_gates-at 256 0 i d (omega arith) byte)
  ]

-- The vectors that are open: the exceptions but the reserved 15, and the four others.
abbrev is_open : ℕ → Bool
is_open i = ltb i 20 && not (i == 15) || is_device i

abbrev OpenAs : ℕ → Gate → Type 0
OpenAs i g = (g.present ≡ (if ltb i 20 && not (i == 15) then 1 else 0)) × (g.dpl ≡ 0)

exception_open :
    (w : Wrappers) (i : ℕ)
    → ((if ltb i 21 then exception_gate w i zero_gate else zero_gate).present
        ≡ (if ltb i 20 && not (i == 15) then 1 else 0))
      × ((if ltb i 21 then exception_gate w i zero_gate else zero_gate).dpl ≡ 0)
unfolding exception_gate set_exception_params set_fields set_idt_entry
exception_open w i =
    if_intro (OpenAs i) (ltb i 21)
      (λ low.
        if_intro (OpenAs i) (i == 15 || i == 20) (λ reserved. (ground arith, refl))
          (λ used. (ground arith, refl)))
      (λ high. (ground arith, refl))

open_other :
    (i : ℕ)
    → is_device i ≡ false
    → ◌≡◌ {A = ℕ} (if ltb i 20 && not (i == 15) then 1 else 0) (if is_open i then 1 else 0)
open_other i h = ground arith

device_open :
    (w : Wrappers) (d : ℕ → Gate) (i : ℕ)
    → (i ≡ 0x80) ⊎ ((i ≡ 0x21) ⊎ ((i ≡ 0x28) ⊎ (i ≡ 0x20)))
    → ((device_gates w d i).present ≡ (if is_open i then 1 else 0))
      × ((device_gates w d i).dpl ≡ (if i == 0x80 || i == 0x21 then 3 else 0))
unfolding device_gates update set_fields set_idt_entry
device_open w d i (inl e) = rw e (refl, refl)
device_open w d i (inr (inl e)) = rw e (refl, refl)
device_open w d i (inr (inr (inl e))) = rw e (refl, refl)
device_open w d i (inr (inr (inr e))) = rw e (refl, refl)

which_device : (i : ℕ) → is_device i ≡ true → (i ≡ 0x80) ⊎ ((i ≡ 0x21) ⊎ ((i ≡ 0x28) ⊎ (i ≡ 0x20)))
which_device i h = ground arith

not_device : (i : ℕ) → is_device i ≡ false → (i ≢ 0x80) × (i ≢ 0x21) × (i ≢ 0x28) × (i ≢ 0x20)
not_device i h = (ground arith, ground arith, ground arith, ground arith)

not_user : (i : ℕ) → is_device i ≡ false → ◌≡◌ {A = ℕ} (if i == 0x80 || i == 0x21 then 3 else 0) 0
not_user i h = ground arith

-- After initialize_idt, whatever the table held, a vector has a gate exactly if it is an exception
-- from 0 to 19 other than the reserved 15, the timer, the keyboard, the clock or the system call; and
-- the gates that a program may use itself are those of the system call and of the keyboard.
pub initialize_idt-present :
    (w : Wrappers) (d : ℕ → Gate) (i : ℕ)
    → i < 256
    → ((initialize_idt w d i).present ≡ (
        if ltb i 20 && not (i == 15) || (i == 0x80 || (i == 0x21 || (i == 0x28 || i == 0x20)))
        then 1
        else 0))
      × ((initialize_idt w d i).dpl ≡ (if i == 0x80 || i == 0x21 then 3 else 0))
unfolding initialize_idt
initialize_idt-present w d i byte = elim (Bool-cases (is_device i)) [
  | inl device ↦ device_open w _ i (which_device i device)
  | inr other ↦
      let (a, b, c, e) = not_device i other in
      let gate = other_gate w d i byte a b c e in
      let (present, dpl) = exception_open w i in
      (
        ap (λ (g : Gate). g.present) gate ∙ present ∙ open_other i other,
        ap (λ (g : Gate). g.dpl) gate ∙ dpl ∙ sym (not_user i other),
      )
]

exception_handler :
    (w : Wrappers) (i : ℕ)
    → i < 20
    → i ≢ 15
    → w.exception i < 2 ^ 32
    → (65536 * (exception_gate w i zero_gate).offset_31_16
          + (exception_gate w i zero_gate).offset_15_00
        ≡ w.exception i)
      × ((exception_gate w i zero_gate).reserved3 ≡ 1)
unfolding exception_gate set_exception_params set_fields set_idt_entry
exception_handler w i low usable word =
    rw (eq_false usable, not_last, ltb-true i 20 low) (halves (w.exception i) word, refl)
  where
    not_last : (i == 20) ≡ false
    not_last = ground arith

    halves : (h : ℕ) → h < 2 ^ 32 → 65536 * (h / 65536 % 65536) + h % 65536 ≡ h
    halves h b = omega arith

-- The gate of an exception from 0 to 19 other than 15 is a trap gate that leads to the wrapper of
-- that exception.
pub initialize_idt-handler :
    (w : Wrappers) (d : ℕ → Gate) (i : ℕ)
    → i < 20
    → i ≢ 15
    → w.exception i < 2 ^ 32
    → (65536 * (initialize_idt w d i).offset_31_16 + (initialize_idt w d i).offset_15_00
        ≡ w.exception i)
      × ((initialize_idt w d i).reserved3 ≡ 1)
initialize_idt-handler w d i low usable word =
    let gate =
      other_gate w d i (omega arith) (omega arith) (omega arith) (omega arith) (omega arith) in
    let (offset, trap) = exception_handler w i low usable word in
    (
      ap (λ (g : Gate). 65536 * g.offset_31_16 + g.offset_15_00) gate
          ∙ rw (ltb-true i 21 (omega arith)) offset,
      ap (λ (g : Gate). g.reserved3) gate ∙ rw (ltb-true i 21 (omega arith)) trap,
    )
