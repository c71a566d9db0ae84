-- ===== src/Strings/Printing.antt =====
-- itoa prints a number so that reading its digits gives the number back.
use illinix_os.Prelude.{
  ℕ, suc, ◌-◌, ◌^◌, ◌≤◌, ◌<◌, ◌≡◌, ◌≢◌, ◌∙◌, refl, sym, subst, false, arith, ◌==◌, if_intro, update,
  update_self, update_ne,
}
use illinix_os.FileSys.Data.{Buffer}
use illinix_os.Strings.{put_digits, itoa, strrev}
use illinix_os.Strings.Reverse.{IsString, strrev_lem}
use illinix_os.Strings.Digits.{
  IsDigit, IsDigit-ne, zero-IsDigit, read_digits, Placed, put_digits-Placed, lowest_first-same,
  mirrored-at, mirrored-end, some_digits, read-mirrored,
}

-- A string of 1 to 32 digits in the base that stand for `v`, without zeros in front.
pub record Prints (radix v : ℕ) (s : Buffer) : Type 0 where
  pub count : ℕ
  some_digit : 0 < count
  pub few : count ≤ 32
  pub text : (j : ℕ) → j < count → IsDigit radix (s j)
  pub stop : s count ≡ 0
  pub value : read_digits radix count s ≡ v
  pub lead : 1 < count → s 0 ≢ 48

zero-Prints :
    (radix value : ℕ) (buf : Buffer)
    → 2 ≤ radix
    → value ≡ 0
    → Prints radix value (update (update buf 0 48) 1 0)
unfolding read_digits update
zero-Prints radix value buf base e = record {
  count = 1;
  some_digit = omega arith;
  few = omega arith;
  text = λ j low.
      let at : j ≡ 0 = omega arith in
      subst (λ i. IsDigit radix (update (update buf 0 48) 1 0 i)) (sym at)
        (zero-IsDigit radix base);
  stop = refl;
  value = omega (arith, e);
  lead = λ h. absurd (omega arith);
}

-- The digits that the loop has placed, reversed.
Placed-Prints :
    (radix value size : ℕ) (buf : Buffer) (r : ℕ × Buffer)
    → (value == 0) ≡ false
    → 32 < size
    → size < 2 ^ 31
    → Placed radix value 0 buf 32 r
    → Prints radix value (strrev size (update r.1 r.0 0))
Placed-Prints radix value size buf r other room small w =
    let s : Buffer = update r.1 r.0 0 in
    let end : r.0 ≡ w.count = w.end ∙ omega arith in
    let few = w.few in
    let same : (j : ℕ) → j < w.count → s j ≡ r.1 j =
      λ j low. update_ne r.1 r.0 j 0 (omega (arith, end)) in
    let string : IsString size w.count s = record {
      room = omega (arith, few);
      small = small;
      text = λ j low e.
          IsDigit-ne radix (r.1 j) (w.digits j (omega arith) (omega arith)) (sym (same j low) ∙ e);
      stop = subst (λ x. s x ≡ 0) end (update_self r.1 r.0 0);
    } in
    subst (Prints radix value) (sym (strrev_lem size w.count s string)) (record {
      count = w.count;
      some_digit = some_digits radix value w.count r.1 other w.value;
      few = w.few;
      text = λ j low.
          let place : ℕ = w.count - suc j in
          subst (IsDigit radix) (sym (mirrored-at j w.count s low ∙ same place (omega arith)))
            (w.digits place (omega arith) (omega arith));
      stop = mirrored-end w.count s ∙ string.stop;
      value =
          read-mirrored radix w.count 0 w.count s (omega arith)
          ∙ (lowest_first-same radix w.count 0 s r.1 (λ j low. same j (omega arith)) ∙ w.value);
      lead = λ many e.
          let place : ℕ = w.count - 1 in
          w.lead place (omega arith) (omega arith)
            (sym (mirrored-at 0 w.count s (omega arith) ∙ same place (omega arith)) ∙ e);
    })

-- For any 32-bit number, any base from 2 to 36 and a buffer of at least 33 bytes, itoa leaves a
-- string of 1 to 32 digits of that base (0 to 9, then A to Z), ended with a NUL and without zeros in
-- front, and reading the digits in that base gives the number.
pub itoa-Prints :
    (value size radix : ℕ) (buf : Buffer)
    → value < 2 ^ 32
    → 2 ≤ radix
    → radix ≤ 36
    → 32 < size
    → size < 2 ^ 31
    → Prints radix value (itoa value size buf radix)
unfolding itoa
itoa-Prints value size radix buf fits base top room small =
    let w = put_digits-Placed 32 value radix 0 buf base top fits in
    let (end, digits) = put_digits 32 value radix 0 buf in
    if_intro (Prints radix value) (value == 0)
      (λ nothing. zero-Prints radix value buf base (ground arith))
      (λ other. Placed-Prints radix value size buf (end, digits) other room small w)
