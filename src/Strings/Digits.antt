-- ===== src/Strings/Digits.antt =====
-- The digits that the loop of itoa places, and how they are read.
use native.Mathlib.Nat.{
  div-lt_iff_lt-mul, mod-add-div, mod-lt, two-pow-succ, mul-le-mul_left, mul_comm,
}
use illinix_os.Prelude.{
  ℕ, zero, suc, ◌+◌, ◌-◌, ◌*◌, ◌/◌, ◌%◌, ◌^◌, ◌≤◌, ◌<◌, ◌≡◌, ◌≢◌, ◌∙◌, refl, sym, ap, ap₂, subst,
  true, false, arith, ltb, ◌==◌, if◌then◌else◌, if_intro, update, update_self, update_ne,
  ℕ_discrete, get_or, ==_iff,
}
use illinix_os.Prelude.Bits.{passes, passes_lem}
use illinix_os.FileSys.Data.{Buffer}
use illinix_os.Strings.{put_digits, lookup}
use illinix_os.Strings.Reverse.{mirrored}

-- The value of a digit, up to Z for 35.
unfoldable pub digit_of : ℕ → ℕ
digit_of c = if ltb c 58 then c - 48 else c - 55

-- The number that the first `n` digits of a string stand for, the highest first.
unfoldable pub read_digits : ℕ → ℕ → Buffer → ℕ
unfolding digit_of
read_digits radix zero s = 0
read_digits radix (suc n) s = read_digits radix n s * radix + digit_of (s n)

-- The same with the lowest digit first, at index `i`.
unfoldable pub lowest_first : ℕ → ℕ → ℕ → Buffer → ℕ
unfolding digit_of
lowest_first radix zero i s = 0
lowest_first radix (suc n) i s = digit_of (s i) + radix * lowest_first radix n (suc i) s

-- The characters 0 to 9, which are 48 to 57, and A to Z, which are 65 to 90.
unfoldable pub digit : ℕ → ℕ
digit d = if ltb d 10 then 48 + d else 55 + d

-- A character that stands for a number below the base.
pub record IsDigit (radix c : ℕ) : Type 0 where
  number : ℕ
  low : number < radix
  shown : c ≡ digit number

pub IsDigit-ne : (radix c : ℕ) → IsDigit radix c → c ≢ 0
unfolding digit
IsDigit-ne radix c v e = ground (arith, v.shown)

pub zero-IsDigit : (radix : ℕ) → 2 ≤ radix → IsDigit radix 48
unfolding digit
zero-IsDigit radix base = record { number = 0; low = omega arith; shown = refl }

check_digits : passes (λ d. get_or lookup d 0 == digit d) 36 ≡ true
unfolding passes digit
check_digits = refl

lookup-digit : (d : ℕ) → d < 36 → get_or lookup d 0 ≡ digit d
lookup-digit d h =
    (==_iff _ _).0 (passes_lem (λ x. get_or lookup x 0 == digit x) 36 d h check_digits)

digit_of-digit : (d : ℕ) → digit_of (digit d) ≡ d
unfolding digit_of digit
digit_of-digit d = ground arith

digit_lem :
    (radix d : ℕ)
    → d < 36
    → d < radix
    → (digit_of (get_or lookup d 0) ≡ d) × IsDigit radix (get_or lookup d 0)
digit_lem radix d h low =
    let shown = lookup-digit d h in
    (ap digit_of shown ∙ digit_of-digit d, record { number = d; low = low; shown = shown })

halved : (n v radix : ℕ) → 2 ≤ radix → v < 2 ^ suc n → v / radix < 2 ^ n
halved n v radix base h =
    (div-lt_iff_lt-mul (omega arith)).1
      (omega (arith, two-pow-succ n, mul-le-mul_left (2 ^ n) base))

-- What the loop of itoa leaves: `count` digits from index `i` on, the last one not 0.
pub record Placed (radix v i : ℕ) (buf : Buffer) (n : ℕ) (r : ℕ × Buffer) : Type 0 where
  pub count : ℕ
  pub end : r.0 ≡ i + count
  pub few : count ≤ n
  pub before : (j : ℕ) → j < i → r.1 j ≡ buf j
  pub digits : (j : ℕ) → i ≤ j → j < i + count → IsDigit radix (r.1 j)
  pub value : lowest_first radix count i r.1 ≡ v
  pub lead : (j : ℕ) → i ≤ j → suc j ≡ i + count → r.1 j ≢ 48

-- If nothing is left above it, the digit of a number other than 0 is not 0.
last-ne : (radix v c : ℕ) → (0 < v) → digit_of c ≡ v % radix → 0 ≡ v / radix → c ≢ 48
unfolding digit_of
last-ne radix v c some_left is_digit none_above e =
    let zero_digit : 0 ≡ v % radix = ap digit_of (sym e) ∙ is_digit in
    let whole = ap₂ (λ a b. a + radix * b) zero_digit none_above ∙ mod-add-div v radix in
    omega (arith, whole)

pub put_digits-Placed :
    (n v radix i : ℕ) (buf : Buffer)
    → 2 ≤ radix
    → radix ≤ 36
    → v < 2 ^ n
    → Placed radix v i buf n (put_digits n v radix i buf)
unfolding put_digits lowest_first
put_digits-Placed zero v radix i buf base top h = record {
  count = 0;
  end = omega arith;
  few = omega arith;
  before = λ j low. refl;
  digits = λ j low high. absurd (omega arith);
  value = omega arith;
  lead = λ j low at. absurd (omega arith);
}
put_digits-Placed (suc n) v radix i buf base top h =
    let c = get_or lookup (v % radix) 0 in
    let w =
      put_digits-Placed n (v / radix) radix (suc i) (update buf i c) base top
        (halved n v radix base h) in
    let below : v % radix < radix = mod-lt v {m = radix} (omega arith) in
    let (is_digit, shown) = digit_lem radix (v % radix) (omega (arith, below)) below in
    let rest = (put_digits n (v / radix) radix (suc i) (update buf i c)).1 in
    let kept = w.before i (omega arith) ∙ update_self buf i c in
    if_intro (Placed radix v i buf (suc n)) (ltb 0 v)
      (λ more. record {
        count = suc w.count;
        end = w.end ∙ omega arith;
        few = omega (arith, w.few);
        before = λ j low. w.before j (omega arith) ∙ update_ne buf i j c (omega arith);
        digits = λ j low high. elim (ℕ_discrete j i) [
          | yes e ↦
              subst (λ x. IsDigit radix (rest x)) (sym e) (subst (IsDigit radix) (sym kept) shown)
          | no ne ↦ w.digits j (omega arith) (omega arith)
        ];
        value =
            ap₂ (λ a b. a + radix * b) (ap digit_of kept ∙ is_digit) w.value ∙ mod-add-div v radix;
        lead = λ j low at e. elim (ℕ_discrete w.count 0) [
          | yes none_above ↦
              let here : j ≡ i = omega (arith, none_above) in
              let above =
                subst (λ m. lowest_first radix m (suc i) rest ≡ v / radix) none_above w.value in
              last-ne radix v c (ground arith) is_digit above (sym kept ∙ (ap rest (sym here) ∙ e))
          | no some_above ↦ w.lead j (omega arith) (omega arith) e
        ];
      })
      (λ none_left. record {
        count = 0;
        end = omega arith;
        few = omega arith;
        before = λ j low. refl;
        digits = λ j low high. absurd (omega arith);
        value = ground arith;
        lead = λ j low at. absurd (omega arith);
      })

pub lowest_first-same :
    (radix n i : ℕ) (s t : Buffer)
    → ((j : ℕ) → j < i + n → s j ≡ t j)
    → lowest_first radix n i s ≡ lowest_first radix n i t
unfolding lowest_first
lowest_first-same radix zero i s t h = refl
lowest_first-same radix (suc n) i s t h =
    ap₂ (λ a b. digit_of a + radix * b) (h i (omega arith))
      (lowest_first-same radix n (suc i) s t (λ j low. h j (omega arith)))

pub mirrored-at : (m len : ℕ) (s : Buffer) → m < len → mirrored 0 len s m ≡ s (len - suc m)
unfolding mirrored
mirrored-at m len s h = grind arith

pub mirrored-end : (len : ℕ) (s : Buffer) → mirrored 0 len s len ≡ s len
unfolding mirrored
mirrored-end len s = grind arith

-- A number other than 0 has digits.
pub some_digits :
    (radix value count : ℕ) (s : Buffer)
    → (value == 0) ≡ false
    → lowest_first radix count 0 s ≡ value
    → 0 < count
unfolding lowest_first
some_digits radix value zero s other e = absurd (ground arith)
some_digits radix value (suc count) s other e = omega arith

-- Reading the reversed string is reading the string from its lowest digit.
pub read-mirrored :
    (radix m i len : ℕ) (s : Buffer)
    → i + m ≡ len
    → read_digits radix m (mirrored 0 len s) ≡ lowest_first radix m i s
unfolding read_digits lowest_first
read-mirrored radix zero i len s e = refl
read-mirrored radix (suc m) i len s e =
    let at : len - suc m ≡ i = omega arith in
    ap₂ (λ a b. a * radix + digit_of b) (read-mirrored radix m (suc i) len s (omega arith))
      (mirrored-at m len s (omega arith) ∙ ap s at)
    ∙ turn (lowest_first radix m (suc i) s) (digit_of (s i))
  where
    turn : (a b : ℕ) → a * radix + b ≡ b + radix * a
    turn a b = grind (arith, mul_comm a radix)
