-- ===== src/Strings/Reverse.antt =====
-- strrev reverses a string in its array.
use illinix_os.Prelude.{
  ℕ, zero, suc, ◌+◌, ◌-◌, ◌^◌, ◌≤◌, ◌<◌, ◌≡◌, ◌≢◌, ◌∙◌, refl, sym, ap, ap₂, subst, eq_false,
  fun_ext, ◌&&◌, arith, ltb, leb, if◌then◌else◌, if_intro, update,
}
use illinix_os.Prelude.Word.{sub32, slt, add32-one, sub32-le}
use illinix_os.FileSys.Dentry.{strlen}
use illinix_os.FileSys.Data.{Buffer}
use illinix_os.Strings.{array_bytes, swap_ends, strrev}

-- The bytes from `lo` up to `hi`, without `hi`, in the opposite order.
unfoldable pub mirrored : ℕ → ℕ → Buffer → Buffer
mirrored lo hi s j = if leb lo j && ltb j hi then s (lo + hi - suc j) else s j

mirrored-step :
    (lo hi : ℕ) (s : Buffer)
    → suc lo < hi
    → mirrored (suc lo) (hi - 1) (update (update s (hi - 1) (s lo)) lo (s (hi - 1)))
      ≡ mirrored lo hi s
unfolding mirrored update
mirrored-step lo hi s h = fun_ext (λ j. grind arith)

mirrored-short : (lo hi : ℕ) (s : Buffer) → hi ≤ suc lo → mirrored lo hi s ≡ s
unfolding mirrored
mirrored-short lo hi s h = fun_ext (λ j. grind arith)

swap_ends-mirrored :
    (n lo hi : ℕ) (s : Buffer)
    → 0 < hi
    → hi < 2 ^ 31
    → hi ≤ lo + n
    → lo < 2 ^ 31
    → swap_ends n lo (hi - 1) s ≡ mirrored lo hi s
unfolding swap_ends
swap_ends-mirrored zero lo hi s pos w room low = sym (mirrored-short lo hi s (omega arith))
swap_ends-mirrored (suc n) lo hi s pos w room low =
    let swapped : Buffer = update (update s (hi - 1) (s lo)) lo (s (hi - 1)) in
    if_intro (λ (t : Buffer). t ≡ mirrored lo hi s) (slt lo (hi - 1))
      (λ test.
        let more : suc lo < hi = ground arith in
        let step : swap_ends n (suc lo) (hi - 1 - 1) swapped ≡ mirrored (suc lo) (hi - 1) swapped =
          swap_ends-mirrored n (suc lo) (hi - 1) swapped (omega arith) (omega arith) (omega arith)
            (omega arith) in
        ap₂ (λ a b. swap_ends n a b swapped) (add32-one lo low)
          (sub32-le (hi - 1) 1 (omega arith) (omega arith))
        ∙ (step ∙ mirrored-step lo hi s more))
      (λ test. sym (mirrored-short lo hi s (ground arith)))

-- A string of `len` bytes in an array of more than `len`.
pub record IsString (size len : ℕ) (s : Buffer) : Type 0 where
  pub room : len < size
  pub small : size < 2 ^ 31
  pub text : (j : ℕ) → j < len → s j ≢ 0
  pub stop : s len ≡ 0

length_from :
    (n i len : ℕ) (s : Buffer)
    → len < n
    → ((j : ℕ) → j < len → s (i + j) ≢ 0)
    → s (i + len) ≡ 0
    → strlen (array_bytes n i s) ≡ len
unfolding strlen array_bytes
length_from zero i len s h text stop = absurd (omega arith)
length_from (suc n) i zero s h text stop =
    let e : i + 0 ≡ i = omega arith in rw (subst (λ k. s k ≡ 0) e stop)
length_from (suc n) i (suc len) s h text stop =
    let e : i + 0 ≡ i = omega arith in
    let first : s i ≢ 0 = subst (λ k. s k ≢ 0) e (text 0 (omega arith)) in
    let next : (j : ℕ) → suc i + j ≡ i + suc j = λ j. omega arith in
    rw (eq_false first) (
      ap suc (
        length_from n (suc i) len s (omega arith)
          (λ j low. subst (λ k. s k ≢ 0) (sym (next j)) (text (suc j) (omega arith)))
          (subst (λ k. s k ≡ 0) (sym (next len)) stop)))

pub strlen-array :
    (size len : ℕ) (s : Buffer) → IsString size len s → strlen (array_bytes size 0 s) ≡ len
strlen-array size len s v =
    let e : (j : ℕ) → j ≡ 0 + j = λ j. omega arith in
    length_from size 0 len s v.room (λ j low. subst (λ k. s k ≢ 0) (e j) (v.text j low))
      (subst (λ k. s k ≡ 0) (e len) v.stop)

swap_ends-empty : (n : ℕ) (s : Buffer) → swap_ends n 0 (sub32 0 1) s ≡ s
unfolding swap_ends
swap_ends-empty zero s = refl
swap_ends-empty (suc n) s = refl

-- The bytes of a string come out in the opposite order; its terminator and what is behind it stay.
pub strrev_lem :
    (size len : ℕ) (s : Buffer) → IsString size len s → strrev size s ≡ mirrored 0 len s
unfolding strrev
strrev_lem size zero s v =
    ap (λ n. swap_ends size 0 (sub32 n 1) s) (strlen-array size 0 s v)
    ∙ (swap_ends-empty size s ∙ sym (mirrored-short 0 0 s (omega arith)))
strrev_lem size (suc len) s v =
    let room = v.room in
    let small = v.small in
    ap (λ n. swap_ends size 0 n s)
      (ap (λ n. sub32 n 1) (strlen-array size (suc len) s v)
        ∙ sub32-le (suc len) 1 (omega arith) (omega (arith, room, small)))
    ∙ swap_ends-mirrored size 0 (suc len) s (omega arith) (omega (arith, room, small))
        (omega (arith, room)) (omega arith)
