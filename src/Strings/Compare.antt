-- ===== src/Strings/Compare.antt =====
-- strncmp tests for equal strings.
use illinix_os.Prelude.{
  ℕ, zero, suc, ◌+◌, ◌-◌, ◌<◌, ◌≡◌, ◌≢◌, ◌∙◌, ◌↔◌, refl, sym, ap, subst, Bool, true, false, ◌||◌,
  not, List, arith, ◌==◌, if◌then◌else◌, if_intro, ℕ_discrete, ◌⊎◌, inl, inr,
}
use illinix_os.Prelude.Word.{sub32}
use illinix_os.FileSys.Dentry.{char_at}
use illinix_os.Strings.{sign_extend, strncmp_from, strncmp}

-- The `n` characters from index `i` on form the same string: they agree up to the first NUL.
pub Agree : ℕ → ℕ → List ℕ → List ℕ → Type 0
Agree i n s1 s2 =
    (j : ℕ)
    → j < n
    → ((k : ℕ) → k < j → char_at s1 (i + k) ≢ 0)
    → char_at s1 (i + j) ≡ char_at s2 (i + j)

abbrev pub IsBytes : List ℕ → Type 0
IsBytes s = (i : ℕ) → char_at s i < 256

differ_lem : (a b : ℕ) → a < 256 → b < 256 → sub32 (sign_extend a) (sign_extend b) ≡ 0 → a ≡ b
differ_lem a b p q h = ground arith

same_lem : (a b : ℕ) → a < 256 → a ≡ b → sub32 (sign_extend a) (sign_extend b) ≡ 0
same_lem a b p h = ground arith

either_zero :
    (b : Bool) (x y : ℕ)
    → (if b then x else y) ≡ 0
    → ((b ≡ true) × (x ≡ 0)) ⊎ ((b ≡ false) × (y ≡ 0))
either_zero true x y h = inl (refl, h)
either_zero false x y h = inr (refl, h)

stops : (a b : ℕ) → (not (a == b) || a == 0) ≡ true → a ≡ b → a ≡ 0
stops a b h e = ground arith

goes_on : (a b : ℕ) → (not (a == b) || a == 0) ≡ false → (a ≡ b) × (a ≢ 0)
goes_on a b h = (ground arith, ground arith)

Agree-rest :
    (i n : ℕ) (s1 s2 : List ℕ) → Agree i (suc n) s1 s2 → char_at s1 i ≢ 0 → Agree (suc i) n s1 s2
unfolding Agree
Agree-rest i n s1 s2 h first j low before =
    let at : (k : ℕ) → i + suc k ≡ suc i + k = λ k. omega arith in
    let start : i + 0 ≡ i = omega arith in
    let nul_free : (k : ℕ) → k < suc j → char_at s1 (i + k) ≢ 0 = λ k few e. elim (ℕ_discrete k 0) [
      | yes z ↦ first (ap (char_at s1) (sym start) ∙ subst (λ x. char_at s1 (i + x) ≡ 0) z e)
      | no more ↦
          let back : suc i + (k - 1) ≡ i + k = omega arith in
          before (k - 1) (omega arith) (ap (char_at s1) back ∙ e)
    ] in
    ap (char_at s1) (sym (at j)) ∙ (h (suc j) (omega arith) nul_free ∙ ap (char_at s2) (at j))

rest-Agree :
    (i n : ℕ) (s1 s2 : List ℕ)
    → char_at s1 i ≡ char_at s2 i
    → (char_at s1 i ≢ 0 → Agree (suc i) n s1 s2)
    → Agree i (suc n) s1 s2
unfolding Agree
rest-Agree i n s1 s2 same rest zero low before =
    let start : i + 0 ≡ i = omega arith in
    ap (char_at s1) start ∙ (same ∙ ap (char_at s2) (sym start))
rest-Agree i n s1 s2 same rest (suc j) low before =
    let at : (k : ℕ) → suc i + k ≡ i + suc k = λ k. omega arith in
    let start : i ≡ i + 0 = omega arith in
    ap (char_at s1) (sym (at j))
    ∙ (rest (λ e. before 0 (omega arith) (ap (char_at s1) (sym start) ∙ e)) j (omega arith)
          (λ k few e. before (suc k) (omega arith) (ap (char_at s1) (sym (at k)) ∙ e))
        ∙ ap (char_at s2) (at j))

Agree-first : (i n : ℕ) (s1 s2 : List ℕ) → Agree i (suc n) s1 s2 → char_at s1 i ≡ char_at s2 i
unfolding Agree
Agree-first i n s1 s2 h =
    let start : i + 0 ≡ i = omega arith in
    ap (char_at s1) (sym start)
    ∙ (h 0 (omega arith) (λ k few. absurd (omega arith)) ∙ ap (char_at s2) start)

Agree-none : (i : ℕ) (s1 s2 : List ℕ) → Agree i 0 s1 s2
unfolding Agree
Agree-none i s1 s2 j low before = absurd (omega arith)

module _ (s1 s2 : List ℕ) (v : IsBytes s1) (w : IsBytes s2) where
  zero-Agree : (n i : ℕ) → strncmp_from n i s1 s2 ≡ 0 → Agree i n s1 s2
  unfolding strncmp_from
  zero-Agree zero i h = Agree-none i s1 s2
  zero-Agree (suc n) i h =
      let a = char_at s1 i in
      let b = char_at s2 i in
      elim (either_zero (not (a == b) || a == 0) _ (strncmp_from n (suc i) s1 s2) h) [
        | inl (test, e) ↦
            let same : a ≡ b = differ_lem a b (v i) (w i) e in
            rest-Agree i n s1 s2 same (λ more. absurd (more (stops a b test same)))
        | inr (test, e) ↦ rest-Agree i n s1 s2 (goes_on a b test).0 (λ _. zero-Agree n (suc i) e)
      ]

  Agree-zero : (n i : ℕ) → Agree i n s1 s2 → strncmp_from n i s1 s2 ≡ 0
  unfolding strncmp_from
  Agree-zero zero i h = refl
  Agree-zero (suc n) i h =
      let a = char_at s1 i in
      let b = char_at s2 i in
      let same : a ≡ b = Agree-first i n s1 s2 h in
      if_intro (λ (r : ℕ). r ≡ 0) (not (a == b) || a == 0) (λ _. same_lem a b (v i) same)
        (λ test. Agree-zero n (suc i) (Agree-rest i n s1 s2 h (goes_on a b test).1))

-- strncmp returns 0 exactly if the first `n` characters of two strings of bytes agree up to the first
-- NUL.
pub strncmp_zero_iff :
    (s1 s2 : List ℕ) (n : ℕ) → IsBytes s1 → IsBytes s2 → (strncmp s1 s2 n ≡ 0) ↔ Agree 0 n s1 s2
unfolding strncmp
strncmp_zero_iff s1 s2 n v w = (zero-Agree s1 s2 v w n 0, Agree-zero s1 s2 v w n 0)
