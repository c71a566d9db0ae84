-- ===== src/Strings/Copying.antt =====
-- strncpy copies a string and fills up with zeros.
use illinix_os.Prelude.{
  ℕ, zero, suc, ◌+◌, ◌-◌, ◌≤◌, ◌<◌, ◌≡◌, ◌≢◌, ◌∙◌, refl, sym, ap, subst, false, ◌&&◌, List, arith,
  ltb, leb, ◌==◌, if◌then◌else◌, if_intro, update, update_self, update_ne,
}
use illinix_os.FileSys.Dentry.{char_at}
use illinix_os.FileSys.Data.{Buffer}
use illinix_os.Strings.{pad, copy_chars, strncpy}

pad-at :
    (n i : ℕ) (dest : Buffer) (j : ℕ)
    → pad n i dest j ≡ (if leb i j && ltb j (i + n) then 0 else dest j)
unfolding pad update
pad-at zero i dest j = ground arith
pad-at (suc n) i dest j = ground (arith, pad-at n (suc i) (update dest i 0) j)

copy_chars-off :
    (n i : ℕ) (src : List ℕ) (dest : Buffer) (j : ℕ)
    → (leb i j && ltb j (i + n)) ≡ false
    → copy_chars n i dest src j ≡ dest j
unfolding copy_chars
copy_chars-off zero i src dest j h = refl
copy_chars-off (suc n) i src dest j h =
    if_intro (λ (b : Buffer). b j ≡ dest j) (char_at src i == 0)
      (λ _. ground (arith, pad-at (suc n) i dest j))
      (λ _.
        copy_chars-off n (suc i) src _ j (ground arith)
        ∙ update_ne dest i j (char_at src i) (ground arith))

copy_chars-text :
    (n i : ℕ) (src : List ℕ) (dest : Buffer) (d : ℕ)
    → d < n
    → ((k : ℕ) → k < d → char_at src (i + k) ≢ 0)
    → copy_chars n i dest src (i + d) ≡ char_at src (i + d)
unfolding copy_chars
copy_chars-text zero i src dest d h before = absurd (omega arith)
copy_chars-text (suc n) i src dest zero h before =
    let start : i ≡ i + 0 = omega arith in
    subst (λ x. copy_chars (suc n) i dest src x ≡ char_at src x) start
      (if_intro (λ (b : Buffer). b i ≡ char_at src i) (char_at src i == 0)
        (λ stop. pad-at (suc n) i dest i ∙ ground arith)
        (λ _. copy_chars-off n (suc i) src _ i (ground arith) ∙ update_self dest i (char_at src i)))
copy_chars-text (suc n) i src dest (suc d) h before =
    let at : (k : ℕ) → suc i + k ≡ i + suc k = λ k. omega arith in
    let start : i ≡ i + 0 = omega arith in
    let first : char_at src i ≢ 0 =
      λ e. before 0 (omega arith) (ap (char_at src) (sym start) ∙ e) in
    if_intro (λ (b : Buffer). b (i + suc d) ≡ char_at src (i + suc d)) (char_at src i == 0)
      (λ stop. absurd (ground (arith, first)))
      (λ _.
        subst (λ x. copy_chars n (suc i) (update dest i (char_at src i)) src x ≡ char_at src x)
          (at d)
          (copy_chars-text n (suc i) src _ d (omega arith)
            (λ k few e. before (suc k) (omega arith) (ap (char_at src) (sym (at k)) ∙ e))))

copy_chars-zeros :
    (n i : ℕ) (src : List ℕ) (dest : Buffer) (k d : ℕ)
    → k ≤ d
    → d < n
    → char_at src (i + k) ≡ 0
    → copy_chars n i dest src (i + d) ≡ 0
unfolding copy_chars
copy_chars-zeros zero i src dest k d h low nul = absurd (omega arith)
copy_chars-zeros (suc n) i src dest k d h low nul =
    if_intro (λ (b : Buffer). b (i + d) ≡ 0) (char_at src i == 0)
      (λ _. pad-at (suc n) i dest (i + d) ∙ ground arith)
      (λ test.
        let first : char_at src i ≢ 0 = λ e. absurd (ground arith) in
        let start : i ≡ i + 0 = omega arith in
        let later : k ≢ 0 =
          λ e. first (ap (char_at src) start ∙ subst (λ x. char_at src (i + x) ≡ 0) e nul) in
        let at : suc i + (k - 1) ≡ i + k = omega (arith, later) in
        let to : suc i + (d - 1) ≡ i + d = omega (arith, later) in
        subst (λ x. copy_chars n (suc i) (update dest i (char_at src i)) src x ≡ 0) to
          (copy_chars-zeros n (suc i) src _ (k - 1) (d - 1) (omega arith) (omega (arith, later))
            (ap (char_at src) at ∙ nul)))

-- strncpy sets the first `n` bytes and no other: they are the characters of the source up to its
-- first NUL, and zeros from there on.
pub strncpy_lem :
    (dest : Buffer) (src : List ℕ) (n j : ℕ)
    → (n ≤ j → strncpy dest src n j ≡ dest j)
      × (j < n → ((k : ℕ) → k < j → char_at src k ≢ 0) → strncpy dest src n j ≡ char_at src j)
      × (j < n → (k : ℕ) → k ≤ j → char_at src k ≡ 0 → strncpy dest src n j ≡ 0)
unfolding strncpy
strncpy_lem dest src n j =
    let to : 0 + j ≡ j = omega arith in
    (
      λ h. copy_chars-off n 0 src dest j (ground arith),
      λ h before.
          subst (λ x. copy_chars n 0 dest src x ≡ char_at src x) to
            (copy_chars-text n 0 src dest j h (λ k few e.
              let at : k ≡ 0 + k = omega arith in before k few (ap (char_at src) at ∙ e))),
      λ h k few nul.
          let at : 0 + k ≡ k = omega arith in
          subst (λ x. copy_chars n 0 dest src x ≡ 0) to
            (copy_chars-zeros n 0 src dest k j few h (ap (char_at src) at ∙ nul)),
    )
