-- ===== src/Programs/Printing.antt =====
-- A text that is written piece by piece.
use illinix_os.Prelude.{
  ℕ, zero, suc, ◌+◌, ◌<◌, ◌≡◌, ◌∙◌, refl, ap, ap₂, arith, ◌==◌, if◌then◌else◌, sym, List, [], ◌∷◌,
  ◌++◌, length, length-append,
}
use illinix_os.FileSys.Dentry.{char_at}
use illinix_os.FileSys.Data.{Buffer}
use illinix_os.Screen.{Screen, putc}
use illinix_os.Terminal.{write_chars}

-- Only the bytes that are written count.
pub write_chars-same :
    (n i j displayed scheduled : ℕ) (a b : Buffer) (s : Screen)
    → ((k : ℕ) → k < n → a (i + k) ≡ b (j + k))
    → write_chars n i displayed scheduled a s ≡ write_chars n j displayed scheduled b s
unfolding write_chars
write_chars-same zero i j displayed scheduled a b s h = refl
write_chars-same (suc n) i j displayed scheduled a b s h =
    let first : a i ≡ b j = start (h 0 (omega arith)) in
    ap
      (λ c.
        write_chars n (suc i) displayed scheduled a
          (if c == 0 then s else putc displayed scheduled c s))
      first
    ∙ write_chars-same n (suc i) (suc j) displayed scheduled a b _ (λ k low.
      let left : suc i + k ≡ i + suc k = omega arith in
      let right : j + suc k ≡ suc j + k = omega arith in
      ap a left ∙ (h (suc k) (omega arith) ∙ ap b right))
  where
    start : a (i + 0) ≡ b (j + 0) → a i ≡ b j
    start e =
        let left : i ≡ i + 0 = omega arith in
        let right : j + 0 ≡ j = omega arith in ap a left ∙ (e ∙ ap b right)

pub write_chars-append :
    (m n i displayed scheduled : ℕ) (a : Buffer) (s : Screen)
    → write_chars (m + n) i displayed scheduled a s
      ≡ write_chars n (i + m) displayed scheduled a (write_chars m i displayed scheduled a s)
unfolding write_chars
write_chars-append zero n i displayed scheduled a s =
    let count : 0 + n ≡ n = omega arith in
    let at : i ≡ i + 0 = omega arith in
    ap₂ (λ x y. write_chars x y displayed scheduled a s) count at
write_chars-append (suc m) n i displayed scheduled a s =
    let first : Screen = if a i == 0 then s else putc displayed scheduled (a i) s in
    let done : Screen = write_chars m (suc i) displayed scheduled a first in
    let count : suc m + n ≡ suc (m + n) = omega arith in
    let at : suc i + m ≡ i + suc m = omega arith in
    ap (λ x. write_chars x i displayed scheduled a s) count
    ∙ (write_chars-append m n (suc i) displayed scheduled a first
        ∙ ap (λ x. write_chars n x displayed scheduled a done) at)

pub char_at-left : (l r : List ℕ) (j : ℕ) → j < length l → char_at (l ++ r) j ≡ char_at l j
char_at-left [] r j h = absurd (omega arith)
char_at-left (c ∷ l) r zero h = refl
char_at-left (c ∷ l) r (suc j) h = char_at-left l r j (omega arith)

pub char_at-right : (l r : List ℕ) (j : ℕ) → char_at (l ++ r) (length l + j) ≡ char_at r j
char_at-right [] r j = ap (char_at r) (omega arith)
char_at-right (c ∷ l) r j =
    let index : length (c ∷ l) + j ≡ suc (length l + j) = omega arith in
    ap (char_at (c ∷ l ++ r)) index ∙ char_at-right l r j

-- What a list of characters puts on the screen.
unfoldable pub write_text : ℕ → ℕ → List ℕ → Screen → Screen
unfolding write_chars
write_text displayed scheduled s = write_chars (length s) 0 displayed scheduled (char_at s)

-- One text after another.
pub write_text-append :
    (displayed scheduled : ℕ) (l r : List ℕ) (s : Screen)
    → write_text displayed scheduled (l ++ r) s
      ≡ write_text displayed scheduled r (write_text displayed scheduled l s)
unfolding write_text
write_text-append displayed scheduled l r s =
    let count : length (l ++ r) ≡ length l + length r = length-append l r in
    let first : Screen = write_chars (length l) 0 displayed scheduled (char_at (l ++ r)) s in
    ap (λ n. write_chars n 0 displayed scheduled (char_at (l ++ r)) s) count
    ∙ (write_chars-append (length l) (length r) 0 displayed scheduled (char_at (l ++ r)) s
        ∙ (write_chars-same (length r) (0 + length l) 0 displayed scheduled (char_at (l ++ r))
              (char_at r) first
              (λ k h.
                let at : 0 + length l + k ≡ length l + k = omega arith in
                let to : 0 + k ≡ k = omega arith in
                ap (char_at (l ++ r)) at ∙ (char_at-right l r k ∙ ap (char_at r) (sym to)))
            ∙ ap (write_chars (length r) 0 displayed scheduled (char_at r)) (
                write_chars-same (length l) 0 0 displayed scheduled (char_at (l ++ r)) (char_at l) s
                  (λ k h.
                    let at : 0 + k ≡ k = omega arith in
                    ap (char_at (l ++ r)) at ∙ (char_at-left l r k h ∙ ap (char_at l) (sym at))))))
