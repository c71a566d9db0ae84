-- ===== src/Programs/Counter/Numbers.antt =====
-- counter writes the numbers from 1 on.
use illinix_os.Prelude.{
  ℕ, zero, suc, ◌+◌, ◌<◌, ◌^◌, ◌≡◌, ◌∙◌, refl, ap, sym, List, [], ◌∷◌, ◌++◌, arith, subst,
}
use illinix_os.Prelude.Text.{bytes_of}
use illinix_os.Prelude.Word.{add32}
use illinix_os.FileSys.Dentry.{strlen, char_at}
use illinix_os.FileSys.Data.{Buffer}
use illinix_os.Terminal.{write_chars}
use illinix_os.Strings.{array_bytes}
use illinix_os.Strings.Printing.{Prints, itoa-Prints}
use illinix_os.Kernel.{Kernel}
use illinix_os.Programs.{Run, finished, after, fdputs}
use illinix_os.Programs.Output.{HasOutput, sys_write-output, with_screen-HasOutput}
use illinix_os.Programs.Printing.{write_text, write_text-append}
use illinix_os.Programs.Counter.{ece391_itoa, count_numbers}
use illinix_os.Programs.Counter.Lines.{ece391_itoa-itoa, digits_of, fdputs-Prints}

-- The digits 0 to 9 of a number, the highest first, without zeros in front and without the NUL.
pub record IsDecimal (v : ℕ) (t : List ℕ) : Type 0 where
  pub chars : Buffer
  pub prints : Prints 10 v chars
  pub is : t ≡ array_bytes prints.count 0 chars

-- The numbers from `i + 1` to `i + n`, each on a line.
unfoldable pub AreLines : ℕ → ℕ → List ℕ → Type 0
AreLines zero i t = t ≡ []
AreLines (suc n) i t =
    (line : List ℕ) × (rest : List ℕ) × IsDecimal (i + 1) line
    × AreLines n (i + 1) rest
    × (t ≡ (line ++ 10 ∷ []) ++ rest)

fdputs-newline :
    (k : Kernel) (next : Kernel → Run)
    → HasOutput k
    → fdputs (bytes_of "\n") k next
      ≡ next (record k {
        screen = write_text k.displayed_terminal k.scheduled_terminal (10 ∷ []) k.screen;
      })
unfolding fdputs after write_text strlen write_chars
fdputs-newline k next o =
    ap (λ c. after c (λ ret k'. next k'))
      (sys_write-output k (λ i. char_at (10 ∷ []) i) 1 o (omega arith))

-- With standard output open, the loop of counter ends with the value 0 and has written to the terminal
-- the numbers from `i + 1` to `i + n` in decimal, each with a newline, for numbers below 2 ^ 31.
pub count_numbers-writes :
    (n i : ℕ) (buf : Buffer) (k : Kernel)
    → i + n < 2 ^ 31
    → HasOutput k
    → (k' : Kernel) × (t : List ℕ) × (count_numbers n i buf k ≡ finished 0 k')
      × AreLines n i t
      × (k'.screen ≡ write_text k.displayed_terminal k.scheduled_terminal t k.screen)
unfolding count_numbers AreLines write_text write_chars
count_numbers-writes zero i buf k room o = (k, [], refl, refl, refl)
count_numbers-writes (suc n) i buf k room o =
    let d : ℕ = k.displayed_terminal in
    let s : ℕ = k.scheduled_terminal in
    let next : add32 i 1 ≡ i + 1 = omega arith in
    let digits : Buffer = ece391_itoa (add32 i 1) 1024 buf 10 in
    let p : Prints 10 (i + 1) digits =
      subst (λ v. Prints 10 v digits) next
        (subst (Prints 10 (add32 i 1)) (sym (ece391_itoa-itoa (add32 i 1) 1024 buf 10)) (
          itoa-Prints (add32 i 1) 1024 10 buf (omega arith) (omega arith) (omega arith)
            (omega arith) (omega arith))) in
    let k1 : Kernel = record k { screen = write_text d s (digits_of p) k.screen } in
    let k2 : Kernel = record k1 { screen = write_text d s (10 ∷ []) k1.screen } in
    let o1 : HasOutput k1 = with_screen-HasOutput k _ o in
    let (k', t, ends, lines, screen) =
      count_numbers-writes n (i + 1) digits k2 (omega arith) (with_screen-HasOutput k1 _ o1) in
    (
      k',
      (digits_of p ++ 10 ∷ []) ++ t,
      fdputs-Prints p k _ o
          ∙ (fdputs-newline k1 _ o1 ∙ (ap (λ j. count_numbers n j digits k2) next ∙ ends)),
      (digits_of p, t, record { chars = digits; prints = p; is = refl }, lines, refl),
      screen
          ∙ (ap (write_text d s t) (sym (write_text-append d s (digits_of p) (10 ∷ []) k.screen))
              ∙ sym (write_text-append d s (digits_of p ++ 10 ∷ []) t k.screen)),
    )
