-- ===== src/Programs/Counter/Lines.antt =====
-- A string in an array as a list, and what ece391_fdputs writes of it.
use illinix_os.Prelude.{
  ℕ, zero, suc, ◌+◌, ◌<◌, ◌≡◌, ◌∙◌, refl, ap, sym, List, length, arith, ◌==◌, if◌then◌else◌,
  if_intro, update, false,
}
use illinix_os.Prelude.Word.{sub32, slt}
use illinix_os.FileSys.Dentry.{char_at, strlen}
use illinix_os.FileSys.Data.{Buffer}
use illinix_os.Terminal.{write_chars}
use illinix_os.Strings.{array_bytes, swap_ends, strrev, itoa, put_digits}
use illinix_os.Strings.Reverse.{IsString, strlen-array}
use illinix_os.Strings.Digits.{IsDigit-ne}
use illinix_os.Strings.Printing.{Prints}
use illinix_os.Kernel.{Kernel}
use illinix_os.Programs.{Run, after, fdputs}
use illinix_os.Programs.Output.{HasOutput, sys_write-output}
use illinix_os.Programs.Printing.{write_chars-same, write_text}
use illinix_os.Programs.Counter.{ece391_strrev, ece391_itoa}

swap_ends-stops : (n end : ℕ) (s : Buffer) → slt 0 end ≡ false → swap_ends n 0 end s ≡ s
unfolding swap_ends
swap_ends-stops zero end s h = refl
swap_ends-stops (suc n) end s h = rw h refl

ece391_strrev-strrev : (size : ℕ) (s : Buffer) → ece391_strrev size s ≡ strrev size s
unfolding ece391_strrev strrev
ece391_strrev-strrev size s =
    let end : ℕ = sub32 (strlen (array_bytes size 0 s)) 1 in
    if_intro (λ (t : Buffer). t ≡ swap_ends size 0 end s) (slt 0 end) (λ _. refl)
      (λ h. sym (swap_ends-stops size end s h))

-- The programs' itoa is the kernel's.
pub ece391_itoa-itoa :
    (value size : ℕ) (buf : Buffer) (radix : ℕ)
    → ece391_itoa value size buf radix ≡ itoa value size buf radix
unfolding ece391_itoa itoa
ece391_itoa-itoa value size buf radix =
    let (end, digits) = put_digits 32 value radix 0 buf in
    ap (λ (t : Buffer). if value == 0 then update (update buf 0 48) 1 0 else t)
      (ece391_strrev-strrev size (update digits end 0))

length-array_bytes : (n i : ℕ) (s : Buffer) → length (array_bytes n i s) ≡ n
unfolding array_bytes
length-array_bytes zero i s = refl
length-array_bytes (suc n) i s = ap suc (length-array_bytes n (suc i) s)

char_at-array_bytes :
    (n i : ℕ) (s : Buffer) (j : ℕ) → j < n → char_at (array_bytes n i s) j ≡ s (i + j)
unfolding array_bytes
char_at-array_bytes zero i s j h = absurd (omega arith)
char_at-array_bytes (suc n) i s zero h = ap s (omega arith)
char_at-array_bytes (suc n) i s (suc j) h =
    char_at-array_bytes n (suc i) s j (omega arith) ∙ ap s (omega arith)

-- The digits of a printed number.
abbrev pub digits_of : {v : ℕ} {s : Buffer} → Prints 10 v s → List ℕ
digits_of {v} {s} p = array_bytes p.count 0 s

-- ece391_fdputs writes the digits of a number that stands in an array of 1024 bytes.
pub fdputs-Prints :
    {v : ℕ} {s : Buffer} (p : Prints 10 v s) (k : Kernel) (next : Kernel → Run)
    → HasOutput k
    → fdputs (array_bytes 1024 0 s) k next
      ≡ next (record k {
        screen = write_text k.displayed_terminal k.scheduled_terminal (digits_of p) k.screen;
      })
unfolding fdputs after write_text
fdputs-Prints {v} {s} p k next o =
    let few = p.few in
    let d : ℕ = k.displayed_terminal in
    let t : ℕ = k.scheduled_terminal in
    let string : IsString 1024 p.count s = record {
      room = omega (arith, few);
      small = omega arith;
      text = λ j h. IsDigit-ne 10 (s j) (p.text j h);
      stop = p.stop;
    } in
    let size : strlen (array_bytes 1024 0 s) ≡ p.count = strlen-array 1024 p.count s string in
    let all : Buffer = λ i. char_at (array_bytes 1024 0 s) i in
    let writes =
      sys_write-output k all (strlen (array_bytes 1024 0 s)) o (omega (arith, size, few)) in
    let same : write_chars (strlen (array_bytes 1024 0 s)) 0 d t all k.screen
        ≡ write_chars (length (digits_of p)) 0 d t (char_at (digits_of p)) k.screen =
      ap (λ n. write_chars n 0 d t all k.screen) size
      ∙ (write_chars-same p.count 0 0 d t all (char_at (digits_of p)) k.screen (λ j h.
            let at : 0 + j < 1024 = omega (arith, few) in
            char_at-array_bytes 1024 0 s (0 + j) at
            ∙ sym (char_at-array_bytes p.count 0 s (0 + j) (omega (arith, h))))
          ∙ ap (λ n. write_chars n 0 d t (char_at (digits_of p)) k.screen)
              (sym (length-array_bytes p.count 0 s))) in
    ap (λ c. after c (λ ret k'. next k')) writes ∙ ap (λ w. next (record k { screen = w })) same
