-- ===== src/Screen/Print.antt =====
-- puts and printf of student-distrib/lib.c.
use illinix_os.Prelude.{
  ℕ, suc, ◌+◌, ◌-◌, ◌%◌, ◌≡◌, refl, Bool, true, false, ◌||◌, List, [], ◌∷◌, arith, ltb, ◌==◌,
  if◌then◌else◌, fill, Bool-cases, inl, inr,
}
use illinix_os.Prelude.Word.{sign_bit, sub32}
use illinix_os.FileSys.Dentry.{strlen}
use illinix_os.FileSys.Data.{Buffer}
use illinix_os.Strings.{array_bytes, itoa}
use illinix_os.Screen.{Screen, putc}

-- The displayed terminal, and the one that prints.
module _ (displayed scheduled : ℕ) where
  -- How many characters were printed, and the screen.
  unfoldable pub puts : List ℕ → Screen → ℕ × Screen
  puts [] s = (0, s)
  puts (c ∷ rest) s =
      let (n, s') = puts rest (putc displayed scheduled c s) in
      if c == 0 then (0, s) else (suc n, s')

-- The local `conv_buf`. What is printed of it has been set before.
abbrev pub conv_buf : Buffer
conv_buf i = 0

-- What `%x` prints.
unfoldable pub hex : ℕ → List ℕ
hex v = array_bytes 64 0 (itoa v 64 conv_buf 16)

-- What `%#x` prints: the digits from index 8 on, with zeros in front of them.
unfoldable pub padded_hex : ℕ → List ℕ
padded_hex v =
    let digits = itoa v 56 (λ i. conv_buf (8 + i)) 16 in
    let starting_index = strlen (array_bytes 56 0 digits) in
    let whole : Buffer = λ i. if ltb i 8 then conv_buf i else digits (i - 8) in
    array_bytes (64 - starting_index) starting_index
      (fill (8 - starting_index) starting_index 48 whole)

-- What `%u` and `%d` print.
unfoldable pub unsigned : ℕ → List ℕ
unsigned v = array_bytes 36 0 (itoa v 36 conv_buf 10)

unfoldable pub signed : ℕ → List ℕ
unfolding unsigned
signed v =
    if ltb v sign_bit
    then unsigned v
    else 45 ∷ array_bytes 35 0 (itoa (sub32 0 v) 35 (λ i. conv_buf (1 + i)) 10)

-- Whether a conversion takes a word from the stack: `%x`, `%u`, `%d`, `%c` and `%s`.
unfoldable pub takes_word : ℕ → Bool
takes_word c = c == 120 || (c == 117 || (c == 100 || (c == 99 || c == 115)))

-- `strings` has the string at each address, and `args` the words on the stack.
module _ (displayed scheduled : ℕ) (strings : ℕ → List ℕ) (args : ℕ → ℕ) where
  -- One conversion of the character `c`, with the next word of the stack.
  unfoldable pub convert : Bool → ℕ → ℕ → Screen → Screen
  convert alternate c w s =
      if c == 37
      then putc displayed scheduled 37 s
      else if c == 120
      then (puts displayed scheduled (if alternate then padded_hex w else hex w) s).1
      else if c == 117
      then (puts displayed scheduled (unsigned w) s).1
      else if c == 100
      then (puts displayed scheduled (signed w) s).1
      else if c == 99
      then putc displayed scheduled (w % 256) s
      else if c == 115
      then (puts displayed scheduled (strings w) s).1
      else s

  unfoldable mutual
    -- The loop over the format, with `esp` words of the stack taken.
    pub print_from : List ℕ → ℕ → Screen → ℕ × Screen
    print_from [] esp s = (0, s)
    print_from (c ∷ format) esp s =
        let (n, s1) = print_from format esp (putc displayed scheduled c s) in
        let (m, s2) = print_conversion format false esp s in
        if c == 0 then (0, s) else if c == 37 then (suc m, s2) else (suc n, s1)

    -- The same behind a `%`; a format that ends here is read on past its end, which the model ends.
    pub print_conversion : List ℕ → Bool → ℕ → Screen → ℕ × Screen
    print_conversion [] alternate esp s = (0, s)
    print_conversion (c ∷ format) alternate esp s =
        let (n, s1) = print_conversion format true esp s in
        let next = if takes_word c then suc esp else esp in
        let (m, s2) = print_from format next (convert alternate c (args esp) s) in
        if c == 35 then (suc n, s1) else (suc m, s2)

  -- The number of bytes of the format, and the screen.
  unfoldable pub printf : List ℕ → Screen → ℕ × Screen
  printf format s = print_from format 0 s

-- Whether a conversion begins somewhere in a format.
unfoldable pub has_percent : List ℕ → Bool
has_percent [] = false
has_percent (c ∷ format) = c == 37 || has_percent format

print_from-puts :
    (displayed scheduled : ℕ) (strings : ℕ → List ℕ) (args : ℕ → ℕ) (format : List ℕ) (esp : ℕ)
    (s : Screen)
    → has_percent format ≡ false
    → print_from displayed scheduled strings args format esp s ≡ puts displayed scheduled format s
unfolding print_from puts has_percent
print_from-puts displayed scheduled strings args [] esp s h = refl
print_from-puts displayed scheduled strings args (c ∷ format) esp s h =
    let plain : (c == 37) ≡ false = ground arith in
    let ih =
      print_from-puts displayed scheduled strings args format esp (putc displayed scheduled c s)
        (ground arith) in
    elim (Bool-cases (c == 0)) [ inl stop ↦ rw stop refl | inr more ↦ rw (more, plain, ih) refl ]

-- A format without `%` is printed like a string: with the same effect on the screen and the same
-- count of characters.
pub printf-puts :
    (displayed scheduled : ℕ) (strings : ℕ → List ℕ) (args : ℕ → ℕ) (format : List ℕ) (s : Screen)
    → has_percent format ≡ false
    → printf displayed scheduled strings args format s ≡ puts displayed scheduled format s
unfolding printf
printf-puts displayed scheduled strings args format s h =
    print_from-puts displayed scheduled strings args format 0 s h
