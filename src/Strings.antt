-- ===== src/Strings.antt =====
-- itoa, strrev, strncmp and strncpy of student-distrib/lib.c. A string in an array of `size` bytes is
-- the function from an index to its byte; strings that are only read are lists of bytes, followed by
-- zeros.
pub mod Reverse
pub mod Digits
pub mod Printing
pub mod Compare
pub mod Copying
pub mod Memory
pub mod Moves
pub mod Copies
pub mod Tests
use illinix_os.Prelude.{
  ℕ, zero, suc, ◌+◌, ◌-◌, ◌*◌, ◌/◌, ◌%◌, Bool, true, false, ◌&&◌, ◌||◌, not, List, [], ◌∷◌, get_or,
  ltb, ◌==◌, if◌then◌else◌, update,
}
use illinix_os.Prelude.Text.{bytes_of}
use illinix_os.Prelude.Word.{u32, add32, sub32, slt}
use illinix_os.FileSys.Dentry.{char_at, strlen}
use illinix_os.FileSys.Data.{Buffer}

-- The `n` bytes of an array from index `i` on.
unfoldable pub array_bytes : ℕ → ℕ → Buffer → List ℕ
array_bytes zero i s = []
array_bytes (suc n) i s = s i ∷ array_bytes n (suc i) s

-- The loop of strrev, with `n` rounds left.
unfoldable pub swap_ends : ℕ → ℕ → ℕ → Buffer → Buffer
unfolding update
swap_ends zero beg end s = s
swap_ends (suc n) beg end s =
    let rest =
      swap_ends n (add32 beg 1) (sub32 end 1) (update (update s end (s beg)) beg (s end)) in
    if slt beg end then rest else s

-- `strrev(s)` in an array of `size` bytes.
unfoldable pub strrev : ℕ → Buffer → Buffer
strrev size s = swap_ends size 0 (sub32 (strlen (array_bytes size 0 s)) 1) s

abbrev pub lookup : List ℕ
lookup = bytes_of "0123456789ABCDEFGHIJKLMNOPQRSTUVWXYZ"

-- The loop of itoa, with `n` rounds left at index `i` of the buffer: the index behind the last digit
-- and the buffer.
unfoldable pub put_digits : ℕ → ℕ → ℕ → ℕ → Buffer → ℕ × Buffer
unfolding update
put_digits zero newval radix i buf = (i, buf)
put_digits (suc n) newval radix i buf =
    let rest =
      put_digits n (newval / radix) radix (suc i)
        (update buf i (get_or lookup (newval % radix) 0)) in
    if ltb 0 newval then rest else (i, buf)

-- `itoa(value, buf, radix)`: 32 rounds empty any 32-bit word.
unfoldable pub itoa : ℕ → ℕ → Buffer → ℕ → Buffer
unfolding update
itoa value size buf radix =
    let (end, digits) = put_digits 32 value radix 0 buf in
    if value == 0 then update (update buf 0 48) 1 0 else strrev size (update digits end 0)

-- The loop of strncmp, with `n` rounds left at index `i`. A character is an `int8_t`.
abbrev pub sign_extend : ℕ → ℕ
sign_extend c = if ltb c 128 then c else sub32 c 256

unfoldable pub strncmp_from : ℕ → ℕ → List ℕ → List ℕ → ℕ
strncmp_from zero i s1 s2 = 0
strncmp_from (suc n) i s1 s2 =
    let rest = strncmp_from n (suc i) s1 s2 in
    if not (char_at s1 i == char_at s2 i) || char_at s1 i == 0
    then sub32 (sign_extend (char_at s1 i)) (sign_extend (char_at s2 i))
    else rest

unfoldable pub strncmp : List ℕ → List ℕ → ℕ → ℕ
strncmp s1 s2 n = strncmp_from n 0 s1 s2

-- The two loops of strncpy, with `n` rounds left at index `i`.
unfoldable pub pad : ℕ → ℕ → Buffer → Buffer
unfolding update
pad zero i dest = dest
pad (suc n) i dest = pad n (suc i) (update dest i 0)

unfoldable pub copy_chars : ℕ → ℕ → Buffer → List ℕ → Buffer
unfolding update
copy_chars zero i dest src = dest
copy_chars (suc n) i dest src =
    let rest = copy_chars n (suc i) (update dest i (char_at src i)) src in
    if char_at src i == 0 then pad (suc n) i dest else rest

unfoldable pub strncpy : Buffer → List ℕ → ℕ → Buffer
strncpy dest src n = copy_chars n 0 dest src
