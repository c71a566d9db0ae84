-- ===== src/Strings/Tests.antt =====
-- Small strings and numbers.
use illinix_os.Prelude.{
  zero, suc, ◌+◌, ◌-◌, ◌%◌, ◌&&◌, ◌≡◌, refl, inl, arith, if◌then◌else◌, ltb, leb, update,
}
use illinix_os.Prelude.Text.{bytes_of}
use illinix_os.FileSys.Data.{Buffer}
use illinix_os.FileSys.Dentry.{strlen}
use illinix_os.Strings.{array_bytes, swap_ends, put_digits, strrev, itoa}
use illinix_os.Strings.Memory.{
  Memory, store16, store32, load32, movsb, movsl, memcpy_aligned, memcpy_top, memset, memcpy,
  memmove,
}
use illinix_os.Strings.Moves.{memset_lem, memmove_lem}
use illinix_os.Strings.Copies.{memcpy_lem}
use illinix_os.Strings.Printing.{Prints, itoa-Prints}
use illinix_os.Strings.Compare.{IsBytes}

-- "aaa"
abbrev word : Buffer
word i = if ltb i 3 then 97 else 0

itoa-Prints_example : Prints 10 391 (itoa 391 36 word 10)
itoa-Prints_example =
    itoa-Prints 391 36 10 word (omega arith) (omega arith) (omega arith) (omega arith) (omega arith)

-- The digit of 7.
itoa_seven : itoa 7 36 word 10 0 ≡ 55
unfolding itoa strrev swap_ends strlen array_bytes put_digits
itoa_seven = refl

cat-IsBytes : IsBytes (bytes_of "cat")
cat-IsBytes zero = omega arith
cat-IsBytes (suc zero) = omega arith
cat-IsBytes (suc (suc zero)) = omega arith
cat-IsBytes (suc (suc (suc i))) = omega arith

-- Bytes that count up from 0.
abbrev counting : Memory
counting i = i % 256

-- Five bytes move up by two: the ranges overlap.
memmove_lem_example :
    memmove 102 100 5 counting 106
    ≡ (if leb 102 106 && ltb 106 (102 + 5) then counting (100 + (106 - 102)) else counting 106)
memmove_lem_example = memmove_lem 102 100 5 counting 106 (omega arith) (omega arith)

-- Eleven bytes move down by three, from a place that is not a multiple of 4.
memcpy_lem_example :
    memcpy 101 104 11 counting 110
    ≡ (if leb 101 110 && ltb 110 (101 + 11) then counting (104 + (110 - 101)) else counting 110)
memcpy_lem_example =
    memcpy_lem 101 104 11 counting 110 (λ i. omega arith) (omega arith) (omega arith)
      (inl (omega arith))

memset_lem_example :
    memset 101 300 11 counting 110
    ≡ (if leb 101 110 && ltb 110 (101 + 11) then 300 % 256 else counting 110)
memset_lem_example = memset_lem 101 300 11 counting 110 (omega arith)

-- memcpy moves the bytes upwards, so where the ranges overlap the other way it differs from memmove.
memcpy_overlapping : memcpy 2 0 4 counting 5 ≡ 1
unfolding memcpy memcpy_top memcpy_aligned movsl movsb store32 store16 load32 update
memcpy_overlapping = refl
