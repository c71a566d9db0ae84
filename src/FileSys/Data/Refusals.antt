-- ===== src/FileSys/Data/Refusals.antt =====
-- Where read_data delivers nothing.
use illinix_os.Prelude.{
  ℕ, zero, suc, ◌+◌, ◌-◌, ◌/◌, ◌^◌, ◌≤◌, ◌<◌, min, ◌≡◌, refl, true, false, arith, leb, ◌==◌,
}
use illinix_os.Prelude.Word.{failure, sub32, sdiv-eq-div}
use illinix_os.FileSys.Image.{Image, number_of_data_blocks, length_in_bytes, data_block}
use illinix_os.FileSys.Data.{Buffer, read_loop, upperbound, rounds, read_data}

upperbound-le :
    (img : Image) (inode offset len : ℕ)
    → offset + len < 2 ^ 32
    → upperbound img inode offset len ≡ min (length_in_bytes img inode) (offset + len)
unfolding upperbound
upperbound-le img inode offset len w = ground arith

rounds-sub : (a b : ℕ) → a < 2 ^ 31 → b < 2 ^ 31 → rounds a b ≡ b - a
unfolding rounds
rounds-sub a b p q = ground arith

read_loop-bad :
    (img : Image) (inode offset n : ℕ) (buf : Buffer)
    → offset < 2 ^ 31
    → 0 < n
    → number_of_data_blocks img ≤ data_block img inode (offset / 4096)
    → read_loop img inode offset n offset buf ≡ (false, buf)
unfolding read_loop
read_loop-bad img inode offset zero buf w p bad = absurd (omega arith)
read_loop-bad img inode offset (suc n) buf w p bad = rw (sdiv-eq-div offset 4096 w, outside)
  where
    outside : leb (number_of_data_blocks img) (data_block img inode (offset / 4096)) ≡ true
    outside = ground arith

-- A length of 0 is refused whatever the file, and a slice of a file whose first block number is out
-- of range is refused with the buffer as it was.
pub read_data_refuses :
    (img : Image) (inode offset : ℕ) (buf : Buffer) (len : ℕ)
    → offset < length_in_bytes img inode
    → length_in_bytes img inode < 2 ^ 31
    → 0 < len
    → offset + len < 2 ^ 32
    → number_of_data_blocks img ≤ data_block img inode (offset / 4096)
    → (read_data img inode offset buf 0 ≡ (failure, buf))
      × (read_data img inode offset buf len ≡ (failure, buf))
unfolding read_data
read_data_refuses img inode offset buf len inside size pos w bad = (
  refl,
  rw (
    upperbound-le img inode offset len w,
    rounds-sub offset (min (length_in_bytes img inode) (offset + len)) (omega arith) (omega arith),
    read_loop-bad img inode offset (min (length_in_bytes img inode) (offset + len) - offset) buf
        (omega arith) (omega arith) bad,
    nonzero,
  ),
)
  where
    nonzero : (len == 0) ≡ false
    nonzero = ground arith

-- From an offset past the end of the file nothing is read, and the result is the size less the
-- offset, a negative `int`.
pub read_data_past_end :
    (img : Image) (inode offset : ℕ) (buf : Buffer) (len : ℕ)
    → length_in_bytes img inode < offset
    → 0 < len
    → offset + len < 2 ^ 31
    → read_data img inode offset buf len ≡ (sub32 (length_in_bytes img inode) offset, buf)
unfolding read_data read_loop
read_data_past_end img inode offset buf len past pos w = rw (
  upperbound-le img inode offset len (omega arith),
  short,
  rounds-sub offset (length_in_bytes img inode) (omega arith) (omega arith),
  none_left,
  nonzero,
)
  where
    short : min (length_in_bytes img inode) (offset + len) ≡ length_in_bytes img inode
    short = omega arith

    none_left : length_in_bytes img inode - offset ≡ 0
    none_left = omega arith

    nonzero : (len == 0) ≡ false
    nonzero = ground arith
