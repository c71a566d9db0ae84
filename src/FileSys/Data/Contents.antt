-- ===== src/FileSys/Data/Contents.antt =====
-- What read_data delivers of a file: the slice of its contents that starts at the offset.
use illinix_os.Prelude.{
  ℕ, zero, suc, ◌+◌, ◌-◌, ◌/◌, ◌%◌, ◌^◌, ◌≤◌, ◌<◌, min, ◌≡◌, refl, sym, ap, ◌∙◌, fun_ext, true,
  false, ◌&&◌, arith, ltb, leb, ◌==◌, if◌then◌else◌, update,
}
use illinix_os.Prelude.Word.{sdiv-eq-div, smod-eq-mod, add32-one, sub32-le}
use illinix_os.FileSys.Image.{Image, number_of_data_blocks, length_in_bytes, data_block, data_byte}
use illinix_os.FileSys.Data.{Buffer, read_loop, upperbound, rounds, read_data}

-- The byte at position `p` of the file of this inode.
unfoldable pub file_byte : Image → ℕ → ℕ → ℕ
file_byte img inode p = data_byte img (data_block img inode (p / 4096)) (p % 4096)

-- The inode is sound: its length is a positive `int`, and each of its blocks exists.
pub record IsFile (img : Image) (inode : ℕ) : Type 0 where
  pub size : length_in_bytes img inode < 2 ^ 31
  pub blocks :
      (p : ℕ)
      → p < length_in_bytes img inode
      → data_block img inode (p / 4096) < number_of_data_blocks img

-- The buffer after `n` bytes from position `p` of the file went to the indices from `p - offset` on.
unfoldable pub filled : Image → ℕ → ℕ → ℕ → ℕ → Buffer → Buffer
filled img inode offset n p buf k =
    if leb p (offset + k) && ltb (offset + k) (p + n)
    then file_byte img inode (offset + k)
    else buf k

module _ (img : Image) (inode offset : ℕ) (file : IsFile img inode) where
  filled-zero : (p : ℕ) (buf : Buffer) → filled img inode offset 0 p buf ≡ buf
  unfolding filled
  filled-zero p buf = fun_ext (λ k. ground arith)

  read_loop-zero : (p : ℕ) (buf : Buffer) → read_loop img inode offset 0 p buf ≡ (true, buf)
  unfolding read_loop
  read_loop-zero p buf = refl

  filled-update :
      (n p : ℕ) (buf : Buffer)
      → offset ≤ p
      → filled img inode offset n (suc p) (update buf (p - offset) (file_byte img inode p))
        ≡ filled img inode offset (suc n) p buf
  unfolding filled update
  filled-update n p buf h = fun_ext (λ k. ground arith)

  read_loop-suc :
      (n p : ℕ) (buf : Buffer)
      → offset ≤ p
      → p < length_in_bytes img inode
      → read_loop img inode offset (suc n) p buf
        ≡ read_loop img inode offset n (suc p) (update buf (p - offset) (file_byte img inode p))
  unfolding read_loop file_byte
  read_loop-suc n p buf h w =
      let size = file.size in
      let small : p < 2 ^ 31 = omega arith in
      let block = data_block img inode (p / 4096) in
      let inside : leb (number_of_data_blocks img) block ≡ false =
        ground (arith, file.blocks p w) in
      rw (
        sdiv-eq-div p 4096 small,
        smod-eq-mod p 4096 small,
        inside,
        add32-one p small,
        sub32-le p offset h (omega arith),
      )

  read_loop_lem :
      (n p : ℕ) (buf : Buffer)
      → offset ≤ p
      → p + n ≤ length_in_bytes img inode
      → read_loop img inode offset n p buf ≡ (true, filled img inode offset n p buf)
  read_loop_lem zero p buf h w =
      read_loop-zero p buf ∙ ap (λ b. (true, b)) (sym (filled-zero p buf))
  read_loop_lem (suc n) p buf h w =
      rw (read_loop-suc n p buf h (omega arith), ← filled-update n p buf h)
        (read_loop_lem n (suc p) _ (omega arith) (omega arith))

  upperbound-eq :
      (len : ℕ)
      → offset ≤ length_in_bytes img inode
      → offset + len < 2 ^ 32
      → upperbound img inode offset len ≡ offset + min len (length_in_bytes img inode - offset)
  unfolding upperbound
  upperbound-eq len h w = ground arith

  rounds-eq : (n : ℕ) → offset + n < 2 ^ 31 → rounds offset (offset + n) ≡ n
  unfolding rounds
  rounds-eq n h = ground arith

  -- A read of at least one byte of a sound file, from an offset inside it or at its end, with offset
  -- and length adding up to less than 2 ^ 32, is of the bytes that are left, `len` at most: the call
  -- returns their number, puts them in order at the front of the buffer, and leaves the rest of the
  -- buffer alone.
  pub read_data_lem :
      (buf : Buffer) (len : ℕ)
      → offset ≤ length_in_bytes img inode
      → 0 < len
      → offset + len < 2 ^ 32
      → read_data img inode offset buf len ≡ (
        min len (length_in_bytes img inode - offset),
        filled img inode offset (min len (length_in_bytes img inode - offset)) offset buf,
      )
  unfolding read_data
  read_data_lem buf len h p w =
      let n : ℕ = min len (length_in_bytes img inode - offset) in
      let small : offset + n < 2 ^ 31 = omega (arith, file.size) in
      rw
        (
          upperbound-eq len h w,
          rounds-eq n small,
          read_loop_lem n offset buf (omega arith) (omega arith),
          len-ne-zero,
        )
        (ap (λ m. (m, filled img inode offset n offset buf)) (omega arith))
    where
      len-ne-zero : (len == 0) ≡ false
      len-ne-zero = ground arith
