-- ===== src/FileSys/Data.antt =====
-- read_data of student-distrib/file_sys_driver.c. A buffer gives the byte at each index; buffers do
-- not overlap the image.
pub mod Contents
pub mod Refusals
use illinix_os.Prelude.{ℕ, zero, suc, ◌+◌, Bool, true, false, ltb, leb, ◌==◌, if◌then◌else◌, update}
use illinix_os.Prelude.Word.{failure, add32, sub32, slt, sdiv, smod}
use illinix_os.FileSys.Image.{Image, number_of_data_blocks, length_in_bytes, data_block, data_byte}

abbrev pub Buffer : Type 0
Buffer = ℕ → ℕ

-- The loop, with `n` rounds left at `i`: false when a block number is out of range.
unfoldable pub read_loop : Image → ℕ → ℕ → ℕ → ℕ → Buffer → Bool × Buffer
read_loop img inode offset zero i buf = (true, buf)
read_loop img inode offset (suc n) i buf =
    let global = data_block img inode (sdiv i 4096) in
    let value = data_byte img global (smod i 4096) in
    let rest = read_loop img inode offset n (add32 i 1) (update buf (sub32 i offset) value) in
    if leb (number_of_data_blocks img) global then (false, buf) else rest

unfoldable pub upperbound : Image → ℕ → ℕ → ℕ → ℕ
upperbound img inode offset len =
    if ltb (length_in_bytes img inode) (add32 offset len)
    then length_in_bytes img inode
    else add32 offset len

-- How often `for (i = offset; i < upperbound; i++)` runs, the test on two `int`.
unfoldable pub rounds : ℕ → ℕ → ℕ
rounds offset upper = if slt offset upper then sub32 upper offset else 0

-- `offset < 0` never holds of a `uint32_t`, and `length <= 0` says that it is 0.
unfoldable pub read_data : Image → ℕ → ℕ → Buffer → ℕ → ℕ × Buffer
read_data img inode offset buf len =
    let upper = upperbound img inode offset len in
    let (whole, buf') = read_loop img inode offset (rounds offset upper) offset buf in
    if len == 0
    then (failure, buf)
    else if whole
    then (sub32 upper offset, buf')
    else (failure, buf')
