-- ===== src/FileSys/Image.antt =====
-- The file system image of student-distrib/file_sys_driver.h, as the bytes that follow the pointer
-- `booting_info_block`: the boot block, `number_of_inodes` inodes and the data blocks, 4 KB each.
-- An address wraps at 2 ^ 32, and what a read finds there is a byte.
use illinix_os.Prelude.{ℕ, ◌+◌, ◌*◌, ◌%◌, ◌<◌, arith}
use illinix_os.Prelude.{List, [], ◌∷◌, zero, suc}
use illinix_os.Prelude.Word.{u32, add32}

abbrev pub Image : Type 0
Image = ℕ → ℕ

abbrev pub four_kb : ℕ
four_kb = 4096

unfoldable pub byte_at : Image → ℕ → ℕ
byte_at img a = img (a % u32) % 256

-- A `uint32_t`, lowest byte first.
unfoldable pub word_at : Image → ℕ → ℕ
word_at img a =
    byte_at img a
    + 256 * byte_at img (a + 1)
    + 65536 * byte_at img (a + 2)
    + 16777216 * byte_at img (a + 3)

-- `count` bytes from `a` on.
unfoldable pub bytes_at : Image → ℕ → ℕ → List ℕ
bytes_at img a zero = []
bytes_at img a (suc count) = byte_at img a ∷ bytes_at img (a + 1) count

-- The fields of `boot_struct`.
unfoldable pub number_of_inodes : Image → ℕ
number_of_inodes img = word_at img 4

unfoldable pub number_of_data_blocks : Image → ℕ
number_of_data_blocks img = word_at img 8

-- `dir_entries[i]` of the boot block: 32 bytes of name, the type, the inode number, 24 reserved.
abbrev pub entry_at : ℕ → ℕ
entry_at i = 64 + 64 * i

unfoldable pub entry_name : Image → ℕ → List ℕ
entry_name img i = bytes_at img (entry_at i) 64

unfoldable pub entry_type : Image → ℕ → ℕ
entry_type img i = word_at img (entry_at i + 32)

unfoldable pub entry_inode : Image → ℕ → ℕ
entry_inode img i = word_at img (entry_at i + 36)

-- The fields of `inode_struct_t`.
unfoldable pub length_in_bytes : Image → ℕ → ℕ
length_in_bytes img inode = word_at img (four_kb * (1 + inode))

unfoldable pub data_block : Image → ℕ → ℕ → ℕ
data_block img inode k = word_at img (four_kb * (1 + inode) + 4 + 4 * k)

-- `datablock_addr->data[k]` for the data block of this number.
unfoldable pub data_byte : Image → ℕ → ℕ → ℕ
data_byte img n k = byte_at img (four_kb * add32 (add32 1 (number_of_inodes img)) n + k)

byte_at-lt : (img : Image) (a : ℕ) → byte_at img a < 256
unfolding byte_at
byte_at-lt img a = omega arith

-- A word that the image holds fits in 32 bits.
word_at-lt : (img : Image) (a : ℕ) → word_at img a < u32
unfolding word_at
word_at-lt img a = omega (arith, byte_at-lt)
