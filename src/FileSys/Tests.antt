-- ===== src/FileSys/Tests.antt =====
-- The file system on a small image: one program, "shell", of 40 bytes.
use illinix_os.Prelude.{ℕ, ◌-◌, ◌/◌, ◌<◌, min, ◌≡◌, refl, List, [], ◌∷◌, arith, ◌==◌, if◌then◌else◌}
use illinix_os.FileSys.Image.{
  Image, byte_at, word_at, bytes_at, number_of_inodes, number_of_data_blocks, entry_name,
  entry_type, entry_inode, length_in_bytes, data_block, data_byte,
}
use illinix_os.FileSys.Dentry.{Dentry, strlen, read_dentry_by_name}
use illinix_os.FileSys.Dentry.Names.{text, name_of, read_dentry_by_name-finds}
use illinix_os.FileSys.Data.{Buffer, read_data}
use illinix_os.FileSys.Data.Contents.{IsFile, filled, file_byte, read_data_lem}

-- The type of the file and the number of data blocks vary.
abbrev pub image : ℕ → ℕ → Image
image type blocks a =
    if a == 4
    then 1
    else if a == 8
    then blocks
    else if a == 64
    then 115
    else if a == 65
    then 104
    else if a == 66
    then 101
    else if a == 67
    then 108
    else if a == 68
    then 108
    else if a == 96
    then type
    else if a == 4096
    then 40
    else if a == 8192
    then 127
    else if a == 8193
    then 69
    else if a == 8194
    then 76
    else if a == 8195
    then 70
    else if a == 8217
    then 128
    else 0

abbrev pub shell : List ℕ
shell = 115 ∷ 104 ∷ 101 ∷ 108 ∷ 108 ∷ []

abbrev pub no_bytes : Buffer
no_bytes k = 0

abbrev no_name : Dentry
no_name = record {
  file_name =
      0 ∷ 0 ∷ 0 ∷ 0 ∷ 0 ∷ 0 ∷ 0 ∷ 0 ∷ 0 ∷ 0 ∷ 0 ∷ 0 ∷ 0 ∷ 0 ∷ 0 ∷ 0 ∷ 0 ∷ 0 ∷ 0 ∷ 0 ∷ 0 ∷ 0 ∷ 0 ∷ 0
      ∷ 0 ∷ 0 ∷ 0 ∷ 0 ∷ 0 ∷ 0 ∷ 0 ∷ 0 ∷ [];
  file_type = 0;
  inode_number = 0;
}

pub shell-named : (type blocks : ℕ) → name_of shell ≡ name_of (entry_name (image type blocks) 0)
unfolding name_of text entry_name bytes_at byte_at
shell-named type blocks = refl

pub shell_inode : (type blocks : ℕ) → entry_inode (image type blocks) 0 ≡ 0
unfolding entry_inode word_at byte_at
shell_inode type blocks = refl

pub shell_length : (type blocks : ℕ) → length_in_bytes (image type blocks) 0 ≡ 40
unfolding length_in_bytes word_at byte_at
shell_length type blocks = refl

pub shell_block : (type blocks p : ℕ) → p < 4096 → data_block (image type blocks) 0 (p / 4096) ≡ 0
unfolding data_block word_at byte_at
shell_block type blocks p h = let first : p / 4096 ≡ 0 = omega arith in rw first refl

pub one_block : (type : ℕ) → number_of_data_blocks (image type 1) ≡ 1
unfolding number_of_data_blocks word_at byte_at
one_block type = refl

pub no_block : (type : ℕ) → number_of_data_blocks (image type 0) ≡ 0
unfolding number_of_data_blocks word_at byte_at
no_block type = refl

pub shell-IsFile : (type : ℕ) → IsFile (image type 1) 0
shell-IsFile type = record {
  size = rw (shell_length type 1) (omega arith);
  blocks = λ p h.
      rw (shell_block type 1 p (omega (arith, h, shell_length type 1)), one_block type)
        (omega arith);
}

read_dentry_by_name-finds_example :
    let (ret, d') = read_dentry_by_name (image 2 1) shell no_name in
    (ret ≡ 0)
    × (name_of d'.file_name ≡ name_of shell)
    × (d'.file_type ≡ entry_type (image 2 1) 0)
    × (d'.inode_number ≡ entry_inode (image 2 1) 0)
unfolding strlen
read_dentry_by_name-finds_example =
    read_dentry_by_name-finds (image 2 1) shell no_name 0 (omega arith) (omega arith) (omega arith)
      refl (shell-named 2 1) (λ m h. absurd (omega arith))

read_data_lem_example : read_data (image 2 1) 0 1 no_bytes 3 ≡ (
  min 3 (length_in_bytes (image 2 1) 0 - 1),
  filled (image 2 1) 0 1 (min 3 (length_in_bytes (image 2 1) 0 - 1)) 1 no_bytes,
)
read_data_lem_example =
    read_data_lem (image 2 1) 0 1 (shell-IsFile 2) no_bytes 3 (rw (shell_length 2 1) (omega arith))
      (omega arith) (omega arith)

-- Bytes of the file as the code reads them.
first_bytes :
    (read_data (image 2 1) 0 1 no_bytes 3).1 0 ∷ (read_data (image 2 1) 0 1 no_bytes 3).1 2 ∷ []
    ≡ 69 ∷ 70 ∷ []
unfolding filled file_byte data_byte data_block length_in_bytes number_of_inodes word_at byte_at
first_bytes = rw read_data_lem_example refl
