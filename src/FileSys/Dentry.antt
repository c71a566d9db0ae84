-- ===== src/FileSys/Dentry.antt =====
-- read_dentry_by_name and read_dentry_by_index of student-distrib/file_sys_driver.c, with strlen
-- and strcpy of student-distrib/lib.c. A string is the list of its bytes, followed by zeros.
pub mod Names
use illinix_os.Prelude.{
  ℕ, zero, suc, Bool, true, false, ◌||◌, Option, none, some, List, [], ◌∷◌, ltb, ◌==◌,
  if◌then◌else◌, get_or,
}
use illinix_os.Prelude.Word.{failure}
use illinix_os.FileSys.Image.{Image, entry_name, entry_type, entry_inode}

-- `s[j]`
abbrev pub char_at : List ℕ → ℕ → ℕ
char_at s j = get_or s j 0

unfoldable pub strlen : List ℕ → ℕ
strlen [] = 0
strlen (c ∷ s) = if c == 0 then 0 else suc (strlen s)

-- `strcpy(dest, src)`. What it writes past the end of `dest` is not kept.
unfoldable pub strcpy : List ℕ → List ℕ → List ℕ
strcpy [] src = []
strcpy (d ∷ dest) [] = 0 ∷ dest
strcpy (d ∷ dest) (c ∷ src) = if c == 0 then 0 ∷ dest else c ∷ strcpy dest src

-- `dentry_struct_t`: the reserved bytes are never read.
pub record Dentry : Type 0 where
  pub file_name : List ℕ
  pub file_type : ℕ
  pub inode_number : ℕ

-- The inner loop, with `n` rounds left at index `j`.
unfoldable pub same_name : List ℕ → List ℕ → ℕ → ℕ → Bool
same_name fname name zero j = false
same_name fname name (suc n) j =
    let rest = same_name fname name n (suc j) in
    if char_at fname j == char_at name j
    then (if char_at fname j == 0 || j == 31 then true else rest)
    else false

-- The outer loop, with `n` rounds left at entry `i`.
unfoldable pub find_entry : Image → List ℕ → ℕ → ℕ → Option ℕ
find_entry img fname zero i = none
find_entry img fname (suc n) i =
    let rest = find_entry img fname n (suc i) in
    if same_name fname (entry_name img i) 32 0 then some i else rest

-- A name of 32 bytes has no terminator in `file_name`; `strcpy` then runs on into `file_type`,
-- which the next assignment sets.
unfoldable pub fill_dentry : Image → ℕ → Dentry → Dentry
fill_dentry img i d = record {
  file_name = strcpy d.file_name (entry_name img i);
  file_type = entry_type img i;
  inode_number = entry_inode img i;
}

unfoldable pub read_dentry_by_name : Image → List ℕ → Dentry → ℕ × Dentry
read_dentry_by_name img fname d =
    if ltb 32 (strlen fname)
    then (failure, d)
    else if strlen fname == 0
    then (failure, d)
    else elim (find_entry img fname 63 0) [
      | none ↦ (failure, d)
      | some i ↦ (0, fill_dentry img i d)
    ]

-- `index < 0` never holds of a `uint32_t`.
unfoldable pub read_dentry_by_index : Image → ℕ → Dentry → ℕ × Dentry
read_dentry_by_index img index d =
    if ltb 62 index then (failure, d) else (0, fill_dentry img index d)
