-- ===== src/Programs/Listing/Entry.antt =====
-- directory_read delivers the name of an entry.
use illinix_os.Prelude.{
  ℕ, zero, suc, ◌+◌, ◌≤◌, ◌<◌, ◌≡◌, ap, ◌∙◌, sym, false, List, [], ◌∷◌, length, drop, arith, ◌&&◌,
  leb, ltb, if◌then◌else◌, update,
}
use illinix_os.FileSys.Image.{entry_name}
use illinix_os.FileSys.Data.{Buffer}
use illinix_os.FileSys.Dentry.{Dentry, char_at, fill_dentry, read_dentry_by_index}
use illinix_os.FileSys.Dentry.Names.{text, text-drop, name_of, text-strcpy}
use illinix_os.Kernel.{Kernel, descriptor, set_descriptor}
use illinix_os.Prelude.Word.{add32}
use illinix_os.Kernel.Files.{local_dentry, name_byte, copy_name, directory_read}

copy_name-count :
    (n i : ℕ) (d : Dentry) (buf : Buffer)
    → i + n ≤ 32
    → (copy_name n i d buf).0 ≡ i + length (text n (drop i d.file_name))
unfolding copy_name name_byte text
copy_name-count zero i d buf h = ground arith
copy_name-count (suc n) i d buf h =
    ground
      (arith, text-drop n i d.file_name, copy_name-count n (suc i) d (update buf i (name_byte d i)))

copy_name-at :
    (n i : ℕ) (d : Dentry) (buf : Buffer) (j : ℕ)
    → i + n ≤ 32
    → (copy_name n i d buf).1 j ≡ (
        if leb i j && ltb j (i + length (text n (drop i d.file_name)))
        then char_at d.file_name j
        else buf j)
unfolding copy_name name_byte text update
copy_name-at zero i d buf j h = ground arith
copy_name-at (suc n) i d buf j h =
    ground
      (arith, text-drop n i d.file_name, copy_name-at n (suc i) d (update buf i (name_byte d i)) j)

char_at-text :
    (n : ℕ) (s : List ℕ) (j : ℕ) → j < length (text n s) → char_at (text n s) j ≡ char_at s j
unfolding text
char_at-text zero s j h = absurd (omega arith)
char_at-text (suc n) [] j h = absurd (omega arith)
char_at-text (suc n) (c ∷ s) zero h = ground arith
char_at-text (suc n) (c ∷ s) (suc j) h = ground (arith, char_at-text n s j)

-- The name of the entry at the descriptor's position.
abbrev pub name_at : Kernel → ℕ → List ℕ
name_at k fd = name_of (entry_name k.image (descriptor k fd).file_position)

length-text : (n : ℕ) (s : List ℕ) → length (text n s) ≤ n
unfolding text
length-text zero s = omega arith
length-text (suc n) [] = omega arith
length-text (suc n) (c ∷ s) = ground (arith, length-text n s)

pub length-name_of : (s : List ℕ) → length (name_of s) ≤ 32
unfolding name_of
length-name_of s = length-text 32 s

-- The descriptor's position moves by one entry.
abbrev pub next_entry : Kernel → ℕ → Kernel
next_entry k fd =
    set_descriptor k fd
      (record (descriptor k fd) { file_position = add32 (descriptor k fd).file_position 1 })

module _ (k : Kernel) (fd : ℕ) (buf : Buffer) (inside : (descriptor k fd).file_position < 63) where
  entry : Dentry
  entry = fill_dentry k.image (descriptor k fd).file_position local_dentry

  -- What directory_read leaves in the buffer.
  pub entry_buf : Buffer
  entry_buf = (copy_name 32 0 entry buf).1

  name : text 32 (drop 0 entry.file_name) ≡ name_at k fd
  unfolding entry fill_dentry name_of
  name =
      text-strcpy 32 local_dentry.file_name (entry_name k.image (descriptor k fd).file_position)
        (omega arith)

  pub directory_read-entry :
      directory_read k fd buf 32 ≡ (length (name_at k fd), entry_buf, next_entry k fd)
  unfolding directory_read read_dentry_by_index entry entry_buf
  directory_read-entry =
      let count : (copy_name 32 0 entry buf).0 ≡ length (name_at k fd) =
        copy_name-count 32 0 entry buf (omega arith) ∙ (omega arith ∙ ap length name) in
      let low : ltb 62 (descriptor k fd).file_position ≡ false = ground arith in
      rw low (ap (λ n. (n, entry_buf, next_entry k fd)) count)

  pub entry_buf-name : (j : ℕ) → j < length (name_at k fd) → entry_buf j ≡ char_at (name_at k fd) j
  unfolding entry_buf
  entry_buf-name j h =
      let size : length (text 32 (drop 0 entry.file_name)) ≡ length (name_at k fd) =
        ap length name in
      let inside : j < length (text 32 (drop 0 entry.file_name)) = omega (arith, h, size) in
      copy_name-at 32 0 entry buf j (omega arith)
      ∙ (ground (arith, inside)
          ∙ (sym (char_at-text 32 entry.file_name j inside) ∙ ap (λ s. char_at s j) name))
