-- ===== src/FileSys/Dentry/Names.antt =====
-- A search of the directory by name compares names as C strings of at most 32 characters.
use illinix_os.Prelude.{
  ℕ, zero, suc, ◌+◌, ◌≤◌, ◌<◌, ◌≡◌, refl, sym, ◌∙◌, ◌≢◌, ◌↔◌, ◌⊎◌, inl, inr, true, false, none,
  some, List, [], ◌∷◌, arith, dec_lt, ◌==◌, if◌then◌else◌, Bool-cases, Option-cases, length, drop,
}
use illinix_os.Prelude.Word.{failure}
use illinix_os.FileSys.Image.{Image, entry_name, entry_type, entry_inode}
use illinix_os.FileSys.Dentry.{
  Dentry, char_at, strlen, strcpy, same_name, find_entry, fill_dentry, read_dentry_by_name,
  read_dentry_by_index,
}

-- The characters before the terminator, `n` at most.
unfoldable pub text : ℕ → List ℕ → List ℕ
text zero s = []
text (suc n) [] = []
text (suc n) (c ∷ s) = if c == 0 then [] else c ∷ text n s

-- The name that 32 bytes stand for.
unfoldable pub name_of : List ℕ → List ℕ
unfolding text
name_of s = text 32 s

pub text-drop :
    (n j : ℕ) (s : List ℕ)
    → text (suc n) (drop j s)
      ≡ (if char_at s j == 0 then [] else char_at s j ∷ text n (drop (suc j) s))
unfolding text
text-drop n zero [] = refl
text-drop n zero (c ∷ s) = refl
text-drop n (suc j) [] = refl
text-drop n (suc j) (c ∷ s) = text-drop n j s

-- The inner loop finds the rests of two names equal exactly when the rests are one string.
same_name_from :
    (f e : List ℕ) (n j : ℕ)
    → n + j ≡ 31
    → (same_name f e (suc n) j ≡ true) ↔ (text (suc n) (drop j f) ≡ text (suc n) (drop j e))
unfolding same_name text
same_name_from f e zero j h = rw (text-drop zero j f, text-drop zero j e) (ground arith)
same_name_from f e (suc n) j h =
    rw (text-drop (suc n) j f, text-drop (suc n) j e)
      (ground (arith, same_name_from f e n (suc j) (omega arith)))

pub same_name_iff : (f e : List ℕ) → (same_name f e 32 0 ≡ true) ↔ (name_of f ≡ name_of e)
unfolding name_of
same_name_iff f e = same_name_from f e 31 0 (omega arith)

-- The test fails where the names differ.
same_name-ne : (f e : List ℕ) → name_of f ≢ name_of e → same_name f e 32 0 ≡ false
same_name-ne f e h = elim (Bool-cases (same_name f e 32 0)) [
  | inl hit ↦ absurd (h ((same_name_iff f e).0 hit))
  | inr miss ↦ miss
]

-- The outer loop returns the first entry that bears the name.
find_entry-first :
    (img : Image) (f : List ℕ) (n i k : ℕ)
    → i ≤ k
    → k < i + n
    → name_of f ≡ name_of (entry_name img k)
    → ((m : ℕ) → m < k → name_of f ≢ name_of (entry_name img m))
    → find_entry img f n i ≡ some k
unfolding find_entry
find_entry-first img f zero i k p q e first = absurd (omega arith)
find_entry-first img f (suc n) i k p q e first = elim (dec_lt i k) [
  | yes lt ↦
      rw (same_name-ne f (entry_name img i) (first i lt))
        (find_entry-first img f n (suc i) k lt (omega arith) e first)
  | no ge ↦
      let same : k ≡ i = omega arith in
      let hit : same_name f (entry_name img i) 32 0 ≡ true =
        (same_name_iff f (entry_name img i)).1 (rw (← same) e) in
      rw (hit, same)
]

find_entry-none :
    (img : Image) (f : List ℕ) (n i : ℕ)
    → ((m : ℕ) → m < i + n → name_of f ≢ name_of (entry_name img m))
    → find_entry img f n i ≡ none
unfolding find_entry
find_entry-none img f zero i others = refl
find_entry-none img f (suc n) i others =
    rw (same_name-ne f (entry_name img i) (others i (omega arith)))
      (find_entry-none img f n (suc i) (λ m h. others m (omega arith)))

pub text-strcpy :
    (n : ℕ) (dest src : List ℕ) → n ≤ length dest → text n (strcpy dest src) ≡ text n src
unfolding strcpy text
text-strcpy zero dest src h = refl
text-strcpy (suc n) [] src h = absurd (omega arith)
text-strcpy (suc n) (d ∷ dest) [] h = refl
text-strcpy (suc n) (d ∷ dest) (c ∷ src) h = ground (arith, text-strcpy n dest src)

pub read_dentry_by_name-first :
    (img : Image) (f : List ℕ) (d : Dentry) (k : ℕ)
    → 0 < strlen f
    → strlen f ≤ 32
    → k < 63
    → name_of f ≡ name_of (entry_name img k)
    → ((m : ℕ) → m < k → name_of f ≢ name_of (entry_name img m))
    → read_dentry_by_name img f d ≡ (0, fill_dentry img k d)
unfolding read_dentry_by_name
read_dentry_by_name-first img f d k p q r e first =
    ground (arith, find_entry-first img f 63 0 k (omega arith) (omega arith) e first)

-- A name of 1 to 32 characters that an entry bears is found: the call returns 0, and the dentry
-- gets the name, the type and the inode number of the first such entry.
pub read_dentry_by_name-finds :
    (img : Image) (f : List ℕ) (d : Dentry) (k : ℕ)
    → 0 < strlen f
    → strlen f ≤ 32
    → k < 63
    → length d.file_name ≡ 32
    → name_of f ≡ name_of (entry_name img k)
    → ((m : ℕ) → m < k → name_of f ≢ name_of (entry_name img m))
    → let (ret, d') = read_dentry_by_name img f d in
      (ret ≡ 0)
      × (name_of d'.file_name ≡ name_of f)
      × (d'.file_type ≡ entry_type img k)
      × (d'.inode_number ≡ entry_inode img k)
unfolding fill_dentry name_of
read_dentry_by_name-finds img f d k p q r room e first =
    rw (read_dentry_by_name-first img f d k p q r e first)
      (refl, text-strcpy 32 d.file_name (entry_name img k) (omega arith) ∙ sym e, refl, refl)

-- The call fails, and leaves the dentry alone, when the name is empty, is longer than 32 characters
-- or is in none of the 63 entries.
pub read_dentry_by_name-fails :
    (img : Image) (f : List ℕ) (d : Dentry)
    → (strlen f ≡ 0)
      ⊎ ((32 < strlen f) ⊎ ((m : ℕ) → m < 63 → name_of f ≢ name_of (entry_name img m)))
    → read_dentry_by_name img f d ≡ (failure, d)
unfolding read_dentry_by_name
read_dentry_by_name-fails img f d (inl empty) = ground arith
read_dentry_by_name-fails img f d (inr (inl long)) = ground arith
read_dentry_by_name-fails img f d (inr (inr others)) =
    ground (arith, find_entry-none img f 63 0 others)

find_entry-lt : (img : Image) (f : List ℕ) (n i k : ℕ) → find_entry img f n i ≡ some k → k < i + n
unfolding find_entry
find_entry-lt img f zero i k e = absurd (cc)
find_entry-lt img f (suc n) i k e = ground (arith, find_entry-lt img f n (suc i) k)

-- Success by name is success by index: a search by name that returns 0 is read_dentry_by_index at
-- some valid index.
pub read_dentry_by_name-by_index :
    (img : Image) (f : List ℕ) (d : Dentry)
    → (read_dentry_by_name img f d).0 ≡ 0
    → (k : ℕ) × (k < 63) × (read_dentry_by_name img f d ≡ read_dentry_by_index img k d)
unfolding read_dentry_by_name read_dentry_by_index
read_dentry_by_name-by_index img f d h = elim (Option-cases (find_entry img f 63 0)) [
  | inl miss ↦ absurd (ground arith)
  | inr (k, hit) ↦
      (k, find_entry-lt img f 63 0 k hit, ground (arith, find_entry-lt img f 63 0 k hit))
]
