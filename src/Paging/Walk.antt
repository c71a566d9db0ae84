-- ===== src/Paging/Walk.antt =====
-- What the processor finds for an address once paging_init has run.
use illinix_os.Prelude.{
  ℕ, zero, suc, ◌+◌, ◌*◌, ◌/◌, ◌%◌, ◌≤◌, ◌<◌, ◌≡◌, ◌≢◌, ◌⊎◌, inl, inr, refl, ap, ◌∙◌, Bool, true,
  false, Option, none, some, arith, ◌&&◌, ◌||◌, ◌==◌, if◌then◌else◌, update, update_ne, update_self,
  eq_false, eq_true, ℕ_discrete, Bool-cases,
}
use illinix_os.Paging.{
  DirEntry, TableEntry, Tables, clear_directory, clear_table, map_page, init_directory,
  init_first_table, paging_init,
}

-- An entry of a page table, for an access by the kernel or, if `user` is true, by a program: the
-- physical address, or none for a page fault.
unfoldable pub walk_table : Bool → ℕ → TableEntry → Option ℕ
walk_table user v e =
    if e.p == 0
    then none
    else if user && (e.us == 0)
    then none
    else some (4096 * e.p_base_addr + v % 4096)

-- The walk of the processor from the page directory: 4 MB pages, or the table at the address that an
-- entry holds, if one of the two tables is there; `first` and `vmem` are their addresses. This is the
-- processor's part, against which the code's entries are read.
unfoldable pub walk : ℕ → ℕ → Bool → ℕ → Tables → Option ℕ
unfolding walk_table
walk first vmem user v t =
    let e = t.page_directory (v / 4194304) in
    let i = v / 4096 % 1024 in
    if e.p == 0
    then none
    else if user && (e.us == 0)
    then none
    else if e.ps == 1
    then some (4194304 * e.page_base_addr + v % 4194304)
    else if 4096 * e.pt_base_addr == first
    then walk_table user v (t.first_page_table i)
    else if 4096 * e.pt_base_addr == vmem
    then walk_table user v (t.vmem_page_table i)
    else none

clear_directory-other : (n i j : ℕ) (d : ℕ → DirEntry) → j < i → clear_directory n i d j ≡ d j
unfolding clear_directory
clear_directory-other zero i j d h = refl
clear_directory-other (suc n) i j d h =
    clear_directory-other n (suc i) j _ (omega arith) ∙ update_ne d i j _ (omega arith)

clear_directory-at :
    (n i j : ℕ) (d : ℕ → DirEntry) → i ≤ j → j < i + n → (clear_directory n i d j).p ≡ 0
unfolding clear_directory
clear_directory-at zero i j d low high = absurd (omega arith)
clear_directory-at (suc n) i j d low high = elim (ℕ_discrete j i) [
  | yes same ↦ rw same (
      ap (λ (e : DirEntry). e.p)
        (clear_directory-other n (suc i) i _ (omega arith) ∙ update_self d i _))
  | no other ↦ clear_directory-at n (suc i) j _ (omega arith) (omega arith)
]

clear_table-other : (n i j : ℕ) (t : ℕ → TableEntry) → j < i → clear_table n i t j ≡ t j
unfolding clear_table
clear_table-other zero i j t h = refl
clear_table-other (suc n) i j t h =
    clear_table-other n (suc i) j _ (omega arith) ∙ update_ne t i j _ (omega arith)

clear_table-at : (n i j : ℕ) (t : ℕ → TableEntry) → i ≤ j → j < i + n → (clear_table n i t j).p ≡ 0
unfolding clear_table
clear_table-at zero i j t low high = absurd (omega arith)
clear_table-at (suc n) i j t low high = elim (ℕ_discrete j i) [
  | yes same ↦ rw same (
      ap (λ (e : TableEntry). e.p)
        (clear_table-other n (suc i) i _ (omega arith) ∙ update_self t i _))
  | no other ↦ clear_table-at n (suc i) j _ (omega arith) (omega arith)
]

-- The directory entries that are present.
abbrev is_mapped : ℕ → Bool
is_mapped i = i == 0 || (i == 1 || (i == 32 || i == 33))

not_mapped : (i : ℕ) → is_mapped i ≡ false → (i ≢ 0) × (i ≢ 1) × (i ≢ 32) × (i ≢ 33)
not_mapped i h = (ground arith, ground arith, ground arith, ground arith)

directory_absent :
    (first vmem i : ℕ) (d : ℕ → DirEntry)
    → i < 1024
    → is_mapped i ≡ false
    → (init_directory first vmem d i).p ≡ 0
unfolding init_directory update
directory_absent first vmem i d h other =
    let (n0, n1, n32, n33) = not_mapped i other in
    rw (eq_false n33, eq_false n32, eq_false n1, eq_false n0)
      (clear_directory-at 1024 0 i d (omega arith) h)

-- The pages of the first table that are present.
abbrev is_video : ℕ → Bool
is_video i = i == 0xB8 || (i == 0xBA || (i == 0xBB || i == 0xBC))

not_video : (i : ℕ) → is_video i ≡ false → (i ≢ 0xB8) × (i ≢ 0xBA) × (i ≢ 0xBB) × (i ≢ 0xBC)
not_video i h = (ground arith, ground arith, ground arith, ground arith)

which_video : (i : ℕ) → is_video i ≡ true → (i ≡ 0xB8) ⊎ ((i ≡ 0xBA) ⊎ ((i ≡ 0xBB) ⊎ (i ≡ 0xBC)))
which_video i h = ground arith

first_absent :
    (i : ℕ) (t : ℕ → TableEntry) → i < 1024 → is_video i ≡ false → (init_first_table t i).p ≡ 0
unfolding init_first_table map_page update
first_absent i t h other =
    let (a, b, c, d) = not_video i other in
    rw (eq_false d, eq_false c, eq_false b, eq_false a) (clear_table-at 1024 0 i t (omega arith) h)

first_present :
    (i : ℕ) (t : ℕ → TableEntry)
    → is_video i ≡ true
    → ((init_first_table t i).p ≡ 1)
      × ((init_first_table t i).us ≡ 0)
      × ((init_first_table t i).p_base_addr ≡ i)
unfolding init_first_table map_page update
first_present i t h = elim (which_video i h) [
  | inl e ↦ rw e (refl, refl, refl)
  | inr (inl e) ↦ rw e (refl, refl, refl)
  | inr (inr (inl e)) ↦ rw e (refl, refl, refl)
  | inr (inr (inr e)) ↦ rw e (refl, refl, refl)
]

first_entry :
    (first vmem : ℕ) (d : ℕ → DirEntry)
    → ((init_directory first vmem d 0).p ≡ 1)
      × ((init_directory first vmem d 0).us ≡ 0)
      × ((init_directory first vmem d 0).ps ≡ 0)
      × ((init_directory first vmem d 0).pt_base_addr ≡ first / 4096)
unfolding init_directory update
first_entry first vmem d = (refl, refl, refl, refl)

walk_table-present :
    (v i : ℕ) (e : TableEntry)
    → e.p ≡ 1
    → e.p_base_addr ≡ i
    → 4096 * i + v % 4096 ≡ v
    → walk_table false v e ≡ some v
unfolding walk_table
walk_table-present v i e p base here = rw (p, base, here) refl

walk_table-absent : (user : Bool) (v : ℕ) (e : TableEntry) → e.p ≡ 0 → walk_table user v e ≡ none
unfolding walk_table
walk_table-absent user v e p = rw p refl

walk_first_table :
    (v i : ℕ) (t : ℕ → TableEntry)
    → i < 1024
    → 4096 * i + v % 4096 ≡ v
    → walk_table false v (init_first_table t i) ≡ (if is_video i then some v else none)
walk_first_table v i t h here = elim (Bool-cases (is_video i)) [
  | inl shown ↦
      let (p, us, base) = first_present i t shown in
      rw shown (walk_table-present v i (init_first_table t i) p base here)
  | inr other ↦
      rw other (walk_table-absent false v (init_first_table t i) (first_absent i t h other))
]

-- The kernel's view of the first 4 MB after paging_init, if the first page table stands at the start
-- of a page: exactly the pages of video memory and of
-- the three saved screens are there, each at its own address; every other access faults, the null
-- pointer's too, and so does every access by a program.
pub walk-first :
    (first vmem v : ℕ) (t : Tables)
    → v < 4194304
    → first % 4096 ≡ 0
    → (walk first vmem false v (paging_init first vmem t)
        ≡ (if is_video (v / 4096) then some v else none))
      × (walk first vmem true v (paging_init first vmem t) ≡ none)
unfolding walk paging_init
walk-first first vmem v t h aligned =
    let zero_index : v / 4194304 ≡ 0 = omega arith in
    let page : v / 4096 % 1024 ≡ v / 4096 = omega arith in
    let (p, us, ps, base) = first_entry first vmem t.page_directory in
    let table : (4096 * (first / 4096) == first) ≡ true = eq_true (omega arith) in
    (
      rw (zero_index, page, p, ps, base, table)
          (walk_first_table v (v / 4096) t.first_page_table (omega arith) (omega arith)),
      rw (zero_index, p, us) refl,
    )

-- The next 4 MB are the kernel's, at their own addresses, and closed to programs.
pub walk-kernel :
    (first vmem v : ℕ) (t : Tables)
    → 4194304 ≤ v
    → v < 8388608
    → (walk first vmem false v (paging_init first vmem t) ≡ some v)
      × (walk first vmem true v (paging_init first vmem t) ≡ none)
unfolding walk paging_init init_directory update
walk-kernel first vmem v t low high =
    let one : v / 4194304 ≡ 1 = omega arith in
    let same : 4194304 + v % 4194304 ≡ v = omega arith in rw (one, same) (refl, refl)

-- Beyond them an address faults unless it is in the 8 MB from 128 MB on.
pub walk-absent :
    (user : Bool) (first vmem v : ℕ) (t : Tables)
    → 8388608 ≤ v
    → v < 4294967296
    → (v < 0x08000000) ⊎ (0x08800000 ≤ v)
    → walk first vmem user v (paging_init first vmem t) ≡ none
unfolding walk paging_init
walk-absent user first vmem v t low high out =
    let index : v / 4194304 < 1024 = omega arith in
    rw
      (directory_absent first vmem (v / 4194304) t.page_directory index
        (far (v / 4194304) (omega arith) (far_index v out)))
      refl
  where
    far_index :
        (v : ℕ) → (v < 0x08000000) ⊎ (0x08800000 ≤ v) → (v / 4194304 < 32) ⊎ (33 < v / 4194304)
    far_index v (inl h) = inl (omega arith)
    far_index v (inr h) = inr (omega arith)

    far : (i : ℕ) → 1 < i → (i < 32) ⊎ (33 < i) → is_mapped i ≡ false
    far i a (inl b) = ground arith
    far i a (inr b) = ground arith
