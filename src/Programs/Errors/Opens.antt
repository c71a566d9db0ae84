-- ===== src/Programs/Errors/Opens.antt =====
-- The tests of ece391syserr that open files.
use illinix_os.Prelude.{
  ℕ, zero, suc, ◌+◌, ◌≤◌, ◌<◌, ◌≡◌, ◌≢◌, ◌∙◌, refl, ap, sym, inr, some, none, List, arith, ◌==◌,
  ltb, if◌then◌else◌, if_intro, subst, eq_false,
}
use illinix_os.Prelude.Text.{bytes_of}
use illinix_os.Prelude.Word.{failure}
use illinix_os.FileSys.Image.{Image, entry_name, entry_type}
use illinix_os.FileSys.Dentry.{strlen}
use illinix_os.FileSys.Dentry.Names.{name_of, read_dentry_by_name-fails}
use illinix_os.Kernel.{Kernel, Descriptor, current, descriptor, set_descriptor}
use illinix_os.Kernel.Files.{local_dentry}
use illinix_os.Kernel.Syscalls.{closed, find_free, open_at, sys_open, call_close}
use illinix_os.Kernel.Syscalls.Table.{close_sound}
use illinix_os.Kernel.Syscalls.Open.{
  driver_of-IsFileDriver, find_free-first, opened_as, Names, sys_close_lem,
}
use illinix_os.Kernel.Syscalls.OpenClose.{sys_open-eq}
use illinix_os.Programs.{Run, after}
use illinix_os.Programs.Errors.{expect, try_open, open_lots, close_lots, err_open_lots, err_open}
use illinix_os.Programs.Errors.Steps.{
  IsSplit, IsFree, IsFresh, find_free-full, set_descriptor-IsSplit, low_border, no_border,
  fdputs-IsSplit,
}
use illinix_os.Programs.Errors.Passing.{Passes, verdict-Passes}

-- A name that no entry of the directory bears.
abbrev pub IsMissing : Image → List ℕ → Type 0
IsMissing img filename = (m : ℕ) → m < 63 → name_of filename ≢ name_of (entry_name img m)

open_at-missing :
    (k : Kernel) (filename : List ℕ) (fd : ℕ)
    → IsMissing k.image filename
    → open_at k filename fd ≡ (
      failure,
      set_descriptor k fd (record (descriptor k fd) { file_position = 0; inode = 0; flags = 0 }),
    )
unfolding open_at
open_at-missing k filename fd missing =
    rw (read_dentry_by_name-fails k.image filename local_dentry (inr (inr missing))) refl

try_open-empty :
    (k : Kernel) (message : List ℕ) (fail : ℕ) (next : ℕ → Kernel → Run)
    → try_open (bytes_of "") message fail k next ≡ next fail k
unfolding try_open expect sys_open strlen
try_open-empty k message fail next = refl

module _ {img : Image} where
  try_open-missing :
      (k : Kernel) (filename message : List ℕ) (fail : ℕ)
      → IsFresh img k
      → 0 < strlen filename
      → strlen filename ≤ 32
      → IsMissing img filename
      → (k' : Kernel) × IsFresh img k'
        × ((next : ℕ → Kernel → Run) → try_open filename message fail k next ≡ next fail k')
  unfolding try_open expect sys_open
  try_open-missing k filename message fail fresh some_name short missing =
      let free : find_free (current k).fd_entry 6 2 ≡ some 2 =
        find_free-first (current k).fd_entry 6 2 2 (omega arith) (omega arith)
          (fresh.below 2 (omega arith) (omega arith)) (λ j p q. absurd (omega arith)) in
      let e : Descriptor = record (descriptor k 2) { file_position = 0; inode = 0; flags = 0 } in
      let k' : Kernel = set_descriptor k 2 e in
      let opens : sys_open k filename ≡ (failure, k') =
        if_intro (λ (r : ℕ × Kernel). r ≡ (failure, k')) (ltb 32 (strlen filename))
          (λ t. absurd (ground arith))
          (λ _.
            if_intro (λ (r : ℕ × Kernel). r ≡ (failure, k')) (strlen filename == 0)
              (λ t. absurd (ground arith))
              (λ _.
                rw
                  (
                    free,
                    open_at-missing k filename 2
                        (subst (λ i. IsMissing i filename) (sym fresh.disk) missing),
                  )
                  refl)) in
      (
        k',
        no_border (
            set_descriptor-IsSplit {img = img} {A = IsFree} {B = IsFree} e (omega arith) refl
              (low_border fresh)),
        λ next. ap (λ (r : ℕ × Kernel). expect message fail r.0 r.1 next) opens,
      )

  pub err_open-Passes :
      (k : Kernel)
      → IsFresh img k
      → IsMissing img (bytes_of "helloo")
      → IsMissing img (bytes_of "shel")
      → Passes img (err_open k)
  unfolding err_open strlen
  err_open-Passes k fresh helloo shel =
      let (k1, fresh1, first) =
        try_open-missing k (bytes_of "helloo") (bytes_of "'helloo' fail\n") 0 fresh (omega arith)
          (omega arith) helloo in
      let (k2, fresh2, second) =
        try_open-missing k1 (bytes_of "shel") (bytes_of "'shel' fail\n") 0 fresh1 (omega arith)
          (omega arith) shel in
      let (k3, fresh3, ends) =
        verdict-Passes fresh2 (bytes_of "err_open: FAIL\n") (bytes_of "err_open: PASS\n")
          (omega arith) in
      (k3, fresh3, λ next. first _ ∙ (second _ ∙ (try_open-empty k2 _ 0 _ ∙ ends next)))

module _ (img : Image) (dir : ℕ) where
  abbrev IsOpened : Descriptor → Type 0
  IsOpened e = e ≡ opened_as img dir

  opened_used : (e : Descriptor) → IsOpened e → e.flags ≢ 0
  unfolding opened_as
  opened_used e is h = absurd (omega (arith, ap (λ (q : Descriptor). q.flags) is, h))

  full : (k : Kernel) → IsSplit img IsOpened IsFree 8 k → sys_open k (bytes_of ".") ≡ (failure, k)
  unfolding sys_open strlen
  full k v =
      let none_free : find_free (current k).fd_entry 6 2 ≡ none =
        find_free-full (current k).fd_entry 6 2
          (λ j from to. opened_used (descriptor k j) (v.below j from (omega arith))) in
      rw none_free refl

  module _ (named : Names img (bytes_of ".") dir) (type : entry_type img dir ≡ 1) where
    opens :
        (j : ℕ) (k : Kernel)
        → 2 ≤ j
        → j < 8
        → IsSplit img IsOpened IsFree j k
        → sys_open k (bytes_of ".") ≡ (j, set_descriptor k j (opened_as img dir))
    opens j k low high v =
        let disk = v.disk in
        sys_open-eq k (bytes_of ".") dir j
          (subst (λ i. Names i (bytes_of ".") dir) (sym disk) named)
          (record {
            low = low;
            high = high;
            free = v.above j (omega arith) high;
            least = λ i from to. opened_used (descriptor k i) (v.below i from to);
          })
          (omega (arith, ap (λ i. entry_type i dir) disk, type))
          (λ e. absurd (omega (arith, ap (λ i. entry_type i dir) disk, type, e)))
        ∙ ap (λ i. (j, set_descriptor k j (opened_as i dir))) disk

    -- The descriptors are used up, and one open fails.
    open_lots-fills :
        (n j : ℕ) (k : Kernel)
        → 2 ≤ j
        → j + n ≡ 8
        → IsSplit img IsOpened IsFree j k
        → (k' : Kernel) × IsSplit img IsOpened IsFree 8 k'
          × ((next : ℕ → Kernel → Run) → open_lots (suc n) 0 k next ≡ next 1 k')
    unfolding open_lots
    open_lots-fills zero j k low border v =
        let at : j ≡ 8 = omega arith in
        let v8 : IsSplit img IsOpened IsFree 8 k =
          subst (λ i. IsSplit img IsOpened IsFree i k) at v in
        (
          k,
          v8,
          λ next. ap (λ (r : ℕ × Kernel). next (if r.0 == failure then 1 else 0) r.1) (full k v8),
        )
    open_lots-fills (suc n) j k low border v =
        let (k', v', ends) =
          open_lots-fills n (suc j) (set_descriptor k j (opened_as img dir)) (omega arith)
            (omega arith) (set_descriptor-IsSplit (opened_as img dir) low refl v) in
        (
          k',
          v',
          λ next.
              ap (λ (r : ℕ × Kernel). open_lots (suc n) (if r.0 == failure then 1 else 0) r.1 next)
                (opens j k low (omega arith) v)
              ∙ (ap
                    (λ b.
                      open_lots (suc n) (if b then 1 else 0)
                        (set_descriptor k j (opened_as img dir)) next)
                    (eq_false {a = j} {b = failure} (omega arith))
                  ∙ ends next),
        )

  close_opened : (fd : ℕ) → fd < 8 → call_close (opened_as img dir).ops.close_op fd ≡ some 0
  unfolding opened_as
  close_opened fd high =
      close_sound (opened_as img dir) fd
        (inr (_, driver_of-IsFileDriver (entry_type img dir), refl)) refl high

  close_lots-frees :
      (n j : ℕ) (k : Kernel)
      → 2 ≤ j
      → j + n ≡ 8
      → IsSplit img IsFree IsOpened j k
      → (k' : Kernel) × IsSplit img IsFree IsOpened 8 k'
        × ((next : Kernel → Run) → close_lots n j k next ≡ next k')
  unfolding close_lots after
  close_lots-frees zero j k low border v =
      let at : j ≡ 8 = omega arith in
      (k, subst (λ i. IsSplit img IsFree IsOpened i k) at v, λ next. refl)
  close_lots-frees (suc n) j k low border v =
      let (k', v', ends) =
        close_lots-frees n (suc j) (set_descriptor k j closed) (omega arith) (omega arith)
          (set_descriptor-IsSplit closed low refl v) in
      (
        k',
        v',
        λ next.
            ap (λ c. after c (λ ret k2. close_lots n (suc j) k2 next))
              (sys_close_lem k j (opened_as img dir) low (omega arith)
                (v.above j (omega arith) (omega arith)) (opened_used _ refl)
                (close_opened j (omega arith)))
            ∙ ends next,
      )

  pub err_open_lots-Passes :
      (k : Kernel)
      → IsFresh img k
      → Names img (bytes_of ".") dir
      → entry_type img dir ≡ 1
      → Passes img (err_open_lots k)
  unfolding err_open_lots strlen
  err_open_lots-Passes k fresh named type =
      let (k1, v1, fills) =
        open_lots-fills named type 6 2 k (omega arith) (omega arith) (low_border fresh) in
      let (k2, v2, frees) = close_lots-frees 6 2 k1 (omega arith) (omega arith) (low_border v1) in
      let (k3, fresh3, prints) =
        fdputs-IsSplit {img = img} {A = IsFree} {B = IsFree} (bytes_of "err_open_lots: PASS\n")
          (omega arith) (low_border v2) in
      (k3, no_border fresh3, λ next. fills _ ∙ (frees _ ∙ prints (next 0)))
