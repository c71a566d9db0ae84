-- ===== src/Kernel/Syscalls/Open.antt =====
-- sys_open keeps the descriptor table sound, and what a successful open makes.
use illinix_os.Prelude.{
  ℕ, zero, suc, ◌+◌, ◌≤◌, ◌<◌, ◌≡◌, ◌≢◌, inl, inr, refl, Bool, true, false, ◌||◌, some, List, arith,
  ltb, ◌==◌, if◌then◌else◌, Option-cases, Bool-cases, ℕ_discrete, if_intro, eq_false, eq_true,
}
use illinix_os.Prelude.Word.{failure, lt-bad_fd}
use illinix_os.FileSys.Image.{Image, entry_name, entry_type, entry_inode}
use illinix_os.FileSys.Dentry.{strlen, read_dentry_by_name}
use illinix_os.FileSys.Dentry.Names.{name_of}
use illinix_os.Kernel.{Descriptor, Kernel, current, descriptor, set_descriptor}
use illinix_os.Kernel.Files.{local_dentry}
use illinix_os.Kernel.Syscalls.{
  returned, all_ops, closed, find_free, driver_of, call_open, open_at, sys_open, call_close,
  sys_close,
}
use illinix_os.Kernel.Syscalls.Table.{IsFileDriver, IsSound, IsTable, set_descriptor-IsTable}

pub driver_of-IsFileDriver : (type : ℕ) → IsFileDriver (driver_of type)
driver_of-IsFileDriver type =
    if_intro IsFileDriver (type == 0) (λ _. inl refl)
      λ _. if_intro IsFileDriver (type == 1) (λ _. inr (inl refl)) λ _. inr (inr refl)

abbrev AfterOpen : ℕ × Kernel → Type 0
AfterOpen r = IsTable (current r.1).fd_entry

-- The loop returns a free descriptor of the ones it passes.
find_free-lt :
    (fds : ℕ → Descriptor) (n i fd : ℕ)
    → find_free fds n i ≡ some fd
    → (i ≤ fd) × (fd < i + n) × ((fds fd).flags ≡ 0)
unfolding find_free
find_free-lt fds zero i fd e = absurd (cc)
find_free-lt fds (suc n) i fd e = elim (Bool-cases ((fds i).flags == 0)) [
  | inl free ↦ ground arith
  | inr used ↦ ground (arith, find_free-lt fds n (suc i) fd)
]

-- It returns the first one that is free.
pub find_free-first :
    (fds : ℕ → Descriptor) (n i fd : ℕ)
    → i ≤ fd
    → fd < i + n
    → (fds fd).flags ≡ 0
    → ((j : ℕ) → i ≤ j → j < fd → (fds j).flags ≢ 0)
    → find_free fds n i ≡ some fd
unfolding find_free
find_free-first fds zero i fd low high free first = absurd (omega arith)
find_free-first fds (suc n) i fd low high free first = elim (ℕ_discrete i fd) [
  | yes same ↦ rw (same, eq_true free)
  | no other ↦ rw (eq_false (first i (omega arith) (omega arith))) (
      find_free-first fds n (suc i) fd (omega arith) (omega arith) free
        (λ j p q. first j (omega arith) q))
]

-- The successful branches put a sound descriptor in place.
opened_keeps :
    (b c : Bool) (k : Kernel) (fd : ℕ)
    → IsTable (current k).fd_entry
    → 2 ≤ fd
    → (log : List (ℕ × ℕ)) (e e' : Descriptor) → IsSound e
    → IsSound e'
    → AfterOpen
        (fd, set_descriptor (if b then record k { port_log = log } else k) fd (if c then e else e'))
opened_keeps true true k fd v low log e e' s s' =
    set_descriptor-IsTable (record k { port_log = log }) fd e v low s
opened_keeps true false k fd v low log e e' s s' =
    set_descriptor-IsTable (record k { port_log = log }) fd e' v low s'
opened_keeps false true k fd v low log e e' s s' = set_descriptor-IsTable k fd e v low s
opened_keeps false false k fd v low log e e' s s' = set_descriptor-IsTable k fd e' v low s'

open_at-IsTable :
    (k : Kernel) (filename : List ℕ) (fd : ℕ)
    → IsTable (current k).fd_entry
    → 2 ≤ fd
    → AfterOpen (open_at k filename fd)
unfolding open_at
open_at-IsTable k filename fd v low =
    let found = (read_dentry_by_name k.image filename local_dentry).1 in
    let retval = (read_dentry_by_name k.image filename local_dentry).0 in
    let type : ℕ = found.file_type in
    let is = driver_of-IsFileDriver type in
    if_intro AfterOpen (retval == failure) (λ _. set_descriptor-IsTable k fd _ v low (inl refl))
      λ _.
        if_intro AfterOpen (call_open (driver_of type) k filename == failure)
          (λ _. set_descriptor-IsTable k fd _ v low (inr (_, is, refl)))
          λ _.
            opened_keeps _ _ k fd v low _ _ _ (inr (driver_of type, is, refl))
              (inr (driver_of type, is, refl))

-- sys_open keeps a sound table sound, whatever the name and whether it succeeds or fails.
pub sys_open-IsTable :
    (k : Kernel) (filename : List ℕ)
    → IsTable (current k).fd_entry
    → IsTable (current (sys_open k filename).1).fd_entry
unfolding sys_open
sys_open-IsTable k filename v =
    if_intro AfterOpen (ltb 32 (strlen filename)) (λ _. v)
      λ _.
        if_intro AfterOpen (strlen filename == 0) (λ _. v)
          λ _. elim (Option-cases (find_free (k.pcbs k.current_process_idx).fd_entry 6 2)) [
            | inl full ↦ rw (full, sys_open) v
            | inr (fd, e) ↦
                rw (e, sys_open)
                  (open_at-IsTable k filename fd v (find_free-lt (current k).fd_entry 6 2 fd e).0)
          ]

-- The descriptor that a successful open of directory entry `i` makes.
unfoldable pub opened_as : Image → ℕ → Descriptor
opened_as img i = record {
  ops = all_ops (driver_of (entry_type img i));
  inode = if entry_type img i == 2 then entry_inode img i else 0;
  file_position = 0;
  flags = 1;
}

-- That entry `i` is the first that bears the name, and the name is one that the search accepts.
pub record Names (img : Image) (filename : List ℕ) (i : ℕ) : Type 0 where
  pub nonempty : 0 < strlen filename
  pub short : strlen filename ≤ 32
  pub entry : i < 63
  pub same : name_of filename ≡ name_of (entry_name img i)
  pub first : (m : ℕ) → m < i → name_of filename ≢ name_of (entry_name img m)

-- That `fd` is the lowest free descriptor of the running process.
pub record LowestFree (k : Kernel) (fd : ℕ) : Type 0 where
  pub low : 2 ≤ fd
  pub high : fd < 8
  pub free : (descriptor k fd).flags ≡ 0
  pub least : (j : ℕ) → 2 ≤ j → j < fd → (descriptor k j).flags ≢ 0

pub sys_close_lem :
    (k : Kernel) (fd : ℕ) (e : Descriptor)
    → 2 ≤ fd
    → fd < 8
    → descriptor k fd ≡ e
    → e.flags ≢ 0
    → call_close e.ops.close_op fd ≡ some 0
    → sys_close k fd ≡ returned (0, set_descriptor k fd closed)
unfolding sys_close
sys_close_lem k fd e low high is used ok = rw (is, upper, lt-bad_fd fd high, eq_false used, ok) refl
  where
    upper : (fd == 0 || fd == 1) ≡ false
    upper = ground arith
