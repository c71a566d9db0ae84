-- ===== src/Kernel/Syscalls/OpenClose.antt =====
-- What sys_open leaves in the descriptor table by the type of the file, and that sys_close undoes it.
use illinix_os.Prelude.{
  ℕ, zero, suc, ◌≤◌, ◌<◌, ◌≡◌, ◌≢◌, inr, refl, ap, ◌∙◌, false, ◌||◌, some, List, ◌++◌, arith, ◌==◌,
  if◌then◌else◌, update, update_self, update_again, if_intro, eq_false,
}
use illinix_os.Prelude.Word.{failure}
use illinix_os.FileSys.Image.{entry_type, entry_inode}
use illinix_os.FileSys.Dentry.{fill_dentry, read_dentry_by_name}
use illinix_os.FileSys.Dentry.Names.{read_dentry_by_name-first}
use illinix_os.Rtc.{rtc_open}
use illinix_os.Kernel.{Kernel, current, descriptor, set_descriptor}
use illinix_os.Kernel.Files.{local_dentry, file_open, directory_open, open_as}
use illinix_os.Kernel.Syscalls.{
  returned, all_ops, closed, driver_of, call_open, open_at, sys_open, call_close, sys_close,
}
use illinix_os.Kernel.Syscalls.Table.{set_descriptor_lem, close_sound}
use illinix_os.Kernel.Syscalls.Open.{
  driver_of-IsFileDriver, find_free-first, opened_as, Names, LowestFree, sys_close_lem,
}

module _ (k : Kernel) (filename : List ℕ) (i fd : ℕ) (named : Names k.image filename i)
    (lowest : LowestFree k fd) where
  pub search :
      read_dentry_by_name k.image filename local_dentry ≡ (0, fill_dentry k.image i local_dentry)
  search =
      read_dentry_by_name-first k.image filename local_dentry i named.nonempty named.short
        named.entry named.same named.first

  sys_open-at : sys_open k filename ≡ open_at k filename fd
  unfolding sys_open
  sys_open-at =
      rw
        (find_free-first (current k).fd_entry 6 2 fd lowest.low lowest.high lowest.free
          lowest.least)
        (ground (arith, named.nonempty, named.short))

  open_as-found : (type : ℕ) → entry_type k.image i ≡ type → open_as type k filename ≡ 0
  unfolding open_as fill_dentry
  open_as-found type e = rw (search, e) (ground arith)

  opens :
      (type : ℕ)
      → entry_type k.image i ≡ type
      → type ≤ 2
      → call_open (driver_of type) k filename ≡ 0
  unfolding call_open file_open directory_open rtc_open
  opens zero e known = refl
  opens (suc zero) e known = open_as-found 1 e
  opens (suc (suc zero)) e known = open_as-found 2 e
  opens (suc (suc (suc type))) e known = absurd (omega arith)

  opened-eq :
      (type : ℕ)
      → entry_type k.image i ≡ type
      → type ≤ 2
      → (if type == 0 || type == 1
          then record { ops = all_ops (driver_of type); inode = 0; file_position = 0; flags = 1 }
          else record {
            ops = all_ops (driver_of type);
            inode = entry_inode k.image i;
            file_position = 0;
            flags = 1;
          })
        ≡ opened_as k.image i
  unfolding opened_as
  opened-eq zero e known = rw e refl
  opened-eq (suc zero) e known = rw e refl
  opened-eq (suc (suc zero)) e known = rw e refl
  opened-eq (suc (suc (suc type))) e known = absurd (omega arith)

  logged : Kernel
  logged =
      if entry_type k.image i == 0
      then record k { port_log = k.port_log ++ (rtc_open k.port_input).1 }
      else k

  open_at-opened :
      entry_type k.image i ≤ 2
      → open_at k filename fd ≡ (fd, set_descriptor logged fd (opened_as k.image i))
  unfolding open_at fill_dentry logged
  open_at-opened known =
      rw
        (
          search,
          opens (entry_type k.image i) refl known,
          opened-eq (entry_type k.image i) refl known,
        )
        refl

  logged_table : (current logged).fd_entry ≡ (current k).fd_entry
  unfolding logged
  logged_table =
      if_intro (λ (k' : Kernel). (current k').fd_entry ≡ (current k).fd_entry)
        (entry_type k.image i == 0) (λ _. refl) (λ _. refl)

  -- With a free descriptor, opening a name of 1 to 32 characters that a directory entry of type 0, 1
  -- or 2 is the first to bear returns the lowest free descriptor (not the 0 of the code's comment),
  -- fills that descriptor from the entry, at position 0, and changes no other one.
  pub sys_open-opens :
      entry_type k.image i ≤ 2
      → ((sys_open k filename).0 ≡ fd)
        × ((current (sys_open k filename).1).fd_entry
            ≡ update (current k).fd_entry fd (opened_as k.image i))
  sys_open-opens known =
      rw (sys_open-at, open_at-opened known, set_descriptor_lem, logged_table) (refl, refl)

  -- Opening a directory or a regular file only fills the descriptor.
  pub sys_open-eq :
      entry_type k.image i ≤ 2
      → entry_type k.image i ≢ 0
      → sys_open k filename ≡ (fd, set_descriptor k fd (opened_as k.image i))
  unfolding logged
  sys_open-eq known quiet =
      let not_clock : (entry_type k.image i == 0) ≡ false = eq_false quiet in
      sys_open-at
      ∙ (open_at-opened known
          ∙ ap
              (λ b. (
                fd,
                set_descriptor
                    (if b
                      then record k { port_log = k.port_log ++ (rtc_open k.port_input).1 }
                      else k)
                    fd (opened_as k.image i),
              ))
              not_clock)

  closes : call_close (opened_as k.image i).ops.close_op fd ≡ some 0
  unfolding opened_as
  closes =
      close_sound (opened_as k.image i) fd
        (inr (_, driver_of-IsFileDriver (entry_type k.image i), refl)) refl lowest.high

  opened_used : (opened_as k.image i).flags ≢ 0
  unfolding opened_as
  opened_used = omega arith

  -- After a successful open by the lowest free descriptor of a name that an entry of type 0, 1 or 2
  -- bears, closing that descriptor succeeds and leaves the table as it was before the open, but for
  -- the descriptor itself, which is free with its fields cleared.
  pub sys_open-close :
      entry_type k.image i ≤ 2
      → (k' : Kernel) × (sys_close (sys_open k filename).1 fd ≡ returned (0, k'))
        × ((current k').fd_entry ≡ update (current k).fd_entry fd closed)
  sys_open-close known =
      let k1 : Kernel = (sys_open k filename).1 in
      let table : (current k1).fd_entry ≡ update (current k).fd_entry fd (opened_as k.image i) =
        (sys_open-opens known).1 in
      (
        set_descriptor k1 fd closed,
        sys_close_lem k1 fd (opened_as k.image i) lowest.low lowest.high
            (ap (λ t. t fd) table ∙ update_self (current k).fd_entry fd _) opened_used closes,
        set_descriptor_lem k1 fd closed
            ∙ ap (λ t. update t fd closed) table
            ∙ update_again (current k).fd_entry fd _ closed,
      )

  open_as-wrong : entry_type k.image i ≢ 2 → open_as 2 k filename ≡ failure
  unfolding open_as fill_dentry
  open_as-wrong ne = rw (search, eq_false ne) refl

  fails :
      (type : ℕ)
      → entry_type k.image i ≡ type
      → 2 < type
      → call_open (driver_of type) k filename ≡ failure
  unfolding call_open file_open
  fails type e unknown = rw (not_clock, not_directory) (open_as-wrong (omega arith))
    where
      not_clock : (type == 0) ≡ false
      not_clock = ground arith

      not_directory : (type == 1) ≡ false
      not_directory = ground arith

  open_at-leaks :
      2 < entry_type k.image i
      → open_at k filename fd ≡ (
        failure,
        set_descriptor k fd (record {
          ops = all_ops (driver_of (entry_type k.image i));
          inode = 0;
          file_position = 0;
          flags = 1;
        }),
      )
  unfolding open_at fill_dentry
  open_at-leaks unknown = rw (search, fails (entry_type k.image i) refl unknown) refl

  -- For a name whose first entry has a type over 2, sys_open with a free descriptor fails, and the
  -- lowest free descriptor stays taken.
  pub sys_open_leaks :
      2 < entry_type k.image i
      → ((sys_open k filename).0 ≡ failure) × ((descriptor (sys_open k filename).1 fd).flags ≡ 1)
  sys_open_leaks unknown =
      rw (sys_open-at, open_at-leaks unknown, set_descriptor_lem, update_self) (refl, refl)
