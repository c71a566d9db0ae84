-- ===== src/Kernel/Process/Launch.antt =====
-- sys_execute of an executable file, and where it refuses.
use illinix_os.Prelude.{
  ℕ, zero, suc, ◌+◌, ◌-◌, ◌≤◌, ◌<◌, min, ◌≡◌, ◌≢◌, refl, ap, ◌∙◌, true, false, none, some, List,
  arith, ◌==◌, eq_true, eq_false, ℕ_discrete,
}
use illinix_os.Prelude.Word.{failure}
use illinix_os.FileSys.Image.{Image, entry_inode, length_in_bytes}
use illinix_os.FileSys.Dentry.{fill_dentry}
use illinix_os.FileSys.Dentry.Names.{read_dentry_by_name-first}
use illinix_os.FileSys.Data.{Buffer, read_data}
use illinix_os.FileSys.Data.Contents.{IsFile, file_byte, filled, read_data_lem}
use illinix_os.Kernel.{Kernel}
use illinix_os.Kernel.Files.{local_dentry}
use illinix_os.Kernel.Syscalls.Open.{Names}
use illinix_os.Kernel.Process.{
  erase, mag_num_buf, has_magic, entry_point, find_slot, claim_slot, load, execute_checked,
  sys_execute,
}

-- A sound file that begins with the four bytes of the ELF format and holds its entry point.
pub record IsExecutable (img : Image) (inode : ℕ) : Type 0 where
  pub file : IsFile img inode
  pub header : 28 ≤ length_in_bytes img inode
  pub byte0 : file_byte img inode 0 ≡ 127
  pub byte1 : file_byte img inode 1 ≡ 69
  pub byte2 : file_byte img inode 2 ≡ 76
  pub byte3 : file_byte img inode 3 ≡ 70

-- The word at byte 24 of the file.
abbrev pub entry_of : Image → ℕ → ℕ
entry_of img inode = entry_point (file_byte img inode)

-- That `pid` is the lowest free process slot.
pub record LowestSlot (k : Kernel) (pid : ℕ) : Type 0 where
  pub high : pid < 6
  pub free : k.processes_active pid ≡ 0
  pub least : (j : ℕ) → j < pid → k.processes_active j ≢ 0

find_slot-first :
    (active : ℕ → ℕ) (n i pid : ℕ)
    → i ≤ pid
    → pid < i + n
    → active pid ≡ 0
    → ((j : ℕ) → j < pid → active j ≢ 0)
    → find_slot active n i ≡ some pid
unfolding find_slot
find_slot-first active zero i pid low high free first = absurd (omega arith)
find_slot-first active (suc n) i pid low high free first = elim (ℕ_discrete i pid) [
  | yes same ↦ rw (same, eq_true free)
  | no other ↦
      rw (eq_false (first i (omega arith)))
        (find_slot-first active n (suc i) pid (omega arith) (omega arith) free first)
]

module _ (img : Image) (inode : ℕ) (exe : IsExecutable img inode) where
  abbrev header_buf : Buffer
  header_buf = (read_data img inode 0 mag_num_buf 30).1

  abbrev header_size : ℕ
  header_size = min 30 (length_in_bytes img inode - 0)

  header-read :
      read_data img inode 0 mag_num_buf 30
      ≡ (header_size, filled img inode 0 header_size 0 mag_num_buf)
  header-read =
      read_data_lem img inode 0 exe.file mag_num_buf 30 (omega arith) (omega arith) (omega arith)

  header-filled :
      (j : ℕ) → j < 28 → filled img inode 0 header_size 0 mag_num_buf j ≡ file_byte img inode j
  unfolding filled
  header-filled j h = ground (arith, exe.header)

  header-byte : (j : ℕ) → j < 28 → header_buf j ≡ file_byte img inode j
  header-byte j h = ap (λ (r : ℕ × Buffer). r.1 j) header-read ∙ header-filled j h

  header-valid : ((read_data img inode 0 mag_num_buf 30).0 == failure) ≡ false
  header-valid = rw header-read (ground (arith, exe.header))

  header-magic : has_magic header_buf ≡ true
  unfolding has_magic
  header-magic =
      rw
        (
          header-byte 0 (omega arith),
          header-byte 1 (omega arith),
          header-byte 2 (omega arith),
          header-byte 3 (omega arith),
          exe.byte0,
          exe.byte1,
          exe.byte2,
          exe.byte3,
        )
        refl

  header-entry : entry_point header_buf ≡ entry_of img inode
  unfolding entry_point
  header-entry =
      rw
        (
          header-byte 24 (omega arith),
          header-byte 25 (omega arith),
          header-byte 26 (omega arith),
          header-byte 27 (omega arith),
        )
        refl

execute_checked-slot :
    (k : Kernel) (inode pid : ℕ) (header : Buffer) (ebp esp : ℕ)
    → LowestSlot k pid
    → execute_checked k inode header ebp esp
      ≡ (some (entry_point header), load (claim_slot k pid) inode pid ebp esp)
unfolding execute_checked
execute_checked-slot k inode pid header ebp esp lowest =
    rw
      (
        find_slot-first k.processes_active 6 0 pid (omega arith) lowest.high lowest.free
            lowest.least,
        execute_checked,
      )
      refl

-- The command and the state that sys_execute leaves, as the code makes them.
pub sys_execute-load :
    (k : Kernel) (command : List ℕ) (ebp esp i pid : ℕ)
    → Names k.image command i
    → IsExecutable k.image (entry_inode k.image i)
    → LowestSlot k pid
    → sys_execute k command ebp esp ≡ (
      some (entry_of k.image (entry_inode k.image i)),
      erase command,
      load (claim_slot k pid) (entry_inode k.image i) pid ebp esp,
    )
unfolding sys_execute fill_dentry
sys_execute-load k command ebp esp i pid named exe lowest =
    let inode : ℕ = entry_inode k.image i in
    rw
      (
        read_dentry_by_name-first k.image command local_dentry i named.nonempty named.short
            named.entry named.same named.first,
        header-valid k.image inode exe,
        header-magic k.image inode exe,
        execute_checked-slot k inode pid (header_buf k.image inode exe) ebp esp lowest,
        header-entry k.image inode exe,
      )
      refl

find_slot-none :
    (active : ℕ → ℕ) (n i : ℕ) → ((j : ℕ) → j < i + n → active j ≢ 0) → find_slot active n i ≡ none
unfolding find_slot
find_slot-none active zero i used = refl
find_slot-none active (suc n) i used =
    rw (eq_false (used i (omega arith)))
      (find_slot-none active n (suc i) (λ j h. used j (omega arith)))

execute_checked-full :
    (k : Kernel) (inode : ℕ) (header : Buffer) (ebp esp : ℕ)
    → ((j : ℕ) → j < 6 → k.processes_active j ≢ 0)
    → execute_checked k inode header ebp esp ≡ (none, k)
unfolding execute_checked
execute_checked-full k inode header ebp esp used =
    rw (find_slot-none k.processes_active 6 0 (λ j h. used j (omega arith)), execute_checked) refl

-- With no free slot.
pub sys_execute-full :
    (k : Kernel) (command : List ℕ) (ebp esp i : ℕ)
    → Names k.image command i
    → IsExecutable k.image (entry_inode k.image i)
    → ((j : ℕ) → j < 6 → k.processes_active j ≢ 0)
    → sys_execute k command ebp esp ≡ (none, erase command, k)
unfolding sys_execute fill_dentry
sys_execute-full k command ebp esp i named exe used =
    let inode : ℕ = entry_inode k.image i in
    rw
      (
        read_dentry_by_name-first k.image command local_dentry i named.nonempty named.short
            named.entry named.same named.first,
        header-valid k.image inode exe,
        header-magic k.image inode exe,
        execute_checked-full k inode (header_buf k.image inode exe) ebp esp used,
      )
      refl
