-- ===== src/Kernel/Files.antt =====
-- The file and directory drivers of student-distrib/file_sys_driver.c.
pub mod Reads
use illinix_os.Prelude.{
  ℕ, zero, suc, ◌+◌, ◌-◌, ◌*◌, ◌/◌, ◌%◌, ◌^◌, Bool, true, false, ◌||◌, List, ltb, ◌==◌,
  if◌then◌else◌, update, replicate,
}
use illinix_os.Prelude.Word.{failure, add32, slt, bad_fd}
use illinix_os.FileSys.Dentry.{Dentry, char_at, read_dentry_by_name, read_dentry_by_index}
use illinix_os.FileSys.Data.{Buffer, read_data}
use illinix_os.Kernel.{Kernel, Descriptor, descriptor, set_descriptor}

-- A local `dentry_struct_t`. The code does not initialize it; it reads what a search has set.
abbrev pub local_dentry : Dentry
local_dentry = record { file_name = replicate 32 0; file_type = 0; inode_number = 0 }

unfoldable pub open_as : ℕ → Kernel → List ℕ → ℕ
open_as type k filename =
    let (err_code, opened_file) = read_dentry_by_name k.image filename local_dentry in
    if err_code == failure then failure else if opened_file.file_type == type then 0 else failure

-- `file_open` wants a regular file and `directory_open` a directory.
unfoldable pub file_open : Kernel → List ℕ → ℕ
unfolding open_as
file_open k filename = open_as 2 k filename

unfoldable pub directory_open : Kernel → List ℕ → ℕ
unfolding open_as
directory_open k filename = open_as 1 k filename

-- `file_close` and `directory_close`.
unfoldable pub file_close : ℕ → ℕ
file_close fd = if bad_fd fd then failure else 0

unfoldable pub file_read : Kernel → ℕ → Buffer → ℕ → ℕ × Buffer × Kernel
file_read k fd buf nbytes =
    let e = descriptor k fd in
    let (retval, buf') = read_data k.image e.inode e.file_position buf nbytes in
    if slt e.inode 0 || slt 64 e.inode
    then (failure, buf, k)
    else if nbytes == 0
    then (failure, buf, k)
    else if retval == failure
    then (failure, buf', k)
    else (
      retval,
      buf',
      set_descriptor k fd (record e { file_position = add32 e.file_position retval }),
    )

-- `dentry.file_name[i]`: from index 32 on these are the bytes of the file type and of the inode
-- number, which follow the name in the structure, and then zeros.
unfoldable pub name_byte : Dentry → ℕ → ℕ
name_byte d i =
    if ltb i 32
    then char_at d.file_name i
    else if ltb i 36
    then d.file_type / 256 ^ (i - 32) % 256
    else if ltb i 40
    then d.inode_number / 256 ^ (i - 36) % 256
    else 0

-- The loop of directory_read, with `n` rounds left at index `i`.
unfoldable pub copy_name : ℕ → ℕ → Dentry → Buffer → ℕ × Buffer
unfolding name_byte update
copy_name zero i d buf = (i, buf)
copy_name (suc n) i d buf =
    let rest = copy_name n (suc i) d (update buf i (name_byte d i)) in
    if name_byte d i == 0 then (i, buf) else rest

unfoldable pub directory_read : Kernel → ℕ → Buffer → ℕ → ℕ × Buffer × Kernel
unfolding copy_name
directory_read k fd buf nbytes =
    let e = descriptor k fd in
    let (retval, dentry) = read_dentry_by_index k.image e.file_position local_dentry in
    let (i, buf') = copy_name nbytes 0 dentry buf in
    if retval == failure
    then (failure, buf, k)
    else (i, buf', set_descriptor k fd (record e { file_position = add32 e.file_position 1 }))
