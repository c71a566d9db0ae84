-- ===== src/Kernel/Syscalls.antt =====
-- sys_open, sys_close, sys_read and sys_write of student-distrib/syscalls.c, and the dispatch
-- through the function pointers of a descriptor.
pub mod Table
pub mod NoFault
pub mod Writes
pub mod Open
pub mod OpenClose
use illinix_os.Prelude.{
  ℕ, zero, suc, ◌+◌, ◌*◌, Bool, true, false, ◌||◌, Option, none, some, List, [], ◌∷◌, ◌++◌, ltb,
  ◌==◌, if◌then◌else◌, update,
}
use illinix_os.Prelude.Word.{failure, slt, sdiv, bad_fd}
use illinix_os.FileSys.Dentry.{strlen, read_dentry_by_name}
use illinix_os.FileSys.Image.{data_block, number_of_data_blocks}
use illinix_os.FileSys.Data.{Buffer, upperbound, rounds}
use illinix_os.Rtc.{rtc_open, rtc_close, rtc_read, rtc_write}
use illinix_os.Terminal.{pass_rounds, t_read, t_write}
use illinix_os.Kernel.{
  Driver, null, terminal, rtc, directory, file, FileOps, Descriptor, Kernel, descriptor,
  set_descriptor,
}
use illinix_os.Kernel.Files.{
  local_dentry, file_open, directory_open, file_close, file_read, directory_read,
}

-- A call that returns, one that still waits for an interrupt, and a processor fault.
pub data Call {ℓ} (A : Type ℓ) : Type ℓ where
  returned : A → Call A
  waiting : Call A
  fault : Call A

abbrev pub all_ops : Driver → FileOps
all_ops d = record { open_op = d; close_op = d; read_op = d; write_op = d }

abbrev pub closed : Descriptor
closed = record { ops = all_ops null; inode = 0; file_position = 0; flags = 0 }

-- `for (i = FD_START; i < FD_END; i++)`, with `n` rounds left at `i`.
unfoldable pub find_free : (ℕ → Descriptor) → ℕ → ℕ → Option ℕ
find_free fds zero i = none
find_free fds (suc n) i =
    let rest = find_free fds n (suc i) in if (fds i).flags == 0 then some i else rest

abbrev pub driver_of : ℕ → Driver
driver_of type = if type == 0 then rtc else if type == 1 then directory else file

-- The `open` function of a driver, given the name.
unfoldable pub call_open : Driver → Kernel → List ℕ → ℕ
call_open rtc k filename = (rtc_open k.port_input).0
call_open directory k filename = directory_open k filename
call_open _ k filename = file_open k filename

-- The part of sys_open after a free descriptor has been found.
unfoldable pub open_at : Kernel → List ℕ → ℕ → ℕ × Kernel
unfolding call_open
open_at k filename fd =
    let e = descriptor k fd in
    let claimed = record e { file_position = 0; inode = 0; flags = 1 } in
    let (retval, found) = read_dentry_by_name k.image filename local_dentry in
    let d = driver_of found.file_type in
    let ready = record claimed { ops = all_ops d } in
    let opened =
      if found.file_type == 0 || found.file_type == 1
      then ready
      else record ready { inode = found.inode_number } in
    if retval == failure
    then (failure, set_descriptor k fd (record claimed { flags = 0 }))
    else if call_open d k filename == failure
    then (failure, set_descriptor k fd ready)
    else (
      fd,
      set_descriptor
          (if found.file_type == 0
            then record k { port_log = k.port_log ++ (rtc_open k.port_input).1 }
            else k)
          fd opened,
    )

unfoldable pub sys_open : Kernel → List ℕ → ℕ × Kernel
unfolding open_at find_free
sys_open k filename =
    if ltb 32 (strlen filename)
    then (failure, k)
    else if strlen filename == 0
    then (failure, k)
    else elim (find_free (k.pcbs k.current_process_idx).fd_entry 6 2) [
      | none ↦ (failure, k)
      | some fd ↦ open_at k filename fd
    ]

-- The `close` function of a driver; a null pointer has no function to call.
unfoldable pub call_close : Driver → ℕ → Option ℕ
call_close null fd = none
call_close terminal fd = none
call_close rtc fd = some (rtc_close fd)
call_close _ fd = some (file_close fd)

unfoldable pub sys_close : Kernel → ℕ → Call (ℕ × Kernel)
sys_close k fd =
    if fd == 0 || fd == 1
    then returned (failure, k)
    else if bad_fd fd
    then returned (failure, k)
    else if (descriptor k fd).flags == 0
    then returned (failure, k)
    else elim (call_close (descriptor k fd).ops.close_op fd) [
      | none ↦ fault
      | some retval ↦
          if retval == failure
          then returned (failure, k)
          else returned (0, set_descriptor k fd closed)
    ]

-- What arrives while a call waits: `ticks` clock interrupts, and the states in which t_read finds the
-- keyboard buffer of the scheduled terminal.
pub record Arrivals : Type 0 where
  pub ticks : ℕ
  pub lines : List (Buffer × ℕ)

-- `rtc_read` and `t_read` on the kernel's state.
unfoldable pub read_rtc : Arrivals → Kernel → Buffer → Call (ℕ × Buffer × Kernel)
read_rtc a k buf = elim (rtc_read a.ticks k.scheduled_terminal k.rtc) [
  | none ↦ waiting
  | some (ret, r) ↦ returned (ret, buf, record k { rtc = r })
]

unfoldable pub read_line : Arrivals → Kernel → Buffer → ℕ → Call (ℕ × Buffer × Kernel)
unfolding update
read_line a k buf nbytes = elim (t_read a.lines nbytes buf k.get_args_buf) [
  | none ↦ waiting
  | some r ↦ returned (
    r.count,
    r.buf,
    record k {
      kb_buff = update k.kb_buff k.scheduled_terminal r.row;
      clear_screen_flag = update k.clear_screen_flag k.scheduled_terminal r.clear_flag;
      get_args_buf = r.get_args_buf;
      terminal_read_flag = update k.terminal_read_flag k.scheduled_terminal 0;
    },
  )
]

unfoldable pub call_read : Driver → Arrivals → Kernel → ℕ → Buffer → ℕ → Call (ℕ × Buffer × Kernel)
unfolding read_rtc read_line
call_read null a k fd buf nbytes = fault
call_read terminal a k fd buf nbytes = read_line a k buf nbytes
call_read rtc a k fd buf nbytes = read_rtc a k buf
call_read directory a k fd buf nbytes = returned (directory_read k fd buf nbytes)
call_read file a k fd buf nbytes = returned (file_read k fd buf nbytes)

-- The same with a null pointer for the buffer, which no driver tests: the first store through it
-- faults. t_read stores in its first pass over a line, if it has a round.
abbrev pub no_buffer : Buffer
no_buffer i = 0

unfoldable pub null_line : List (Buffer × ℕ) → ℕ → Call (ℕ × Buffer × Kernel)
null_line [] nbytes = waiting
null_line (line ∷ later) nbytes = if pass_rounds nbytes == 0 then waiting else fault

-- Whether file_read gets as far as to store a byte.
unfoldable pub stores_byte : Kernel → ℕ → ℕ → Bool
stores_byte k fd nbytes =
    let e = descriptor k fd in
    let upper = upperbound k.image e.inode e.file_position nbytes in
    let global = data_block k.image e.inode (sdiv e.file_position 4096) in
    if slt e.inode 0 || slt 64 e.inode
    then false
    else if nbytes == 0
    then false
    else if rounds e.file_position upper == 0
    then false
    else ltb global (number_of_data_blocks k.image)

unfoldable pub read_null : Driver → Arrivals → Kernel → ℕ → ℕ → Call (ℕ × Buffer × Kernel)
unfolding null_line stores_byte
read_null null a k fd nbytes = fault
read_null terminal a k fd nbytes = null_line a.lines nbytes
read_null rtc a k fd nbytes = read_rtc a k no_buffer
read_null directory a k fd nbytes =
    let r = directory_read k fd no_buffer nbytes in
    if r.0 == failure || r.0 == 0 then returned r else fault
read_null file a k fd nbytes =
    if stores_byte k fd nbytes then fault else returned (file_read k fd no_buffer nbytes)

-- A null buffer is `none`. What comes back for it as a buffer means nothing.
unfoldable pub read_into :
    Option Buffer → Driver → Arrivals → Kernel → ℕ → ℕ → Call (ℕ × Buffer × Kernel)
unfolding call_read read_null
read_into none d a k fd nbytes = read_null d a k fd nbytes
read_into (some buf) d a k fd nbytes = call_read d a k fd buf nbytes

abbrev pub given : Option Buffer → Buffer
given none = no_buffer
given (some buf) = buf

unfoldable pub sys_read : Arrivals → Kernel → ℕ → Option Buffer → ℕ → Call (ℕ × Buffer × Kernel)
unfolding read_into
sys_read a k fd buf nbytes =
    if fd == 1
    then returned (failure, given buf, k)
    else if bad_fd fd
    then returned (failure, given buf, k)
    else if (descriptor k fd).flags == 0
    then returned (failure, given buf, k)
    else read_into buf (descriptor k fd).ops.read_op a k fd nbytes

-- The `int32_t` at the start of a buffer.
abbrev pub first_word : Buffer → ℕ
first_word buf = buf 0 + 256 * buf 1 + 65536 * buf 2 + 16777216 * buf 3

unfoldable pub write_rtc : Kernel → Buffer → ℕ → Call (ℕ × Kernel)
write_rtc k buf nbytes = elim (rtc_write k.scheduled_terminal (first_word buf) nbytes k.rtc) [
  | none ↦ fault
  | some (ret, r) ↦ returned (ret, record k { rtc = r })
]

-- `file_write` and `directory_write` always fail. A null buffer is `none`; rtc_write then reads
-- address 0, which is not mapped, unless `nbytes` is not 4.
unfoldable pub call_write : Driver → Kernel → Option Buffer → ℕ → Call (ℕ × Kernel)
unfolding write_rtc
call_write null k buf nbytes = fault
call_write terminal k buf nbytes =
    let (ret, s) = t_write k.displayed_terminal k.scheduled_terminal buf nbytes k.screen in
    returned (ret, record k { screen = s })
call_write rtc k none nbytes = if nbytes == 4 then fault else returned (failure, k)
call_write rtc k (some buf) nbytes = write_rtc k buf nbytes
call_write directory k buf nbytes = returned (failure, k)
call_write file k buf nbytes = returned (failure, k)

unfoldable pub sys_write : Kernel → ℕ → Option Buffer → ℕ → Call (ℕ × Kernel)
sys_write k fd buf nbytes =
    if bad_fd fd
    then returned (failure, k)
    else if fd == 0
    then returned (failure, k)
    else if (descriptor k fd).flags == 0
    then returned (failure, k)
    else call_write (descriptor k fd).ops.write_op k buf nbytes
