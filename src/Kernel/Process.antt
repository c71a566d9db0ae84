-- ===== src/Kernel/Process.antt =====
-- sys_execute and sys_halt of student-distrib/syscalls.c. What printf shows is not kept.
pub mod Closing
pub mod Launch
pub mod Entering
pub mod Refusing
pub mod Halting
pub mod Restart
pub mod Exceptions
pub mod Forest
pub mod Slots
pub mod System
pub mod Ending
pub mod Tests
use illinix_os.Prelude.{
  ℕ, zero, suc, ◌+◌, ◌-◌, ◌*◌, ◌%◌, Bool, true, false, Option, none, some, List, [], ◌∷◌, ltb, ◌==◌,
  if◌then◌else◌, update,
}
use illinix_os.Prelude.Word.{u32, failure, add32, sub32}
use illinix_os.FileSys.Dentry.{read_dentry_by_name}
use illinix_os.FileSys.Data.{Buffer, read_data}
use illinix_os.Kernel.{Driver, terminal, Descriptor, Pcb, TerminalInfo, Kernel, current, descriptor}
use illinix_os.Kernel.Files.{local_dentry}
use illinix_os.Kernel.Syscalls.{Call, returned, waiting, fault, sys_close}

-- `while(*command != '\0') *command++ = '\0';`
unfoldable pub erase : List ℕ → List ℕ
erase [] = []
erase (c ∷ s) = if c == 0 then c ∷ s else 0 ∷ erase s

-- The local `mag_num_buf`. The code does not initialize it; a file of 28 bytes or more sets all that
-- is read of it.
abbrev pub mag_num_buf : Buffer
mag_num_buf i = 0

unfoldable pub has_magic : Buffer → Bool
has_magic buf =
    if buf 0 == 127
    then if buf 1 == 69 then if buf 2 == 76 then buf 3 == 70 else false else false
    else false

-- `((uint32_t*)buf)[6]`
unfoldable pub entry_point : Buffer → ℕ
entry_point buf = buf 24 + 256 * buf 25 + 65536 * buf 26 + 16777216 * buf 27

-- The loop over the process slots, with `n` rounds left at `i`.
unfoldable pub find_slot : (ℕ → ℕ) → ℕ → ℕ → Option ℕ
find_slot active zero i = none
find_slot active (suc n) i =
    let rest = find_slot active n (suc i) in if active i == 0 then some i else rest

-- The switch over the slot: USER_PROG_0 to USER_PROG_5.
unfoldable pub user_prog : ℕ → ℕ → ℕ
user_prog old zero = 2
user_prog old (suc zero) = 3
user_prog old (suc (suc zero)) = 4
user_prog old (suc (suc (suc zero))) = 5
user_prog old (suc (suc (suc (suc zero)))) = 6
user_prog old (suc (suc (suc (suc (suc zero))))) = 7
user_prog old _ = old

-- `(EIGHT_MB - pid * EIGHT_KB) - 4`
unfoldable pub stack_top : ℕ → ℕ
stack_top pid = sub32 8388608 ((8192 * pid + 4) % u32)

-- A free slot becomes the slot of a child of the running process, or of a shell with no parent.
unfoldable pub claim_slot : Kernel → ℕ → Kernel
claim_slot k pid = record k {
  num_active_processes = add32 k.num_active_processes 1;
  processes_active = update k.processes_active pid 1;
  pcbs = update k.pcbs pid (record (k.pcbs pid) {
    parent_pid = if k.no_parent_shell_flag == 0 then k.current_process_idx else failure;
  });
  no_parent_shell_flag = 0;
  user_page = user_prog k.user_page pid;
}

-- Standard input gets its read function and standard output its write function.
unfoldable pub standard_fds : (ℕ → Descriptor) → ℕ → Descriptor
standard_fds fds =
    let stdin = record (fds 0) { ops = record (fds 0).ops { read_op = terminal }; flags = 1 } in
    let stdout = record (fds 1) { ops = record (fds 1).ops { write_op = terminal }; flags = 1 } in
    update (update fds 0 stdin) 1 stdout

unfoldable pub start_pcb : Pcb → ℕ → ℕ → ℕ → Pcb
start_pcb p pid ebp esp = record p {
  pid = pid;
  ebp = ebp;
  esp = esp;
  fd_entry = standard_fds p.fd_entry;
}

-- The program is copied into the page that now stands at the user's addresses; a read that fails
-- only prints a message.
unfoldable pub load : Kernel → ℕ → ℕ → ℕ → ℕ → Kernel
load k inode pid ebp esp =
    let loaded = (read_data k.image inode 0 (k.program k.user_page) 4194304).1 in
    record k {
      program = update k.program k.user_page loaded;
      terminal_processes =
          update k.terminal_processes k.scheduled_terminal
            (record (k.terminal_processes k.scheduled_terminal) { active_process_pid = pid });
      pcbs = update k.pcbs pid (start_pcb (k.pcbs pid) pid ebp esp);
      current_process_idx = pid;
      esp0 = stack_top pid;
    }

-- The part of sys_execute after the executable has been checked.
unfoldable pub execute_checked : Kernel → ℕ → Buffer → ℕ → ℕ → Option ℕ × Kernel
execute_checked k inode header ebp esp = elim (find_slot k.processes_active 6 0) [
  | none ↦ (none, k)
  | some pid ↦ (some (entry_point header), load (claim_slot k pid) inode pid ebp esp)
]

-- `ebp` and `esp` are the registers on entry. The result is none where the call returns -1, and the
-- address at which the program is entered otherwise; with it go the command, which is erased once
-- its file is found, and the state.
unfoldable pub sys_execute : Kernel → List ℕ → ℕ → ℕ → Option ℕ × List ℕ × Kernel
unfolding execute_checked
sys_execute k command ebp esp =
    let (found_file, dentry) = read_dentry_by_name k.image command local_dentry in
    let (mag_num_check, header) = read_data k.image dentry.inode_number 0 mag_num_buf 30 in
    let (eip, k') = execute_checked k dentry.inode_number header ebp esp in
    if found_file == failure
    then (none, command, k)
    else if mag_num_check == failure
    then (none, erase command, k)
    else if has_magic header
    then (eip, erase command, k')
    else (none, erase command, k)

-- `for (i = 2; i < 8; i++)` of sys_halt, with `n` rounds left at `i`.
unfoldable pub close_all : ℕ → ℕ → Kernel → Call Kernel
close_all zero i k = returned k
close_all (suc n) i k =
    if (descriptor k i).flags == 1
    then elim (sys_close k i) [
      | returned r ↦ close_all n (suc i) r.1
      | waiting ↦ waiting
      | fault ↦ fault
    ]
    else close_all n (suc i) k

-- How sys_halt ends: it goes back to the frame that the parent's sys_execute saved, with a value in
-- %eax, or it has run sys_execute for a new shell.
pub data Halt : Type 0 where
  resumed : ℕ → ℕ → Kernel → Halt
  restarted : Option ℕ → Kernel → Halt

-- The parent's page, stack and terminal are put back.
unfoldable pub back_to : Kernel → ℕ → Kernel
unfolding update
back_to k parent =
    let t = k.terminal_processes k.scheduled_terminal in
    record k {
      user_page = add32 parent 2 % 1024;
      kb_idx = update k.kb_idx k.scheduled_terminal 0;
      setup = update k.setup k.scheduled_terminal 1;
      esp0 = stack_top parent;
      num_active_processes = sub32 k.num_active_processes 1;
      current_process_idx = parent;
      terminal_processes =
          update k.terminal_processes k.scheduled_terminal
            (record t { active_process_pid = parent; cursor_x = 7; togx = 7 });
      exception_flag = if k.exception_flag == 1 then 0 else k.exception_flag;
    }

-- The rest of sys_halt when the files are closed. `bl` is what the register %bl holds.
unfoldable pub leave : Kernel → ℕ → Halt
unfolding back_to
leave k bl =
    resumed (current k).ebp (if k.exception_flag == 1 then 256 else bl)
      (back_to k (current k).parent_pid)

-- "shell"
abbrev pub shell_name : List ℕ
shell_name = 115 ∷ 104 ∷ 101 ∷ 108 ∷ 108 ∷ []

-- The status that the call is given is not used: the value for %eax is read from %bl. `ebp` and
-- `esp` are the registers with which a new shell is started.
unfoldable pub sys_halt : Kernel → ℕ → ℕ → ℕ → Call Halt
unfolding leave close_all update
sys_halt k bl ebp esp =
    let freed = update k.processes_active k.current_process_idx 0 in
    let (eip, command, k') =
      sys_execute
        (record k {
          num_active_processes = sub32 k.num_active_processes 1;
          processes_active = freed;
          no_parent_shell_flag = 1;
        })
        shell_name ebp esp in
    if (current k).parent_pid == failure
    then returned (restarted eip k')
    else elim (close_all 6 2 (record k { processes_active = freed })) [
      | returned k1 ↦ returned (leave k1 bl)
      | waiting ↦ waiting
      | fault ↦ fault
    ]
