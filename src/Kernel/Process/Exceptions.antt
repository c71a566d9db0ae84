-- ===== src/Kernel/Process/Exceptions.antt =====
-- The exception handlers of student-distrib/idt.c.
use illinix_os.Prelude.{
  ℕ, ◌<◌, ◌≡◌, ◌≢◌, refl, ap, ◌∙◌, some, List, [], ltb, ◌==◌, if◌then◌else◌, update_self, eq_true,
}
use illinix_os.Prelude.Text.{bytes_of}
use illinix_os.Prelude.Word.{failure}
use illinix_os.Screen.Print.{printf}
use illinix_os.FileSys.Image.{entry_inode}
use illinix_os.Kernel.{Pcb, Kernel, Descriptor, current}
use illinix_os.Kernel.Syscalls.{Call, returned}
use illinix_os.Kernel.Syscalls.Table.{IsTable}
use illinix_os.Kernel.Syscalls.Open.{Names}
use illinix_os.Kernel.Process.{Halt, resumed, restarted, back_to, leave, shell_name, sys_halt}
use illinix_os.Kernel.Process.Closing.{with_table}
use illinix_os.Kernel.Process.Launch.{IsExecutable, entry_of}
use illinix_os.Kernel.Process.Halting.{freed, sys_halt-closes}
use illinix_os.Kernel.Process.Restart.{sys_halt-restarts}

-- The messages of the handlers of the exceptions 0 to 9, and of those from 10 on.
unfoldable pub first_message : ℕ → List ℕ
first_message n =
    if n == 0
    then bytes_of "\n EXCEPTION 0: A DIVIDE BY ZERO EXCEPTION HAS OCCURED \n"
    else if n == 1
    then bytes_of "\n EXCEPTION 1: A DEBUG EXCEPTION HAS OCCURED \n"
    else if n == 2
    then bytes_of "\n EXCEPTION 2: A NON-MASKABLE INTERRUPT EXCEPTION HAS OCCURED \n"
    else if n == 3
    then bytes_of "\n EXCEPTION 3: A BREAKPOINT EXCEPTION HAS OCCURED \n"
    else if n == 4
    then bytes_of "\n EXCEPTION 4: AN OVERFLOW EXCEPTION HAS OCCURED \n"
    else if n == 5
    then bytes_of "\n EXCEPTION 5: A BOUND RANGE EXCEEDED EXCEPTION HAS OCCURED \n"
    else if n == 6
    then bytes_of "\n EXCEPTION 6: AN INVALID OPCODE EXCEPTION HAS OCCURED \n"
    else if n == 7
    then bytes_of "\n EXCEPTION 7: A DEVICE NOT AVAILABLE EXCEPTION HAS OCCURED \n"
    else if n == 8
    then bytes_of "\n EXCEPTION 8: A DOUBLE FAULT EXCEPTION HAS OCCURED \n"
    else if n == 9
    then bytes_of "\n EXCEPTION 9: A SUSPICIOUS ERROR HAS OCCURED \n"
    else []

unfoldable pub last_message : ℕ → List ℕ
last_message n =
    if n == 10
    then bytes_of "\n EXCEPTION 10:INVALID TSS EXCEPTION HAS OCCURED \n"
    else if n == 11
    then bytes_of "\n EXCEPTION 11: SEGMENT NOT PRESENT EXCEPTION HAS OCCURED \n"
    else if n == 12
    then bytes_of "\n EXCEPTION 12: Stack Segment EXCEPTION HAS OCCURED \n"
    else if n == 13
    then bytes_of "\n EXCEPTION 13: General Protection Fault EXCEPTION HAS OCCURED \n"
    else if n == 14
    then bytes_of "\n EXCEPTION 14: Page Fault EXCEPTION HAS OCCURED \n"
    else if n == 15
    then bytes_of "\n EXCEPTION 15: Reserved EXCEPTION HAS OCCURED \n"
    else if n == 16
    then bytes_of "\n EXCEPTION 16: x87 Floating point EXCEPTION HAS OCCURED \n"
    else if n == 17
    then bytes_of "\n EXCEPTION 17: Alignment Check EXCEPTION HAS OCCURED \n"
    else if n == 18
    then bytes_of "\n EXCEPTION 18: Machine Check EXCEPTION HAS OCCURED \n"
    else if n == 19
    then bytes_of "\n EXCEPTION 19: SIMD Floating Point EXCEPTION HAS OCCURED \n"
    else []

-- The message of each of the twenty handlers.
unfoldable pub exception_message : ℕ → List ℕ
exception_message n = if ltb n 10 then first_message n else last_message n

-- The screen after a message for the running terminal. The formats take no words and no strings.
unfoldable pub print : List ℕ → Kernel → Kernel
print format k = record k {
  screen = (printf k.displayed_terminal k.scheduled_terminal (λ a. []) (λ i. 0) format k.screen).1;
}

-- `exec_handler0` to `exec_handler19`, by their number. `bl`, `ebp` and `esp` are the registers that
-- sys_halt and the shell that it may start find.
unfoldable pub exec_handler : ℕ → Kernel → ℕ → ℕ → ℕ → Call Halt
exec_handler n k bl ebp esp =
    sys_halt (record (print (exception_message n) k) { exception_flag = 1 }) bl ebp esp

module _ (k : Kernel) (f : ℕ → Descriptor) where
  -- The program with its files closed.
  abbrev closed_program : Kernel
  closed_program = with_table (freed k) f

  closed_pcb : current closed_program ≡ record (current k) { fd_entry = f }
  unfolding with_table
  closed_pcb = update_self (freed k).pcbs k.current_process_idx _

  leave-exception :
      (bl : ℕ)
      → k.exception_flag ≡ 1
      → leave closed_program bl
        ≡ resumed (current k).ebp 256 (back_to closed_program (current k).parent_pid)
  unfolding leave with_table
  leave-exception bl pending =
      ap
        (λ b.
          resumed (current closed_program).ebp (if b then 256 else bl)
            (back_to closed_program (current closed_program).parent_pid))
        (eq_true pending)
      ∙ (ap (λ (q : Pcb). resumed q.ebp 256 (back_to closed_program q.parent_pid)) closed_pcb)

  back_to-exception :
      k.exception_flag ≡ 1
      → ((back_to closed_program (current k).parent_pid).processes_active k.current_process_idx ≡ 0)
        × ((back_to closed_program (current k).parent_pid).exception_flag ≡ 0)
  unfolding back_to with_table
  back_to-exception pending =
      (update_self k.processes_active k.current_process_idx 0, rw (eq_true pending) refl)

-- An exception in a program with a parent and a sound descriptor table ends the program: whatever
-- the exception and the registers, control goes to the frame that the parent's sys_execute saved,
-- which gets 256; the parent is the running process again, the program's slot is free, and no
-- exception is pending.
pub exec_handler-returns :
    (n : ℕ) (k : Kernel) (bl ebp esp : ℕ)
    → (current k).parent_pid ≢ failure
    → IsTable (current k).fd_entry
    → (k' : Kernel) × (exec_handler n k bl ebp esp ≡ returned (resumed (current k).ebp 256 k'))
      × (k'.current_process_idx ≡ (current k).parent_pid)
      × (k'.processes_active k.current_process_idx ≡ 0)
      × (k'.exception_flag ≡ 0)
unfolding exec_handler print back_to
exec_handler-returns n k bl ebp esp child v =
    let k1 : Kernel = record (print (exception_message n) k) { exception_flag = 1 } in
    let (f, e, c) = sys_halt-closes k1 bl ebp esp child v in
    let (free, none_pending) = back_to-exception k1 f refl in
    (
      back_to (closed_program k1 f) (current k).parent_pid,
      e ∙ ap returned (leave-exception k1 f bl refl),
      refl,
      free,
      none_pending,
    )

-- An exception in a shell with no parent starts a new shell in its place, under the conditions of
-- an ordinary restart, but leaves the flag set.
pub exec_handler-restarts :
    (n : ℕ) (k : Kernel) (bl ebp esp i : ℕ)
    → (current k).parent_pid ≡ failure
    → k.current_process_idx < 6
    → ((j : ℕ) → j < k.current_process_idx → k.processes_active j ≢ 0)
    → Names k.image shell_name i
    → IsExecutable k.image (entry_inode k.image i)
    → (k' : Kernel) × (exec_handler n k bl ebp esp
        ≡ returned (restarted (some (entry_of k.image (entry_inode k.image i))) k'))
      × (k'.current_process_idx ≡ k.current_process_idx)
      × (k'.exception_flag ≡ 1)
unfolding exec_handler print
exec_handler-restarts n k bl ebp esp i root low least named exe =
    let k1 : Kernel = record (print (exception_message n) k) { exception_flag = 1 } in
    let (k', e, same, parent, files, flag) =
      sys_halt-restarts k1 bl ebp esp i root low least named exe in
    (k', e, same, flag)
