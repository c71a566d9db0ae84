-- ===== src/Kernel/Process/Halting.antt =====
-- sys_halt of a process with a parent: it undoes sys_execute.
use illinix_os.Prelude.{
  ℕ, zero, suc, ◌+◌, ◌%◌, ◌<◌, ◌^◌, ◌≡◌, ◌≢◌, refl, sym, ap, ◌∙◌, arith, ◌==◌, if◌then◌else◌,
  update, update_self, update_ne, update_again, update_same, eq_true, eq_false,
}
use illinix_os.Prelude.Word.{failure, add32, sub32}
use illinix_os.Kernel.{Descriptor, Pcb, TerminalInfo, Kernel, current}
use illinix_os.Kernel.Syscalls.{returned}
use illinix_os.Kernel.Syscalls.Table.{IsTable}
use illinix_os.Kernel.Process.{
  claim_slot, load, start_pcb, standard_fds, stack_top, resumed, back_to, leave, user_prog,
  sys_halt,
}
use illinix_os.Kernel.Process.Closing.{with_table, ClosedFrom, close_all_lem}

-- The state with which the loop over the descriptors begins.
abbrev pub freed : Kernel → Kernel
freed k = record k { processes_active = update k.processes_active k.current_process_idx 0 }

-- A process with a parent and a sound descriptor table ends by going back to its parent, without a
-- fault: the table then is sound, none of its descriptors from 2 to 7 is in use, and 0 and 1 are as
-- they were.
pub sys_halt-closes :
    (k : Kernel) (bl ebp esp : ℕ)
    → (current k).parent_pid ≢ failure
    → IsTable (current k).fd_entry
    → (f : ℕ → Descriptor) × (sys_halt k bl ebp esp ≡ returned (leave (with_table (freed k) f) bl))
      × ClosedFrom 6 2 (current k).fd_entry f
unfolding sys_halt
sys_halt-closes k bl ebp esp child v =
    let (f, e, c) = close_all_lem 6 2 (freed k) (omega arith) (omega arith) v in
    (f, rw (eq_false child, e) refl, c)

-- The parent as it runs: its page, its kernel stack and its terminal are the ones in force.
pub record IsRunning (k : Kernel) : Type 0 where
  pub slot : k.current_process_idx < 6
  pub active : k.processes_active k.current_process_idx ≢ 0
  pub page : k.user_page ≡ k.current_process_idx + 2
  pub stack : k.esp0 ≡ stack_top k.current_process_idx
  pub shown : (k.terminal_processes k.scheduled_terminal).active_process_pid ≡ k.current_process_idx
  pub counted : k.num_active_processes < 2 ^ 32
  pub has_parent : k.no_parent_shell_flag ≡ 0

-- What the parent finds again when its child has ended.
pub record Restored (k k' : Kernel) : Type 0 where
  pub current_process_idx : k'.current_process_idx ≡ k.current_process_idx
  pub user_page : k'.user_page ≡ k.user_page
  pub esp0 : k'.esp0 ≡ k.esp0
  pub num_active_processes : k'.num_active_processes ≡ k.num_active_processes
  pub processes_active : k'.processes_active ≡ k.processes_active
  own_pcb : current k' ≡ current k
  own_program : k'.program k.user_page ≡ k.program k.user_page
  pub terminal_pid :
      (k'.terminal_processes k.scheduled_terminal).active_process_pid
      ≡ (k.terminal_processes k.scheduled_terminal).active_process_pid

-- The page of slot `n` is `n + 2`.
pub user_prog_lem : (old : ℕ) (n : ℕ) → n < 6 → user_prog old n ≡ n + 2
unfolding user_prog
user_prog_lem old zero h = refl
user_prog_lem old (suc zero) h = refl
user_prog_lem old (suc (suc zero)) h = refl
user_prog_lem old (suc (suc (suc zero))) h = refl
user_prog_lem old (suc (suc (suc (suc zero)))) h = refl
user_prog_lem old (suc (suc (suc (suc (suc zero))))) h = refl
user_prog_lem old (suc (suc (suc (suc (suc (suc n)))))) h = absurd (omega arith)

module _ (k : Kernel) (pid inode ebp esp : ℕ) (running : IsRunning k) (slot : pid < 6)
    (free : k.processes_active pid ≡ 0) (clean : IsTable (standard_fds (k.pcbs pid).fd_entry)) where
  -- The state in which the child starts.
  abbrev child : Kernel
  child = load (claim_slot k pid) inode pid ebp esp

  other_slot : pid ≢ k.current_process_idx
  other_slot e = running.active (ap k.processes_active (sym e) ∙ free)

  child_pcb :
      current child
      ≡ start_pcb (record (k.pcbs pid) { parent_pid = k.current_process_idx }) pid ebp esp
  unfolding load claim_slot
  child_pcb =
      rw (eq_true running.has_parent)
        (update_self _ pid _ ∙ ap (λ (q : Pcb). start_pcb q pid ebp esp) (update_self k.pcbs pid _))

  child_table : (current child).fd_entry ≡ standard_fds (k.pcbs pid).fd_entry
  unfolding start_pcb
  child_table = ap (λ (q : Pcb). q.fd_entry) child_pcb

  child_parent : (current child).parent_pid ≡ k.current_process_idx
  unfolding start_pcb
  child_parent = ap (λ (q : Pcb). q.parent_pid) child_pcb

  child_ebp : (current child).ebp ≡ ebp
  unfolding start_pcb
  child_ebp = ap (λ (q : Pcb). q.ebp) child_pcb

  -- The child with its files closed.
  abbrev closed_child : (ℕ → Descriptor) → Kernel
  closed_child f = with_table (freed child) f

  closed_pcb :
      (f : ℕ → Descriptor) → current (closed_child f) ≡ record (current child) { fd_entry = f }
  unfolding with_table load
  closed_pcb f = update_self (freed child).pcbs pid _

  leave_child :
      (f : ℕ → Descriptor) (bl : ℕ)
      → leave (closed_child f) bl
        ≡ resumed ebp
            (if k.exception_flag == 1 then 256 else bl)
            (back_to (closed_child f) k.current_process_idx)
  unfolding leave with_table load claim_slot
  leave_child f bl =
      let value : ℕ = if k.exception_flag == 1 then 256 else bl in
      ap (λ (q : Pcb). resumed q.ebp value (back_to (closed_child f) q.parent_pid)) (closed_pcb f)
      ∙ ap (λ (n : ℕ). resumed n value (back_to (closed_child f) (current child).parent_pid))
          child_ebp
      ∙ ap (λ (n : ℕ). resumed ebp value (back_to (closed_child f) n)) child_parent

  parent_slot : k.current_process_idx ≢ pid
  parent_slot e = other_slot (sym e)

  kept_pcb : child.pcbs k.current_process_idx ≡ k.pcbs k.current_process_idx
  unfolding load claim_slot
  kept_pcb =
      update_ne (claim_slot k pid).pcbs pid k.current_process_idx _ parent_slot
      ∙ update_ne k.pcbs pid k.current_process_idx _ parent_slot

  other_page : k.user_page ≢ user_prog k.user_page pid
  other_page e = parent_slot (omega (arith, e, user_prog_lem k.user_page pid slot, running.page))

  running_page : add32 k.current_process_idx 2 % 1024 ≡ k.user_page
  running_page = omega (arith, running.page, running.slot)

  counts : sub32 (add32 k.num_active_processes 1) 1 ≡ k.num_active_processes
  counts = omega (arith, running.counted)

  restored : (f : ℕ → Descriptor) → Restored k (back_to (closed_child f) k.current_process_idx)
  unfolding back_to with_table load claim_slot
  restored f = record {
    current_process_idx = refl;
    user_page = running_page;
    esp0 = sym running.stack;
    num_active_processes = counts;
    processes_active =
        update_again k.processes_active pid 1 0
        ∙ ap (update k.processes_active pid) (sym free)
        ∙ update_same k.processes_active pid;
    own_pcb =
        update_ne child.pcbs pid k.current_process_idx (record (current child) { fd_entry = f })
          parent_slot
        ∙ kept_pcb;
    own_program = update_ne k.program _ k.user_page _ other_page;
    terminal_pid =
        ap (λ (t : TerminalInfo). t.active_process_pid)
          (update_self child.terminal_processes k.scheduled_terminal _)
        ∙ sym running.shown;
  }

  child_returns : (current child).parent_pid ≢ failure
  child_returns e = absurd (omega (arith, e, child_parent, running.slot))

  -- A running process starts a child in a free slot whose descriptors are sound, and the child ends
  -- in the state in which it was started. Then the call does not fault, the parent has back its
  -- process number, page, kernel stack, terminal, block and memory, the slot is free again, and
  -- control is at the frame that sys_execute saved, with the value of %bl, or 256 after an
  -- exception, in %eax.
  pub sys_execute-halt :
      (bl ebp' esp' : ℕ)
      → (k' : Kernel) × (sys_halt child bl ebp' esp'
          ≡ returned (resumed ebp (if k.exception_flag == 1 then 256 else bl) k'))
        × Restored k k'
  sys_execute-halt bl ebp' esp' =
      let (f, e, c) = sys_halt-closes child bl ebp' esp' child_returns (rw child_table clean) in
      (
        back_to (closed_child f) k.current_process_idx,
        e ∙ ap returned (leave_child f bl),
        restored f,
      )
