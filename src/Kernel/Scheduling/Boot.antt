-- ===== src/Kernel/Scheduling/Boot.antt =====
-- The first three timer interrupts start a shell on each terminal.
use illinix_os.Prelude.{
  ℕ, suc, ◌<◌, ◌≡◌, refl, ap, ◌∙◌, true, arith, update_self, update_ne, update, ℕ_discrete,
}
use illinix_os.Prelude.Word.{failure, slt}
use illinix_os.FileSys.Image.{entry_inode}
use illinix_os.Kernel.{Kernel, Pcb, TerminalInfo, current}
use illinix_os.Kernel.Syscalls.Open.{Names}
use illinix_os.Kernel.Process.{claim_slot, load, start_pcb, shell_name}
use illinix_os.Kernel.Process.Launch.{IsExecutable, LowestSlot, entry_of, sys_execute-load}
use illinix_os.Kernel.Scheduling.{enter, save_frame, claim_terminal, after_execute, pit_handler}

module _ (k : Kernel) (ebp esp pid inode : ℕ) where
  abbrev pub claimed : Kernel
  claimed = claim_terminal (save_frame ebp k)

  abbrev pub started : Kernel
  started = load (claim_slot claimed pid) inode pid ebp esp

  started_pcb :
      current started ≡ start_pcb (record (k.pcbs pid) { parent_pid = failure }) pid ebp esp
  unfolding load claim_slot claim_terminal save_frame
  started_pcb =
      update_self (claim_slot claimed pid).pcbs pid _
      ∙ ap (λ (q : Pcb). start_pcb q pid ebp esp) (update_self k.pcbs pid _)

  started_parent : (current started).parent_pid ≡ failure
  unfolding start_pcb
  started_parent = ap (λ (q : Pcb). q.parent_pid) started_pcb

  started_active : (started.terminal_processes k.shell_count).active_process_pid ≡ pid
  unfolding load claim_slot claim_terminal save_frame
  started_active =
      ap (λ (t : TerminalInfo). t.active_process_pid)
        (update_self claimed.terminal_processes k.shell_count
          (record (claimed.terminal_processes k.shell_count) { active_process_pid = pid }))

  started_frame : (started.terminal_processes k.scheduled_terminal).ebp_save ≡ ebp
  unfolding load claim_slot claim_terminal save_frame update
  started_frame = elim (ℕ_discrete k.scheduled_terminal k.shell_count) [
    | yes same ↦ rw same (ground arith)
    | no ne ↦
        ap (λ (t : TerminalInfo). t.ebp_save)
          (update_ne claimed.terminal_processes k.shell_count k.scheduled_terminal _ ne
            ∙ update_ne (save_frame ebp k).terminal_processes k.shell_count k.scheduled_terminal _
                ne
            ∙ update_self k.terminal_processes k.scheduled_terminal _)
  ]

-- The entry into the shell, the first shell included.
pub pit_handler-enters :
    (k : Kernel) (ebp esp i pid : ℕ)
    → k.shell_count < 3
    → Names k.image shell_name i
    → IsExecutable k.image (entry_inode k.image i)
    → LowestSlot k pid
    → pit_handler ebp esp k
      ≡ enter
          (entry_of k.image (entry_inode k.image i))
          (started k ebp esp pid (entry_inode k.image i))
unfolding pit_handler after_execute claim_terminal save_frame
pit_handler-enters k ebp esp i pid low named exe lowest =
    rw
      (
        few,
        sys_execute-load (claimed k ebp esp pid (entry_inode k.image i)) shell_name ebp esp i pid
            named exe (record { high = lowest.high; free = lowest.free; least = lowest.least }),
      )
      refl
  where
    few : slt k.shell_count 3 ≡ true
    few = ground arith

-- While fewer than three shells have been started, the file system has the shell as an executable
-- file and a process slot is free, a timer interrupt starts a shell with no parent in the lowest
-- free slot, on the terminal that comes next: that one is scheduled, its active process is the new
-- shell, which is running, and the frame of the terminal that was interrupted is saved, at the first
-- interrupt too, which comes on the terminal that it gives a shell.
pub pit_handler-starts :
    (k : Kernel) (ebp esp i pid : ℕ)
    → k.shell_count < 3
    → Names k.image shell_name i
    → IsExecutable k.image (entry_inode k.image i)
    → LowestSlot k pid
    → (k' : Kernel) × (pit_handler ebp esp k ≡ enter (entry_of k.image (entry_inode k.image i)) k')
      × (k'.shell_count ≡ suc k.shell_count)
      × (k'.scheduled_terminal ≡ k.shell_count)
      × (k'.current_process_idx ≡ pid)
      × ((current k').parent_pid ≡ failure)
      × ((k'.terminal_processes k.shell_count).active_process_pid ≡ pid)
      × ((k'.terminal_processes k.scheduled_terminal).ebp_save ≡ ebp)
unfolding pit_handler after_execute claim_terminal save_frame load claim_slot
pit_handler-starts k ebp esp i pid low named exe lowest =
    let inode : ℕ = entry_inode k.image i in
    (
      started k ebp esp pid inode,
      pit_handler-enters k ebp esp i pid low named exe lowest,
      omega arith,
      refl,
      refl,
      started_parent k ebp esp pid inode,
      started_active k ebp esp pid inode,
      started_frame k ebp esp pid inode,
    )
