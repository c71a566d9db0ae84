-- ===== src/Kernel/Running/Tests.antt =====
-- A machine that has just started, with the shell in its file system.
use illinix_os.Prelude.{
  some, ℕ, zero, suc, ◌≤◌, sym, ap, List, Option, update, ◌≡◌, ◌≢◌, refl, arith, ◌==◌,
  if◌then◌else◌,
}
use illinix_os.Prelude.Word.{failure}
use illinix_os.FileSys.Data.{Buffer}
use illinix_os.FileSys.Image.{entry_inode}
use illinix_os.FileSys.Tests.{image, shell}
use illinix_os.Kernel.{Kernel, current}
use illinix_os.Kernel.Syscalls.{fault, returned, closed, Arrivals, sys_close, sys_read}
use illinix_os.Kernel.Process.{claim_slot, load, start_pcb, resumed, sys_halt}
use illinix_os.Kernel.Process.Launch.{LowestSlot, entry_of, sys_execute-load}
use illinix_os.Kernel.Process.System.{IsSystem}
use illinix_os.Kernel.Process.Tests.{exe}
use illinix_os.Kernel.Scheduling.{claim_terminal, save_frame}
use illinix_os.Kernel.Scheduling.Boot.{started, pit_handler-enters}
use illinix_os.Kernel.Running.Steps.{executed}
use illinix_os.Kernel.Running.Reach.{
  IsFresh, Reach, first, next, Reach-IsSystem, Reach-halts, Reach-ne-fault,
}
use illinix_os.Kernel.Tests.{table, machine, shell-Names}

abbrev fresh : Kernel
fresh = record (machine (image 2 1) failure closed) {
  shell_count = 0;
  processes_active = λ i. 0;
  num_active_processes = 0;
}

no_files : (j : ℕ) → 2 ≤ j → (table closed j).flags ≡ 0
no_files zero h = absurd (omega arith)
no_files (suc zero) h = absurd (omega arith)
no_files (suc (suc zero)) h = refl
no_files (suc (suc (suc j))) h = refl

fresh-IsFresh : IsFresh fresh
fresh-IsFresh = record {
  no_shell = refl;
  no_process = λ i h. refl;
  none_counted = refl;
  unused = λ i j h low high. no_files j low;
}

-- The first shell runs.
abbrev first_shell : Kernel
first_shell = started fresh 100 90 0 (entry_inode (image 2 1) 0)

first_shell-Reach : Reach fresh first_shell
first_shell-Reach = first 100 90 (entry_of (image 2 1) (entry_inode (image 2 1) 0)) (
    pit_handler-enters fresh 100 90 0 0 (omega arith) (shell-Names 2) exe
      (record { high = omega arith; free = refl; least = λ j h. absurd (omega arith) }))

-- It has started another shell as its child.
abbrev child_shell : Kernel
child_shell = load (claim_slot first_shell 1) (entry_inode (image 2 1) 0) 1 80 70

slot_one : LowestSlot first_shell 1
unfolding load claim_slot claim_terminal save_frame update
slot_one = record { high = omega arith; free = refl; least = λ j h. ground arith }

child_shell-Reach : Reach fresh child_shell
unfolding load claim_slot claim_terminal save_frame
child_shell-Reach =
    let entered = sys_execute-load first_shell shell 80 70 0 1 (shell-Names 2) exe slot_one in
    next first_shell-Reach (
      executed shell 80 70 (entry_of (image 2 1) (entry_inode (image 2 1) 0))
        (ap (λ (r : Option ℕ × List ℕ × Kernel). r.0) entered)
        (sym (ap (λ (r : Option ℕ × List ℕ × Kernel). r.2) entered)))

Reach-IsSystem_example : IsSystem child_shell
Reach-IsSystem_example = Reach-IsSystem fresh fresh-IsFresh child_shell-Reach

Reach-ne-fault_example :
    (sys_close child_shell 5 ≢ fault)
    × ((a : Arrivals) (buf : Buffer) (nbytes : ℕ)
        → sys_read a child_shell 5 (some buf) nbytes ≢ fault)
    × ((bl ebp esp : ℕ) → sys_halt child_shell bl ebp esp ≢ fault)
Reach-ne-fault_example = Reach-ne-fault fresh fresh-IsFresh child_shell-Reach 5 (omega arith)

-- The child has a parent, the first shell.
is_child : (current child_shell).parent_pid ≢ failure
unfolding load claim_slot claim_terminal save_frame start_pcb update
is_child h = omega (arith, h)

Reach-halts_example :
    (k' : Kernel) × (sys_halt child_shell 7 60 50
      ≡ returned (
          resumed
            (current child_shell).ebp
            (if child_shell.exception_flag == 1 then 256 else 7)
            k'))
    × (k'.current_process_idx ≡ (current child_shell).parent_pid)
    × (k'.processes_active (current child_shell).parent_pid ≢ 0)
    × Reach fresh k'
Reach-halts_example = Reach-halts fresh fresh-IsFresh child_shell-Reach 7 60 50 is_child
