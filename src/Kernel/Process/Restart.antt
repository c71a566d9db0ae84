-- ===== src/Kernel/Process/Restart.antt =====
-- sys_halt of a shell with no parent: it starts a new shell in its place.
use illinix_os.Prelude.{
  ℕ, ◌≤◌, ◌<◌, ◌≡◌, ◌≢◌, refl, ap, ◌∙◌, some, arith, update, update_self, update_ne, eq_true,
}
use illinix_os.Prelude.Word.{failure, sub32}
use illinix_os.FileSys.Image.{entry_inode}
use illinix_os.Kernel.{Pcb, Kernel, current, descriptor}
use illinix_os.Kernel.Syscalls.{returned}
use illinix_os.Kernel.Syscalls.Open.{Names}
use illinix_os.Kernel.Process.{
  claim_slot, load, start_pcb, standard_fds, restarted, shell_name, sys_halt,
}
use illinix_os.Kernel.Process.Launch.{IsExecutable, LowestSlot, entry_of, sys_execute-load}

-- The state in which sys_halt runs sys_execute.
abbrev pub ended : Kernel → Kernel
ended k = record k {
  num_active_processes = sub32 k.num_active_processes 1;
  processes_active = update k.processes_active k.current_process_idx 0;
  no_parent_shell_flag = 1;
}

module _ (k : Kernel) (ebp esp inode : ℕ) where
  -- The state in which the new shell starts.
  abbrev new_shell : Kernel
  new_shell = load (claim_slot (ended k) k.current_process_idx) inode k.current_process_idx ebp esp

  new_pcb :
      current new_shell
      ≡ start_pcb (record (current k) { parent_pid = failure }) k.current_process_idx ebp esp
  unfolding load claim_slot
  new_pcb =
      update_self _ k.current_process_idx _
      ∙ ap (λ (q : Pcb). start_pcb q k.current_process_idx ebp esp)
          (update_self k.pcbs k.current_process_idx _)

  new_parent : (current new_shell).parent_pid ≡ failure
  unfolding start_pcb
  new_parent = ap (λ (q : Pcb). q.parent_pid) new_pcb

  kept_files : (j : ℕ) → 2 ≤ j → descriptor new_shell j ≡ descriptor k j
  unfolding start_pcb standard_fds
  kept_files j h =
      ap (λ (q : Pcb). q.fd_entry j) new_pcb
      ∙ update_ne _ 1 j _ (omega arith)
      ∙ update_ne (current k).fd_entry 0 j _ (omega arith)

-- A shell with no parent that ends is replaced by a new shell with no parent in the same slot, if
-- the file system has the shell as an executable file and no lower slot is free. The new shell finds
-- the files that the old one had open, and the flag of a pending exception as it was.
pub sys_halt-restarts :
    (k : Kernel) (bl ebp esp i : ℕ)
    → (current k).parent_pid ≡ failure
    → k.current_process_idx < 6
    → ((j : ℕ) → j < k.current_process_idx → k.processes_active j ≢ 0)
    → Names k.image shell_name i
    → IsExecutable k.image (entry_inode k.image i)
    → (k' : Kernel) × (sys_halt k bl ebp esp
        ≡ returned (restarted (some (entry_of k.image (entry_inode k.image i))) k'))
      × (k'.current_process_idx ≡ k.current_process_idx)
      × ((current k').parent_pid ≡ failure)
      × ((j : ℕ) → 2 ≤ j → descriptor k' j ≡ descriptor k j)
      × (k'.exception_flag ≡ k.exception_flag)
unfolding sys_halt load claim_slot
sys_halt-restarts k bl ebp esp i root low least named exe =
    let inode : ℕ = entry_inode k.image i in
    (
      new_shell k ebp esp inode,
      rw
          (
            eq_true root,
            sys_execute-load (ended k) shell_name ebp esp i k.current_process_idx named exe lowest,
          )
          refl,
      refl,
      new_parent k ebp esp inode,
      kept_files k ebp esp inode,
      refl,
    )
  where
    lowest : LowestSlot (ended k) k.current_process_idx
    lowest = record {
      high = low;
      free = update_self k.processes_active k.current_process_idx 0;
      least = λ j h.
          rw (update_ne k.processes_active k.current_process_idx j 0 (omega arith)) (least j h);
    }
