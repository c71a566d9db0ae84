-- ===== src/Kernel/Process/Tests.antt =====
-- The shell started and ended on a concrete machine.
use illinix_os.Prelude.{ℕ, inr, zero, suc, ◌≤◌, ◌≡◌, inl, refl, none, some, arith, update}
use illinix_os.Prelude.Word.{failure}
use illinix_os.FileSys.Image.{
  byte_at, word_at, entry_inode, data_block, data_byte, number_of_inodes,
}
use illinix_os.FileSys.Dentry.{strlen}
use illinix_os.FileSys.Data.Contents.{file_byte}
use illinix_os.FileSys.Tests.{
  image, shell, shell_length, shell-IsFile, shell_inode, no_block, shell-named,
}
use illinix_os.Kernel.{Kernel, current, descriptor}
use illinix_os.Kernel.Syscalls.{returned, closed}
use illinix_os.Kernel.Syscalls.Table.{IsSound, IsTable}
use illinix_os.Kernel.Process.{
  claim_slot, load, sys_execute, sys_halt, resumed, restarted, standard_fds,
}
use illinix_os.Kernel.Process.Launch.{IsExecutable, entry_of}
use illinix_os.Kernel.Process.Refusing.{IsBroken, sys_execute-refuses}
use illinix_os.Kernel.Syscalls.Open.{Names}
use illinix_os.Kernel.Process.Halting.{IsRunning, Restored, sys_execute-halt}
use illinix_os.Kernel.Process.Restart.{sys_halt-restarts}
use illinix_os.Kernel.Process.Exceptions.{exec_handler, exec_handler-returns}
use illinix_os.Kernel.Tests.{
  table, machine, idle, with_file, with_file-IsTable, opened, shell-Names,
}
use illinix_os.Kernel.{file}

pub exe : IsExecutable (image 2 1) (entry_inode (image 2 1) 0)
unfolding file_byte data_byte data_block number_of_inodes word_at byte_at entry_inode
exe = record {
  file = shell-IsFile 2;
  header = rw (shell_length 2 1) (omega arith);
  byte0 = refl;
  byte1 = refl;
  byte2 = refl;
  byte3 = refl;
}

-- The shell's image without its data block.
abbrev no_block_machine : Kernel
no_block_machine = machine (image 2 0) failure closed

image-IsBroken : IsBroken (image 2 0) 0
image-IsBroken = record {
  some_byte = rw (shell_length 2 0) (omega arith);
  size = rw (shell_length 2 0) (omega arith);
  no_block = rw (no_block 2) (omega arith);
}

sys_execute-refuses_example :
    ((sys_execute no_block_machine shell 100 90).0 ≡ none)
    × ((sys_execute no_block_machine shell 100 90).2 ≡ no_block_machine)
unfolding strlen
sys_execute-refuses_example =
    sys_execute-refuses no_block_machine shell 100 90
      (inr (inr (inr (0, no_block-Names, inl (rw (shell_inode 2 0) image-IsBroken)))))
  where
    no_block-Names : Names (image 2 0) shell 0
    no_block-Names = record {
      nonempty = omega arith;
      short = omega arith;
      entry = omega arith;
      same = shell-named 2 0;
      first = λ m h. absurd (omega arith);
    }

idle-IsRunning : IsRunning idle
idle-IsRunning = record {
  slot = omega arith;
  active = omega arith;
  page = refl;
  stack = refl;
  shown = refl;
  counted = omega arith;
  has_parent = refl;
}

fresh-IsTable : IsTable (standard_fds (table closed))
unfolding standard_fds update
fresh-IsTable = record { stdin = refl; stdout = refl; files = λ i low high. fresh i low }
  where
    fresh : (i : ℕ) → 2 ≤ i → IsSound (standard_fds (table closed) i)
    fresh zero low = absurd (omega arith)
    fresh (suc zero) low = absurd (omega arith)
    fresh (suc (suc zero)) low = inl refl
    fresh (suc (suc (suc i))) low = inl (ground arith)

sys_execute-halt_example :
    (k' : Kernel) × (sys_halt (load (claim_slot idle 1) 0 1 100 90) 7 0 0
      ≡ returned (resumed 100 7 k'))
    × Restored idle k'
sys_execute-halt_example =
    sys_execute-halt idle 1 0 100 90 idle-IsRunning (omega arith) refl fresh-IsTable 7 0 0

sys_halt-restarts_example :
    (k' : Kernel) × (sys_halt with_file 7 100 90
      ≡ returned (restarted (some (entry_of (image 2 1) (entry_inode (image 2 1) 0))) k'))
    × (k'.current_process_idx ≡ 0)
    × ((current k').parent_pid ≡ failure)
    × ((j : ℕ) → 2 ≤ j → descriptor k' j ≡ descriptor with_file j)
    × (k'.exception_flag ≡ 0)
sys_halt-restarts_example =
    sys_halt-restarts with_file 7 100 90 0 refl (omega arith) (λ j h. absurd (omega arith))
      (shell-Names 2) exe

-- A program whose parent is process 0 meets a page fault.
exec_handler-returns_example :
    (k' : Kernel) × (exec_handler 14 (machine (image 2 1) 0 (opened file)) 7 100 90
      ≡ returned (resumed 0 256 k'))
    × (k'.current_process_idx ≡ 0)
    × (k'.processes_active 0 ≡ 0)
    × (k'.exception_flag ≡ 0)
exec_handler-returns_example =
    exec_handler-returns 14 (machine (image 2 1) 0 (opened file)) 7 100 90
      (λ e. absurd (omega arith)) with_file-IsTable
