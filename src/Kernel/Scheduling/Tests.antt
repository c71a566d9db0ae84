-- ===== src/Kernel/Scheduling/Tests.antt =====
-- The scheduler on a machine with three shells.
use illinix_os.Prelude.{ℕ, ◌+◌, ◌≡◌, refl, ◌*◌, some, arith, ◌==◌, if◌then◌else◌}
use illinix_os.Prelude.Word.{failure}
use illinix_os.FileSys.Tests.{image}
use illinix_os.Kernel.{Kernel, TerminalInfo}
use illinix_os.Kernel.Syscalls.{closed}
use illinix_os.Kernel.Process.Halting.{IsRunning}
use illinix_os.Kernel.Scheduling.{resume, switch_display, video}
use illinix_os.Kernel.Scheduling.Turns.{IsAssigned, pit_handler-IsRunning}
use illinix_os.Kernel.Scheduling.Rounds.{IsCalm, after_ticks, after_ticks-scheduled}
use illinix_os.Kernel.Scheduling.Display.{view, switch_display-view}
use illinix_os.Kernel.Scheduling.{enter, pit_handler, sys_vidmap, saved_page}
use illinix_os.Kernel.Scheduling.Boot.{pit_handler-starts}
use illinix_os.Kernel.Scheduling.Vidmap.{sys_vidmap-maps}
use illinix_os.Kernel.Process.Launch.{entry_of}
use illinix_os.Kernel.Process.Tests.{exe}
use illinix_os.FileSys.Image.{entry_inode}
use illinix_os.Kernel.{current}
use illinix_os.Kernel.Tests.{machine, shell-Names}

abbrev info : ℕ → TerminalInfo
info t = record { active_process_pid = 0; cursor_x = 7; cursor_y = t; togx = 7; ebp_save = 500 + t }

-- All three terminals run the one process.
abbrev shells : Kernel
shells = record (machine (image 2 1) failure closed) { terminal_processes = info }

shells-IsAssigned : IsAssigned shells
shells-IsAssigned = record {
  slot = λ t h. omega arith;
  active = λ t h. omega arith;
  named = λ t h. refl;
  counted = omega arith;
  has_parent = refl;
}

shells-IsCalm : IsCalm shells
shells-IsCalm = record {
  all_started = refl;
  flags = λ t h. refl;
  sigquits = λ t h. omega arith;
  scheduled = omega arith;
  assigned = shells-IsAssigned;
}

pit_handler-IsRunning_example :
    (k' : Kernel) × (pit_handler 100 90 shells ≡ resume 501 k')
    × (k'.scheduled_terminal ≡ 1)
    × ((k'.terminal_processes 0).ebp_save ≡ 100)
    × IsRunning k'
pit_handler-IsRunning_example =
    pit_handler-IsRunning 100 90 shells refl
      (record { switch0 = refl; switch1 = refl; switch2 = refl; sigquit = omega arith })
      shells-IsAssigned

after_ticks-scheduled_example :
    (k' : Kernel) × (after_ticks 5 (λ n. (100 + n, 90)) shells ≡ some k')
    × (k'.scheduled_terminal ≡ 2)
    × IsCalm k'
after_ticks-scheduled_example = after_ticks-scheduled 5 (λ n. (100 + n, 90)) shells shells-IsCalm

switch_display-view_example : view (switch_display 2 shells) 0 160 ≡ view shells 0 160
switch_display-view_example = switch_display-view shells 2 0 160 (omega arith)

-- The first shell runs.
abbrev one_shell : Kernel
one_shell = record (machine (image 2 1) failure closed) { shell_count = 1 }

pit_handler-starts_example :
    (k' : Kernel) × (pit_handler 100 90 one_shell
      ≡ enter (entry_of (image 2 1) (entry_inode (image 2 1) 0)) k')
    × (k'.shell_count ≡ 2)
    × (k'.scheduled_terminal ≡ 1)
    × (k'.current_process_idx ≡ 1)
    × ((current k').parent_pid ≡ failure)
    × ((k'.terminal_processes 1).active_process_pid ≡ 1)
    × ((k'.terminal_processes 0).ebp_save ≡ 100)
pit_handler-starts_example =
    pit_handler-starts one_shell 100 90 0 1 (omega arith) (shell-Names 2) exe
      (record { high = omega arith; free = refl; least = λ j h. ground arith })

sys_vidmap-maps_example :
    (k' : Kernel) × (sys_vidmap 0x08100000 0 shells ≡ (0x08400000, some 0x08400000, k'))
    × (4096 * k'.vmem_page 0 ≡ (if 0 == 0 then video else saved_page 0))
sys_vidmap-maps_example =
    sys_vidmap-maps shells 0x08100000 0 (omega arith) (omega arith) (omega arith)
