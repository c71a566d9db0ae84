-- ===== src/Kernel/Scheduling.antt =====
-- student-distrib/scheduling.c, move_four_kb of student-distrib/idt.c, and sys_vidmap of
-- student-distrib/syscalls.c. What printf shows is not kept.
pub mod Turns
pub mod Rounds
pub mod Display
pub mod Boot
pub mod Vidmap
pub mod Tests
use illinix_os.Prelude.{
  ℕ, zero, suc, ◌+◌, ◌*◌, ◌/◌, ◌%◌, Bool, true, false, ◌&&◌, ◌||◌, not, Option, none, some, List,
  [], ◌∷◌, ◌++◌, ltb, ◌==◌, if◌then◌else◌, update,
}
use illinix_os.Prelude.Word.{failure, add32, slt}
use illinix_os.Pic.{send_eoi, enable_irq}
use illinix_os.Screen.{Screen, attrib, update_cursor, update_xy}
use illinix_os.Kernel.{TerminalInfo, Kernel, current}
use illinix_os.Kernel.Process.{stack_top, shell_name, sys_execute}

-- `move_four_kb`, with `n` bytes left.
unfoldable pub move_bytes : ℕ → ℕ → ℕ → (ℕ → ℕ) → ℕ → ℕ
unfolding update
move_bytes zero src dst mem = mem
move_bytes (suc n) src dst mem = move_bytes n (suc src) (suc dst) (update mem dst (mem src))

abbrev pub video : ℕ
video = 0xB8000

-- The page in which a terminal is drawn while it is not displayed.
abbrev pub saved_page : ℕ → ℕ
saved_page t = 0xBA000 + t * 4096

-- The cursor of the displayed terminal is put aside.
unfoldable pub save_cursor : Kernel → TerminalInfo
save_cursor k =
    let d : ℕ = k.displayed_terminal in
    record (k.terminal_processes d) {
      cursor_x = k.screen.screen_x d;
      cursor_y = k.screen.screen_y d;
    }

-- The branch of schedule for a switch to terminal `t`.
unfoldable pub switch_display : ℕ → Kernel → Kernel
unfolding save_cursor update
switch_display t k =
    let d : ℕ = k.displayed_terminal in
    let infos = update k.terminal_processes d (save_cursor k) in
    let info = infos t in
    let saved = move_bytes 4096 video (saved_page d) k.screen.vmem in
    let shown = move_bytes 4096 (saved_page t) video saved in
    record k {
      video_page = 0xB8;
      vmem_page =
          update
            (update (update k.vmem_page 0 (if t == 0 then 0xB8 else 0xBA)) 1
              (if t == 1 then 0xB8 else 0xBB))
            2 (if t == 2 then 0xB8 else 0xBC);
      displayed_terminal = t;
      screen =
          update_cursor info.cursor_x info.cursor_y
            (update_xy t info.cursor_x info.cursor_y (record k.screen { vmem = shown }));
      switch_flag = update k.switch_flag t 0;
      terminal_processes = update infos t (record info { togx = 7 });
      pic = send_eoi k.pic 0;
    }

-- The last part of schedule: the next terminal's process becomes the running one.
unfoldable pub next_terminal : Kernel → Kernel
next_terminal k =
    let t : ℕ = (k.scheduled_terminal + 1) % 3 in
    let p : ℕ = (k.terminal_processes t).active_process_pid in
    record k {
      scheduled_terminal = t;
      current_process_idx = p;
      user_page = add32 (k.pcbs p).pid 2 % 1024;
      esp0 = stack_top (k.pcbs p).pid;
      pic = send_eoi k.pic 0;
    }

-- How a timer interrupt ends: it returns to the process that it interrupted, has that process halt,
-- goes to the saved frame of another process, or enters a new shell.
pub data Tick : Type 0 where
  back : Kernel → Tick
  halt : Kernel → Tick
  resume : ℕ → Kernel → Tick
  enter : ℕ → Kernel → Tick

unfoldable pub context_switch : Kernel → Tick
unfolding next_terminal
context_switch k =
    let k' = next_terminal k in resume (k'.terminal_processes k'.scheduled_terminal).ebp_save k'

-- The quote has been printed.
unfoldable pub print_quote : Kernel → Kernel
unfolding update
print_quote k =
    let t : ℕ = k.scheduled_terminal in
    if k.severance_quote_flag t == 1
    then record k { severance_quote_flag = update k.severance_quote_flag t 0 }
    else k

unfoldable pub schedule : Kernel → Tick
unfolding update context_switch print_quote switch_display
schedule k =
    let k1 = record k { rng = if slt (add32 k.rng 1) 5 then add32 k.rng 1 else 0 } in
    if not (k.switch_flag 0 == 0)
    then back (switch_display 0 k1)
    else if not (k.switch_flag 1 == 0)
    then back (switch_display 1 k1)
    else if not (k.switch_flag 2 == 0)
    then back (switch_display 2 k1)
    else if k.sigquit_flag k.scheduled_terminal == 1
    then halt (record k1 {
      sigquit_flag = update k.sigquit_flag k.scheduled_terminal 0;
      pic = send_eoi k.pic 0;
    })
    else context_switch (print_quote k1)

unfoldable pub save_frame : ℕ → Kernel → Kernel
unfolding update
save_frame ebp k = record k {
  terminal_processes =
      update k.terminal_processes k.scheduled_terminal
        (record (k.terminal_processes k.scheduled_terminal) { ebp_save = ebp });
}

-- The next terminal whose shell has not been started.
unfoldable pub claim_terminal : Kernel → Kernel
unfolding update
claim_terminal k =
    let t : ℕ = k.shell_count in
    record k {
      shell_count = add32 t 1;
      scheduled_terminal = t;
      no_parent_shell_flag = 1;
      terminal_processes =
          update k.terminal_processes t
            (record (k.terminal_processes t) { cursor_x = 7; cursor_y = 1 });
      pic = send_eoi k.pic 0;
    }

-- A failed sys_execute leaves the rest of the handler to run.
unfoldable pub after_execute : ℕ → Option ℕ × List ℕ × Kernel → Tick
unfolding schedule save_frame
after_execute ebp (none, command, k) = schedule (save_frame ebp k)
after_execute ebp (some address, command, k) = enter address k

unfoldable pub pit_handler : ℕ → ℕ → Kernel → Tick
unfolding after_execute schedule save_frame claim_terminal
pit_handler ebp esp k =
    if slt k.shell_count 3
    then after_execute ebp (sys_execute (claim_terminal (save_frame ebp k)) shell_name ebp esp)
    else schedule (save_frame ebp k)

-- The colour of the cells from `i` on in the three saved pages; `i` counts rows of 80 columns.
unfoldable pub init_cells : ℕ → ℕ → (ℕ → ℕ) → ℕ → ℕ
unfolding update
init_cells zero i mem = mem
init_cells (suc n) i mem = init_cells n (suc i) (
    update (update (update mem (0xBA000 + 2 * i + 1) attrib) (0xBB000 + 2 * i + 1) attrib)
      (0xBC000 + 2 * i + 1) attrib)

unfoldable pub terminal_init : Kernel → Kernel
unfolding init_cells update
terminal_init k =
    let info = λ (t : ℕ). record (k.terminal_processes t) { active_process_pid = t } in
    record k {
      no_parent_shell_flag = 1;
      displayed_terminal = 0;
      scheduled_terminal = 0;
      terminal_processes =
          update (update (update k.terminal_processes 0 (info 0)) 1 (info 1)) 2 (info 2);
      screen = record k.screen { vmem = init_cells 2000 0 k.screen.vmem };
    }

-- `(uint16_t) PIT_FREQUENCY / DESIRED_FREQUENCY`: the cast comes before the division.
abbrev pub divisor : ℕ
divisor = 1193182 % 65536 / 100

unfoldable pub init_pit : Kernel → Kernel
init_pit k = record k {
  port_log = k.port_log ++ (0x43, 0x36) ∷ (0x40, divisor % 256) ∷ (0x40, divisor / 256 % 256) ∷ [];
  pic = enable_irq k.pic 0;
}

-- The result, what is stored at the pointer given (none if nothing is), and the page tables. `old`
-- is what the pointer points to.
unfoldable pub sys_vidmap : ℕ → ℕ → Kernel → ℕ × Option ℕ × Kernel
unfolding update
sys_vidmap screen_start old k =
    let s : ℕ = k.scheduled_terminal in
    let t : ℕ = if s == 0 then 0 else if s == 1 then 1 else 2 in
    let address : ℕ = 0x08400000 + t * 4096 in
    if screen_start == 0 || (slt screen_start 0x08000000 || not (slt screen_start 0x08400000))
    then (failure, none, k)
    else if slt 0x08048000 screen_start
    then (
      address,
      some address,
      record k {
        vmem_page = update k.vmem_page t (if s == k.displayed_terminal then 0xB8 else 0xBA + t);
      },
    )
    else (old, none, k)
