-- ===== src/Kernel.antt =====
-- The kernel's state: the process control blocks and globals of student-distrib/scheduling.h, with
-- what the drivers keep. `PCB_array[i]`, once set, is the fixed place of process `i`, so a block is
-- found by its process number.
pub mod Files
pub mod Syscalls
pub mod Process
pub mod Scheduling
pub mod Typing
pub mod Running
pub mod Boot
pub mod Tests
use illinix_os.Prelude.{ℕ, List, update}
use illinix_os.FileSys.Image.{Image}
use illinix_os.FileSys.Data.{Buffer}
use illinix_os.Rtc.{Rtc}
use illinix_os.Pic.{Pic}
use illinix_os.Screen.{Screen}

-- What a function pointer of a descriptor points to.
pub data Driver : Type 0 where
  null terminal rtc directory file : Driver

-- `function_pointers_t`
pub record FileOps : Type 0 where
  pub open_op : Driver
  pub close_op : Driver
  pub read_op : Driver
  pub write_op : Driver

-- `fd_t`
pub record Descriptor : Type 0 where
  pub ops : FileOps
  pub inode : ℕ
  pub file_position : ℕ
  pub flags : ℕ

-- `process_control_block_t`
pub record Pcb : Type 0 where
  pub pid : ℕ
  pub parent_pid : ℕ
  pub ebp : ℕ
  pub esp : ℕ
  pub fd_entry : ℕ → Descriptor

-- The fields of `terminal_info_t` that the code reads or writes.
pub record TerminalInfo : Type 0 where
  pub active_process_pid : ℕ
  pub cursor_x : ℕ
  pub cursor_y : ℕ
  pub togx : ℕ
  pub ebp_save : ℕ

-- The globals of the keyboard handler of student-distrib/idt.c: the modifier keys, the cursor when it
-- last looked, where the line begins, and the five lines entered last, `kb_save[terminal][line]`.
pub record Keyboard : Type 0 where
  pub shift : ℕ
  pub cap : ℕ
  pub ctrl : ℕ
  pub alt : ℕ
  pub x : ℕ
  pub y : ℕ
  pub og_y : ℕ → ℕ
  pub up_arrow_counter : ℕ → ℕ
  pub kb_save : ℕ → ℕ → ℕ → ℕ

-- `video_page` is the page base of entry 0xB8 of `first_page_table`, and `switch_flag` holds
-- TERMINAL1_SWITCH, TERMINAL2_SWITCH and TERMINAL3_SWITCH of student-distrib/idt.h.
-- `user_page` is the page base of entry 32 of the page directory, and `program` the memory from the
-- virtual address 0x08048000 on, for each such base.
pub record Kernel : Type 0 where
  pub image : Image
  pub pcbs : ℕ → Pcb
  pub processes_active : ℕ → ℕ
  pub current_process_idx : ℕ
  pub num_active_processes : ℕ
  pub displayed_terminal : ℕ
  pub scheduled_terminal : ℕ
  pub terminal_processes : ℕ → TerminalInfo
  pub no_parent_shell_flag : ℕ
  pub exception_flag : ℕ
  pub user_page : ℕ
  pub esp0 : ℕ
  pub vmem_page : ℕ → ℕ
  pub video_page : ℕ
  pub switch_flag : ℕ → ℕ
  pub sigquit_flag : ℕ → ℕ
  pub severance_quote_flag : ℕ → ℕ
  pub rng : ℕ
  pub shell_count : ℕ
  pub program : ℕ → Buffer
  pub kb_buff : ℕ → ℕ → ℕ
  pub kb_idx : ℕ → ℕ
  pub setup : ℕ → ℕ
  pub clear_screen_flag : ℕ → ℕ
  pub terminal_read_flag : ℕ → ℕ
  pub keys : Keyboard
  pub get_args_buf : ℕ → ℕ
  pub rtc : Rtc
  pub pic : Pic
  pub screen : Screen
  pub port_input : ℕ → ℕ
  pub port_log : List (ℕ × ℕ)

abbrev pub current : Kernel → Pcb
current k = k.pcbs k.current_process_idx

abbrev pub descriptor : Kernel → ℕ → Descriptor
descriptor k fd = (current k).fd_entry fd

-- `PCB_array[current_process_idx]->fdesc_array.fd_entry[fd] = e`
unfoldable pub set_descriptor : Kernel → ℕ → Descriptor → Kernel
unfolding update
set_descriptor k fd e = record k {
  pcbs =
      update k.pcbs k.current_process_idx
        (record (current k) { fd_entry = update (current k).fd_entry fd e });
}
