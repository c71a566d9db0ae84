-- ===== src/Kernel/Tests.antt =====
-- A machine that runs one shell, with no file open but the standard ones.
use illinix_os.Prelude.{
  ℕ, zero, suc, ◌+◌, ◌≤◌, ◌≡◌, inl, inr, refl, [], arith, ◌==◌, if◌then◌else◌, update,
}
use illinix_os.Prelude.Word.{failure}
use illinix_os.FileSys.Image.{Image, byte_at, word_at, entry_type}
use illinix_os.FileSys.Dentry.{strlen}
use illinix_os.FileSys.Data.Contents.{filled}
use illinix_os.FileSys.Tests.{image, shell, no_bytes, shell-named, shell-IsFile}
use illinix_os.Kernel.{
  Driver, terminal, file, Descriptor, Kernel, current, descriptor, set_descriptor,
}
use illinix_os.Kernel.Files.{file_read}
use illinix_os.Kernel.Files.Reads.{IsOpenFile, delivered, file_read_lem}
use illinix_os.Kernel.Syscalls.{returned, all_ops, closed, Arrivals, sys_open, sys_close}
use illinix_os.Kernel.Syscalls.Table.{IsSound, IsTable}
use illinix_os.Kernel.Syscalls.Open.{Names, LowestFree, opened_as}
use illinix_os.Kernel.Syscalls.OpenClose.{sys_open-opens, sys_open-close, sys_open_leaks}
use illinix_os.Kernel.Process.{stack_top}

abbrev pub standard : Descriptor
standard = record { ops = all_ops terminal; inode = 0; file_position = 0; flags = 1 }

-- Standard input and output; descriptor 2 is the one given.
abbrev pub table : Descriptor → ℕ → Descriptor
table e zero = standard
table e (suc zero) = standard
table e (suc (suc zero)) = e
table e (suc (suc (suc i))) = closed

abbrev pub machine : Image → ℕ → Descriptor → Kernel
machine img parent e = record {
  image = img;
  pcbs = λ i. record { pid = i; parent_pid = parent; ebp = 0; esp = 0; fd_entry = table e };
  processes_active = λ i. if i == 0 then 1 else 0;
  current_process_idx = 0;
  num_active_processes = 1;
  displayed_terminal = 0;
  scheduled_terminal = 0;
  terminal_processes =
      λ t. record { active_process_pid = 0; cursor_x = 0; cursor_y = 0; togx = 0; ebp_save = 0 };
  no_parent_shell_flag = 0;
  exception_flag = 0;
  user_page = 2;
  esp0 = stack_top 0;
  vmem_page = λ i. 0;
  video_page = 0xB8;
  switch_flag = λ t. 0;
  sigquit_flag = λ t. 0;
  severance_quote_flag = λ t. 0;
  rng = 0;
  shell_count = 3;
  program = λ page k. 0;
  kb_buff = λ t k. 9;
  kb_idx = λ t. 0;
  setup = λ t. 0;
  clear_screen_flag = λ t. 0;
  terminal_read_flag = λ t. 0;
  keys = record {
    shift = 0;
    cap = 0;
    ctrl = 0;
    alt = 0;
    x = 0;
    y = 0;
    og_y = λ t. 0;
    up_arrow_counter = λ t. 0;
    kb_save = λ t n i. 9;
  };
  get_args_buf = λ k. 0;
  rtc = record { rtc_int = λ t. 0; counter_max = λ t. 256; flag = λ t. 0 };
  pic = record { master_mask = 255; slave_mask = 255; sent = [] };
  screen = record {
    vmem = λ a. 0;
    screen_x = λ t. 0;
    screen_y = λ t. 0;
    og_x = λ t. 0;
    next_row_flag = λ t. 0;
    cursor = 0;
  };
  port_input = λ n. 0;
  port_log = [];
}

pub table-IsTable : (e : Descriptor) → IsSound e → IsTable (table e)
table-IsTable e s = record { stdin = refl; stdout = refl; files = λ i low high. sound i low }
  where
    sound : (i : ℕ) → 2 ≤ i → IsSound (table e i)
    sound zero low = absurd (omega arith)
    sound (suc zero) low = absurd (omega arith)
    sound (suc (suc zero)) low = s
    sound (suc (suc (suc i))) low = inl refl

-- A file and a clock, opened.
abbrev pub opened : Driver → Descriptor
opened d = record { ops = all_ops d; inode = 0; file_position = 0; flags = 1 }

abbrev nothing : Arrivals
nothing = record { ticks = 0; lines = [] }

abbrev pub idle : Kernel
idle = machine (image 2 1) failure closed

abbrev pub with_file : Kernel
with_file = machine (image 2 1) failure (opened file)

idle-IsTable : IsTable (current idle).fd_entry
idle-IsTable = table-IsTable closed (inl refl)

pub with_file-IsTable : IsTable (current with_file).fd_entry
with_file-IsTable = table-IsTable (opened file) (inr (file, inr (inr refl), refl))

pub shell-Names : (type : ℕ) → Names (image type 1) shell 0
unfolding strlen
shell-Names type = record {
  nonempty = omega arith;
  short = omega arith;
  entry = omega arith;
  same = shell-named type 1;
  first = λ m h. absurd (omega arith);
}

pub idle-LowestFree : (img : Image) → LowestFree (machine img failure closed) 2
idle-LowestFree img = record {
  low = omega arith;
  high = omega arith;
  free = refl;
  least = λ j p q. absurd (omega arith);
}

pub shell_type : entry_type (image 2 1) 0 ≡ 2
unfolding entry_type word_at byte_at
shell_type = refl

odd_type : entry_type (image 3 1) 0 ≡ 3
unfolding entry_type word_at byte_at
odd_type = refl

sys_open-opens_example :
    ((sys_open idle shell).0 ≡ 2)
    × ((current (sys_open idle shell).1).fd_entry
        ≡ update (current idle).fd_entry 2 (opened_as (image 2 1) 0))
sys_open-opens_example =
    sys_open-opens idle shell 0 2 (shell-Names 2) (idle-LowestFree (image 2 1))
      (rw shell_type (omega arith))

sys_open-close_example :
    (k' : Kernel) × (sys_close (sys_open idle shell).1 2 ≡ returned (0, k'))
    × ((current k').fd_entry ≡ update (current idle).fd_entry 2 closed)
sys_open-close_example =
    sys_open-close idle shell 0 2 (shell-Names 2) (idle-LowestFree (image 2 1))
      (rw shell_type (omega arith))

sys_open_leaks_example :
    let k : Kernel = machine (image 3 1) failure closed in
    ((sys_open k shell).0 ≡ failure) × ((descriptor (sys_open k shell).1 2).flags ≡ 1)
sys_open_leaks_example =
    sys_open_leaks (machine (image 3 1) failure closed) shell 0 2 (shell-Names 3)
      (idle-LowestFree (image 3 1)) (rw odd_type (omega arith))

with_file-IsOpenFile : IsOpenFile (image 2 1) (descriptor with_file 2)
with_file-IsOpenFile = record { inode = omega arith; file = shell-IsFile 2; inside = omega arith }

file_read_lem_example :
    (file_read with_file 2 no_bytes 10 ≡ (
      delivered (image 2 1) (descriptor with_file 2) 10,
      filled (image 2 1) 0 0 (delivered (image 2 1) (descriptor with_file 2) 10) 0 no_bytes,
      set_descriptor with_file 2 (record (descriptor with_file 2) {
        file_position = 0 + delivered (image 2 1) (descriptor with_file 2) 10;
      }),
    ))
    × IsOpenFile (image 2 1) (record (descriptor with_file 2) {
      file_position = 0 + delivered (image 2 1) (descriptor with_file 2) 10;
    })
file_read_lem_example =
    file_read_lem with_file 2 no_bytes 10 with_file-IsOpenFile (omega arith) (omega arith)
