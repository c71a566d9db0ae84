-- ===== src/Screen.antt =====
-- The text screen: putc, putc_kb, update_xy and clear of student-distrib/lib.c. Video memory is the
-- byte at each address; a cell is a character and its colour.
pub mod Bounds
pub mod Scroll
pub mod Print
pub mod Tests
use illinix_os.Prelude.{
  ℕ, zero, suc, ◌+◌, ◌-◌, ◌*◌, ◌/◌, ◌%◌, Bool, true, false, ◌&&◌, ◌||◌, not, ltb, ◌==◌,
  if◌then◌else◌, update,
}

abbrev pub num_cols : ℕ
num_cols = 80

abbrev pub num_rows : ℕ
num_rows = 25

abbrev pub attrib : ℕ
attrib = 0xA

abbrev pub video : ℕ
video = 0xB8000

abbrev pub newline : ℕ
newline = 10

-- One terminal's cursor and the memory it draws in.
pub record Console : Type 0 where
  pub mem : ℕ → ℕ
  pub x : ℕ
  pub y : ℕ

-- The address of a cell in the page at `base`.
abbrev pub cell : ℕ → ℕ → ℕ → ℕ
cell base y x = base + 2 * (num_cols * y + x)

-- A character and its colour go to the cell under the cursor.
unfoldable pub draw : ℕ → ℕ → Console → Console
unfolding update
draw base c s = record s {
  mem = update (update s.mem (cell base s.y s.x) c) (cell base s.y s.x + 1) attrib;
}

-- `screen_x++; screen_x %= NUM_COLS;` and the row of the line after it.
unfoldable pub advance : Console → Console
advance s =
    let x' = (s.x + 1) % num_cols in record s { x = x'; y = (s.y + x' / num_cols) % num_rows }

-- The cell below goes to the cell under the cursor, which moves on.
unfoldable pub pull_cell : ℕ → Console → Console
unfolding update
pull_cell base s =
    let at = cell base s.y s.x in
    let below = cell base (s.y + 1) s.x in
    let once = update s.mem at (s.mem below) in
    record s { mem = update once (at + 1) (once (below + 1)); x = (s.x + 1) % num_cols }

unfoldable pub pull_row : ℕ → ℕ → Console → Console
pull_row zero base s = s
pull_row (suc n) base s = pull_row n base (pull_cell base s)

-- The rows from `i` on, `n` of them, each take the row below.
unfoldable pub pull_rows : ℕ → ℕ → ℕ → Console → Console
unfolding pull_row pull_cell
pull_rows zero base i s = s
pull_rows (suc n) base i s =
    pull_rows n base (suc i) (pull_row num_cols base (record s { x = 0; y = i }))

unfoldable pub blank_row : ℕ → ℕ → Console → Console
unfolding draw advance
blank_row zero base s = s
blank_row (suc n) base s = blank_row n base (advance (draw base 0x20 s))

unfoldable pub scroll : ℕ → Console → Console
unfolding pull_rows blank_row
scroll base s =
    let up = pull_rows (num_rows - 1) base 0 s in
    blank_row num_cols base (record up { x = 0; y = num_rows - 1 })

-- What the bottom line shows when the screen scrolls: all but a newline is drawn first.
unfoldable pub last_char : ℕ → ℕ → Console → Console
last_char base c s =
    if not (c == newline) then record (draw base c s) { x = 0; y = s.y % num_rows } else s

-- The four branches that follow the test for a tab; true if the screen scrolled.
unfoldable pub put_char : ℕ → ℕ → Console → Console × Bool
unfolding last_char draw advance
put_char base c s =
    if (c == newline || c == 13) && ltb s.y (num_rows - 1)
    then (record s { y = s.y + 1; x = 0 }, false)
    else if (s.x == num_cols - 1 && s.y == num_rows - 1) || (c == newline && s.y == num_rows - 1)
    then (scroll base (last_char base c s), true)
    else if s.x == num_cols - 1
    then ((let s' = advance (draw base c s) in record s' { y = s'.y + 1; x = 0 }), false)
    else (advance (draw base c s), false)

-- The globals of the screen, with one element for each terminal.
pub record Screen : Type 0 where
  pub vmem : ℕ → ℕ
  pub screen_x : ℕ → ℕ
  pub screen_y : ℕ → ℕ
  pub og_x : ℕ → ℕ
  pub next_row_flag : ℕ → ℕ
  pub cursor : ℕ

abbrev pub console_of : Screen → ℕ → Console
console_of s t = record { mem = s.vmem; x = s.screen_x t; y = s.screen_y t }

-- A character for terminal `t`, drawn at `base`, while terminal `shown` is on the display.
unfoldable pub put_in : ℕ → ℕ → ℕ → ℕ → Screen → Screen
unfolding update
put_in base t shown c s =
    let (s', scrolled) = put_char base c (console_of s t) in
    record {
      vmem = s'.mem;
      screen_x = update s.screen_x t s'.x;
      screen_y = update s.screen_y t s'.y;
      og_x = if scrolled then update s.og_x t 7 else s.og_x;
      next_row_flag = if scrolled then update s.next_row_flag shown 1 else s.next_row_flag;
      cursor = s.cursor;
    }

-- `update_cursor`: the two bytes that it sends make up a `uint16_t`.
unfoldable pub update_cursor : ℕ → ℕ → Screen → Screen
update_cursor x y s = record s { cursor = (y * num_cols + x) % 65536 }

unfoldable pub update_xy : ℕ → ℕ → ℕ → Screen → Screen
unfolding update
update_xy t x y s = record s {
  screen_x = update s.screen_x t (x % 65536);
  screen_y = update s.screen_y t (y % 65536);
}

-- `putc` draws for the scheduled terminal, on its own page unless it is the displayed one.
unfoldable pub putc : ℕ → ℕ → ℕ → Screen → Screen
unfolding put_in update_cursor
putc displayed scheduled c s =
    let base = if displayed == scheduled then video else 0xBA000 + scheduled * 4096 in
    let s' = put_in base scheduled displayed c s in
    if c == 9
    then s
    else if scheduled == displayed
    then update_cursor (s'.screen_x scheduled) (s'.screen_y scheduled) s'
    else s'

-- `putc_kb` draws for the displayed terminal.
unfoldable pub putc_kb : ℕ → ℕ → Screen → Screen
unfolding put_in update_cursor
putc_kb displayed c s =
    let s' = put_in video displayed displayed c s in
    if c == 9 then s else update_cursor (s'.screen_x displayed) (s'.screen_y displayed) s'

unfoldable pub clear_cells : ℕ → ℕ → (ℕ → ℕ) → ℕ → ℕ
unfolding update
clear_cells zero i mem = mem
clear_cells (suc n) i mem =
    clear_cells n (suc i) (update (update mem (video + 2 * i) 0x20) (video + 2 * i + 1) attrib)

unfoldable pub clear : Screen → Screen
clear s = record s { vmem = clear_cells (num_rows * num_cols) 0 s.vmem }
