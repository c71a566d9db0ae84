-- ===== src/Kernel/Typing.antt =====
-- The editing of a line by kb_handler of student-distrib/idt.c.
pub mod History
pub mod Handler
pub mod Bounds
pub mod Erasing
pub mod Recalling
pub mod Saving
pub mod Kept
pub mod Lines
pub mod Pushing
pub mod Keys
pub mod Characters
pub mod Routes
pub mod Reading
pub mod Text
pub mod Typed
pub mod Entering
pub mod Again
pub mod Delivery
pub mod Command
pub mod Start
pub mod Tests
use illinix_os.Prelude.{
  ℕ, zero, suc, ◌+◌, ◌-◌, ◌/◌, ◌%◌, Bool, true, false, ◌&&◌, not, List, [], ◌∷◌, ltb, leb, ◌==◌,
  if◌then◌else◌, update, fill,
}
use illinix_os.Prelude.Word.{add32, sub32, slt}
use illinix_os.Screen.{Screen, putc_kb, update_xy, update_cursor, clear}
use illinix_os.Kernel.{Keyboard, Kernel}

-- `putc_kb(c)`
unfoldable pub show : ℕ → Kernel → Kernel
show c k = record k { screen = putc_kb k.displayed_terminal c k.screen }

-- `kb_buff[displayed_terminal][kb_idx[displayed_terminal]] = c; kb_idx[displayed_terminal]++;`
unfoldable pub store : ℕ → Kernel → Kernel
unfolding update
store c k =
    let d : ℕ = k.displayed_terminal in
    record k {
      kb_buff = update k.kb_buff d (update (k.kb_buff d) (k.kb_idx d) c);
      kb_idx = update k.kb_idx d (add32 (k.kb_idx d) 1);
    }

-- Whether the buffer of the displayed terminal has room: 127 is MAX_BUFF_SIZE - 1.
unfoldable pub has_room : Kernel → Bool
has_room k = not (k.kb_idx k.displayed_terminal == 127)

unfoldable pub type_char : ℕ → Kernel → Kernel
unfolding show store has_room
type_char c k = if has_room k then show c (store c k) else k

-- One of the spaces of a tab.
unfoldable pub type_space : Kernel → Kernel
unfolding show store has_room
type_space k = if has_room k then store 32 (show 32 k) else k

unfoldable pub type_tab : ℕ → Kernel → Kernel
unfolding type_space
type_tab zero k = k
type_tab (suc n) k = type_tab n (type_space k)

-- `update_xy_display`
unfoldable pub place : ℕ → ℕ → Kernel → Kernel
place x y k = record k { screen = update_xy k.displayed_terminal x y k.screen }

-- `update_xy_display` and `update_cursor`
unfoldable pub go_to : ℕ → ℕ → Kernel → Kernel
unfolding place update_cursor
go_to x y k = let k' = place x y k in record k' { screen = update_cursor x y k'.screen }

-- What precedes the keys that edit the line: the first key of a line notes where the line begins, and
-- a line that has scrolled up begins a row higher.
unfoldable pub begin_line : Kernel → Kernel
unfolding update
begin_line k =
    let d : ℕ = k.displayed_terminal in
    if k.setup d == 0 then k else record k {
      setup = update k.setup d 0;
      screen = record k.screen {
        og_x = update k.screen.og_x d (k.screen.cursor % 80);
        next_row_flag = update k.screen.next_row_flag d 0;
      };
      keys = record k.keys { og_y = update k.keys.og_y d (k.screen.cursor / 80) };
    }

unfoldable pub raise_line : Kernel → Kernel
unfolding update
raise_line k =
    let d : ℕ = k.displayed_terminal in
    if k.keys.y == 24 && (k.keys.og_y d == 24 && k.screen.next_row_flag d == 1)
    then record k { keys = record k.keys { og_y = update k.keys.og_y d 23 } }
    else k

-- Any other key but the release of the up arrow, 0xC8.
unfoldable pub reset_counter : ℕ → Kernel → Kernel
unfolding update
reset_counter key k = if key == 0xC8 then k else record k {
  keys = record k.keys { up_arrow_counter = update k.keys.up_arrow_counter k.displayed_terminal 0 };
}

-- `x` and `y` are set from the cursor.
unfoldable pub look : Kernel → Kernel
look k = record k { keys = record k.keys { x = k.screen.cursor % 80; y = k.screen.cursor / 80 } }

-- The part of a backspace that draws: the character before the cursor becomes a space.
unfoldable pub rub_out : Kernel → Kernel
unfolding show place go_to
rub_out k =
    let d : ℕ = k.displayed_terminal in
    let x : ℕ = k.keys.x in
    let y : ℕ = k.keys.y in
    let wrapped = show 32 (place 79 (sub32 y 1) k) in
    if x == 0 && not (y == 0)
    then (if leb (wrapped.keys.og_y d) y then go_to 79 (sub32 y 1) wrapped else wrapped)
    else go_to (sub32 x 1) y (show 32 (place (sub32 x 1) y k))

unfoldable pub drop_last : Kernel → Kernel
unfolding update
drop_last k =
    let d : ℕ = k.displayed_terminal in
    let i : ℕ = sub32 (k.kb_idx d) 1 in
    if k.kb_idx d == 0 then k else record k {
      kb_idx = update k.kb_idx d i;
      kb_buff = update k.kb_buff d (update (k.kb_buff d) i 9);
    }

unfoldable pub backspace : Kernel → Kernel
unfolding look rub_out drop_last
backspace k =
    let k' = look k in
    if k.screen.cursor == 0
    then k'
    else if not (slt 0 (k.kb_idx k.displayed_terminal))
    then k'
    else drop_last (rub_out k')

-- The newline on the screen: none in the top left corner.
unfoldable pub show_newline : Kernel → Kernel
unfolding show
show_newline k =
    let k1 = if k.keys.y == 0 then k else show 10 k in
    if k.keys.y == 0 && not (k.keys.x == 0) then show 10 k1 else k1

unfoldable pub end_line : Kernel → Kernel
unfolding update
end_line k =
    let d : ℕ = k.displayed_terminal in
    record k {
      kb_buff = update k.kb_buff d (update (k.kb_buff d) (k.kb_idx d) 10);
      kb_idx = update k.kb_idx d 0;
      setup = update k.setup d 1;
    }

-- Control and L.
unfoldable pub clear_line : Kernel → Kernel
unfolding update go_to
clear_line k =
    let d : ℕ = k.displayed_terminal in
    let k' : Kernel = record k {
      kb_buff = update k.kb_buff d (fill 127 0 9 (k.kb_buff d));
      kb_idx = update k.kb_idx d 0;
      screen = clear k.screen;
      setup = update k.setup d 1;
      clear_screen_flag = update k.clear_screen_flag d 1;
    } in
    go_to 0 0 k'
