-- ===== src/Kernel/Typing/History.antt =====
-- The lines entered before: how the enter key saves a line in kb_handler of student-distrib/idt.c, and
-- how the up arrow brings it back.
use illinix_os.Prelude.{ℕ, zero, suc, ◌&&◌, not, ltb, ◌==◌, if◌then◌else◌, update}
use illinix_os.Prelude.Word.{add32, slt}
use illinix_os.Kernel.{Kernel}
use illinix_os.Kernel.Typing.{show, go_to, look, show_newline, end_line}

-- The line is overwritten with spaces, up to the end of the row in which the cursor was.
unfoldable pub blank_line : ℕ → ℕ → Kernel → Kernel
unfolding show
blank_line zero last_row k = k
blank_line (suc n) last_row k =
    let d : ℕ = k.displayed_terminal in
    let rest = blank_line n last_row (show 32 k) in
    if k.screen.screen_x d == 79 && k.screen.screen_y d == last_row then k else rest

-- The state of the loop that copies a saved line, and where its first tab, the end of the text, is.
pub record Recall : Type 0 where
  pub state : Kernel
  pub end_string : ℕ
  pub end_x : ℕ
  pub end_y : ℕ

unfoldable pub put_saved : ℕ → ℕ → Kernel → Kernel
unfolding update
put_saved i c k =
    let d : ℕ = k.displayed_terminal in
    record k { kb_buff = update k.kb_buff d (update (k.kb_buff d) i c) }

unfoldable pub note_end : ℕ → ℕ → Recall → Recall
note_end i c r =
    let d : ℕ = r.state.displayed_terminal in
    if c == 9 && ltb i r.end_string
    then record r {
      end_string = i;
      end_x = r.state.screen.screen_x d;
      end_y = r.state.screen.screen_y d;
    }
    else r

unfoldable pub count_saved : Kernel → Kernel
unfolding update
count_saved k =
    let d : ℕ = k.displayed_terminal in
    record k { kb_idx = update k.kb_idx d (add32 (k.kb_idx d) 1) }

-- One character of the saved line.
unfoldable pub copy_saved : ℕ → ℕ → Recall → Recall
copy_saved i c r =
    let noted = note_end i c (record r { state = put_saved i c r.state }) in
    record noted { state = count_saved (if c == 9 then noted.state else show c noted.state) }

-- The loop over the saved line `row`, with `n` rounds left at index `i`.
unfoldable pub recall : ℕ → ℕ → (ℕ → ℕ) → Recall → Recall
recall zero i row r = r
recall (suc n) i row r =
    let rest = recall n (suc i) row (copy_saved i (row i) r) in
    if row i == 9 && r.state.screen.screen_x r.state.displayed_terminal == 79
    then note_end i (row i) (record r { state = put_saved i (row i) r.state })
    else rest

-- How the up arrow ends: the line ends at its first tab. The code does not initialize `end_pos_x` and
-- `end_pos_y`; each saved line has a tab, which sets them.
unfoldable pub finish_recall : Recall → Kernel
unfolding update
finish_recall r =
    let d : ℕ = r.state.displayed_terminal in
    let k = record r.state { kb_idx = update r.state.kb_idx d r.end_string } in
    let k' = go_to r.end_x r.end_y k in
    record k' {
      keys = record k'.keys {
        up_arrow_counter = update k'.keys.up_arrow_counter d (add32 (k'.keys.up_arrow_counter d) 1);
      };
    }

-- `screen_x` and `screen_y` are set to the beginning of the line.
unfoldable pub to_line_start : Kernel → Kernel
unfolding update
to_line_start k =
    let d : ℕ = k.displayed_terminal in
    record k {
      screen = record k.screen {
        screen_x = update k.screen.screen_x d (k.screen.og_x d);
        screen_y = update k.screen.screen_y d (k.keys.og_y d);
      };
    }

unfoldable pub up_arrow : Kernel → Kernel
up_arrow k =
    let d : ℕ = k.displayed_terminal in
    let row = k.keys.kb_save d (k.keys.up_arrow_counter d) in
    let k1 = to_line_start (record k { kb_idx = update k.kb_idx d 0 }) in
    let k2 = to_line_start (blank_line 128 (k.screen.screen_y d) k1) in
    let r : Recall = record { state = k2; end_string = 128; end_x = 0; end_y = 0 } in
    if not (slt (k.keys.up_arrow_counter d) 5) then k else finish_recall (recall 128 0 row r)

-- Column `i` of the saved lines: each line takes the character of the line before it, and the first
-- that of the line just entered, in which a newline becomes a tab.
unfoldable pub save_column : (ℕ → ℕ) → ℕ → (ℕ → ℕ → ℕ) → ℕ → ℕ → ℕ
unfolding update
save_column line i s0 =
    let s1 = update s0 4 (update (s0 4) i (s0 3 i)) in
    let s2 = update s1 3 (update (s1 3) i (s1 2 i)) in
    let s3 = update s2 2 (update (s2 2) i (s2 1 i)) in
    let s4 = update s3 1 (update (s3 1) i (s3 0 i)) in
    update s4 0 (update (s4 0) i (if line i == 10 then 9 else line i))

unfoldable pub save_line : ℕ → ℕ → (ℕ → ℕ) → (ℕ → ℕ → ℕ) → ℕ → ℕ → ℕ
unfolding save_column
save_line zero i line saved = saved
save_line (suc n) i line saved = save_line n (suc i) line (save_column line i saved)

unfoldable pub enter : Kernel → Kernel
enter k =
    let d : ℕ = k.displayed_terminal in
    let k' = end_line (show_newline (look k)) in
    if k.kb_idx d == 0 then k' else record k' {
      keys = record k'.keys {
        kb_save = update k'.keys.kb_save d (save_line 128 0 (k'.kb_buff d) (k'.keys.kb_save d));
      };
    }
