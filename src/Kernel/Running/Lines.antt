-- ===== src/Kernel/Running/Lines.antt =====
-- What changes the line and the screen leaves the processes as they are.
use illinix_os.Prelude.{
  ℕ, zero, suc, ◌≡◌, refl, ◌∙◌, Bool, not, ◌&&◌, ltb, leb, ◌==◌, if_intro, if◌then◌else◌,
}
use illinix_os.Prelude.Word.{sub32, slt}
use illinix_os.Kernel.{Pcb, TerminalInfo, Keyboard, Kernel}
use illinix_os.Kernel.Typing.{
  show, store, has_room, type_char, type_space, type_tab, place, go_to, begin_line, raise_line,
  reset_counter, look, rub_out, drop_last, backspace, show_newline, end_line, clear_line,
}
use illinix_os.Kernel.Typing.History.{
  blank_line, Recall, put_saved, note_end, count_saved, copy_saved, recall, finish_recall,
  to_line_start, up_arrow, enter,
}

-- The part of the state that the processes and terminals make up.
pub record Processes : Type 0 where
  pub shell_count : ℕ
  pub scheduled_terminal : ℕ
  pub processes_active : ℕ → ℕ
  pub num_active_processes : ℕ
  pub current_process_idx : ℕ
  pub user_page : ℕ
  pub esp0 : ℕ
  pub no_parent_shell_flag : ℕ
  pub terminal_processes : ℕ → TerminalInfo
  pub pcbs : ℕ → Pcb

abbrev processes : Kernel → Processes
processes k = record {
  shell_count = k.shell_count;
  scheduled_terminal = k.scheduled_terminal;
  processes_active = k.processes_active;
  num_active_processes = k.num_active_processes;
  current_process_idx = k.current_process_idx;
  user_page = k.user_page;
  esp0 = k.esp0;
  no_parent_shell_flag = k.no_parent_shell_flag;
  terminal_processes = k.terminal_processes;
  pcbs = k.pcbs;
}

unfoldable pub Same : Kernel → Kernel → Type 0
Same k k' = processes k' ≡ processes k

pub Same-trans : (k k' k'' : Kernel) → Same k k' → Same k' k'' → Same k k''
unfolding Same
Same-trans k k' k'' p q = q ∙ p

pub keys-Same : (k : Kernel) (keys : Keyboard) → Same k (record k { keys = keys })
unfolding Same
keys-Same k keys = refl

pub Same-refl : (k : Kernel) → Same k k
unfolding Same
Same-refl k = refl

-- Whichever branch is taken.
Same-if : (k : Kernel) (b : Bool) (x y : Kernel) → Same k x → Same k y → Same k (if b then x else y)
Same-if k b x y p q = if_intro (Same k) b (λ _. p) (λ _. q)

pub type_char-Same : (c : ℕ) (k : Kernel) → Same k (type_char c k)
unfolding Same type_char show store
type_char-Same c k = Same-if k (has_room k) _ _ refl refl

type_space-Same : (k : Kernel) → Same k (type_space k)
unfolding Same type_space show store
type_space-Same k = Same-if k (has_room k) _ _ refl refl

pub type_tab-Same : (n : ℕ) (k : Kernel) → Same k (type_tab n k)
unfolding Same type_tab
type_tab-Same zero k = refl
type_tab-Same (suc n) k = type_tab-Same n (type_space k) ∙ type_space-Same k

go_to-Same : (x y : ℕ) (k : Kernel) → Same k (go_to x y k)
unfolding Same go_to place
go_to-Same x y k = refl

pub begin_line-Same : (k : Kernel) → Same k (begin_line k)
unfolding Same begin_line
begin_line-Same k = Same-if k (k.setup k.displayed_terminal == 0) _ _ refl refl

pub raise_line-Same : (k : Kernel) → Same k (raise_line k)
unfolding Same raise_line
raise_line-Same k = Same-if k (k.keys.y == 24 && _) _ _ refl refl

pub reset_counter-Same : (key : ℕ) (k : Kernel) → Same k (reset_counter key k)
unfolding Same reset_counter
reset_counter-Same key k = Same-if k (key == 0xC8) _ _ refl refl

rub_out-Same : (k : Kernel) → Same k (rub_out k)
unfolding Same rub_out show place go_to
rub_out-Same k =
    let y : ℕ = k.keys.y in
    let wrapped = show 32 (place 79 (sub32 y 1) k) in
    Same-if k (k.keys.x == 0 && not (y == 0)) _ _
      (Same-if k (leb (wrapped.keys.og_y k.displayed_terminal) y) _ _ refl refl) refl

drop_last-Same : (k : Kernel) → Same k (drop_last k)
unfolding Same drop_last
drop_last-Same k = Same-if k (k.kb_idx k.displayed_terminal == 0) _ _ refl refl

pub backspace-Same : (k : Kernel) → Same k (backspace k)
unfolding Same backspace look
backspace-Same k = Same-if k (k.screen.cursor == 0) _ _ refl (
    Same-if k (not (slt 0 (k.kb_idx k.displayed_terminal))) _ _ refl
      (drop_last-Same (rub_out (look k)) ∙ rub_out-Same (look k)))

show_newline-Same : (k : Kernel) → Same k (show_newline k)
unfolding Same show_newline show
show_newline-Same k =
    let first : Same k (if k.keys.y == 0 then k else show 10 k) =
      Same-if k (k.keys.y == 0) _ _ refl refl in
    Same-if k (k.keys.y == 0 && not (k.keys.x == 0)) _ _ first first

pub enter-Same : (k : Kernel) → Same k (enter k)
unfolding Same enter end_line look
enter-Same k =
    Same-if k (k.kb_idx k.displayed_terminal == 0) _ _ (show_newline-Same (look k))
      (show_newline-Same (look k))

pub clear_line-Same : (k : Kernel) → Same k (clear_line k)
unfolding Same clear_line go_to place
clear_line-Same k = refl

blank_line-Same : (n last_row : ℕ) (k : Kernel) → Same k (blank_line n last_row k)
unfolding Same blank_line show
blank_line-Same zero last_row k = refl
blank_line-Same (suc n) last_row k =
    Same-if k
      (k.screen.screen_x k.displayed_terminal == 79
        && k.screen.screen_y k.displayed_terminal == last_row)
      _ _ refl (blank_line-Same n last_row (show 32 k))

note_end-Same : (i c : ℕ) (r : Recall) → Same r.state (note_end i c r).state
unfolding Same note_end
note_end-Same i c r =
    if_intro (λ (x : Recall). Same r.state x.state) (c == 9 && ltb i r.end_string) (λ _. refl)
      (λ _. refl)

copy_saved-Same : (i c : ℕ) (r : Recall) → Same r.state (copy_saved i c r).state
unfolding Same copy_saved put_saved count_saved show
copy_saved-Same i c r =
    let noted = note_end i c (record r { state = put_saved i c r.state }) in
    Same-if noted.state (c == 9) noted.state (show c noted.state) refl refl
    ∙ note_end-Same i c (record r { state = put_saved i c r.state })

recall-Same : (n i : ℕ) (row : ℕ → ℕ) (r : Recall) → Same r.state (recall n i row r).state
unfolding Same recall put_saved
recall-Same zero i row r = refl
recall-Same (suc n) i row r =
    if_intro (λ (x : Recall). Same r.state x.state)
      (row i == 9 && r.state.screen.screen_x r.state.displayed_terminal == 79)
      (λ _. note_end-Same i (row i) (record r { state = put_saved i (row i) r.state }))
      (λ _. recall-Same n (suc i) row (copy_saved i (row i) r) ∙ copy_saved-Same i (row i) r)

pub up_arrow-Same : (k : Kernel) → Same k (up_arrow k)
unfolding Same up_arrow finish_recall to_line_start go_to place
up_arrow-Same k =
    Same-if k (not (slt (k.keys.up_arrow_counter k.displayed_terminal) 5)) _ _ refl
      (recall-Same 128 0 _ _ ∙ blank_line-Same 128 _ _)
