-- ===== src/Kernel/Typing/Again.antt =====
-- The line entered last comes back with the up arrow.
use illinix_os.Prelude.{
  ℕ, ◌<◌, ◌≡◌, ◌≢◌, ◌∙◌, refl, sym, ap, ap₂, subst, Bool, not, arith, if_intro, update, update_self,
  update_ne,
}
use illinix_os.Prelude.Word.{slt}
use illinix_os.Kernel.{Keyboard, Kernel}
use illinix_os.Kernel.Typing.{reset_counter, go_to, place}
use illinix_os.Kernel.Typing.History.{
  enter, save_line, up_arrow, blank_line, finish_recall, to_line_start, Recall,
}
use illinix_os.Kernel.Typing.Lines.{blank_line-keeps}
use illinix_os.Kernel.Typing.Handler.{edit_rest, edit, kb_handler}
use illinix_os.Kernel.Typing.Recalling.{EndsAt, IsLine, up_arrow-IsLine, recall-shown}
use illinix_os.Kernel.Typing.Saving.{saved_char, pushed, save_line_lem}
use illinix_os.Kernel.Typing.Routes.{
  Same, Same-trans, prepared, prepared-Same, prepared-counter, reset_counter-Same, reserved, finish,
  finish-Same, kb_handler-finish, edit-edit_rest,
}
use illinix_os.Kernel.Typing.Reading.{Line, Same-Line, Reads-shown}
use illinix_os.Kernel.Typing.Entering.{enter-Line, enter-saved, enter-counter, counter-reset}

-- A text without the characters that end a line and a saved line.
abbrev pub IsPlain : ℕ → (ℕ → ℕ) → Type 0
IsPlain i row = (j : ℕ) → j < i → (row j ≢ 9) × (row j ≢ 10)

-- What the enter key leaves in the line, the saved lines and the count of up arrows.
pub record Entered (d i : ℕ) (row : ℕ → ℕ) (cap shift : Bool) (saved : ℕ → ℕ → ℕ) (k : Kernel)
    : Type 0 where
  pub line : Line d cap shift 0 (update row i 10) k
  pub history : 0 < i → k.keys.kb_save d ≡ save_line 128 0 (update row i 10) saved
  pub counter : k.keys.up_arrow_counter d ≡ 0

enter_key-finish :
    (beyond : ℕ) (k : Kernel)
    → k.keys.ctrl ≡ 0
    → k.terminal_read_flag k.displayed_terminal ≢ 0
    → kb_handler beyond 0x1C k ≡ finish (enter (reset_counter 0x1C (prepared k)))
unfolding edit_rest reserved
enter_key-finish beyond k no_ctrl reading =
    kb_handler-finish beyond 0x1C k refl no_ctrl reading
    ∙ ap finish (edit-edit_rest beyond 0x1C (prepared k) (omega arith) (omega arith) (omega arith))

pub enter_key-Entered :
    (beyond d i : ℕ) (row : ℕ → ℕ) (cap shift : Bool) (k : Kernel)
    → Line d cap shift i row k
    → Entered d i row cap shift (k.keys.kb_save d) (kb_handler beyond 0x1C k)
unfolding finish
enter_key-Entered beyond d i row cap shift k l =
    let start : Kernel = reset_counter 0x1C (prepared k) in
    let s : Same k start = Same-trans (prepared-Same k) (reset_counter-Same 0x1C (prepared k)) in
    let w = Same-Line s l in
    let result : Entered d i row cap shift (k.keys.kb_save d) (finish (enter start)) = record {
      line = Same-Line (finish-Same (enter start)) (enter-Line d i row cap shift start w);
      history = λ more.
          enter-saved d i row cap shift start more w
          ∙ ap (λ f. save_line 128 0 (update row i 10) (f d)) s.saved;
      counter =
          ap (λ f. f d) (enter-counter start)
          ∙ subst (λ x. start.keys.up_arrow_counter x ≡ 0) ((prepared-Same k).shown ∙ l.0.shown)
              (counter-reset 0x1C (prepared k) (omega arith));
    } in
    subst (Entered d i row cap shift (k.keys.kb_save d))
      (sym (enter_key-finish beyond k l.0.no_ctrl (Reads-shown l.0))) result

-- The line just entered, as it is saved.
entered-EndsAt :
    (i : ℕ) (row : ℕ → ℕ) (saved : ℕ → ℕ → ℕ)
    → i < 128
    → IsPlain i row
    → EndsAt (save_line 128 0 (update row i 10) saved 0) i
      × ((j : ℕ) → j < i → save_line 128 0 (update row i 10) saved 0 j ≡ row j)
unfolding pushed saved_char
entered-EndsAt i row saved short plain =
    let at = λ (j : ℕ) (h : j < 128).
      save_line_lem 128 0 (update row i 10) saved 0 j (omega arith) (omega arith) h in
    let text : (j : ℕ) → j < i → save_line 128 0 (update row i 10) saved 0 j ≡ row j = λ j h.
      at j (omega arith)
      ∙ (ap saved_char (update_ne row i j 10 (omega arith)) ∙ saved_plain (row j) (plain j h).1) in
    (
      record {
        short = short;
        tab = at i short ∙ ap saved_char (update_self row i 10);
        before = λ j h e. (plain j h).0 (sym (text j h) ∙ e);
      },
      text,
    )
  where
    saved_plain : (c : ℕ) → c ≢ 10 → saved_char c ≡ c
    saved_plain c h = ground arith

up_key-finish :
    (beyond : ℕ) (k : Kernel)
    → k.keys.ctrl ≡ 0
    → k.terminal_read_flag k.displayed_terminal ≢ 0
    → kb_handler beyond 0x48 k ≡ finish (up_arrow (prepared k))
unfolding edit reserved
up_key-finish beyond k no_ctrl reading = kb_handler-finish beyond 0x48 k refl no_ctrl reading

up_arrow-shown : (k : Kernel) → (up_arrow k).displayed_terminal ≡ k.displayed_terminal
unfolding up_arrow finish_recall go_to place to_line_start
up_arrow-shown k =
    let d : ℕ = k.displayed_terminal in
    let row = k.keys.kb_save d (k.keys.up_arrow_counter d) in
    let k1 : Kernel = to_line_start (record k { kb_idx = update k.kb_idx d 0 }) in
    let blanked : Kernel = blank_line 128 (k.screen.screen_y d) k1 in
    let r : Recall = record {
      state = to_line_start blanked;
      end_string = 128;
      end_x = 0;
      end_y = 0;
    } in
    if_intro (λ (l : Kernel). l.displayed_terminal ≡ d) (not (slt (k.keys.up_arrow_counter d) 5))
      (λ _. refl)
      (λ _. recall-shown 128 0 row r ∙ (blank_line-keeps 128 (k.screen.screen_y d) k1).1)

-- The up arrow, pressed in a state whose first saved line is `row`.
up_key-line :
    (beyond d p : ℕ) (row : ℕ → ℕ) (k : Kernel)
    → k.displayed_terminal ≡ d
    → k.terminal_read_flag d ≢ 0
    → k.keys.ctrl ≡ 0
    → k.keys.up_arrow_counter d ≡ 0
    → k.keys.kb_save d 0 ≡ row
    → EndsAt row p
    → ((kb_handler beyond 0x48 k).kb_idx d ≡ p)
      × ((j : ℕ) → j < p → (kb_handler beyond 0x48 k).kb_buff d j ≡ row j)
unfolding finish
up_key-line beyond d p row k shown reading no_ctrl first saved ends =
    let ready : Kernel = prepared k in
    let s : Same k ready = prepared-Same k in
    let at : ready.displayed_terminal ≡ d = s.shown ∙ shown in
    let none_yet : ready.keys.up_arrow_counter d ≡ 0 = ap (λ f. f d) (prepared-counter k) ∙ first in
    let start = ready.keys.up_arrow_counter ready.displayed_terminal in
    let none_there : start ≡ 0 = ap ready.keys.up_arrow_counter at ∙ none_yet in
    let e : ready.keys.kb_save ready.displayed_terminal start ≡ row =
      ap₂ ready.keys.kb_save at none_there ∙ (ap (λ f. f d 0) s.saved ∙ saved) in
    let w : IsLine row p (up_arrow ready) =
      subst (λ r. IsLine r p (up_arrow ready)) e
        (up_arrow-IsLine ready p (omega (arith, none_there))
          (subst (λ r. EndsAt r p) (sym e) ends)) in
    let there : (up_arrow ready).displayed_terminal ≡ d = up_arrow-shown ready ∙ at in
    subst (λ (l : Kernel). (l.kb_idx d ≡ p) × ((j : ℕ) → j < p → l.kb_buff d j ≡ row j))
      (sym
        (up_key-finish beyond k no_ctrl (λ z. reading (ap k.terminal_read_flag (sym shown) ∙ z))))
      (
        ap (up_arrow ready).kb_idx (sym there) ∙ w.idx,
        λ j h. ap (λ x. (up_arrow ready).kb_buff x j) (sym there) ∙ w.line j h,
      )

-- On a terminal that reads, a line of 1 to 127 characters without tab and newline is ended with the
-- enter key, which empties the line. In any later state with the same modifier keys and history, in
-- which the same terminal is displayed and reads, the up arrow puts the line's characters back
-- into the keyboard buffer and sets the index to their number.
pub enter-up_arrow :
    (beyond beyond' d i : ℕ) (row : ℕ → ℕ) (cap shift : Bool) (k l : Kernel)
    → Line d cap shift i row k
    → 0 < i
    → i < 128
    → IsPlain i row
    → l.keys ≡ (kb_handler beyond 0x1C k).keys
    → l.displayed_terminal ≡ d
    → l.terminal_read_flag d ≢ 0
    → ((kb_handler beyond 0x1C k).kb_idx d ≡ 0)
      × ((kb_handler beyond' 0x48 l).kb_idx d ≡ i)
      × ((j : ℕ) → j < i → (kb_handler beyond' 0x48 l).kb_buff d j ≡ row j)
enter-up_arrow beyond beyond' d i row cap shift k l line more short plain same shown reading =
    let done = enter_key-Entered beyond d i row cap shift k line in
    let (ends, text) = entered-EndsAt i row (k.keys.kb_save d) short plain in
    let (idx, chars) =
      up_key-line beyond' d i _ l shown reading
        (ap (λ (q : Keyboard). q.ctrl) same ∙ done.line.0.no_ctrl)
        (ap (λ (q : Keyboard). q.up_arrow_counter d) same ∙ done.counter)
        (ap (λ (q : Keyboard). q.kb_save d 0) same ∙ ap (λ f. f 0) (done.history more)) ends in
    (done.line.1.idx, idx, λ j h. chars j h ∙ text j h)
