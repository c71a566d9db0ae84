-- ===== src/Kernel/Typing/Kept.antt =====
-- The loop that shows a saved line keeps the keyboard's bounds.
use illinix_os.Prelude.{
  ℕ, zero, suc, ◌<◌, ◌≢◌, ◌&&◌, arith, ltb, ◌==◌, if◌then◌else◌, update, if_intro, update_ne,
}
use illinix_os.Prelude.Word.{add32}
use illinix_os.Kernel.{Kernel}
use illinix_os.Kernel.Typing.{show, go_to, place}
use illinix_os.Kernel.Typing.History.{
  Recall, put_saved, note_end, count_saved, copy_saved, recall, finish_recall,
}
use illinix_os.Kernel.Typing.Bounds.{IsDrawn, HasTab, IsKeyboard, putc_kb-IsDrawn, go_to-IsKeyboard}

-- The bounds but for the index of the displayed terminal's line.
pub record IsKept (k : Kernel) : Type 0 where
  pub others : (t : ℕ) → t ≢ k.displayed_terminal → k.kb_idx t < 128
  pub drawn : IsDrawn k.screen
  pub og_row : (t : ℕ) → k.keys.og_y t < 25
  pub saved : (t n : ℕ) → n < 5 → HasTab (k.keys.kb_save t n)
  pub recalls : (t : ℕ) → k.keys.up_arrow_counter t < 6

pub IsKeyboard-IsKept : (k : Kernel) → IsKeyboard k → IsKept k
IsKeyboard-IsKept k v = record {
  others = λ t _. v.idx t;
  drawn = v.drawn;
  og_row = v.og_row;
  saved = v.saved;
  recalls = v.recalls;
}

pub record IsRecall (r : Recall) : Type 0 where
  pub kept : IsKept r.state
  pub column : r.end_x < 80
  pub row : r.end_y < 25
  pub few : r.state.keys.up_arrow_counter r.state.displayed_terminal < 5

put_saved-IsRecall :
    (i c : ℕ) (r : Recall) → IsRecall r → IsRecall (record r { state = put_saved i c r.state })
unfolding put_saved
put_saved-IsRecall i c r v = record {
  kept = record {
    others = v.kept.others;
    drawn = v.kept.drawn;
    og_row = v.kept.og_row;
    saved = v.kept.saved;
    recalls = v.kept.recalls;
  };
  column = v.column;
  row = v.row;
  few = v.few;
}

note_end-IsRecall : (i c : ℕ) (r : Recall) → IsRecall r → IsRecall (note_end i c r)
unfolding note_end
note_end-IsRecall i c r v =
    if_intro IsRecall (c == 9 && ltb i r.end_string)
      (λ _.
        let at = v.kept.drawn.cursors r.state.displayed_terminal in
        record { kept = v.kept; column = at.column; row = at.row; few = v.few })
      (λ _. v)

show-IsKept : (c : ℕ) (k : Kernel) → IsKept k → IsKept (show c k)
unfolding show
show-IsKept c k v = record {
  others = v.others;
  drawn = putc_kb-IsDrawn k.displayed_terminal c k.screen v.drawn;
  og_row = v.og_row;
  saved = v.saved;
  recalls = v.recalls;
}

count_saved-IsKept : (k : Kernel) → IsKept k → IsKept (count_saved k)
unfolding count_saved
count_saved-IsKept k v = record {
  others = λ t ne.
      let same =
        update_ne k.kb_idx k.displayed_terminal t (add32 (k.kb_idx k.displayed_terminal) 1) ne in
      rw same (v.others t ne);
  drawn = v.drawn;
  og_row = v.og_row;
  saved = v.saved;
  recalls = v.recalls;
}

shown_few :
    (c : ℕ) (r : Recall)
    → r.state.keys.up_arrow_counter r.state.displayed_terminal < 5
    → (let k : Kernel = count_saved (if c == 9 then r.state else show c r.state) in
        k.keys.up_arrow_counter k.displayed_terminal < 5)
unfolding count_saved show
shown_few c r h = ground (arith, h)

copy_saved-IsRecall : (i c : ℕ) (r : Recall) → IsRecall r → IsRecall (copy_saved i c r)
unfolding copy_saved
copy_saved-IsRecall i c r v =
    let noted : Recall = note_end i c (record r { state = put_saved i c r.state }) in
    let w : IsRecall noted = note_end-IsRecall i c _ (put_saved-IsRecall i c r v) in
    record {
      kept =
          count_saved-IsKept (if c == 9 then noted.state else show c noted.state)
            (if_intro IsKept (c == 9) (λ _. w.kept) (λ _. show-IsKept c noted.state w.kept));
      column = w.column;
      row = w.row;
      few = shown_few c noted w.few;
    }

pub recall-IsRecall :
    (n i : ℕ) (row : ℕ → ℕ) (r : Recall) → IsRecall r → IsRecall (recall n i row r)
unfolding recall
recall-IsRecall zero i row r v = v
recall-IsRecall (suc n) i row r v =
    if_intro IsRecall (row i == 9 && r.state.screen.screen_x r.state.displayed_terminal == 79)
      (λ _. note_end-IsRecall i (row i) _ (put_saved-IsRecall i (row i) r v))
      (λ _. recall-IsRecall n (suc i) row _ (copy_saved-IsRecall i (row i) r v))

pub finish_recall-IsKeyboard :
    (r : Recall) → r.end_string < 128 → IsRecall r → IsKeyboard (finish_recall r)
unfolding finish_recall update go_to place
finish_recall-IsKeyboard r short v =
    let d : ℕ = r.state.displayed_terminal in
    let w =
      go_to-IsKeyboard r.end_x r.end_y
        (record r.state { kb_idx = update r.state.kb_idx d r.end_string }) v.column v.row
        (record {
          idx = λ t. ground (arith, v.kept.others t);
          drawn = v.kept.drawn;
          og_row = v.kept.og_row;
          saved = v.kept.saved;
          recalls = v.kept.recalls;
        }) in
    record {
      idx = w.idx;
      drawn = w.drawn;
      og_row = w.og_row;
      saved = w.saved;
      recalls = λ t. ground (arith, w.recalls t, v.few);
    }
