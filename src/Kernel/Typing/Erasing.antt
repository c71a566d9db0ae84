-- ===== src/Kernel/Typing/Erasing.antt =====
-- Backspace, the end of a line and the clearing of the screen keep the keyboard's bounds.
use illinix_os.Prelude.{
  ℕ, ◌+◌, ◌*◌, ◌<◌, ◌≡◌, ◌&&◌, not, arith, leb, ◌==◌, if◌then◌else◌, update, if_intro,
}
use illinix_os.Prelude.Word.{sub32, slt}
use illinix_os.Screen.{clear}
use illinix_os.Kernel.{Kernel}
use illinix_os.Kernel.Typing.{
  show, place, look, rub_out, drop_last, backspace, show_newline, end_line, clear_line,
}
use illinix_os.Kernel.Typing.Bounds.{
  IsKeyboard, show-IsKeyboard, place-IsKeyboard, go_to-IsKeyboard,
}

pub look-IsKeyboard : (k : Kernel) → IsKeyboard k → IsKeyboard (look k)
unfolding look
look-IsKeyboard k v = record {
  idx = v.idx;
  drawn = v.drawn;
  og_row = v.og_row;
  saved = v.saved;
  recalls = v.recalls;
}

-- Where the cursor is.
looked_at :
    (k : Kernel)
    → k.screen.cursor < 2000
    → ((look k).keys.x < 80)
      × ((look k).keys.y < 25)
      × ((look k).keys.y * 80 + (look k).keys.x ≡ k.screen.cursor)
unfolding look
looked_at k h = (omega arith, omega arith, omega arith)

rub_out-IsKeyboard :
    (k : Kernel)
    → k.keys.x < 80
    → k.keys.y < 25
    → 0 < k.keys.y * 80 + k.keys.x
    → IsKeyboard k
    → IsKeyboard (rub_out k)
unfolding rub_out
rub_out-IsKeyboard k p q some_way v =
    let x : ℕ = k.keys.x in
    let y : ℕ = k.keys.y in
    if_intro IsKeyboard (x == 0 && not (y == 0))
      (λ test.
        let up : sub32 y 1 < 25 = ground arith in
        let w : Kernel = show 32 (place 79 (sub32 y 1) k) in
        let wrapped : IsKeyboard w =
          show-IsKeyboard 32 _ (place-IsKeyboard 79 (sub32 y 1) k (omega arith) up v) in
        if_intro IsKeyboard (leb (w.keys.og_y k.displayed_terminal) y)
          (λ _. go_to-IsKeyboard 79 (sub32 y 1) w (omega arith) up wrapped) (λ _. wrapped))
      (λ test.
        let left : sub32 x 1 < 80 = ground arith in
        go_to-IsKeyboard (sub32 x 1) y _ left q
          (show-IsKeyboard 32 _ (place-IsKeyboard (sub32 x 1) y k left q v)))

drop_last-IsKeyboard : (k : Kernel) → IsKeyboard k → IsKeyboard (drop_last k)
unfolding drop_last update
drop_last-IsKeyboard k v =
    let d : ℕ = k.displayed_terminal in
    if_intro IsKeyboard (k.kb_idx d == 0) (λ _. v)
      (λ some_left. record {
        idx = λ t. ground (arith, v.idx t, v.idx d);
        drawn = v.drawn;
        og_row = v.og_row;
        saved = v.saved;
        recalls = v.recalls;
      })

pub backspace-IsKeyboard : (k : Kernel) → IsKeyboard k → IsKeyboard (backspace k)
unfolding backspace
backspace-IsKeyboard k v =
    let d : ℕ = k.displayed_terminal in
    let w = look-IsKeyboard k v in
    let bound = v.drawn.cursor in
    if_intro IsKeyboard (k.screen.cursor == 0) (λ _. w)
      (λ some_way.
        if_intro IsKeyboard (not (slt 0 (k.kb_idx d))) (λ _. w)
          (λ _.
            let at = looked_at k bound in
            drop_last-IsKeyboard (rub_out (look k))
              (rub_out-IsKeyboard (look k) at.0 at.1 (ground (arith, at.2)) w)))

pub show_newline-IsKeyboard : (k : Kernel) → IsKeyboard k → IsKeyboard (show_newline k)
unfolding show_newline
show_newline-IsKeyboard k v =
    let k1 : Kernel = if k.keys.y == 0 then k else show 10 k in
    let w : IsKeyboard k1 =
      if_intro IsKeyboard (k.keys.y == 0) (λ _. v) (λ _. show-IsKeyboard 10 k v) in
    if_intro IsKeyboard (k.keys.y == 0 && not (k.keys.x == 0)) (λ _. show-IsKeyboard 10 k1 w)
      (λ _. w)

pub end_line-IsKeyboard : (k : Kernel) → IsKeyboard k → IsKeyboard (end_line k)
unfolding end_line update
end_line-IsKeyboard k v = record {
  idx = λ t. ground (arith, v.idx t);
  drawn = v.drawn;
  og_row = v.og_row;
  saved = v.saved;
  recalls = v.recalls;
}

pub clear_line-IsKeyboard : (k : Kernel) → IsKeyboard k → IsKeyboard (clear_line k)
unfolding clear_line clear
clear_line-IsKeyboard k v = go_to-IsKeyboard 0 0 _ (omega arith) (omega arith) (record {
  idx = λ t. ground (arith, v.idx t);
  drawn = record {
    cursors = λ t. let at = v.drawn.cursors t in record { column = at.column; row = at.row };
    starts = v.drawn.starts;
    cursor = v.drawn.cursor;
  };
  og_row = v.og_row;
  saved = v.saved;
  recalls = v.recalls;
})
