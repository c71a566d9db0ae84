-- ===== src/Kernel/Typing/Bounds.antt =====
-- What every key keeps: the index of the line stays in its buffer and the cursor on the screen.
use illinix_os.Prelude.{ℕ, zero, suc, ◌<◌, ◌≡◌, refl, true, ◌&&◌, arith, ◌==◌, update, if_intro}
use illinix_os.Screen.{Screen, putc_kb, put_in, update_xy, update_cursor, video}
use illinix_os.Screen.Bounds.{IsScreen, put_in-IsScreen, putc-IsScreen}
use illinix_os.Kernel.{Kernel}
use illinix_os.Kernel.Typing.{
  show, store, has_room, type_char, type_space, type_tab, place, go_to, begin_line, raise_line,
  reset_counter,
}

-- The cursors of the terminals, the columns in which their lines begin and the hardware cursor.
pub record IsDrawn (s : Screen) : Type 0 where
  pub cursors : IsScreen s
  pub starts : (t : ℕ) → s.og_x t < 80
  pub cursor : s.cursor < 2000

put_in-starts :
    (base t shown c : ℕ) (s : Screen)
    → ((j : ℕ) → s.og_x j < 80)
    → (j : ℕ) → (put_in base t shown c s).og_x j < 80
unfolding put_in update
put_in-starts base t shown c s h j = ground (arith, h j)

putc_kb-starts : (d c : ℕ) (s : Screen) → IsDrawn s → (t : ℕ) → (putc_kb d c s).og_x t < 80
unfolding putc_kb update_cursor
putc_kb-starts d c s v t = ground (arith, v.starts t, put_in-starts video d d c s v.starts t)

putc_kb-cursor : (d c : ℕ) (s : Screen) → IsDrawn s → (putc_kb d c s).cursor < 2000
unfolding putc_kb update_cursor
putc_kb-cursor d c s v =
    let at = put_in-IsScreen video d d c s v.cursors d in
    ground (arith, v.cursor, at.column, at.row)

pub putc_kb-IsDrawn : (d c : ℕ) (s : Screen) → IsDrawn s → IsDrawn (putc_kb d c s)
putc_kb-IsDrawn d c s v = record {
  cursors = (putc-IsScreen d d c s v.cursors).1;
  starts = putc_kb-starts d c s v;
  cursor = putc_kb-cursor d c s v;
}

update_xy-IsDrawn :
    (t x y : ℕ) (s : Screen) → x < 80 → y < 25 → IsDrawn s → IsDrawn (update_xy t x y s)
unfolding update_xy update
update_xy-IsDrawn t x y s p q v = record {
  cursors = λ j. ground (arith, v.cursors j);
  starts = v.starts;
  cursor = v.cursor;
}

update_cursor-IsDrawn :
    (x y : ℕ) (s : Screen) → x < 80 → y < 25 → IsDrawn s → IsDrawn (update_cursor x y s)
unfolding update_cursor
update_cursor-IsDrawn x y s p q v = record {
  cursors = v.cursors;
  starts = v.starts;
  cursor = omega arith;
}

-- A saved line has a tab, which ends its text.
abbrev pub HasTab : (ℕ → ℕ) → Type 0
HasTab row = (p : ℕ) × (p < 128) × (row p ≡ 9)

pub record IsKeyboard (k : Kernel) : Type 0 where
  pub idx : (t : ℕ) → k.kb_idx t < 128
  pub drawn : IsDrawn k.screen
  pub og_row : (t : ℕ) → k.keys.og_y t < 25
  pub saved : (t n : ℕ) → n < 5 → HasTab (k.keys.kb_save t n)
  pub recalls : (t : ℕ) → k.keys.up_arrow_counter t < 6

pub show-IsKeyboard : (c : ℕ) (k : Kernel) → IsKeyboard k → IsKeyboard (show c k)
unfolding show
show-IsKeyboard c k v = record {
  idx = v.idx;
  drawn = putc_kb-IsDrawn k.displayed_terminal c k.screen v.drawn;
  og_row = v.og_row;
  saved = v.saved;
  recalls = v.recalls;
}

store-IsKeyboard : (c : ℕ) (k : Kernel) → has_room k ≡ true → IsKeyboard k → IsKeyboard (store c k)
unfolding store update has_room
store-IsKeyboard c k room v = record {
  idx = λ t. ground (arith, v.idx t, v.idx k.displayed_terminal);
  drawn = v.drawn;
  og_row = v.og_row;
  saved = v.saved;
  recalls = v.recalls;
}

pub type_char-IsKeyboard : (c : ℕ) (k : Kernel) → IsKeyboard k → IsKeyboard (type_char c k)
unfolding type_char
type_char-IsKeyboard c k v =
    if_intro IsKeyboard (has_room k)
      (λ room. show-IsKeyboard c (store c k) (store-IsKeyboard c k room v)) (λ _. v)

show-has_room : (c : ℕ) (k : Kernel) → has_room (show c k) ≡ has_room k
unfolding has_room show
show-has_room c k = refl

type_space-IsKeyboard : (k : Kernel) → IsKeyboard k → IsKeyboard (type_space k)
unfolding type_space
type_space-IsKeyboard k v =
    if_intro IsKeyboard (has_room k)
      (λ room.
        store-IsKeyboard 32 (show 32 k) (rw (show-has_room 32 k) room) (show-IsKeyboard 32 k v))
      (λ _. v)

pub type_tab-IsKeyboard : (n : ℕ) (k : Kernel) → IsKeyboard k → IsKeyboard (type_tab n k)
unfolding type_tab
type_tab-IsKeyboard zero k v = v
type_tab-IsKeyboard (suc n) k v = type_tab-IsKeyboard n (type_space k) (type_space-IsKeyboard k v)

pub place-IsKeyboard :
    (x y : ℕ) (k : Kernel) → x < 80 → y < 25 → IsKeyboard k → IsKeyboard (place x y k)
unfolding place
place-IsKeyboard x y k p q v = record {
  idx = v.idx;
  drawn = update_xy-IsDrawn k.displayed_terminal x y k.screen p q v.drawn;
  og_row = v.og_row;
  saved = v.saved;
  recalls = v.recalls;
}

pub go_to-IsKeyboard :
    (x y : ℕ) (k : Kernel) → x < 80 → y < 25 → IsKeyboard k → IsKeyboard (go_to x y k)
unfolding go_to
go_to-IsKeyboard x y k p q v =
    let w = place-IsKeyboard x y k p q v in
    record {
      idx = w.idx;
      drawn = update_cursor-IsDrawn x y (place x y k).screen p q w.drawn;
      og_row = w.og_row;
      saved = w.saved;
      recalls = w.recalls;
    }

pub begin_line-IsKeyboard : (k : Kernel) → IsKeyboard k → IsKeyboard (begin_line k)
unfolding begin_line update
begin_line-IsKeyboard k v =
    let d : ℕ = k.displayed_terminal in
    if_intro IsKeyboard (k.setup d == 0) (λ _. v)
      (λ _. record {
        idx = v.idx;
        drawn = record {
          cursors = v.drawn.cursors;
          starts = λ t. ground (arith, v.drawn.starts t);
          cursor = v.drawn.cursor;
        };
        og_row = λ t. ground (arith, v.og_row t, v.drawn.cursor);
        saved = v.saved;
        recalls = v.recalls;
      })

pub raise_line-IsKeyboard : (k : Kernel) → IsKeyboard k → IsKeyboard (raise_line k)
unfolding raise_line update
raise_line-IsKeyboard k v =
    let d : ℕ = k.displayed_terminal in
    if_intro IsKeyboard (k.keys.y == 24 && (k.keys.og_y d == 24 && k.screen.next_row_flag d == 1))
      (λ _. record {
        idx = v.idx;
        drawn = v.drawn;
        og_row = λ t. ground (arith, v.og_row t);
        saved = v.saved;
        recalls = v.recalls;
      })
      (λ _. v)

pub reset_counter-IsKeyboard :
    (key : ℕ) (k : Kernel) → IsKeyboard k → IsKeyboard (reset_counter key k)
unfolding reset_counter update
reset_counter-IsKeyboard key k v =
    if_intro IsKeyboard (key == 0xC8) (λ _. v)
      (λ _. record {
        idx = v.idx;
        drawn = v.drawn;
        og_row = v.og_row;
        saved = v.saved;
        recalls = λ t. ground (arith, v.recalls t);
      })
