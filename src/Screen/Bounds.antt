-- ===== src/Screen/Bounds.antt =====
-- The cursor stays on the screen, and drawing stays in the terminal's page.
use illinix_os.Prelude.{ℕ, zero, suc, ◌+◌, ◌*◌, ◌<◌, arith, ◌==◌, if◌then◌else◌, update}
use illinix_os.Screen.{
  Console, draw, advance, pull_rows, blank_row, scroll, last_char, put_char, Screen, update_cursor,
  video, console_of, put_in, putc, putc_kb,
}

pub record OnScreen (s : Console) : Type 0 where
  pub column : s.x < 80
  pub row : s.y < 25

draw-OnScreen : (base c : ℕ) (s : Console) → OnScreen s → OnScreen (draw base c s)
unfolding draw
draw-OnScreen base c s v = record { column = v.column; row = v.row }

advance-OnScreen : (s : Console) → OnScreen (advance s)
unfolding advance
advance-OnScreen s = omega arith

blank_row-OnScreen : (n base : ℕ) (s : Console) → OnScreen s → OnScreen (blank_row n base s)
unfolding blank_row
blank_row-OnScreen zero base s v = v
blank_row-OnScreen (suc n) base s v = blank_row-OnScreen n base _ (advance-OnScreen _)

scroll-OnScreen : (base : ℕ) (s : Console) → OnScreen (scroll base s)
unfolding scroll
scroll-OnScreen base s =
    let up : Console = pull_rows 24 base 0 s in
    blank_row-OnScreen 80 base (record up { x = 0; y = 24 }) (omega arith)

put_char-OnScreen : (base c : ℕ) (s : Console) → OnScreen s → OnScreen (put_char base c s).0
unfolding put_char draw advance
put_char-OnScreen base c s v = ground (arith, scroll-OnScreen base (last_char base c s))

-- The cursor of every terminal is on the screen.
abbrev pub IsScreen : Screen → Type 0
IsScreen s = (t : ℕ) → OnScreen (console_of s t)

pub put_in-IsScreen :
    (base t shown c : ℕ) (s : Screen) → IsScreen s → IsScreen (put_in base t shown c s)
unfolding put_in update
put_in-IsScreen base t shown c s v j =
    ground (arith, v j, put_char-OnScreen base c (console_of s t) (v t))

-- No character printed by a program or typed at the keyboard takes the cursor of any terminal off
-- the 80 by 25 screen.
pub putc-IsScreen :
    (displayed scheduled c : ℕ) (s : Screen)
    → IsScreen s
    → IsScreen (putc displayed scheduled c s) × IsScreen (putc_kb displayed c s)
unfolding putc putc_kb update_cursor
putc-IsScreen displayed scheduled c s v = (
  λ j.
      let base : ℕ = if displayed == scheduled then video else 0xBA000 + scheduled * 4096 in
      ground (arith, v j, put_in-IsScreen base scheduled displayed c s v j),
  λ j. ground (arith, v j, put_in-IsScreen video displayed displayed c s v j),
)
