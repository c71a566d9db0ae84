-- ===== src/Kernel/Typing/Start.antt =====
-- init_keyboard, enable_cursor and disable_cursor of student-distrib/keyboard.c, which set up the
-- state in which the keyboard handler begins.
use illinix_os.Prelude.{
  ℕ, zero, suc, if_intro, ◌+◌, ◌<◌, ◌≡◌, [], ◌∷◌, ◌++◌, arith, dec_lt, ◌≤◌, ◌==◌, update, fill,
  fill_lem, bit_and, bit_or,
}
use illinix_os.Pic.{enable_irq}
use illinix_os.Screen.{clear, update_xy, update_cursor}
use illinix_os.Kernel.{Kernel}
use illinix_os.Kernel.Typing.Bounds.{HasTab, IsKeyboard}

-- `first` and `second` are what the two reads of port 0x3D5 give.
unfoldable pub enable_cursor : ℕ → ℕ → ℕ → ℕ → Kernel → Kernel
enable_cursor first second cursor_start cursor_end k = record k {
  port_log =
      k.port_log
      ++ (0x3D4, 0x0A)
        ∷ (0x3D5, bit_or (bit_and first 0xC0) cursor_start)
        ∷ (0x3D4, 0x0B)
        ∷ (0x3D5, bit_or (bit_and second 0xE0) cursor_end)
        ∷ [];
}

unfoldable pub disable_cursor : Kernel → Kernel
disable_cursor k = record k { port_log = k.port_log ++ (0x3D4, 0x0A) ∷ (0x3D5, 0x20) ∷ [] }

-- The loops over the saved lines: `n` lines of a terminal from line `j` on.
unfoldable pub clear_lines : ℕ → ℕ → (ℕ → ℕ → ℕ) → ℕ → ℕ → ℕ
unfolding update
clear_lines zero j saved = saved
clear_lines (suc n) j saved = clear_lines n (suc j) (update saved j (fill 128 0 9 (saved j)))

unfoldable pub clear_terminals : ℕ → ℕ → (ℕ → ℕ → ℕ → ℕ) → ℕ → ℕ → ℕ → ℕ
unfolding update
clear_terminals zero i saved = saved
clear_terminals (suc n) i saved =
    clear_terminals n (suc i) (update saved i (clear_lines 5 0 (saved i)))

unfoldable pub init_keyboard : ℕ → ℕ → Kernel → Kernel
init_keyboard first second k =
    let k' = enable_cursor first second 0 25 k in
    record k' {
      screen = update_xy k.scheduled_terminal 0 0 (update_cursor 0 0 (clear k.screen));
      keys = record k.keys { kb_save = clear_terminals 3 0 k.keys.kb_save };
      pic = enable_irq k.pic 1;
    }

fill-first : (row : ℕ → ℕ) → fill 128 0 9 row 0 ≡ 9
fill-first row = fill_lem 128 0 9 row 0

clear_lines-at :
    (n i : ℕ) (saved : ℕ → ℕ → ℕ) (j : ℕ)
    → j < i + n
    → (j < i → saved j 0 ≡ 9)
    → clear_lines n i saved j 0 ≡ 9
unfolding clear_lines
clear_lines-at zero i saved j low done = done (omega arith)
clear_lines-at (suc n) i saved j low done =
    clear_lines-at n (suc i) (update saved i (fill 128 0 9 (saved i))) j (omega arith) (λ h.
      if_intro {A = ℕ → ℕ} (λ r. r 0 ≡ 9) (j == i) (λ _. fill-first (saved i))
        (λ t. done (ground arith)))

clear_terminals-at :
    (n i : ℕ) (saved : ℕ → ℕ → ℕ → ℕ) (t r : ℕ)
    → t < i + n
    → r < 5
    → (t < i → saved t r 0 ≡ 9)
    → clear_terminals n i saved t r 0 ≡ 9
unfolding clear_terminals
clear_terminals-at zero i saved t r low few done = done (omega arith)
clear_terminals-at (suc n) i saved t r low few done =
    clear_terminals-at n (suc i) (update saved i (clear_lines 5 0 (saved i))) t r (omega arith) few
      (λ h.
        if_intro {A = ℕ → ℕ → ℕ} (λ s. s r 0 ≡ 9) (t == i)
          (λ _. clear_lines-at 5 0 (saved i) r (omega arith) (λ z. absurd (omega arith)))
          (λ x. done (ground arith)))

-- With the line's indices, counts of up arrows and places of the terminals at 0 as the kernel's
-- image has them, init_keyboard makes the bounds hold that the keyboard handler keeps. The indices
-- from 3 on stand for no terminal.
pub init_keyboard-IsKeyboard :
    (first second : ℕ) (k : Kernel)
    → ((t : ℕ) → k.kb_idx t ≡ 0)
    → ((t : ℕ) → (k.screen.screen_x t ≡ 0) × (k.screen.screen_y t ≡ 0))
    → ((t : ℕ) → (k.screen.og_x t ≡ 0) × (k.keys.og_y t ≡ 0))
    → ((t : ℕ) → k.keys.up_arrow_counter t ≡ 0)
    → ((t n : ℕ) → 3 ≤ t → HasTab (clear_terminals 3 0 k.keys.kb_save t n))
    → IsKeyboard (init_keyboard first second k)
unfolding init_keyboard enable_cursor update_xy update_cursor clear update
init_keyboard-IsKeyboard first second k idx cursors starts counts others = record {
  idx = λ t. omega (arith, idx t);
  drawn = record {
    cursors = λ t. record { column = ground (arith, cursors t); row = ground (arith, cursors t) };
    starts = λ t. omega (arith, (starts t).0);
    cursor = omega arith;
  };
  og_row = λ t. omega (arith, (starts t).1);
  saved = λ t n few. elim (dec_lt t 3) [
    | yes low ↦ (
      0,
      omega arith,
      clear_terminals-at 3 0 k.keys.kb_save t n low few (λ z. absurd (omega arith)),
    )
    | no high ↦ others t n (omega arith)
  ];
  recalls = λ t. omega (arith, counts t);
}
