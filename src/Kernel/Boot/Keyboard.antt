-- ===== src/Kernel/Boot/Keyboard.antt =====
-- The keyboard handler from the start of the machine on.
use illinix_os.Prelude.{
  ℕ, zero, suc, ◌+◌, ◌≤◌, ◌≡◌, ◌∙◌, refl, subst, sym, List, [], ◌∷◌, arith, update, update_ne,
}
use illinix_os.Kernel.{Kernel}
use illinix_os.Kernel.Typing.Bounds.{HasTab, IsKeyboard}
use illinix_os.Kernel.Typing.Keys.{kb_handler-IsKeyboard}
use illinix_os.Kernel.Typing.Typed.{press_all}
use illinix_os.Kernel.Typing.Start.{clear_lines, clear_terminals, init_keyboard-IsKeyboard}
use illinix_os.Kernel.Scheduling.{terminal_init, init_pit}
use illinix_os.Kernel.Boot.{Placed, Machine, start_clock, entry}

-- The globals of the keyboard handler as they are in the kernel's image. The indices from 3 on stand
-- for no terminal.
pub record IsZeroed (k : Kernel) : Type 0 where
  pub line : (t : ℕ) → k.kb_idx t ≡ 0
  pub cursors : (t : ℕ) → (k.screen.screen_x t ≡ 0) × (k.screen.screen_y t ≡ 0)
  pub starts : (t : ℕ) → (k.screen.og_x t ≡ 0) × (k.keys.og_y t ≡ 0)
  pub counts : (t : ℕ) → k.keys.up_arrow_counter t ≡ 0
  pub others : (t n : ℕ) → 3 ≤ t → HasTab (k.keys.kb_save t n)

clear_terminals-above :
    (n i : ℕ) (saved : ℕ → ℕ → ℕ → ℕ) (t : ℕ) → i + n ≤ t → clear_terminals n i saved t ≡ saved t
unfolding clear_terminals
clear_terminals-above zero i saved t h = refl
clear_terminals-above (suc n) i saved t h =
    clear_terminals-above n (suc i) (update saved i (clear_lines 5 0 (saved i))) t (omega arith)
    ∙ update_ne saved i t _ (omega arith)

entry-IsKeyboard :
    (at : Placed) (input : ℕ → ℕ) (m : Machine)
    → IsZeroed m.kernel
    → IsKeyboard (entry at input m).kernel
unfolding entry start_clock terminal_init init_pit
entry-IsKeyboard at input m z =
    let v =
      init_keyboard-IsKeyboard (input 0) (input 1) _ z.line z.cursors z.starts z.counts (λ t n h.
        subst (λ (rows : ℕ → ℕ → ℕ). HasTab (rows n))
          (sym (clear_terminals-above 3 0 m.kernel.keys.kb_save t h)) (z.others t n h)) in
    record {
      idx = v.idx;
      drawn = record {
        cursors =
            λ t. record { column = (v.drawn.cursors t).column; row = (v.drawn.cursors t).row };
        starts = v.drawn.starts;
        cursor = v.drawn.cursor;
      };
      og_row = v.og_row;
      saved = v.saved;
      recalls = v.recalls;
    }

press_all-IsKeyboard :
    (beyond : ℕ) (keys : List ℕ) (k : Kernel) → IsKeyboard k → IsKeyboard (press_all beyond keys k)
unfolding press_all
press_all-IsKeyboard beyond [] k v = v
press_all-IsKeyboard beyond (key ∷ keys) k v =
    press_all-IsKeyboard beyond keys _ (kb_handler-IsKeyboard beyond key k v)

-- From a kernel whose keyboard globals are zeroed, with the saved lines that stand for no terminal
-- ended by a tab: when entry has started the machine and then any keys at all have arrived, one after
-- the other, the index of every terminal's line is below 128; the cursor of every terminal, the
-- hardware cursor and the place where a line begins are on the screen; each of the five saved lines
-- has a tab to end it; and the count of up arrows is at most 5.
pub entry-press_all :
    (at : Placed) (input : ℕ → ℕ) (m : Machine) (beyond : ℕ) (keys : List ℕ)
    → IsZeroed m.kernel
    → IsKeyboard (press_all beyond keys (entry at input m).kernel)
entry-press_all at input m beyond keys z =
    press_all-IsKeyboard beyond keys _ (entry-IsKeyboard at input m z)
