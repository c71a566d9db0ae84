-- ===== src/Kernel/Typing/Pushing.antt =====
-- The enter key, which saves the line, keeps the keyboard's bounds.
use illinix_os.Prelude.{
  ℕ, zero, suc, ◌<◌, ◌≡◌, ◌∙◌, refl, arith, ◌==◌, update, if_intro, update_self, ap, subst,
}
use illinix_os.Kernel.{Kernel}
use illinix_os.Kernel.Typing.{show, end_line, show_newline, look}
use illinix_os.Kernel.Typing.History.{save_line, enter}
use illinix_os.Kernel.Typing.Bounds.{HasTab, IsKeyboard}
use illinix_os.Kernel.Typing.Erasing.{look-IsKeyboard, show_newline-IsKeyboard, end_line-IsKeyboard}
use illinix_os.Kernel.Typing.Recalling.{line_of}
use illinix_os.Kernel.Typing.Saving.{save_line_lem, pushed, saved_char}

-- Each saved line still has its tab when a line that ends with a newline is put in front.
pushed-HasTab :
    (line : ℕ → ℕ) (s : ℕ → ℕ → ℕ) (p : ℕ)
    → p < 128
    → line p ≡ 10
    → ((n : ℕ) → n < 5 → HasTab (s n))
    → (n : ℕ) → n < 5
    → HasTab (save_line 128 0 line s n)
unfolding pushed saved_char
pushed-HasTab line s p short nl v zero few =
    (p, short, save_line_lem 128 0 line s 0 p few (omega arith) (omega arith) ∙ rw nl refl)
pushed-HasTab line s p short nl v (suc n) few =
    let (q, low, tab) = v n (omega arith) in
    (q, low, save_line_lem 128 0 line s (suc n) q few (omega arith) (omega arith) ∙ tab)

end_line-newline : (k : Kernel) → line_of (end_line k) (k.kb_idx k.displayed_terminal) ≡ 10
unfolding end_line
end_line-newline k =
    let d : ℕ = k.displayed_terminal in
    ap (λ g. g (k.kb_idx d)) (update_self k.kb_buff d (update (k.kb_buff d) (k.kb_idx d) 10))
    ∙ update_self (k.kb_buff d) (k.kb_idx d) 10

show_newline-keeps :
    (k : Kernel)
    → ((show_newline k).displayed_terminal ≡ k.displayed_terminal)
      × ((show_newline k).kb_idx ≡ k.kb_idx)
unfolding show_newline show
show_newline-keeps k = (ground arith, ground arith)

-- The line that the enter key saves, at its index.
entered-newline :
    (k : Kernel)
    → (end_line (show_newline (look k))).kb_buff k.displayed_terminal
        (k.kb_idx k.displayed_terminal)
      ≡ 10
unfolding end_line look
entered-newline k =
    let (same, idx) = show_newline-keeps (look k) in
    subst
      (λ f.
        (end_line (show_newline (look k))).kb_buff k.displayed_terminal (f k.displayed_terminal)
        ≡ 10)
      idx
      (subst
        (λ d. (end_line (show_newline (look k))).kb_buff d ((show_newline (look k)).kb_idx d) ≡ 10)
        same (end_line-newline (show_newline (look k))))

saved-update :
    (saved : ℕ → ℕ → ℕ → ℕ) (d : ℕ) (rows : ℕ → ℕ → ℕ)
    → ((n : ℕ) → n < 5 → HasTab (rows n))
    → ((t n : ℕ) → n < 5 → HasTab (saved t n))
    → (t n : ℕ) → n < 5
    → HasTab (update saved d rows t n)
unfolding update
saved-update saved d rows new old t n few =
    if_intro {A = ℕ → ℕ → ℕ} (λ r. HasTab (r n)) (t == d) (λ _. new n few) (λ _. old t n few)

pub enter-IsKeyboard : (k : Kernel) → IsKeyboard k → IsKeyboard (enter k)
unfolding enter
enter-IsKeyboard k v =
    let d : ℕ = k.displayed_terminal in
    let k' : Kernel = end_line (show_newline (look k)) in
    let w : IsKeyboard k' =
      end_line-IsKeyboard _ (show_newline-IsKeyboard (look k) (look-IsKeyboard k v)) in
    if_intro IsKeyboard (k.kb_idx d == 0) (λ _. w)
      (λ _. record {
        idx = w.idx;
        drawn = w.drawn;
        og_row = w.og_row;
        saved =
            saved-update k'.keys.kb_save d _
              (pushed-HasTab (k'.kb_buff d) (k'.keys.kb_save d) (k.kb_idx d) (v.idx d)
                (entered-newline k) (w.saved d))
              w.saved;
        recalls = w.recalls;
      })
