-- ===== src/Kernel/Typing/Entering.antt =====
-- The enter key ends the line with a newline and saves it.
use illinix_os.Prelude.{
  ℕ, ◌<◌, ◌≡◌, ◌≢◌, ◌∙◌, refl, sym, ap, ap₂, subst, Bool, ◌&&◌, not, arith, ◌==◌, if◌then◌else◌,
  if_intro, update, update_self,
}
use illinix_os.Kernel.{Kernel}
use illinix_os.Kernel.Typing.{show, look, show_newline, end_line, reset_counter}
use illinix_os.Kernel.Typing.History.{enter, save_line}
use illinix_os.Kernel.Typing.Routes.{Same, Same-refl, Same-trans}
use illinix_os.Kernel.Typing.Reading.{Line, Same-Line, show-Same}

look-Same : (k : Kernel) → Same k (look k)
unfolding look
look-Same k = record {
  shown = refl;
  idx = refl;
  buff = refl;
  reading = refl;
  ctrl = refl;
  cap = refl;
  shift = refl;
  saved = refl;
}

show_newline-Same : (k : Kernel) → Same k (show_newline k)
unfolding show_newline
show_newline-Same k =
    let k1 : Kernel = if k.keys.y == 0 then k else show 10 k in
    let first : Same k k1 =
      if_intro (Same k) (k.keys.y == 0) (λ _. Same-refl k) (λ _. show-Same 10 k) in
    if_intro (Same k) (k.keys.y == 0 && not (k.keys.x == 0))
      (λ _. Same-trans first (show-Same 10 k1)) (λ _. first)

end_line-Line :
    (d i : ℕ) (row : ℕ → ℕ) (cap shift : Bool) (k : Kernel)
    → Line d cap shift i row k
    → Line d cap shift 0 (update row i 10) (end_line k)
unfolding end_line
end_line-Line d i row cap shift k (r, h) = (
  record {
    shown = r.shown;
    reading = r.reading;
    no_ctrl = r.no_ctrl;
    caps_lock = r.caps_lock;
    shift_key = r.shift_key;
  },
  record {
    idx = subst (λ x. update k.kb_idx x 0 d ≡ 0) (sym r.shown) (update_self k.kb_idx d 0);
    buff =
        subst (λ x. update k.kb_buff x (update (k.kb_buff x) (k.kb_idx x) 10) d ≡ update row i 10)
          (sym r.shown)
          (update_self k.kb_buff d (update (k.kb_buff d) (k.kb_idx d) 10)
            ∙ ap₂ (λ r n. update r n 10) h.buff h.idx);
  },
)

resave-Line :
    (saved : ℕ → ℕ → ℕ → ℕ) (d i : ℕ) (row : ℕ → ℕ) (cap shift : Bool) (k : Kernel)
    → Line d cap shift i row k
    → Line d cap shift i row (record k { keys = record k.keys { kb_save = saved } })
resave-Line saved d i row cap shift k (r, h) = (
  record {
    shown = r.shown;
    reading = r.reading;
    no_ctrl = r.no_ctrl;
    caps_lock = r.caps_lock;
    shift_key = r.shift_key;
  },
  record { idx = h.idx; buff = h.buff },
)

-- The state that the enter key leaves, but for the saved lines.
entered : Kernel → Kernel
entered k = end_line (show_newline (look k))

entered-Line :
    (d i : ℕ) (row : ℕ → ℕ) (cap shift : Bool) (k : Kernel)
    → Line d cap shift i row k
    → Line d cap shift 0 (update row i 10) (entered k)
unfolding entered
entered-Line d i row cap shift k l =
    end_line-Line d i row cap shift (show_newline (look k))
      (Same-Line (Same-trans (look-Same k) (show_newline-Same (look k))) l)

entered-saved : (k : Kernel) → (entered k).keys.kb_save ≡ k.keys.kb_save
unfolding entered end_line
entered-saved k = (Same-trans (look-Same k) (show_newline-Same (look k))).saved

pub enter-Line :
    (d i : ℕ) (row : ℕ → ℕ) (cap shift : Bool) (k : Kernel)
    → Line d cap shift i row k
    → Line d cap shift 0 (update row i 10) (enter k)
unfolding enter entered
enter-Line d i row cap shift k l =
    let w = entered-Line d i row cap shift k l in
    if_intro (Line d cap shift 0 (update row i 10)) (k.kb_idx k.displayed_terminal == 0) (λ _. w)
      (λ _. resave-Line _ d 0 (update row i 10) cap shift (entered k) w)

pub enter-saved :
    (d i : ℕ) (row : ℕ → ℕ) (cap shift : Bool) (k : Kernel)
    → 0 < i
    → Line d cap shift i row k
    → (enter k).keys.kb_save d ≡ save_line 128 0 (update row i 10) (k.keys.kb_save d)
unfolding enter entered
enter-saved d i row cap shift k some_text (r, h) =
    let w = entered-Line d i row cap shift k (r, h) in
    let goal = save_line 128 0 (update row i 10) (k.keys.kb_save d) in
    let saved = (entered k).keys.kb_save in
    let at : k.kb_idx k.displayed_terminal ≡ i = ap k.kb_idx r.shown ∙ h.idx in
    if_intro (λ (m : Kernel). m.keys.kb_save d ≡ goal) (k.kb_idx k.displayed_terminal == 0)
      (λ t. absurd (ground (arith, at, some_text)))
      (λ _.
        subst (λ x. update saved x (save_line 128 0 ((entered k).kb_buff x) (saved x)) d ≡ goal)
          (sym r.shown)
          (update_self saved d _
            ∙ ap₂ (save_line 128 0) w.1.buff (ap (λ f. f d) (entered-saved k))))

-- Where the next up arrow starts.
pub counter-reset :
    (key : ℕ) (k : Kernel)
    → key ≢ 0xC8
    → (reset_counter key k).keys.up_arrow_counter k.displayed_terminal ≡ 0
unfolding reset_counter
counter-reset key k other =
    if_intro (λ (m : Kernel). m.keys.up_arrow_counter k.displayed_terminal ≡ 0) (key == 0xC8)
      (λ t. absurd (ground (arith, other)))
      (λ _. update_self k.keys.up_arrow_counter k.displayed_terminal 0)

show_newline-counter :
    (k : Kernel) → (show_newline k).keys.up_arrow_counter ≡ k.keys.up_arrow_counter
unfolding show_newline show
show_newline-counter k =
    let kept = λ (l : Kernel). l.keys.up_arrow_counter ≡ k.keys.up_arrow_counter in
    let k1 : Kernel = if k.keys.y == 0 then k else show 10 k in
    let first : kept k1 = if_intro kept (k.keys.y == 0) (λ _. refl) (λ _. refl) in
    if_intro kept (k.keys.y == 0 && not (k.keys.x == 0)) (λ _. first) (λ _. first)

pub enter-counter : (k : Kernel) → (enter k).keys.up_arrow_counter ≡ k.keys.up_arrow_counter
unfolding enter entered end_line look
enter-counter k =
    let same = show_newline-counter (look k) in
    if_intro (λ (l : Kernel). l.keys.up_arrow_counter ≡ k.keys.up_arrow_counter)
      (k.kb_idx k.displayed_terminal == 0) (λ _. same) (λ _. same)
