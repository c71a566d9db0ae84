-- ===== src/Kernel/Typing/Reading.antt =====
-- A terminal that reads a line, and the line that it has so far.
use illinix_os.Prelude.{
  ℕ, suc, ◌<◌, ◌≡◌, ◌≢◌, ◌∙◌, refl, sym, ap, subst, Bool, not, ap₂, arith, ◌==◌, if_intro, update,
  update_self,
}
use illinix_os.Prelude.Word.{add32}
use illinix_os.Kernel.{Kernel}
use illinix_os.Kernel.Typing.{show, store, has_room, type_char}
use illinix_os.Kernel.Typing.Routes.{Same}

-- A terminal that reads a line, with control up, and caps lock and shift as given.
pub record Reads (d : ℕ) (cap shift : Bool) (k : Kernel) : Type 0 where
  pub shown : k.displayed_terminal ≡ d
  pub reading : k.terminal_read_flag d ≢ 0
  pub no_ctrl : k.keys.ctrl ≡ 0
  pub caps_lock : not (k.keys.cap == 0) ≡ cap
  pub shift_key : not (k.keys.shift == 0) ≡ shift

Same-Reads :
    {d : ℕ} {cap shift : Bool} {k l : Kernel} → Same k l → Reads d cap shift k → Reads d cap shift l
Same-Reads {d = d} s r = record {
  shown = s.shown ∙ r.shown;
  reading = λ e. r.reading (ap (λ f. f d) (sym s.reading) ∙ e);
  no_ctrl = s.ctrl ∙ r.no_ctrl;
  caps_lock = ap (λ c. not (c == 0)) s.cap ∙ r.caps_lock;
  shift_key = ap (λ c. not (c == 0)) s.shift ∙ r.shift_key;
}

pub Reads-shown :
    {d : ℕ} {cap shift : Bool} {k : Kernel}
    → Reads d cap shift k
    → k.terminal_read_flag k.displayed_terminal ≢ 0
Reads-shown {k = k} r e = r.reading (ap k.terminal_read_flag (sym r.shown) ∙ e)

-- The line of terminal `d` has `row` in its buffer and goes on at index `i`.
pub record Holds (d i : ℕ) (row : ℕ → ℕ) (k : Kernel) : Type 0 where
  pub idx : k.kb_idx d ≡ i
  pub buff : k.kb_buff d ≡ row

Same-Holds : {d i : ℕ} {row : ℕ → ℕ} {k l : Kernel} → Same k l → Holds d i row k → Holds d i row l
Same-Holds {d = d} s h = record {
  idx = ap (λ f. f d) s.idx ∙ h.idx;
  buff = ap (λ f. f d) s.buff ∙ h.buff;
}

-- What storing a character does to the line.
store-Holds :
    (d i c : ℕ) (row : ℕ → ℕ) (k : Kernel)
    → k.displayed_terminal ≡ d
    → i < 127
    → Holds d i row k
    → Holds d (suc i) (update row i c) (store c k)
unfolding store
store-Holds d i c row k shown room h = record {
  idx =
      subst (λ x. update k.kb_idx x (add32 (k.kb_idx x) 1) d ≡ suc i) (sym shown)
        (update_self k.kb_idx d (add32 (k.kb_idx d) 1) ∙ omega (arith, h.idx));
  buff =
      subst (λ x. update k.kb_buff x (update (k.kb_buff x) (k.kb_idx x) c) d ≡ update row i c)
        (sym shown)
        (update_self k.kb_buff d (update (k.kb_buff d) (k.kb_idx d) c)
          ∙ ap₂ (λ r n. update r n c) h.buff h.idx);
}

store-Reads :
    (d c : ℕ) (cap shift : Bool) (k : Kernel) → Reads d cap shift k → Reads d cap shift (store c k)
unfolding store
store-Reads d c cap shift k r = record {
  shown = r.shown;
  reading = r.reading;
  no_ctrl = r.no_ctrl;
  caps_lock = r.caps_lock;
  shift_key = r.shift_key;
}

pub show-Same : (c : ℕ) (k : Kernel) → Same k (show c k)
unfolding show
show-Same c k = record {
  shown = refl;
  idx = refl;
  buff = refl;
  reading = refl;
  ctrl = refl;
  cap = refl;
  shift = refl;
  saved = refl;
}

-- A terminal that reads, and what its line holds.
abbrev pub Line : ℕ → Bool → Bool → ℕ → (ℕ → ℕ) → Kernel → Type 0
Line d cap shift i row k = Reads d cap shift k × Holds d i row k

pub Same-Line :
    {d i : ℕ} {cap shift : Bool} {row : ℕ → ℕ} {k l : Kernel}
    → Same k l
    → Line d cap shift i row k
    → Line d cap shift i row l
Same-Line s (r, h) = (Same-Reads s r, Same-Holds s h)

-- A character is typed into a line with room for it.
pub type_char-Line :
    (d i c : ℕ) (row : ℕ → ℕ) (cap shift : Bool) (k : Kernel)
    → i < 127
    → Line d cap shift i row k
    → Line d cap shift (suc i) (update row i c) (type_char c k)
unfolding type_char has_room
type_char-Line d i c row cap shift k room (r, h) =
    let at : k.kb_idx k.displayed_terminal ≡ i = ap k.kb_idx r.shown ∙ h.idx in
    if_intro (Line d cap shift (suc i) (update row i c))
      (not (k.kb_idx k.displayed_terminal == 127))
      (λ _.
        Same-Line (show-Same c (store c k))
          (store-Reads d c cap shift k r, store-Holds d i c row k r.shown room h))
      (λ full. absurd (ground (arith, at, room)))
