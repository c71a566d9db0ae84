-- ===== src/Kernel/Typing/Lines.antt =====
-- Bringing back a saved line keeps the keyboard's bounds.
use illinix_os.Prelude.{
  ℕ, zero, suc, ◌<◌, ◌≡◌, ◌≢◌, refl, ◌&&◌, not, arith, ◌==◌, update, if_intro, ℕ_discrete, ◌⊎◌, inl,
  inr,
}
use illinix_os.Prelude.Word.{slt}
use illinix_os.Kernel.{Kernel}
use illinix_os.Kernel.Typing.{show}
use illinix_os.Kernel.Typing.History.{blank_line, Recall, recall, to_line_start, up_arrow}
use illinix_os.Kernel.Typing.Bounds.{HasTab, IsKeyboard, show-IsKeyboard}
use illinix_os.Kernel.Typing.Recalling.{EndsAt, recall_lem}
use illinix_os.Kernel.Typing.Kept.{
  IsKeyboard-IsKept, IsRecall, recall-IsRecall, finish_recall-IsKeyboard,
}

-- The tabs among the first `n` characters.
first_tab :
    (n : ℕ) (row : ℕ → ℕ)
    → ((p : ℕ) × (p < n) × (row p ≡ 9) × ((j : ℕ) → j < p → row j ≢ 9))
      ⊎ ((j : ℕ) → j < n → row j ≢ 9)
first_tab zero row = inr (λ j h. absurd (omega arith))
first_tab (suc n) row = elim (first_tab n row) [
  | inl (p, low, tab, before) ↦ inl (p, omega arith, tab, before)
  | inr before ↦ elim (ℕ_discrete (row n) 9) [
    | yes tab ↦ inl (n, omega arith, tab, before)
    | no other ↦
        inr (λ j h. elim (ℕ_discrete j n) [ yes e ↦ rw e other | no ne ↦ before j (omega arith) ])
  ]
]

HasTab-EndsAt : (row : ℕ → ℕ) → HasTab row → (p : ℕ) × EndsAt row p
HasTab-EndsAt row (q, low, tab) = elim (first_tab 128 row) [
  | inl (p, short, at, before) ↦ (p, record { short = short; tab = at; before = before })
  | inr none_there ↦ absurd (none_there q low tab)
]

to_line_start-IsKeyboard : (k : Kernel) → IsKeyboard k → IsKeyboard (to_line_start k)
unfolding to_line_start update
to_line_start-IsKeyboard k v =
    let d : ℕ = k.displayed_terminal in
    record {
      idx = v.idx;
      drawn = record {
        cursors = λ t. ground (arith, v.drawn.cursors t, v.drawn.starts d, v.og_row d);
        starts = v.drawn.starts;
        cursor = v.drawn.cursor;
      };
      og_row = v.og_row;
      saved = v.saved;
      recalls = v.recalls;
    }

blank_line-IsKeyboard :
    (n last_row : ℕ) (k : Kernel) → IsKeyboard k → IsKeyboard (blank_line n last_row k)
unfolding blank_line
blank_line-IsKeyboard zero last_row k v = v
blank_line-IsKeyboard (suc n) last_row k v =
    let d : ℕ = k.displayed_terminal in
    if_intro IsKeyboard (k.screen.screen_x d == 79 && k.screen.screen_y d == last_row) (λ _. v)
      (λ _. blank_line-IsKeyboard n last_row (show 32 k) (show-IsKeyboard 32 k v))

restarted-IsKeyboard :
    (k : Kernel)
    → IsKeyboard k
    → IsKeyboard (record k { kb_idx = update k.kb_idx k.displayed_terminal 0 })
unfolding update
restarted-IsKeyboard k v = record {
  idx = λ t. ground (arith, v.idx t);
  drawn = v.drawn;
  og_row = v.og_row;
  saved = v.saved;
  recalls = v.recalls;
}

pub blank_line-keeps :
    (n last_row : ℕ) (k : Kernel)
    → ((blank_line n last_row k).keys ≡ k.keys)
      × ((blank_line n last_row k).displayed_terminal ≡ k.displayed_terminal)
unfolding blank_line show
blank_line-keeps zero last_row k = (refl, refl)
blank_line-keeps (suc n) last_row k =
    let rest = blank_line-keeps n last_row (show 32 k) in
    if_intro (λ (l : Kernel). (l.keys ≡ k.keys) × (l.displayed_terminal ≡ k.displayed_terminal))
      (k.screen.screen_x k.displayed_terminal == 79
        && k.screen.screen_y k.displayed_terminal == last_row)
      (λ _. (refl, refl)) (λ _. rest)

-- The state in which the loop over the saved line starts.
blanked_few :
    (k : Kernel)
    → k.keys.up_arrow_counter k.displayed_terminal < 5
    → (let k1 = to_line_start (record k { kb_idx = update k.kb_idx k.displayed_terminal 0 }) in
        let k2 = to_line_start (blank_line 128 (k.screen.screen_y k.displayed_terminal) k1) in
        k2.keys.up_arrow_counter k2.displayed_terminal < 5)
unfolding to_line_start
blanked_few k h =
    let k1 = to_line_start (record k { kb_idx = update k.kb_idx k.displayed_terminal 0 }) in
    let (keys, shown) = blank_line-keeps 128 (k.screen.screen_y k.displayed_terminal) k1 in
    rw (keys, shown) h

pub up_arrow-IsKeyboard : (k : Kernel) → IsKeyboard k → IsKeyboard (up_arrow k)
unfolding up_arrow
up_arrow-IsKeyboard k v =
    let d : ℕ = k.displayed_terminal in
    let row = k.keys.kb_save d (k.keys.up_arrow_counter d) in
    let k1 : Kernel = to_line_start (record k { kb_idx = update k.kb_idx d 0 }) in
    let k2 : Kernel = to_line_start (blank_line 128 (k.screen.screen_y d) k1) in
    let r : Recall = record { state = k2; end_string = 128; end_x = 0; end_y = 0 } in
    if_intro IsKeyboard (not (slt (k.keys.up_arrow_counter d) 5)) (λ _. v)
      (λ few.
        let started = to_line_start-IsKeyboard _ (restarted-IsKeyboard k v) in
        let w = to_line_start-IsKeyboard _ (blank_line-IsKeyboard 128 _ k1 started) in
        let below : k.keys.up_arrow_counter d < 5 = ground (arith, v.recalls d) in
        let s : IsRecall r = record {
          kept = IsKeyboard-IsKept k2 w;
          column = omega arith;
          row = omega arith;
          few = blanked_few k below;
        } in
        let (p, ends) = HasTab-EndsAt row (v.saved d _ below) in
        let got =
          recall_lem 128 0 p row r refl (omega arith) ends refl (λ j h. absurd (omega arith)) in
        finish_recall-IsKeyboard (recall 128 0 row r) (rw got.end ends.short)
          (recall-IsRecall 128 0 row r s))
