-- ===== src/Kernel/Typing/Recalling.antt =====
-- The up arrow brings back a saved line, up to its first tab.
use illinix_os.Prelude.{
  ℕ, zero, suc, ◌+◌, ◌≤◌, ◌<◌, ◌≡◌, ◌≢◌, ◌∙◌, refl, ◌&&◌, not, arith, ltb, ◌==◌, if◌then◌else◌,
  update, if_intro, update_self, update_ne, ℕ_discrete, ap, subst, eq_false,
}
use illinix_os.Prelude.Word.{slt}
use illinix_os.Kernel.{Kernel}
use illinix_os.Kernel.Typing.{show, go_to, place}
use illinix_os.Kernel.Typing.History.{
  Recall, put_saved, note_end, count_saved, copy_saved, recall, finish_recall, up_arrow,
}

-- The keyboard buffer of the displayed terminal.
abbrev pub line_of : Kernel → ℕ → ℕ
line_of k = k.kb_buff k.displayed_terminal

-- The text of `row` ends at `p`.
pub record EndsAt (row : ℕ → ℕ) (p : ℕ) : Type 0 where
  pub short : p < 128
  pub tab : row p ≡ 9
  pub before : (j : ℕ) → j < p → row j ≢ 9

-- What a loop over the saved line leaves, when the end is `p`.
pub record Recalled (p : ℕ) (row : ℕ → ℕ) (r : Recall) : Type 0 where
  pub end : r.end_string ≡ p
  pub line : (j : ℕ) → j < p → line_of r.state j ≡ row j

put_saved-line : (i c : ℕ) (k : Kernel) → line_of (put_saved i c k) ≡ update (line_of k) i c
unfolding put_saved
put_saved-line i c k = update_self k.kb_buff k.displayed_terminal _

note_end-state : (i c : ℕ) (r : Recall) → (note_end i c r).state ≡ r.state
unfolding note_end
note_end-state i c r = ground arith

show-line : (c : ℕ) (k : Kernel) → line_of (show c k) ≡ line_of k
unfolding show
show-line c k = refl

count_saved-line : (k : Kernel) → line_of (count_saved k) ≡ line_of k
unfolding count_saved
count_saved-line k = refl

shown-line : (c : ℕ) (k : Kernel) → line_of (if c == 9 then k else show c k) ≡ line_of k
shown-line c k = ground (arith, show-line c k)

copy_saved-line :
    (i c : ℕ) (r : Recall) → line_of (copy_saved i c r).state ≡ update (line_of r.state) i c
unfolding copy_saved
copy_saved-line i c r =
    let noted : Recall = note_end i c (record r { state = put_saved i c r.state }) in
    count_saved-line (if c == 9 then noted.state else show c noted.state)
    ∙ (shown-line c noted.state
        ∙ (rw (note_end-state i c (record r { state = put_saved i c r.state }))
            (put_saved-line i c r.state)))

copy_saved-end :
    (i c : ℕ) (r : Recall)
    → (copy_saved i c r).end_string ≡ (if c == 9 && ltb i r.end_string then i else r.end_string)
unfolding copy_saved note_end
copy_saved-end i c r = ground arith

-- The last round of a loop that breaks.
abbrev noted_at : ℕ → ℕ → Recall → Recall
noted_at i c r = note_end i c (record r { state = put_saved i c r.state })

noted_at-line :
    (i c : ℕ) (r : Recall) → line_of (noted_at i c r).state ≡ update (line_of r.state) i c
noted_at-line i c r =
    rw (note_end-state i c (record r { state = put_saved i c r.state }))
      (put_saved-line i c r.state)

noted_at-end :
    (i c : ℕ) (r : Recall)
    → (noted_at i c r).end_string ≡ (if c == 9 && ltb i r.end_string then i else r.end_string)
unfolding note_end
noted_at-end i c r = ground arith

-- Behind the end nothing changes.
still-Recalled :
    (p i c : ℕ) (row : ℕ → ℕ) (r s : Recall)
    → p < i
    → Recalled p row r
    → s.end_string ≡ (if c == 9 && ltb i r.end_string then i else r.end_string)
    → line_of s.state ≡ update (line_of r.state) i c
    → Recalled p row s
still-Recalled p i c row r s past v e f = record {
  end = ground (arith, v.end, e);
  line = λ j h. ap (λ g. g j) f ∙ (update_ne (line_of r.state) i j c (omega arith) ∙ v.line j h);
}

recall-still :
    (n i p : ℕ) (row : ℕ → ℕ) (r : Recall)
    → p < i
    → Recalled p row r
    → Recalled p row (recall n i row r)
unfolding recall
recall-still zero i p row r past v = v
recall-still (suc n) i p row r past v =
    if_intro (Recalled p row)
      (row i == 9 && r.state.screen.screen_x r.state.displayed_terminal == 79)
      (λ _.
        still-Recalled p i (row i) row r _ past v (noted_at-end i (row i) r)
          (noted_at-line i (row i) r))
      (λ _. recall-still n (suc i) p row (copy_saved i (row i) r) (omega arith) (
        still-Recalled p i (row i) row r _ past v (copy_saved-end i (row i) r)
          (copy_saved-line i (row i) r)))

-- Up to the end the line is copied.
copies :
    (i c : ℕ) (row : ℕ → ℕ) (r s : Recall)
    → c ≡ row i
    → ((j : ℕ) → j < i → line_of r.state j ≡ row j)
    → line_of s.state ≡ update (line_of r.state) i c
    → (j : ℕ) → j < suc i
    → line_of s.state j ≡ row j
copies i c row r s same before f j h = elim (ℕ_discrete j i) [
  | yes e ↦ ap (λ g. g j) f ∙ rw e (update_self (line_of r.state) i c ∙ same)
  | no ne ↦ ap (λ g. g j) f ∙ (update_ne (line_of r.state) i j c ne ∙ before j (omega arith))
]

at_end :
    (p : ℕ) (row : ℕ → ℕ) (r s : Recall)
    → EndsAt row p
    → r.end_string ≡ 128
    → ((j : ℕ) → j < p → line_of r.state j ≡ row j)
    → s.end_string ≡ (if row p == 9 && ltb p r.end_string then p else r.end_string)
    → line_of s.state ≡ update (line_of r.state) p (row p)
    → Recalled p row s
at_end p row r s v unset before e f = record {
  end = ground (arith, v.tab, v.short, unset, e);
  line = λ j h. copies p (row p) row r s refl before f j (omega arith);
}

-- The loop copies the text and stops it at the first tab.
pub recall_lem :
    (n i p : ℕ) (row : ℕ → ℕ) (r : Recall)
    → i + n ≡ 128
    → i ≤ p
    → EndsAt row p
    → r.end_string ≡ 128
    → ((j : ℕ) → j < i → line_of r.state j ≡ row j)
    → Recalled p row (recall n i row r)
unfolding recall
recall_lem zero i p row r room h v unset before = absurd (omega (arith, v.short))
recall_lem (suc n) i p row r room h v unset before = elim (ℕ_discrete p i) [
  | yes e ↦
      let w : EndsAt row i = subst (EndsAt row) e v in
      let result : Recalled i row (recall (suc n) i row r) =
        if_intro (Recalled i row)
          (row i == 9 && r.state.screen.screen_x r.state.displayed_terminal == 79)
          (λ _.
            at_end i row r _ w unset before (noted_at-end i (row i) r) (noted_at-line i (row i) r))
          (λ _. recall-still n (suc i) i row (copy_saved i (row i) r) (omega arith) (
            at_end i row r _ w unset before (copy_saved-end i (row i) r)
              (copy_saved-line i (row i) r))) in
      rw e result
  | no ne ↦
      let other : row i ≢ 9 = v.before i (omega arith) in
      if_intro (Recalled p row)
        (row i == 9 && r.state.screen.screen_x r.state.displayed_terminal == 79)
        (λ test. absurd (ground arith))
        (λ _.
          recall_lem n (suc i) p row (copy_saved i (row i) r) (omega arith) (omega arith) v
            (copy_saved-end i (row i) r ∙ rw (eq_false other) unset)
            (copies i (row i) row r (copy_saved i (row i) r) refl before
              (copy_saved-line i (row i) r)))
]

-- After the up arrow the line is the text of `row`, which ends at `p`.
pub record IsLine (row : ℕ → ℕ) (p : ℕ) (k : Kernel) : Type 0 where
  pub idx : k.kb_idx k.displayed_terminal ≡ p
  pub line : (j : ℕ) → j < p → line_of k j ≡ row j

finish_recall-IsLine :
    (row : ℕ → ℕ) (p : ℕ) (r : Recall) → Recalled p row r → IsLine row p (finish_recall r)
unfolding finish_recall go_to place
finish_recall-IsLine row p r v = record {
  idx = update_self r.state.kb_idx r.state.displayed_terminal r.end_string ∙ v.end;
  line = v.line;
}

pub up_arrow-IsLine :
    (k : Kernel) (p : ℕ)
    → k.keys.up_arrow_counter k.displayed_terminal < 5
    → EndsAt (k.keys.kb_save k.displayed_terminal (k.keys.up_arrow_counter k.displayed_terminal)) p
    → IsLine
        (k.keys.kb_save k.displayed_terminal (k.keys.up_arrow_counter k.displayed_terminal))
        p
        (up_arrow k)
unfolding up_arrow
up_arrow-IsLine k p few v =
    let d : ℕ = k.displayed_terminal in
    let row = k.keys.kb_save d (k.keys.up_arrow_counter d) in
    if_intro (IsLine row p) (not (slt (k.keys.up_arrow_counter d) 5))
      (λ test. absurd (ground arith))
      (λ _.
        finish_recall-IsLine row p _
          (recall_lem 128 0 p row _ refl (omega arith) v refl (λ j h. absurd (omega arith))))

-- The display does not change.
shown_twice :
    (c : ℕ) (k : Kernel)
    → (if c == 9 then k else show c k).displayed_terminal ≡ k.displayed_terminal
unfolding show
shown_twice c k =
    if_intro (λ (l : Kernel). l.displayed_terminal ≡ k.displayed_terminal) (c == 9) (λ _. refl)
      (λ _. refl)

noted_at-shown :
    (i c : ℕ) (r : Recall) → (noted_at i c r).state.displayed_terminal ≡ r.state.displayed_terminal
unfolding put_saved
noted_at-shown i c r =
    ap (λ (k : Kernel). k.displayed_terminal)
      (note_end-state i c (record r { state = put_saved i c r.state }))

copy_saved-shown :
    (i c : ℕ) (r : Recall)
    → (copy_saved i c r).state.displayed_terminal ≡ r.state.displayed_terminal
unfolding copy_saved count_saved
copy_saved-shown i c r = shown_twice c (noted_at i c r).state ∙ noted_at-shown i c r

pub recall-shown :
    (n i : ℕ) (row : ℕ → ℕ) (r : Recall)
    → (recall n i row r).state.displayed_terminal ≡ r.state.displayed_terminal
unfolding recall
recall-shown zero i row r = refl
recall-shown (suc n) i row r =
    if_intro (λ (s : Recall). s.state.displayed_terminal ≡ r.state.displayed_terminal)
      (row i == 9 && r.state.screen.screen_x r.state.displayed_terminal == 79)
      (λ _. noted_at-shown i (row i) r)
      (λ _. recall-shown n (suc i) row (copy_saved i (row i) r) ∙ copy_saved-shown i (row i) r)
