-- ===== src/Screen/Scroll.antt =====
-- What scrolling does to video memory.
use illinix_os.Prelude.{
  ℕ, zero, suc, ◌+◌, ◌-◌, ◌*◌, ◌%◌, ◌<◌, ◌≡◌, refl, sym, ap, ◌∙◌, fun_ext, ◌&&◌, arith, dec_lt, ltb,
  leb, ◌==◌, if◌then◌else◌,
}
use illinix_os.Screen.{
  Console, cell, draw, advance, pull_cell, pull_row, pull_rows, blank_row, scroll,
}

-- The `len` bytes from `lo` on each take the byte one row further.
unfoldable pub moved : ℕ → ℕ → (ℕ → ℕ) → ℕ → ℕ
moved lo len mem a = if leb lo a && ltb a (lo + len) then mem (a + 160) else mem a

-- The `len` bytes from `lo` on are spaces in the default colour.
unfoldable pub blanked : ℕ → ℕ → (ℕ → ℕ) → ℕ → ℕ
blanked lo len mem a =
    if leb lo a && ltb a (lo + len) then (if (a - lo) % 2 == 0 then 0x20 else 0xA) else mem a

moved-moved :
    (lo k m hi len : ℕ) (mem : ℕ → ℕ)
    → hi ≡ lo + k
    → len ≡ k + m
    → moved hi m (moved lo k mem) ≡ moved lo len mem
unfolding moved
moved-moved lo k m hi len mem e f = fun_ext (λ a. ground arith)

blanked-blanked :
    (lo m hi len : ℕ) (mem : ℕ → ℕ)
    → hi ≡ lo + 2
    → len ≡ 2 + m
    → blanked hi m (blanked lo 2 mem) ≡ blanked lo len mem
unfolding blanked
blanked-blanked lo m hi len mem e f = fun_ext (λ a. ground arith)

pull_cell-mem :
    (base : ℕ) (s : Console) → (pull_cell base s).mem ≡ moved (cell base s.y s.x) 2 s.mem
unfolding pull_cell moved
pull_cell-mem base s = fun_ext (λ a. ground arith)

pull_cell-at :
    (base : ℕ) (s : Console)
    → ((pull_cell base s).x ≡ (s.x + 1) % 80) × ((pull_cell base s).y ≡ s.y)
unfolding pull_cell
pull_cell-at base s = (refl, refl)

pull_row-y : (n base : ℕ) (s : Console) → (pull_row n base s).y ≡ s.y
unfolding pull_row
pull_row-y zero base s = refl
pull_row-y (suc n) base s = pull_row-y n base (pull_cell base s) ∙ (pull_cell-at base s).1

moved-zero : (lo : ℕ) (mem : ℕ → ℕ) → moved lo 0 mem ≡ mem
unfolding moved
moved-zero lo mem = fun_ext (λ a. ground arith)

pull_row-mem :
    (n base : ℕ) (s : Console)
    → (0 < n → s.x + n ≡ 80)
    → (pull_row n base s).mem ≡ moved (cell base s.y s.x) (2 * n) s.mem
unfolding pull_row
pull_row-mem zero base s h = sym (moved-zero (cell base s.y s.x) s.mem)
pull_row-mem (suc n) base s h = elim (dec_lt 0 n) [
  | yes more ↦
      let at = pull_cell-at base s in
      let room : s.x + suc n ≡ 80 = h (omega arith) in
      pull_row-mem n base (pull_cell base s) (λ _. omega arith)
      ∙ (rw (pull_cell-mem base s)
          (moved-moved (cell base s.y s.x) 2 (2 * n) _ _ s.mem (omega arith) (omega arith)))
  | no last ↦ let e : n ≡ 0 = omega arith in rw e (pull_cell-mem base s)
]

pull_rows-mem :
    (n base i : ℕ) (s : Console)
    → (pull_rows n base i s).mem ≡ moved (cell base i 0) (160 * n) s.mem
unfolding pull_rows
pull_rows-mem zero base i s = sym (moved-zero (cell base i 0) s.mem)
pull_rows-mem (suc n) base i s =
    let start : Console = record s { x = 0; y = i } in
    pull_rows-mem n base (suc i) (pull_row 80 base start)
    ∙ rw (pull_row-mem 80 base start (λ _. refl))
        (moved-moved (cell base i 0) 160 (160 * n) _ _ s.mem (omega arith) (omega arith))

-- One blank.
draw_blank : (base : ℕ) (s : Console) → (draw base 0x20 s).mem ≡ blanked (cell base s.y s.x) 2 s.mem
unfolding draw blanked
draw_blank base s = fun_ext (λ a. ground arith)

blanked-zero : (lo : ℕ) (mem : ℕ → ℕ) → blanked lo 0 mem ≡ mem
unfolding blanked
blanked-zero lo mem = fun_ext (λ a. ground arith)

-- One blank of a row, and the step to the next cell.
blank_step : ℕ → Console → Console
blank_step base s = advance (draw base 0x20 s)

blank_step-at :
    (base : ℕ) (s : Console)
    → s.y < 25
    → ((blank_step base s).x ≡ (s.x + 1) % 80)
      × ((blank_step base s).y ≡ s.y)
      × ((blank_step base s).mem ≡ blanked (cell base s.y s.x) 2 s.mem)
unfolding blank_step advance draw
blank_step-at base s h = (refl, omega arith, draw_blank base s)

blank_row-at :
    (n base : ℕ) (s : Console)
    → s.y < 25
    → s.x + suc n ≡ 80
    → ((blank_row (suc n) base s).mem ≡ blanked (cell base s.y s.x) (2 * suc n) s.mem)
      × ((blank_row (suc n) base s).y ≡ s.y)
      × ((blank_row (suc n) base s).x ≡ 0)
unfolding blank_row blank_step
blank_row-at zero base s v h =
    let (column, row, drawn) = blank_step-at base s v in
    let last : (s.x + 1) % 80 ≡ 0 = omega arith in (drawn, row, column ∙ last)
blank_row-at (suc n) base s v h =
    let next : Console = blank_step base s in
    let (column, row, drawn) = blank_step-at base s v in
    let (filled, bottom, left) = blank_row-at n base next (omega arith) (omega arith) in
    (
      filled
          ∙ rw drawn (
              blanked-blanked (cell base s.y s.x) (2 * suc n) _ _ s.mem (omega arith)
                (omega arith)),
      bottom ∙ row,
      left,
    )

-- A scroll moves each of the upper 24 rows' bytes up by a row, blanks row 24, touches nothing
-- outside the 4000 bytes of the page, and leaves the cursor at the start of row 24, wherever it was.
pub scroll_lem :
    (base : ℕ) (s : Console)
    → scroll base s
      ≡ record { mem = blanked (base + 3840) 160 (moved base 3840 s.mem); x = 0; y = 24 }
unfolding scroll
scroll_lem base s =
    let up : Console = pull_rows 24 base 0 s in
    let (filled, bottom, left) =
      blank_row-at 79 base (record up { x = 0; y = 24 }) (omega arith) refl in
    let top : base + 2 * (80 * 0 + 0) ≡ base = omega arith in
    λ i. record {
      mem =
          (filled
              ∙ ap (blanked (base + 3840) 160)
                  (pull_rows-mem 24 base 0 s ∙ ap (λ lo. moved lo 3840 s.mem) top))
            i;
      x = left i;
      y = bottom i;
    }
