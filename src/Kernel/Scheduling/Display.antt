-- ===== src/Kernel/Scheduling/Display.antt =====
-- Switching the displayed terminal keeps the screen of each.
use illinix_os.Prelude.{
  ℕ, zero, suc, ◌+◌, ◌-◌, ◌≤◌, ◌<◌, ◌≡◌, ◌≢◌, ◌⊎◌, inl, inr, refl, ◌∙◌, Bool, true, false, ◌&&◌,
  arith, ltb, leb, ◌==◌, if◌then◌else◌, update, ℕ_discrete, eq_true, eq_false,
}
use illinix_os.Screen.{update_xy, update_cursor}
use illinix_os.Kernel.{Kernel}
use illinix_os.Kernel.Scheduling.{move_bytes, video, saved_page, switch_display}

apart_next :
    (src dst n : ℕ)
    → (src + suc n ≤ dst) ⊎ (dst + suc n ≤ src)
    → (suc src + n ≤ suc dst) ⊎ (suc dst + n ≤ suc src)
apart_next src dst n (inl h) = inl (omega arith)
apart_next src dst n (inr h) = inr (omega arith)

-- Moving bytes between areas that do not overlap.
move_bytes-at :
    (n src dst : ℕ) (mem : ℕ → ℕ) (a : ℕ)
    → (src + n ≤ dst) ⊎ (dst + n ≤ src)
    → move_bytes n src dst mem a
      ≡ (if leb dst a && ltb a (dst + n) then mem (src + (a - dst)) else mem a)
unfolding move_bytes update
move_bytes-at zero src dst mem a apart = ground arith
move_bytes-at (suc n) src dst mem a apart =
    rw
      (move_bytes-at n (suc src) (suc dst) (update mem dst (mem src)) a
        (apart_next src dst n apart))
      (ground arith)

-- The byte at `a` of the screen of terminal `j`, wherever it is kept.
unfoldable pub view : Kernel → ℕ → ℕ → ℕ
view k j a =
    if j == k.displayed_terminal
    then k.screen.vmem (video + a)
    else k.screen.vmem (saved_page j + a)

-- The two moves of a switch.
moves_at :
    (d t b : ℕ) (mem : ℕ → ℕ)
    → move_bytes 4096 (saved_page t) video (move_bytes 4096 video (saved_page d) mem) b ≡ (
        if leb video b && ltb b (video + 4096)
        then move_bytes 4096 video (saved_page d) mem (saved_page t + (b - video))
        else move_bytes 4096 video (saved_page d) mem b)
moves_at d t b mem = move_bytes-at 4096 (saved_page t) video _ b (inr (omega arith))

save_at :
    (d b : ℕ) (mem : ℕ → ℕ)
    → move_bytes 4096 video (saved_page d) mem b ≡ (
        if leb (saved_page d) b && ltb b (saved_page d + 4096)
        then mem (video + (b - saved_page d))
        else mem b)
save_at d b mem = move_bytes-at 4096 video (saved_page d) mem b (inl (omega arith))

abbrev inside : ℕ → ℕ → Bool
inside base b = leb base b && ltb b (base + 4096)

inside-offset : (base a : ℕ) → a < 4096 → inside base (base + a) ≡ true
inside-offset base a h = ground arith

outside_saved : (d j a : ℕ) → j ≢ d → a < 4096 → inside (saved_page d) (saved_page j + a) ≡ false
outside_saved d j a ne h = ground arith

outside_video : (j a : ℕ) → a < 4096 → inside video (saved_page j + a) ≡ false
outside_video j a h = ground arith

video_outside : (d a : ℕ) → a < 4096 → inside (saved_page d) (video + a) ≡ false
video_outside d a h = ground arith

offset : (base a : ℕ) → base + a - base ≡ a
offset base a = omega arith

module _ (d a : ℕ) (mem : ℕ → ℕ) (h : a < 4096) where
  saved_self : move_bytes 4096 video (saved_page d) mem (saved_page d + a) ≡ mem (video + a)
  saved_self = save_at d (saved_page d + a) mem ∙ rw (inside-offset (saved_page d) a h, offset) refl

  saved_other :
      (j : ℕ)
      → j ≢ d
      → move_bytes 4096 video (saved_page d) mem (saved_page j + a) ≡ mem (saved_page j + a)
  saved_other j ne = save_at d (saved_page j + a) mem ∙ rw (outside_saved d j a ne h) refl

  after_video :
      (t : ℕ)
      → move_bytes 4096 (saved_page t) video (move_bytes 4096 video (saved_page d) mem) (video + a)
        ≡ move_bytes 4096 video (saved_page d) mem (saved_page t + a)
  after_video t = moves_at d t (video + a) mem ∙ rw (inside-offset video a h, offset) refl

  after_saved :
      (t j : ℕ)
      → move_bytes 4096
          (saved_page t)
          video
          (move_bytes 4096 video (saved_page d) mem)
          (saved_page j + a)
        ≡ move_bytes 4096 video (saved_page d) mem (saved_page j + a)
  after_saved t j = moves_at d t (saved_page j + a) mem ∙ rw (outside_video j a h) refl

  kept_at :
      (j : ℕ)
      → move_bytes 4096 video (saved_page d) mem (saved_page j + a)
        ≡ (if j == d then mem (video + a) else mem (saved_page j + a))
  kept_at j = elim (ℕ_discrete j d) [
    | yes same ↦ rw (same, eq_true {a = d} {b = d} refl) saved_self
    | no other ↦ rw (eq_false other) (saved_other j other)
  ]

  found_at :
      (t j : ℕ)
      → (if j == t
          then move_bytes 4096
              (saved_page t)
              video
              (move_bytes 4096 video (saved_page d) mem)
              (video + a)
          else move_bytes 4096
              (saved_page t)
              video
              (move_bytes 4096 video (saved_page d) mem)
              (saved_page j + a))
        ≡ move_bytes 4096 video (saved_page d) mem (saved_page j + a)
  found_at t j = elim (ℕ_discrete j t) [
    | yes same ↦ rw (same, eq_true {a = t} {b = t} refl) (after_video t)
    | no other ↦ rw (eq_false other) (after_saved t j)
  ]

-- Switching the display to a terminal keeps what every terminal shows: the 4096 bytes of each
-- terminal's screen, which are in video memory if it is displayed and in its own page otherwise,
-- are the same before and after.
pub switch_display-view :
    (k : Kernel) (t j a : ℕ) → a < 4096 → view (switch_display t k) j a ≡ view k j a
unfolding view switch_display update_xy update_cursor
switch_display-view k t j a h =
    found_at k.displayed_terminal a k.screen.vmem h t j
    ∙ kept_at k.displayed_terminal a k.screen.vmem h j

-- Switching to a terminal, and from there to any other, shows that one's screen: video memory is
-- what the first state kept for it.
pub switch_display-twice :
    (k : Kernel) (t j a : ℕ)
    → a < 4096
    → (switch_display j (switch_display t k)).screen.vmem (video + a) ≡ view k j a
unfolding view switch_display update_xy update_cursor
switch_display-twice k t j a h =
    let k1 : Kernel = switch_display t k in
    after_video k1.displayed_terminal a k1.screen.vmem h j
    ∙ kept_at k1.displayed_terminal a k1.screen.vmem h j
    ∙ switch_display-view k t j a h
