-- ===== src/Kernel/Typing/Saving.antt =====
-- The enter key saves the line in front of the four lines saved last.
use illinix_os.Prelude.{
  ℕ, zero, suc, ◌+◌, ◌≤◌, ◌<◌, ◌≡◌, ◌≢◌, ◌∙◌, refl, arith, ◌==◌, if◌then◌else◌, update, ℕ_discrete,
}
use illinix_os.Kernel.Typing.History.{save_column, save_line}

-- What a saved line shows for a character: a tab for the newline.
unfoldable pub saved_char : ℕ → ℕ
saved_char c = if c == 10 then 9 else c

-- The lines after `line` has been put in front.
unfoldable pub pushed : (ℕ → ℕ) → (ℕ → ℕ → ℕ) → ℕ → ℕ → ℕ
unfolding saved_char
pushed line saved zero j = saved_char (line j)
pushed line saved (suc m) j = saved m j

column_at :
    (line : ℕ → ℕ) (i : ℕ) (s : ℕ → ℕ → ℕ) (m : ℕ)
    → m < 5
    → save_column line i s m i ≡ pushed line s m i
unfolding save_column pushed saved_char update
column_at line i s zero h = ground arith
column_at line i s (suc zero) h = ground arith
column_at line i s (suc (suc zero)) h = ground arith
column_at line i s (suc (suc (suc zero))) h = ground arith
column_at line i s (suc (suc (suc (suc zero)))) h = ground arith
column_at line i s (suc (suc (suc (suc (suc m))))) h = absurd (omega arith)

column_off :
    (line : ℕ → ℕ) (i : ℕ) (s : ℕ → ℕ → ℕ) (m j : ℕ) → j ≢ i → save_column line i s m j ≡ s m j
unfolding save_column update
column_off line i s m j ne = ground arith

-- The columns from `i` on are done; the ones before are as they were.
save_line-before :
    (n i : ℕ) (line : ℕ → ℕ) (s : ℕ → ℕ → ℕ) (m j : ℕ) → j < i → save_line n i line s m j ≡ s m j
unfolding save_line
save_line-before zero i line s m j h = refl
save_line-before (suc n) i line s m j h =
    save_line-before n (suc i) line (save_column line i s) m j (omega arith)
    ∙ column_off line i s m j (omega arith)

pushed-off :
    (line : ℕ → ℕ) (i : ℕ) (s : ℕ → ℕ → ℕ) (m j : ℕ)
    → j ≢ i
    → pushed line (save_column line i s) m j ≡ pushed line s m j
unfolding pushed
pushed-off line i s zero j ne = refl
pushed-off line i s (suc m) j ne = column_off line i s m j ne

pub save_line_lem :
    (n i : ℕ) (line : ℕ → ℕ) (s : ℕ → ℕ → ℕ) (m j : ℕ)
    → m < 5
    → i ≤ j
    → j < i + n
    → save_line n i line s m j ≡ pushed line s m j
unfolding save_line
save_line_lem zero i line s m j few low high = absurd (omega arith)
save_line_lem (suc n) i line s m j few low high = elim (ℕ_discrete j i) [
  | yes e ↦ rw e (
      save_line-before n (suc i) line (save_column line i s) m i (omega arith)
      ∙ column_at line i s m few)
  | no ne ↦
      save_line_lem n (suc i) line (save_column line i s) m j few (omega arith) (omega arith)
      ∙ pushed-off line i s m j ne
]
