-- ===== src/Terminal/Line.antt =====
-- What t_read makes of a line that has been typed.
use illinix_os.Prelude.{
  ℕ, zero, suc, ◌+◌, ◌^◌, ◌≤◌, ◌<◌, ◌≡◌, ◌≢◌, fun_ext, true, ◌&&◌, some, List, ◌∷◌, arith, ltb, leb,
  ◌==◌, if◌then◌else◌, update, fill, eq_true, eq_false,
}
use illinix_os.Terminal.{Buffer, copy_pass, pass_rounds, t_read}

-- What is left of a character: a space becomes a NUL.
unfoldable pub cut_space : ℕ → ℕ
cut_space c = if c == 32 then 0 else c

-- The caller's buffer, with the characters from `i` up to the newline at `p` copied.
unfoldable pub line_in : ℕ → ℕ → Buffer → Buffer → Buffer
unfolding cut_space
line_in i p row buf k = if leb i k && leb k p then cut_space (row k) else buf k

line_in-step :
    (i p : ℕ) (row buf : Buffer)
    → i ≤ p
    → line_in
        (suc i)
        p
        row
        (if row i == 32 then update (update buf i (row i)) i 0 else update buf i (row i))
      ≡ line_in i p row buf
unfolding line_in update
line_in-step i p row buf h = fun_ext (λ k. ground arith)

line_in-end : (p : ℕ) (row buf : Buffer) → row p ≡ 10 → update buf p (row p) ≡ line_in p p row buf
unfolding line_in update
line_in-end p row buf e = fun_ext (λ k. ground arith)

pub rounds-lt : (nbytes p : ℕ) → nbytes < 2 ^ 31 → p < nbytes → p < 128 → p < pass_rounds nbytes
unfolding pass_rounds
rounds-lt nbytes p w h room = ground arith

-- The pass that meets the newline.
copy_pass-line :
    (d n i p : ℕ) (row buf : Buffer)
    → i + d ≡ p
    → d < n
    → row p ≡ 10
    → ((k : ℕ) → k < p → row k ≢ 10)
    → copy_pass n i row 0 buf
      ≡ record { count = suc p; last = true; buf = line_in i p row buf; clear_flag = 0 }
unfolding copy_pass
copy_pass-line d zero i p row buf e h nl before = absurd (omega arith)
copy_pass-line zero (suc n) i p row buf e h nl before =
    let same : p ≡ i = omega arith in
    let stop : row i ≡ 10 = rw same at nl in rw (same, eq_true stop, line_in-end i row buf stop)
copy_pass-line (suc d) (suc n) i p row buf e h nl before =
    rw (eq_false (before i (omega arith)), ← line_in-step i p row buf (omega arith))
      (copy_pass-line d n (suc i) p row _ (omega arith) (omega arith) nl before)

-- The terminal is displayed, and at the first pass that finds a newline at `p`, the first one, within
-- the requested bytes, t_read returns `p + 1`: the caller's buffer holds the line, its spaces turned
-- into NULs and its newline kept, and is otherwise as it was; `get_args_buf` has the first 128
-- bytes of that buffer; the keyboard buffer is wiped with tabs.
pub t_read-line :
    (row buf args : Buffer) (later : List (Buffer × ℕ)) (nbytes p : ℕ)
    → nbytes < 2 ^ 31
    → p < nbytes
    → p < 128
    → row p ≡ 10
    → ((k : ℕ) → k < p → row k ≢ 10)
    → t_read ((row, 0) ∷ later) nbytes buf args
      ≡ some (record {
        count = suc p;
        buf = line_in 0 p row buf;
        clear_flag = 0;
        row = fill 128 0 9 row;
        get_args_buf = λ k. if ltb k 128 then line_in 0 p row buf k else args k;
      })
unfolding t_read
t_read-line row buf args later nbytes p w h room nl before = rw (
    copy_pass-line p (pass_rounds nbytes) 0 p row buf (omega arith) (rounds-lt nbytes p w h room) nl
      before)
