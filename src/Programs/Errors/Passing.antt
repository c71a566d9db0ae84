-- ===== src/Programs/Errors/Passing.antt =====
-- The tests of ece391syserr pass.
use illinix_os.Prelude.{
  ℕ, zero, suc, ◌+◌, ◌≤◌, ◌<◌, ◌≡◌, ◌∙◌, refl, ap, ◌⊎◌, inl, inr, true, List, arith, dec_lt,
}
use illinix_os.Prelude.Text.{bytes_of}
use illinix_os.Prelude.Word.{bad_fd}
use illinix_os.FileSys.Data.{Buffer}
use illinix_os.FileSys.Dentry.{strlen}
use illinix_os.FileSys.Image.{Image}
use illinix_os.Kernel.{Kernel}
use illinix_os.Kernel.Syscalls.{Arrivals}
use illinix_os.Kernel.Scheduling.{sys_vidmap}
use illinix_os.Programs.{Run, after}
use illinix_os.Programs.Errors.{
  expect, with_read, try_read, try_write, try_close, verdict, err_fd, err_neg_fd, err_big_fd,
  close_each, read_each, write_each, err_unopened, err_vidmap, err_stdin_out,
}
use illinix_os.Programs.Errors.Steps.{
  IsRefused, IsFresh, sys_read-refuses, sys_write-refuses, sys_close-refuses, fdputs-IsSplit,
}

-- A test returns 0, and leaves the descriptors from 2 on free.
abbrev pub Passes : Image → ((ℕ → Kernel → Run) → Run) → Type 0
Passes img test =
    (k' : Kernel) × IsFresh img k' × ((next : ℕ → Kernel → Run) → test next ≡ next 0 k')

try_read-refused :
    (a : Arrivals) (fd : ℕ) (message : List ℕ) (buf : Buffer) (fail : ℕ) (k : Kernel)
    → (fd ≡ 1) ⊎ IsRefused k fd
    → (next : Buffer → ℕ → Kernel → Run) → try_read a fd message buf fail k next ≡ next buf fail k
unfolding try_read with_read expect
try_read-refused a fd message buf fail k h next =
    ap (λ c. with_read c (λ ret buf' k'. expect message fail ret k' (next buf')))
      (sys_read-refuses a k fd buf 31 h)

try_write-refused :
    (fd : ℕ) (message : List ℕ) (buf : Buffer) (fail : ℕ) (k : Kernel)
    → (fd ≡ 0) ⊎ IsRefused k fd
    → (next : ℕ → Kernel → Run) → try_write fd message buf fail k next ≡ next fail k
unfolding try_write after expect
try_write-refused fd message buf fail k h next =
    ap (λ c. after c (λ ret k'. expect message fail ret k' next)) (sys_write-refuses k fd buf 31 h)

try_close-refused :
    (fd : ℕ) (message : List ℕ) (fail : ℕ) (k : Kernel)
    → (fd < 2) ⊎ IsRefused k fd
    → (next : ℕ → Kernel → Run) → try_close fd message fail k next ≡ next fail k
unfolding try_close after expect
try_close-refused fd message fail k h next =
    ap (λ c. after c (λ ret k'. expect message fail ret k' next)) (sys_close-refuses k fd h)

module _ {img : Image} {k : Kernel} (fresh : IsFresh img k) where
  pub verdict-Passes :
      (failed passed : List ℕ) → strlen passed < 100 → Passes img (verdict failed passed 0 k)
  unfolding verdict
  verdict-Passes failed passed short =
      let (k', fresh', prints) = fdputs-IsSplit passed short fresh in
      (k', fresh', λ next. prints (next 0))

  err_fd-Passes :
      (fd : ℕ) (failed passed : List ℕ) (a : Arrivals) (buf : Buffer)
      → bad_fd fd ≡ true
      → strlen passed < 100
      → Passes img (err_fd fd failed passed a buf k)
  unfolding err_fd
  err_fd-Passes fd failed passed a buf bad short =
      let (k', fresh', ends) = verdict-Passes failed passed short in
      (
        k',
        fresh',
        λ next.
            try_read-refused a fd (bytes_of "read fail\n") buf 0 k (inr (inl bad)) _
            ∙ (try_write-refused fd (bytes_of "write fail\n") buf 0 k (inr (inl bad)) _
                ∙ (try_close-refused fd (bytes_of "close fail\n") 0 k (inr (inl bad)) _
                    ∙ ends next)),
      )

  pub err_neg_fd-Passes : (a : Arrivals) (buf : Buffer) → Passes img (err_neg_fd a buf k)
  unfolding err_neg_fd strlen
  err_neg_fd-Passes a buf =
      err_fd-Passes _ (bytes_of "err_neg_fd: FAIL\n") _ a buf refl (omega arith)

  pub err_big_fd-Passes : (a : Arrivals) (buf : Buffer) → Passes img (err_big_fd a buf k)
  unfolding err_big_fd strlen
  err_big_fd-Passes a buf =
      err_fd-Passes _ (bytes_of "err_big_fd: FAIL\n") _ a buf refl (omega arith)

  refused : (i : ℕ) → 2 ≤ i → i < 8 → IsRefused k i
  refused i from to = inr (fresh.below i from to)

  close_each-refused :
      (n i fail : ℕ)
      → i + n ≤ 8
      → (next : ℕ → Kernel → Run) → close_each n i fail k next ≡ next fail k
  unfolding close_each
  close_each-refused zero i fail h next = refl
  close_each-refused (suc n) i fail h next =
      try_close-refused i (bytes_of "close unopened or invalid fd fail\n") fail k (at (dec_lt i 2))
        _
      ∙ close_each-refused n (suc i) fail (omega arith) next
    where
      at : Dec (i < 2) → (i < 2) ⊎ IsRefused k i
      at (yes low) = inl low
      at (no high) = inr (refused i (omega arith) (omega arith))

  read_each-refused :
      (n i : ℕ) (a : Arrivals) (buf : Buffer) (fail : ℕ)
      → 2 ≤ i
      → i + n ≤ 8
      → (next : Buffer → ℕ → Kernel → Run) → read_each n i a buf fail k next ≡ next buf fail k
  unfolding read_each
  read_each-refused zero i a buf fail low h next = refl
  read_each-refused (suc n) i a buf fail low h next =
      try_read-refused a i (bytes_of "read from unopened fd fail\n") buf fail k
        (inr (refused i low (omega arith))) _
      ∙ read_each-refused n (suc i) a buf fail (omega arith) (omega arith) next

  write_each-refused :
      (n i : ℕ) (buf : Buffer) (fail : ℕ)
      → 2 ≤ i
      → i + n ≤ 8
      → (next : ℕ → Kernel → Run) → write_each n i buf fail k next ≡ next fail k
  unfolding write_each
  write_each-refused zero i buf fail low h next = refl
  write_each-refused (suc n) i buf fail low h next =
      try_write-refused i (bytes_of "write to unopened fd fail\n") buf fail k
        (inr (refused i low (omega arith))) _
      ∙ write_each-refused n (suc i) buf fail (omega arith) (omega arith) next

  pub err_unopened-Passes : (a : Arrivals) (buf : Buffer) → Passes img (err_unopened a buf k)
  unfolding err_unopened strlen
  err_unopened-Passes a buf =
      let (k', fresh', ends) =
        verdict-Passes (bytes_of "err_unopened: FAIL\n") (bytes_of "err_unopened: PASS\n")
          (omega arith) in
      (
        k',
        fresh',
        λ next.
            close_each-refused 8 0 0 (omega arith) _
            ∙ (read_each-refused 6 2 a buf 0 (omega arith) (omega arith) _
                ∙ (write_each-refused 6 2 buf 0 (omega arith) (omega arith) _ ∙ ends next)),
      )

  pub err_vidmap-Passes : (old0 old1 : ℕ) → Passes img (err_vidmap old0 old1 k)
  unfolding err_vidmap sys_vidmap expect strlen
  err_vidmap-Passes old0 old1 =
      verdict-Passes (bytes_of "err_vidmap: FAIL\n") (bytes_of "err_vidmap: PASS\n") (omega arith)

  pub err_stdin_out-Passes : (a : Arrivals) (buf : Buffer) → Passes img (err_stdin_out a buf k)
  unfolding err_stdin_out strlen
  err_stdin_out-Passes a buf =
      let (k', fresh', ends) =
        verdict-Passes (bytes_of "err_stdin_out: FAIL\n") (bytes_of "err_stdin_out: PASS\n")
          (omega arith) in
      (
        k',
        fresh',
        λ next.
            try_write-refused 0 (bytes_of "write to stdin fail\n") buf 0 k (inl refl) _
            ∙ (try_read-refused a 1 (bytes_of "read from stdout fail\n") buf 0 k (inl refl) _
                ∙ ends next),
      )
