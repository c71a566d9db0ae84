-- ===== src/Programs/Errors.antt =====
-- The program syscalls/ece391syserr.c, which calls the kernel with bad arguments. A test is given the
-- rest of the program, a function of the value that it returns. The buffer on the stack of a test,
-- which the code does not initialize, is an argument.
pub mod Steps
pub mod Passing
pub mod Opens
pub mod Main
use illinix_os.Prelude.{ℕ, zero, suc, ◌+◌, Bool, ◌&&◌, List, some, ◌==◌, if◌then◌else◌}
use illinix_os.Prelude.Text.{bytes_of}
use illinix_os.Prelude.Word.{failure, add32, sub32, slt}
use illinix_os.FileSys.Data.{Buffer}
use illinix_os.Kernel.{Kernel}
use illinix_os.Kernel.Syscalls.{
  Call, returned, waiting, fault, Arrivals, sys_open, sys_close, sys_read, sys_write,
}
use illinix_os.Kernel.Scheduling.{sys_vidmap}
use illinix_os.Programs.{Run, finished, stuck, after, fdputs}

-- `if (-1 != ret) { fail = 2; ... }`
unfoldable pub expect : List ℕ → ℕ → ℕ → Kernel → (ℕ → Kernel → Run) → Run
expect message fail ret k next = if ret == failure then next fail k else fdputs message k (next 2)

-- The three calls of a test, each with the test of its result.
unfoldable pub with_read : Call (ℕ × Buffer × Kernel) → (ℕ → Buffer → Kernel → Run) → Run
with_read (returned (ret, buf, k)) next = next ret buf k
with_read waiting next = stuck
with_read fault next = stuck

unfoldable pub try_read :
    Arrivals → ℕ → List ℕ → Buffer → ℕ → Kernel → (Buffer → ℕ → Kernel → Run) → Run
try_read a fd message buf fail k next =
    with_read (sys_read a k fd (some buf) 31)
      (λ ret buf' k'. expect message fail ret k' (next buf'))

unfoldable pub try_write : ℕ → List ℕ → Buffer → ℕ → Kernel → (ℕ → Kernel → Run) → Run
try_write fd message buf fail k next =
    after (sys_write k fd (some buf) 31) (λ ret k'. expect message fail ret k' next)

unfoldable pub try_close : ℕ → List ℕ → ℕ → Kernel → (ℕ → Kernel → Run) → Run
try_close fd message fail k next =
    after (sys_close k fd) (λ ret k'. expect message fail ret k' next)

unfoldable pub try_open : List ℕ → List ℕ → ℕ → Kernel → (ℕ → Kernel → Run) → Run
try_open filename message fail k next =
    let (ret, k') = sys_open k filename in expect message fail ret k' next

-- The end of a test.
unfoldable pub verdict : List ℕ → List ℕ → ℕ → Kernel → (ℕ → Kernel → Run) → Run
verdict failed passed fail k next = fdputs (if fail == 0 then passed else failed) k (next fail)

-- What err_neg_fd and err_big_fd do with their file descriptor.
unfoldable pub err_fd : ℕ → List ℕ → List ℕ → Arrivals → Buffer → Kernel → (ℕ → Kernel → Run) → Run
err_fd fd failed passed a buf k next =
    try_read a fd (bytes_of "read fail\n") buf 0 k (λ buf' fail k1.
      try_write fd (bytes_of "write fail\n") buf' fail k1 (λ fail' k2.
        try_close fd (bytes_of "close fail\n") fail' k2
          (λ fail2 k3. verdict failed passed fail2 k3 next)))

unfoldable pub err_neg_fd : Arrivals → Buffer → Kernel → (ℕ → Kernel → Run) → Run
err_neg_fd =
    err_fd (sub32 0 1073741823) (bytes_of "err_neg_fd: FAIL\n") (bytes_of "err_neg_fd: PASS\n")

unfoldable pub err_big_fd : Arrivals → Buffer → Kernel → (ℕ → Kernel → Run) → Run
err_big_fd = err_fd 1073741823 (bytes_of "err_big_fd: FAIL\n") (bytes_of "err_big_fd: PASS\n")

-- The loops of err_open_lots, with `n` rounds left; `cnt` is the number of opens that have failed.
unfoldable pub open_lots : ℕ → ℕ → Kernel → (ℕ → Kernel → Run) → Run
open_lots zero cnt k next = next cnt k
open_lots (suc n) cnt k next =
    let (ret, k') = sys_open k (bytes_of ".") in
    open_lots n (if ret == failure then cnt + 1 else cnt) k' next

unfoldable pub close_lots : ℕ → ℕ → Kernel → (Kernel → Run) → Run
close_lots zero i k next = next k
close_lots (suc n) i k next = after (sys_close k i) (λ ret k'. close_lots n (suc i) k' next)

unfoldable pub err_open_lots : Kernel → (ℕ → Kernel → Run) → Run
err_open_lots k next = open_lots 7 0 k (λ cnt k1. close_lots 6 2 k1 (λ k2.
    if cnt == 1
    then fdputs (bytes_of "err_open_lots: PASS\n") k2 (next 0)
    else fdputs (bytes_of "err_open_lots: FAIL\n") k2 (next 2)))

unfoldable pub err_open : Kernel → (ℕ → Kernel → Run) → Run
err_open k next = try_open (bytes_of "helloo") (bytes_of "'helloo' fail\n") 0 k (λ fail k1.
    try_open (bytes_of "shel") (bytes_of "'shel' fail\n") fail k1 (λ fail' k2.
      try_open (bytes_of "") (bytes_of "empty string fail\n") fail' k2 (λ fail2 k3.
        verdict (bytes_of "err_open: FAIL\n") (bytes_of "err_open: PASS\n") fail2 k3 next)))

-- The loops of err_unopened, with `n` rounds left at descriptor `i`.
unfoldable pub close_each : ℕ → ℕ → ℕ → Kernel → (ℕ → Kernel → Run) → Run
close_each zero i fail k next = next fail k
close_each (suc n) i fail k next =
    try_close i (bytes_of "close unopened or invalid fd fail\n") fail k
      (λ fail' k'. close_each n (suc i) fail' k' next)

unfoldable pub read_each :
    ℕ → ℕ → Arrivals → Buffer → ℕ → Kernel → (Buffer → ℕ → Kernel → Run) → Run
read_each zero i a buf fail k next = next buf fail k
read_each (suc n) i a buf fail k next =
    try_read a i (bytes_of "read from unopened fd fail\n") buf fail k
      (λ buf' fail' k'. read_each n (suc i) a buf' fail' k' next)

unfoldable pub write_each : ℕ → ℕ → Buffer → ℕ → Kernel → (ℕ → Kernel → Run) → Run
write_each zero i buf fail k next = next fail k
write_each (suc n) i buf fail k next =
    try_write i (bytes_of "write to unopened fd fail\n") buf fail k
      (λ fail' k'. write_each n (suc i) buf fail' k' next)

unfoldable pub err_unopened : Arrivals → Buffer → Kernel → (ℕ → Kernel → Run) → Run
err_unopened a buf k next = close_each 8 0 0 k (λ fail k1.
    read_each 6 2 a buf fail k1 (λ buf' fail' k2. write_each 6 2 buf' fail' k2 (λ fail2 k3.
      verdict (bytes_of "err_unopened: FAIL\n") (bytes_of "err_unopened: PASS\n") fail2 k3 next)))

-- The words at the two addresses, which the call does not read, are `old0` and `old1`.
unfoldable pub err_vidmap : ℕ → ℕ → Kernel → (ℕ → Kernel → Run) → Run
err_vidmap old0 old1 k next =
    let (ret, stored, k1) = sys_vidmap 0 old0 k in
    expect (bytes_of "Null pointer fail\n") 0 ret k1 (λ fail k2.
      let (ret', stored', k3) = sys_vidmap 0x400000 old1 k2 in
      expect (bytes_of "Kernel pointer fail fail\n") fail ret' k3 (λ fail' k4.
        verdict (bytes_of "err_vidmap: FAIL\n") (bytes_of "err_vidmap: PASS\n") fail' k4 next))

unfoldable pub err_stdin_out : Arrivals → Buffer → Kernel → (ℕ → Kernel → Run) → Run
err_stdin_out a buf k next = try_write 0 (bytes_of "write to stdin fail\n") buf 0 k (λ fail k1.
    try_read a 1 (bytes_of "read from stdout fail\n") buf fail k1 (λ buf' fail' k2.
      verdict (bytes_of "err_stdin_out: FAIL\n") (bytes_of "err_stdin_out: PASS\n") fail' k2 next))
