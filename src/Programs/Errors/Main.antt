-- ===== src/Programs/Errors/Main.antt =====
-- `main` of ece391syserr, and its test of the numbers of system calls, which the dispatch in
-- student-distrib/asm_macro.S decides.
use illinix_os.Prelude.{some, ℕ, ◌+◌, ◌&&◌, ◌≡◌, ◌∙◌, ◌==◌, if◌then◌else◌, arith}
use illinix_os.Prelude.Text.{bytes_of}
use illinix_os.Prelude.Word.{failure, sub32, slt}
use illinix_os.FileSys.Image.{Image, entry_type}
use illinix_os.FileSys.Data.{Buffer}
use illinix_os.FileSys.Dentry.{strlen}
use illinix_os.Kernel.{Kernel}
use illinix_os.Kernel.Syscalls.{Call, returned, Arrivals, sys_read}
use illinix_os.Kernel.Syscalls.Open.{Names}
use illinix_os.Programs.{Run, finished, after, fdputs, complain}
use illinix_os.Programs.Errors.{
  expect, with_read, verdict, err_neg_fd, err_big_fd, err_open_lots, err_open, err_unopened,
  err_vidmap, err_stdin_out,
}
use illinix_os.Programs.Errors.Steps.{IsFresh}
use illinix_os.Programs.Errors.Passing.{
  Passes, verdict-Passes, err_neg_fd-Passes, err_big_fd-Passes, err_unopened-Passes,
  err_vidmap-Passes, err_stdin_out-Passes,
}
use illinix_os.Programs.Errors.Opens.{IsMissing, err_open-Passes, err_open_lots-Passes}

-- What sys_error prints is not kept.
unfoldable pub sys_error : Kernel → ℕ × Kernel
sys_error k = (failure, k)

-- `int $0x80` with `num` in %eax. `jumptable` is the calls 1 to 10 on the registers as they are.
unfoldable pub call_sys : (ℕ → Kernel → Call (ℕ × Kernel)) → ℕ → Kernel → Call (ℕ × Kernel)
unfolding sys_error
call_sys jumptable num k =
    if slt 0 num && slt num 11 then jumptable num k else returned (sys_error k)

unfoldable pub err_syscall_num :
    (ℕ → Kernel → Call (ℕ × Kernel)) → Kernel → (ℕ → Kernel → Run) → Run
err_syscall_num jumptable k next = after (call_sys jumptable 1073741823 k) (λ ret k1.
    expect (bytes_of "syscall 0 fail\n") 0 ret k1 (λ fail k2.
      after (call_sys jumptable (sub32 0 1073741823) k2) (λ ret' k3.
        expect (bytes_of "big num syscall fail\n") fail ret' k3 (λ fail' k4.
          after (call_sys jumptable 0 k4) (λ ret2 k5.
            expect (bytes_of "neg num syscall fail\n") fail' ret2 k5 (λ fail2 k6.
              verdict (bytes_of "err_syscall_num: FAIL\n") (bytes_of "err_syscall_num: PASS\n")
                fail2 k6 next))))))

-- What the tests are given: the calls behind the dispatch, what arrives while a call waits, the words
-- at the addresses of err_vidmap, and the buffer on the stack of each test.
pub record Setting : Type 0 where
  pub jumptable : ℕ → Kernel → Call (ℕ × Kernel)
  pub arrivals : Arrivals
  pub old0 : ℕ
  pub old1 : ℕ
  pub stack : ℕ → Buffer

-- The case 0 of `main`.
unfoldable pub all_tests : Setting → Kernel → Run
all_tests s k = err_neg_fd s.arrivals (s.stack 1) k (λ f0 k0.
    err_big_fd s.arrivals (s.stack 2) k0 (λ f1 k1. err_open_lots k1 (λ f2 k2. err_open k2 (λ f3 k3.
      err_unopened s.arrivals (s.stack 5) k3 (λ f4 k4. err_vidmap s.old0 s.old1 k4 (λ f5 k5.
        err_stdin_out s.arrivals (s.stack 7) k5 (λ f6 k6. err_syscall_num s.jumptable k6 (λ f7 k7.
          verdict (bytes_of "\nOverall Tests: FAIL\n") (bytes_of "\nOverall Tests: PASS\n")
            (f0 + f1 + f2 + f3 + f4 + f5 + f6 + f7) k7 finished))))))))

-- The `switch`.
unfoldable pub select_test : Setting → ℕ → Kernel → Run
unfolding all_tests
select_test s select k =
    if select == 0
    then all_tests s k
    else if select == 1
    then err_neg_fd s.arrivals (s.stack 1) k finished
    else if select == 2
    then err_big_fd s.arrivals (s.stack 2) k finished
    else if select == 3
    then err_open_lots k finished
    else if select == 4
    then err_open k finished
    else if select == 5
    then err_unopened s.arrivals (s.stack 5) k finished
    else if select == 6
    then err_vidmap s.old0 s.old1 k finished
    else if select == 7
    then err_stdin_out s.arrivals (s.stack 7) k finished
    else if select == 8
    then err_syscall_num s.jumptable k finished
    else complain (bytes_of "Invalid test number. Choose from tests 1-8 or 0") 0 k

unfoldable pub syserr : Setting → Buffer → Kernel → Run
unfolding select_test
syserr s buf k = fdputs (bytes_of "Choose from tests 1-8. 0 to run all: ") k (λ k1.
    with_read (sys_read s.arrivals k1 0 (some buf) 127) (λ cnt buf' k2.
      if cnt == failure
      then complain (bytes_of "Can't read test #\n") 2 k2
      else select_test s (sub32 (buf' 0) 48) k2))

err_syscall_num-Passes :
    {img : Image} {k : Kernel}
    → IsFresh img k
    → (jumptable : ℕ → Kernel → Call (ℕ × Kernel)) → Passes img (err_syscall_num jumptable k)
unfolding err_syscall_num call_sys after expect strlen
err_syscall_num-Passes {img} {k} fresh jumptable =
    verdict-Passes fresh (bytes_of "err_syscall_num: FAIL\n") (bytes_of "err_syscall_num: PASS\n")
      (omega arith)

-- The eight tests that ece391syserr runs on the answer 0 all pass, and the program ends with the value
-- 0, for any buffers, arrivals and system calls behind the dispatch: the kernel refuses each of the
-- bad calls. The process has standard output and no file open, the first entry of the directory with
-- the name "." is of type 1, and no entry is called "helloo" or "shel".
pub all_tests-passes :
    (s : Setting) (img : Image) (k : Kernel) (dir : ℕ)
    → IsFresh img k
    → Names img (bytes_of ".") dir
    → entry_type img dir ≡ 1
    → IsMissing img (bytes_of "helloo")
    → IsMissing img (bytes_of "shel")
    → (k' : Kernel) × (all_tests s k ≡ finished 0 k')
unfolding all_tests strlen
all_tests-passes s img k dir fresh named type helloo shel =
    let (k0, v0, neg) = err_neg_fd-Passes fresh s.arrivals (s.stack 1) in
    let (k1, v1, big) = err_big_fd-Passes v0 s.arrivals (s.stack 2) in
    let (k2, v2, lots) = err_open_lots-Passes img dir k1 v1 named type in
    let (k3, v3, wrong) = err_open-Passes k2 v2 helloo shel in
    let (k4, v4, unopened) = err_unopened-Passes v3 s.arrivals (s.stack 5) in
    let (k5, v5, vidmap) = err_vidmap-Passes v4 s.old0 s.old1 in
    let (k6, v6, stdin_out) = err_stdin_out-Passes v5 s.arrivals (s.stack 7) in
    let (k7, v7, number) = err_syscall_num-Passes v6 s.jumptable in
    let (k8, v8, ends) =
      verdict-Passes v7 (bytes_of "\nOverall Tests: FAIL\n") (bytes_of "\nOverall Tests: PASS\n")
        (omega arith) in
    (
      k8,
      neg _
          ∙ (big _
              ∙ (lots _
                  ∙ (wrong _
                      ∙ (unopened _ ∙ (vidmap _ ∙ (stdin_out _ ∙ (number _ ∙ ends finished))))))),
    )
