-- ===== src/Programs.antt =====
-- The program syscalls/ece391cat.c, which runs on the kernel's calls, and ece391_fdputs of
-- syscalls/ece391support.c. No interrupt comes between two calls.
pub mod Output
pub mod Printing
pub mod Round
pub mod Copies
pub mod Opened
pub mod Listing
pub mod Counter
pub mod Errors
pub mod Shell
pub mod Support
pub mod Tests
use illinix_os.Prelude.{
  ℕ, zero, suc, ◌+◌, List, [], ◌∷◌, Option, none, some, ◌==◌, if◌then◌else◌, Bool, true, false, not,
}
use illinix_os.Prelude.Text.{bytes_of}
use illinix_os.Prelude.Word.{failure}
use illinix_os.FileSys.Dentry.{char_at, strlen}
use illinix_os.FileSys.Data.{Buffer}
use illinix_os.Strings.{array_bytes}
use illinix_os.Terminal.{sys_getargs}
use illinix_os.Kernel.{Kernel}
use illinix_os.Kernel.Syscalls.{
  Call, returned, waiting, fault, Arrivals, sys_open, sys_read, sys_write,
}

-- How a program ends: with the value of `main`, in a call that waits or faults, or not in the rounds
-- of its loop that the model gives it.
pub data Run : Type 0 where
  finished : ℕ → Kernel → Run
  stuck : Run
  unfinished : Run

-- What a program does with the result of a call that returns a value and the state.
unfoldable pub after : Call (ℕ × Kernel) → (ℕ → Kernel → Run) → Run
after (returned (ret, k)) next = next ret k
after waiting next = stuck
after fault next = stuck

-- `ece391_fdputs(1, s)`, and then the rest of the program.
unfoldable pub fdputs : List ℕ → Kernel → (Kernel → Run) → Run
fdputs s k next = after (sys_write k 1 (some (λ i. char_at s i)) (strlen s)) (λ ret k'. next k')

-- A message, and then the end of the program with a value.
unfoldable pub complain : List ℕ → ℕ → Kernel → Run
complain s status k = fdputs s k (finished status)

-- A round of the loop of cat behind the test for the end of the file; `next` is the rest of the loop.
unfoldable pub cat_round : ℕ → Buffer → Kernel → (Kernel → Run) → Run
cat_round cnt buf k next =
    if cnt == failure
    then complain (bytes_of "file read failed\n") 3 k
    else after (sys_write k 1 (some buf) cnt)
        (λ ret k'. if ret == failure then finished 3 k' else next k')

-- What the loop does with the result of the read.
unfoldable pub after_read : Call (ℕ × Buffer × Kernel) → (Buffer → Kernel → Run) → Run
after_read (returned (cnt, buf, k)) next =
    if cnt == 0 then finished 0 k else cat_round cnt buf k (next buf)
after_read waiting next = stuck
after_read fault next = stuck

-- The loop, with `n` rounds left.
unfoldable pub cat_loop : ℕ → Arrivals → ℕ → Buffer → Kernel → Run
cat_loop zero a fd buf k = unfinished
cat_loop (suc n) a fd buf k =
    after_read (sys_read a k fd (some buf) 1024) (λ buf' k'. cat_loop n a fd buf' k')

-- The part of `main` after the arguments have been read.
unfoldable pub cat_file : ℕ → Arrivals → Buffer → Kernel → Run
cat_file n a buf k =
    let (fd, k') = sys_open k (array_bytes 1024 0 buf) in
    if fd == failure then complain (bytes_of "file not found\n") 2 k' else cat_loop n a fd buf k'

-- `main`, whose local `buf` holds what the stack held. The loop has `n` rounds.
unfoldable pub cat : ℕ → Arrivals → Buffer → Kernel → Run
cat n a buf k =
    let (ret, buf', args) = sys_getargs (some buf) 1024 k.get_args_buf in
    let k' : Kernel = record k { get_args_buf = args } in
    elim buf' [
      | none ↦ stuck
      | some b ↦
          if not (ret == 0)
          then complain (bytes_of "could not read arguments\n") 3 k'
          else cat_file n a b k'
    ]
