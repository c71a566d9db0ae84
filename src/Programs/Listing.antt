-- ===== src/Programs/Listing.antt =====
-- The program syscalls/ece391ls.c.
pub mod Entry
pub mod Loop
pub mod Main
use illinix_os.Prelude.{ℕ, zero, suc, some, ◌==◌, if◌then◌else◌, update}
use illinix_os.Prelude.Text.{bytes_of}
use illinix_os.Prelude.Word.{failure, add32}
use illinix_os.FileSys.Data.{Buffer}
use illinix_os.Kernel.{Kernel}
use illinix_os.Kernel.Syscalls.{
  Call, returned, waiting, fault, Arrivals, sys_open, sys_read, sys_write,
}
use illinix_os.Programs.{Run, finished, stuck, unfinished, after, complain}

-- A round of the loop behind the test for the end of the directory; `next` is the rest of the loop.
unfoldable pub ls_round : ℕ → Buffer → Kernel → (Buffer → Kernel → Run) → Run
unfolding update
ls_round cnt buf k next =
    let line : Buffer = update buf cnt 10 in
    if cnt == failure
    then complain (bytes_of "directory entry read failed\n") 3 k
    else after (sys_write k 1 (some line) (add32 cnt 1))
        (λ ret k'. if ret == failure then finished 3 k' else next line k')

-- What the loop does with the result of the read.
unfoldable pub after_entry : Call (ℕ × Buffer × Kernel) → (Buffer → Kernel → Run) → Run
after_entry (returned (cnt, buf, k)) next =
    if cnt == 0 then finished 0 k else ls_round cnt buf k next
after_entry waiting next = stuck
after_entry fault next = stuck

-- The loop, with `n` rounds left.
unfoldable pub ls_loop : ℕ → Arrivals → ℕ → Buffer → Kernel → Run
ls_loop zero a fd buf k = unfinished
ls_loop (suc n) a fd buf k =
    after_entry (sys_read a k fd (some buf) 32) (λ buf' k'. ls_loop n a fd buf' k')

-- `main`, whose local `buf` holds what the stack held. The loop has `n` rounds.
unfoldable pub ls : ℕ → Arrivals → Buffer → Kernel → Run
ls n a buf k =
    let (fd, k') = sys_open k (bytes_of ".") in
    if fd == failure
    then complain (bytes_of "directory open failed\n") 2 k'
    else ls_loop n a fd buf k'
