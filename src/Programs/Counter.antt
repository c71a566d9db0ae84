-- ===== src/Programs/Counter.antt =====
-- The program syscalls/ece391counter.c, and ece391_itoa and ece391_strrev of
-- syscalls/ece391support.c.
pub mod Lines
pub mod Numbers
use illinix_os.Prelude.{
  some, ℕ, zero, suc, ◌+◌, ◌/◌, ◌%◌, Bool, ◌&&◌, ◌||◌, List, ltb, ◌==◌, if◌then◌else◌, update,
}
use illinix_os.Prelude.Text.{bytes_of}
use illinix_os.Prelude.Word.{failure, add32, sub32, slt}
use illinix_os.FileSys.Dentry.{strlen}
use illinix_os.FileSys.Data.{Buffer}
use illinix_os.Strings.{array_bytes, swap_ends, put_digits}
use illinix_os.Kernel.{Kernel}
use illinix_os.Kernel.Syscalls.{Call, returned, waiting, fault, Arrivals, sys_read}
use illinix_os.Programs.{Run, finished, stuck, fdputs, complain}

unfoldable pub ece391_strrev : ℕ → Buffer → Buffer
ece391_strrev size s =
    let end : ℕ = sub32 (strlen (array_bytes size 0 s)) 1 in
    if slt 0 end then swap_ends size 0 end s else s

-- The loop is the one of the kernel's itoa.
unfoldable pub ece391_itoa : ℕ → ℕ → Buffer → ℕ → Buffer
unfolding update ece391_strrev
ece391_itoa value size buf radix =
    let (end, digits) = put_digits 32 value radix 0 buf in
    if value == 0 then update (update buf 0 48) 1 0 else ece391_strrev size (update digits end 0)

-- The last loop, with `n` rounds left at `i`.
unfoldable pub count_numbers : ℕ → ℕ → Buffer → Kernel → Run
count_numbers zero i buf k = finished 0 k
count_numbers (suc n) i buf k =
    let digits : Buffer = ece391_itoa (add32 i 1) 1024 buf 10 in
    fdputs (array_bytes 1024 0 digits) k
      (λ k1. fdputs (bytes_of "\n") k1 (λ k2. count_numbers n (add32 i 1) digits k2))

-- The `switch` leaves `max` at 0 for any other byte.
unfoldable pub max_of : ℕ → ℕ
max_of c = if c == 48 then 100 else if c == 49 then 10000 else if c == 50 then 100000 else 0

-- `main` after the read, on the string that it ends with a NUL.
unfoldable pub count_choice : Buffer → Kernel → Run
unfolding max_of
count_choice buf k =
    let len : ℕ = strlen (array_bytes 1024 0 buf) in
    if ltb 2 len || (len == 2 && (ltb (buf 0) 48 || ltb 50 (buf 0)))
    then complain (bytes_of "Wrong Choice!\n") 0 k
    else count_numbers (max_of (buf 0)) 0 buf k

unfoldable pub count_line : Call (ℕ × Buffer × Kernel) → Run
unfolding count_choice update
count_line (returned (cnt, buf, k)) =
    if cnt == failure
    then complain (bytes_of "Can't read the number from keyboard.\n") 3 k
    else count_choice (update buf cnt 0) k
count_line waiting = stuck
count_line fault = stuck

unfoldable pub counter : Arrivals → Buffer → Kernel → Run
counter a buf k =
    fdputs (bytes_of "Enter the Test Number: (0): 100, (1): 10000, (2): 100000\n") k
      (λ k1. count_line (sys_read a k1 0 (some buf) 1023))
