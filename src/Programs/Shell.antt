-- ===== src/Programs/Shell.antt =====
-- The programs syscalls/ece391shell.c, syscalls/ece391hello.c and syscalls/ece391testprint.c.
use illinix_os.Prelude.{
  ℕ, zero, suc, ◌≡◌, ◌≢◌, refl, ◌&&◌, eq_true, eq_false, Option, none, some, arith, ◌==◌,
  if◌then◌else◌, update,
}
use illinix_os.Prelude.Text.{bytes_of}
use illinix_os.Prelude.Word.{failure, sub32, slt}
use illinix_os.FileSys.Dentry.{char_at}
use illinix_os.FileSys.Data.{Buffer}
use illinix_os.Strings.{array_bytes}
use illinix_os.Kernel.{Kernel}
use illinix_os.Kernel.Syscalls.{Call, returned, waiting, fault, Arrivals, sys_read}
use illinix_os.Kernel.Process.{sys_execute}
use illinix_os.Programs.{Run, finished, stuck, unfinished, fdputs, complain}
use illinix_os.Programs.Support.{ece391_strcmp, ece391_strcmp_zero_iff, AreBytes, text}

unfoldable pub testprint : Kernel → Run
testprint k = complain (bytes_of "Hello, if this ran, the program was correct. Yay!\n") 0 k

-- `main` of ece391hello behind the read.
unfoldable pub greet : Call (ℕ × Buffer × Kernel) → Run
unfolding update
greet (returned (cnt, buf, k)) =
    if cnt == failure
    then complain (bytes_of "Can't read name from keyboard.\n") 3 k
    else fdputs (bytes_of "Hello, ") k
        (λ k1. fdputs (array_bytes 1024 0 (update buf cnt 0)) k1 (finished 0))
greet waiting = stuck
greet fault = stuck

unfoldable pub hello : Arrivals → Buffer → Kernel → Run
hello a buf k =
    fdputs (bytes_of "Hi, what's your name? ") k (λ k1. greet (sys_read a k1 0 (some buf) 1023))

-- What the programs that the shell starts do: from the entry point and the state there to the value
-- that ece391_execute returns and the state then, unless they never halt; `ebp` and `esp` are the
-- registers at the calls.
pub record Programs : Type 0 where
  pub runs : ℕ → Kernel → Option (ℕ × Kernel)
  pub ebp : ℕ
  pub esp : ℕ

-- The line without its newline.
unfoldable pub command_of : ℕ → Buffer → Buffer
unfolding update
command_of cnt buf =
    let end : ℕ = sub32 cnt 1 in
    if slt 0 cnt && buf end == 10 then update buf end 0 else update buf cnt 0

unfoldable pub report : ℕ → Kernel → (Kernel → Run) → Run
report rval k next =
    if rval == failure
    then fdputs (bytes_of "no such command\n") k next
    else if rval == 256
    then fdputs (bytes_of "program terminated by exception\n") k next
    else if rval == 0
    then next k
    else fdputs (bytes_of "program terminated abnormally\n") k next

-- `ece391_execute(buf)`, which erases the command, and the report.
unfoldable pub execute : Programs → Buffer → Kernel → (Buffer → Kernel → Run) → Run
execute ps buf k next =
    let (eip, command, k') = sys_execute k (array_bytes 1024 0 buf) ps.ebp ps.esp in
    let rest : Kernel → Run = next (λ i. char_at command i) in
    elim eip [
      | none ↦ report failure k' rest
      | some entry ↦ elim (ps.runs entry k') [
        | none ↦ stuck
        | some (rval, k2) ↦ report rval k2 rest
      ]
    ]

-- A round of the loop behind the read; `next` is the rest of the loop.
unfoldable pub shell_round : Programs → ℕ → Buffer → Kernel → (Buffer → Kernel → Run) → Run
shell_round ps cnt buf k next =
    let line : Buffer = command_of cnt buf in
    if cnt == failure
    then complain (bytes_of "read from keyboard failed\n") 3 k
    else if ece391_strcmp (array_bytes 1024 0 line) (bytes_of "exit") == 0
    then finished 0 k
    else if line 0 == 0
    then next line k
    else execute ps line k next

unfoldable pub after_line : Programs → Call (ℕ × Buffer × Kernel) → (Buffer → Kernel → Run) → Run
after_line ps (returned (cnt, buf, k)) next = shell_round ps cnt buf k next
after_line ps waiting next = stuck
after_line ps fault next = stuck

-- The loop, with `n` rounds left; round `n` meets the arrivals `a n`.
unfoldable pub shell_loop : ℕ → Programs → (ℕ → Arrivals) → Buffer → Kernel → Run
shell_loop zero ps a buf k = unfinished
shell_loop (suc n) ps a buf k = fdputs (bytes_of "391OS> ") k (λ k1.
    after_line ps (sys_read (a n) k1 0 (some buf) 1023) (λ buf' k'. shell_loop n ps a buf' k'))

unfoldable pub shell : ℕ → Programs → (ℕ → Arrivals) → Buffer → Kernel → Run
shell n ps a buf k = fdputs (bytes_of "Starting 391 Shell\n") k (λ k1. shell_loop n ps a buf k1)

-- A line of bytes that reads "exit" up to its first NUL ends the shell with the value 0, and any other
-- line that is not empty is executed.
pub shell_round-exit :
    (ps : Programs) (cnt : ℕ) (buf : Buffer) (k : Kernel) (next : Buffer → Kernel → Run)
    → cnt ≢ failure
    → AreBytes (array_bytes 1024 0 (command_of cnt buf))
    → ((text (array_bytes 1024 0 (command_of cnt buf)) ≡ text (bytes_of "exit"))
        → shell_round ps cnt buf k next ≡ finished 0 k)
      × ((text (array_bytes 1024 0 (command_of cnt buf)) ≢ text (bytes_of "exit"))
          → command_of cnt buf 0 ≢ 0
          → shell_round ps cnt buf k next ≡ execute ps (command_of cnt buf) k next)
unfolding shell_round AreBytes
shell_round-exit ps cnt buf k next read bytes =
    let line : Buffer = command_of cnt buf in
    let exit : AreBytes (bytes_of "exit") =
      (omega arith, (omega arith, (omega arith, (omega arith, omega arith)))) in
    let same = ece391_strcmp_zero_iff (array_bytes 1024 0 line) (bytes_of "exit") bytes exit in
    (
      λ is. rw (eq_false read, eq_true (same.1 is)) refl,
      λ other some_char.
          rw (eq_false read, eq_false (λ e. other (same.0 e)), eq_false some_char) refl,
    )
