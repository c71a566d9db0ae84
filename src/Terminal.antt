-- ===== src/Terminal.antt =====
-- student-distrib/terminal.c and sys_getargs of student-distrib/syscalls.c: lines typed at a
-- terminal, and the argument of the command that such a line holds.
pub mod Line
pub mod Args
pub mod Tests
use illinix_os.Prelude.{
  ℕ, zero, suc, ◌+◌, ◌-◌, Bool, true, false, ◌||◌, Option, none, some, List, [], ◌∷◌, ltb, ◌==◌,
  if◌then◌else◌, update, fill,
}
use illinix_os.Prelude.Word.{failure, slt, rounds_to}
use illinix_os.Screen.{Screen, putc}

abbrev pub Buffer : Type 0
Buffer = ℕ → ℕ

-- What one pass of t_read over the keyboard buffer leaves: how many characters it copied, whether
-- it is the last, the caller's buffer and the clear-screen flag.
pub record Pass : Type 0 where
  pub count : ℕ
  pub last : Bool
  pub buf : Buffer
  pub clear_flag : ℕ

-- One pass, with `n` rounds left at index `i` of the keyboard buffer `row`.
unfoldable pub copy_pass : ℕ → ℕ → Buffer → ℕ → Buffer → Pass
unfolding update
copy_pass zero i row clear buf = record { count = i; last = false; buf = buf; clear_flag = clear }
copy_pass (suc n) i row clear buf =
    let copied = update buf i (row i) in
    let cut = if row i == 32 then update copied i 0 else copied in
    let rest = copy_pass n (suc i) row clear cut in
    if row i == 10
    then record { count = suc i; last = true; buf = copied; clear_flag = clear }
    else if clear == 1
    then record { count = suc i; last = true; buf = update cut 0 0; clear_flag = 0 }
    else rest

-- How many rounds a loop over the line has: `nbytes`, at most 128, and none if it is negative.
unfoldable pub pass_rounds : ℕ → ℕ
unfolding rounds_to
pass_rounds nbytes = if slt 128 nbytes then 128 else rounds_to nbytes

pub record LineRead : Type 0 where
  pub count : ℕ
  pub buf : Buffer
  pub clear_flag : ℕ
  pub row : Buffer
  pub get_args_buf : Buffer

-- The outer loop over the states in which successive passes find the keyboard buffer and the
-- clear-screen flag, while the terminal is displayed; `none` if t_read has not returned after them.
-- The next pass starts with the flag that the keyboard handler left.
unfoldable pub t_read : List (Buffer × ℕ) → ℕ → Buffer → Buffer → Option LineRead
unfolding copy_pass pass_rounds
t_read [] nbytes buf args = none
t_read ((row, clear) ∷ later) nbytes buf args =
    let p = copy_pass (pass_rounds nbytes) 0 row clear buf in
    let rest = t_read later nbytes p.buf args in
    if p.last
    then some (record {
      count = p.count;
      buf = p.buf;
      clear_flag = p.clear_flag;
      row = fill 128 0 9 row;
      get_args_buf = λ k. if ltb k 128 then p.buf k else args k;
    })
    else rest

-- The loop of t_write, which skips NUL.
unfoldable pub write_chars : ℕ → ℕ → ℕ → ℕ → Buffer → Screen → Screen
write_chars zero i displayed scheduled buf s = s
write_chars (suc n) i displayed scheduled buf s =
    write_chars n (suc i) displayed scheduled buf
      (if buf i == 0 then s else putc displayed scheduled (buf i) s)

-- A null buffer is `none`.
unfoldable pub t_write : ℕ → ℕ → Option Buffer → ℕ → Screen → ℕ × Screen
unfolding write_chars
t_write displayed scheduled none nbytes s = (failure, s)
t_write displayed scheduled (some buf) nbytes s =
    (nbytes, write_chars (rounds_to nbytes) 0 displayed scheduled buf s)

-- The scan of sys_getargs for the end of the command: `none` is its return at a newline, and 0 what
-- `start_of_args` keeps if there is no end.
unfoldable pub find_args : ℕ → ℕ → Buffer → Option ℕ
find_args zero i args = some 0
find_args (suc n) i args =
    let rest = find_args n (suc i) args in
    if args i == 10 then none else if args i == 32 || args i == 0 then some (suc i) else rest

-- The copy of the argument, with `n` rounds left at index `i`.
unfoldable pub copy_args : ℕ → ℕ → ℕ → Buffer → Buffer → Buffer
copy_args zero i start args buf = buf
copy_args (suc n) i start args buf =
    let rest = copy_args n (suc i) start args (update buf (i - start) (args i)) in
    if args i == 0 || args i == 10 then buf else rest

-- The part of sys_getargs after the scan: the result, the caller's buffer and `get_args_buf`.
unfoldable pub copy_out : ℕ → ℕ → Buffer → Buffer → ℕ × Buffer × Buffer
copy_out start room args buf =
    if args start == 0
    then (failure, buf, args)
    else (0, copy_args (room - start) start start args buf, fill 128 0 0 args)

-- The result, the caller's buffer and `get_args_buf`; a null buffer is `none`. A negative `nbytes`
-- makes every loop end at once.
unfoldable pub sys_getargs : Option Buffer → ℕ → Buffer → ℕ × Option Buffer × Buffer
unfolding find_args copy_out
sys_getargs none nbytes args = (failure, none, args)
sys_getargs (some buf) nbytes args =
    let room = pass_rounds nbytes in
    let clean = fill (rounds_to nbytes) 0 0 buf in
    elim (find_args room 0 args) [
      | none ↦ (failure, some clean, args)
      | some start ↦
          let (ret, buf', args') = copy_out start room args clean in (ret, some buf', args')
    ]
