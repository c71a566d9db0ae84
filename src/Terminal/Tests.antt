-- ===== src/Terminal/Tests.antt =====
-- The line "cat frame0" and a newline, as it is typed and as sys_getargs parses it.
use illinix_os.Prelude.{ℕ, ◌+◌, ◌<◌, ◌≡◌, refl, some, [], ◌∷◌, arith, ltb, ◌==◌, if◌then◌else◌}
use illinix_os.Terminal.{Buffer, LineRead, t_read, sys_getargs}
use illinix_os.Terminal.Args.{typed_argument}

-- A command of three letters, a space, an argument of six, a newline.
abbrev row : Buffer
row k = if k == 3 then 32 else if k == 10 then 10 else if ltb k 10 then 97 else 9

-- The same once t_read has taken it.
abbrev taken : Buffer
taken k = if k == 3 then 0 else if k == 10 then 10 else if ltb k 10 then 97 else 0

abbrev empty : Buffer
empty k = 0

typed_argument_example :
    (r : LineRead) × (buf' : Buffer) × (t_read ((row, 0) ∷ []) 128 empty empty ≡ some r)
    × ((sys_getargs (some empty) 32 r.get_args_buf).0 ≡ 0)
    × ((sys_getargs (some empty) 32 r.get_args_buf).1 ≡ some buf')
    × ((k : ℕ) → k < 6 → buf' k ≡ row (4 + k))
    × (buf' 6 ≡ 0)
typed_argument_example =
    typed_argument row empty empty 32 3 10 empty (omega arith) (omega arith) (omega arith)
      (omega arith) refl refl (λ k h g. (ground arith, ground arith, ground arith))
