-- ===== src/Kernel/Typing/Tests.antt =====
-- The first terminal reads a line, and "cat frame0" is typed on it.
use illinix_os.Prelude.{ℕ, ◌<◌, ◌≡◌, refl, true, false, some, List, [], ◌∷◌, arith, get_elem?}
use illinix_os.Terminal.{Buffer, LineRead, t_read, sys_getargs}
use illinix_os.Kernel.{Kernel}
use illinix_os.Kernel.Tests.{idle}
use illinix_os.Kernel.Typing.Handler.{pick, table_at, kb_handler}
use illinix_os.Kernel.Typing.Bounds.{IsKeyboard}
use illinix_os.Kernel.Typing.Keys.{kb_handler-IsKeyboard}
use illinix_os.Kernel.Typing.Characters.{described, pick_lem}
use illinix_os.Kernel.Typing.Reading.{Line}
use illinix_os.Kernel.Typing.Text.{character, is_text_key}
use illinix_os.Kernel.Typing.Typed.{press_all, all_types}
use illinix_os.Kernel.Typing.Again.{IsPlain, enter-up_arrow}
use illinix_os.Kernel.Typing.Command.{command_keys, typed_command-argument}

-- The line of the first terminal has `n` characters.
abbrev reading : ℕ → Kernel
reading n = record idle { terminal_read_flag = λ t. 1; kb_idx = λ t. n; kb_buff = λ t i. 97 }

reading-IsKeyboard : IsKeyboard (reading 3)
reading-IsKeyboard = record {
  idx = λ t. omega arith;
  drawn = record {
    cursors = λ t. record { column = omega arith; row = omega arith };
    starts = λ t. omega arith;
    cursor = omega arith;
  };
  og_row = λ t. omega arith;
  saved = λ t n few. (0, omega arith, refl);
  recalls = λ t. omega arith;
}

reading-Line : (n : ℕ) → Line 0 false false n (λ i. 97) (reading n)
reading-Line n = (
  record {
    shown = refl;
    reading = λ e. absurd (omega arith);
    no_ctrl = refl;
    caps_lock = refl;
    shift_key = refl;
  },
  record { idx = refl; buff = refl },
)

-- The enter key.
kb_handler-IsKeyboard_example : IsKeyboard (kb_handler 0 0x1C (reading 3))
kb_handler-IsKeyboard_example = kb_handler-IsKeyboard 0 0x1C (reading 3) reading-IsKeyboard

pick_lem_example : pick 0 true false 0x1E ≡ described true false (table_at 0 0x1E)
pick_lem_example = pick_lem 0 0x1E true false (omega arith)

-- The capital A.
capital_a : described true false (table_at 0 0x1E) ≡ some 65
unfolding described table_at
capital_a = refl

-- After the line "aaa" has been entered the terminal reads again.
abbrev later : Kernel
later = record (reading 0) { keys = (kb_handler 0 0x1C (reading 3)).keys }

enter-up_arrow_example :
    ((kb_handler 0 0x1C (reading 3)).kb_idx 0 ≡ 0)
    × ((kb_handler 0 0x48 later).kb_idx 0 ≡ 3)
    × ((j : ℕ) → j < 3 → (kb_handler 0 0x48 later).kb_buff 0 j ≡ 97)
enter-up_arrow_example =
    enter-up_arrow 0 0 0 3 (λ i. 97) false false (reading 3) later (reading-Line 3) (omega arith)
      (omega arith) plain refl refl (λ e. absurd (omega arith))
  where
    plain : IsPlain 3 (λ i. 97)
    plain j h = (omega arith, omega arith)

-- The keys of "cat" and of "frame0".
abbrev command : List ℕ
command = 0x2E ∷ 0x1E ∷ 0x14 ∷ []

abbrev argument : List ℕ
argument = 0x21 ∷ 0x13 ∷ 0x1E ∷ 0x32 ∷ 0x12 ∷ 0x0B ∷ []

all_text_keys : (all_types is_text_key command ≡ true) × (all_types is_text_key argument ≡ true)
unfolding all_types is_text_key table_at
all_text_keys = (refl, refl)

abbrev empty : Buffer
empty i = 0

typed_command-argument_example :
    let l = kb_handler 0 0x1C (press_all 0 (command_keys command argument) (reading 0)) in
    (r : LineRead) × (buf' : Buffer) × (t_read ((l.kb_buff 0, 0) ∷ []) 128 empty empty ≡ some r)
    × ((sys_getargs (some empty) 32 r.get_args_buf).0 ≡ 0)
    × ((sys_getargs (some empty) 32 r.get_args_buf).1 ≡ some buf')
    × ((j key : ℕ) → get_elem? argument j ≡ some key → buf' j ≡ character false false key)
    × (buf' 6 ≡ 0)
typed_command-argument_example =
    typed_command-argument 0 0 command argument false false (λ i. 97) (reading 0) empty empty 32
      empty (reading-Line 0) all_text_keys.0 all_text_keys.1 (omega arith) (omega arith)
      (omega arith) (omega arith)
