-- ===== src/Kernel/Typing/Handler.antt =====
-- kb_handler of student-distrib/idt.c: which character a key stands for, and what each key does.
use illinix_os.Prelude.{
  ℕ, ◌+◌, Bool, true, false, ◌&&◌, ◌||◌, not, Option, none, some, List, [], ◌∷◌, ◌++◌, ltb, ◌==◌,
  if◌then◌else◌, update, get_or,
}
use illinix_os.Prelude.Text.{bytes_of}
use illinix_os.Pic.{send_eoi}
use illinix_os.Kernel.{Kernel}
use illinix_os.Kernel.Typing.{
  type_char, type_tab, begin_line, raise_line, reset_counter, backspace, clear_line,
}
use illinix_os.Kernel.Typing.History.{up_arrow, enter}

-- The array `table_kb`, of 108 characters.
abbrev pub table_kb : List ℕ
table_kb =
    0 ∷ 0 ∷ bytes_of "1234567890-="
    ++ 0 ∷ 0 ∷ bytes_of "qwertyuiop[]"
    ++ 0 ∷ 0 ∷ bytes_of "asdfghjkl;'`"
    ++ 0 ∷ bytes_of "\\zxcvbnm,./"
    ++ 0 ∷ 0 ∷ bytes_of "!@#$%^&*()_+"
    ++ 0 ∷ 0 ∷ bytes_of "QWERTYUIOP{}"
    ++ 0 ∷ 0 ∷ bytes_of "ASDFGHJKL:\"~"
    ++ 0 ∷ bytes_of "|ZXCVBNM<>?"

-- `table_kb[i]`. With shift, key 0x37 reads index 109, which is behind the array; `beyond` is the byte
-- that stands there.
unfoldable pub table_at : ℕ → ℕ → ℕ
table_at beyond i = get_or table_kb i beyond

-- The characters that the code tests for as numbers and symbols.
abbrev pub symbols : List ℕ
symbols = bytes_of "1234567890-=[]\\;',./"

unfoldable pub is_symbol : List ℕ → ℕ → Bool
is_symbol [] c = false
is_symbol (s ∷ rest) c = c == s || is_symbol rest c

-- The character of a key up to 0x37 in each of the four states of caps lock and shift; 54 is
-- SPEC_CHAR_OFFSET.
unfoldable pub pick : ℕ → Bool → Bool → ℕ → Option ℕ
unfolding table_at is_symbol
pick beyond true true key =
    let p = table_at beyond key in
    if p == 0 then none else some (if is_symbol symbols p then table_at beyond (key + 54) else p)
pick beyond true false key =
    let p = table_at beyond key in
    if p == 0
    then none
    else some (if not (is_symbol symbols p) then table_at beyond (key + 54) else p)
pick beyond false true key = let p = table_at beyond (key + 54) in if p == 0 then none else some p
pick beyond false false key = let p = table_at beyond key in if p == 0 then none else some p

unfoldable pub type_picked : Option ℕ → Kernel → Kernel
unfolding type_char
type_picked none k = k
type_picked (some c) k = type_char c k

unfoldable pub type_key : ℕ → ℕ → Kernel → Kernel
type_key beyond key k =
    if ltb 0x37 key
    then k
    else type_picked (pick beyond (not (k.keys.cap == 0)) (not (k.keys.shift == 0)) key) k

-- The keys behind the up arrow.
unfoldable pub edit_rest : ℕ → ℕ → Kernel → Kernel
edit_rest beyond key k =
    if key == 0x0E
    then backspace k
    else if key == 0x1C
    then enter k
    else if key == 0x36 || key == 0x2A
    then record k { keys = record k.keys { shift = 1 } }
    else if key == 0xAA || key == 0xB6
    then record k { keys = record k.keys { shift = 0 } }
    else if key == 0x3A
    then record k { keys = record k.keys { cap = if k.keys.cap == 0 then 1 else 0 } }
    else if not (k.keys.ctrl == 0) && key == 0x26
    then clear_line k
    else type_key beyond key k

-- The keys that edit the line.
unfoldable pub edit : ℕ → ℕ → Kernel → Kernel
edit beyond key k =
    let spaced = if key == 0x39 then type_char 32 k else k in
    if key == 0x0F
    then type_tab 4 k
    else if key == 0x48
    then up_arrow spaced
    else edit_rest beyond key (reset_counter key spaced)

-- `TERMINAL1_SWITCH = 1` and the like.
unfoldable pub ask_switch : ℕ → Kernel → Kernel
unfolding update
ask_switch t k = record k { switch_flag = update k.switch_flag t 1 }

-- What a key does, but for the end of the interrupt.
unfoldable pub react : ℕ → ℕ → Kernel → Kernel
unfolding update
react beyond key k =
    let d : ℕ = k.displayed_terminal in
    if not (k.keys.alt == 0) && key == 0x3B
    then ask_switch 0 k
    else if not (k.keys.alt == 0) && key == 0x3C
    then ask_switch 1 k
    else if not (k.keys.alt == 0) && key == 0x3D
    then ask_switch 2 k
    else if k.keys.ctrl == 1 && key == 0x30
    then record k { severance_quote_flag = update k.severance_quote_flag d 1 }
    else if k.keys.ctrl == 1 && key == 0x2E
    then record k { sigquit_flag = update k.sigquit_flag d 1 }
    else if key == 0x1D
    then record k { keys = record k.keys { ctrl = 1 } }
    else if key == 0x9D
    then record k { keys = record k.keys { ctrl = 0 } }
    else if key == 0x38
    then record k { keys = record k.keys { alt = 1 } }
    else if key == 0xB8
    then record k { keys = record k.keys { alt = 0 } }
    else if k.terminal_read_flag d == 0
    then k
    else edit beyond key (raise_line (begin_line k))

-- Every path sends one end of interrupt for line 1.
unfoldable pub kb_handler : ℕ → ℕ → Kernel → Kernel
unfolding react
kb_handler beyond key k =
    let k' = react beyond key (record k { video_page = 0xB8 }) in
    record k' { pic = send_eoi k'.pic 1 }
