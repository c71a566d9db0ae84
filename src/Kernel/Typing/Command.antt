-- ===== src/Kernel/Typing/Command.antt =====
-- A command and its argument, from the keys that are pressed to the argument that the program gets.
use illinix_os.Prelude.{
  ℕ, suc, ◌+◌, ◌-◌, ◌^◌, ◌<◌, ◌≡◌, ◌≢◌, ◌∙◌, refl, sym, ap, subst, Bool, true, some, List, [], ◌∷◌,
  ◌++◌, map, arith, update, update_self, update_ne, length, length-append, get_elem?, dec_lt,
}
use illinix_os.Terminal.{Buffer, LineRead, t_read, sys_getargs}
use illinix_os.Terminal.Args.{IsPlain, typed_argument}
use illinix_os.Kernel.{Kernel}
use illinix_os.Kernel.Typing.Handler.{kb_handler}
use illinix_os.Kernel.Typing.Reading.{Line}
use illinix_os.Kernel.Typing.Text.{
  line_char, is_line_key, is_text_key, character, text_char, space_char,
}
use illinix_os.Kernel.Typing.Typed.{press_all, all_types, put_text, press_all-Line}
use illinix_os.Kernel.Typing.Again.{enter_key-Entered}
use illinix_os.Kernel.Typing.Delivery.{
  put_text-at, get_elem?-map, get_elem?-left, get_elem?-right, all_types-at, character-IsPlain,
  get_elem?-types,
}

-- The keys of a command, the space bar, and the keys of its argument.
abbrev pub command_keys : List ℕ → List ℕ → List ℕ
command_keys command argument = command ++ 0x39 ∷ argument

all_types-both :
    (command argument : List ℕ)
    → all_types is_text_key command ≡ true
    → all_types is_text_key argument ≡ true
    → all_types is_line_key (command_keys command argument) ≡ true
unfolding all_types is_line_key
all_types-both [] [] c a = ground arith
all_types-both [] (key ∷ argument) c a =
    let rest = all_types-both [] argument refl (ground arith) in ground (arith, rest, a)
all_types-both (key ∷ command) argument c a =
    let rest = all_types-both command argument (ground arith) a in ground (arith, rest, c)

module _ (command argument : List ℕ) (cap shift : Bool) (row : ℕ → ℕ)
    (text : all_types is_text_key command ≡ true)
    (more_text : all_types is_text_key argument ≡ true) where
  typed : ℕ → ℕ
  typed = put_text 0 (map (line_char cap shift) (command_keys command argument)) row

  typed-at :
      (j key : ℕ)
      → get_elem? (command_keys command argument) j ≡ some key
      → typed j ≡ line_char cap shift key
  unfolding typed
  typed-at j key at =
      let e : 0 + j ≡ j = omega arith in
      subst (λ n. typed n ≡ line_char cap shift key) e
        (put_text-at _ 0 row j (line_char cap shift key)
          (get_elem?-map (line_char cap shift) (command_keys command argument) j key at))

  typed-command : (j : ℕ) → j < length command → IsPlain (typed j)
  typed-command j h =
      let (key, at, t) = all_types-at is_text_key command j text h in
      subst IsPlain
        (sym (
          typed-at j key (get_elem?-left command (0x39 ∷ argument) j key at)
          ∙ (text_char cap shift key t).1))
        (character-IsPlain cap shift key t)

  typed-right :
      (j key : ℕ)
      → get_elem? (0x39 ∷ argument) j ≡ some key
      → typed (length command + j) ≡ line_char cap shift key
  typed-right j key at =
      typed-at (length command + j) key (get_elem?-right command (0x39 ∷ argument) j ∙ at)

  typed-space : typed (length command) ≡ 32
  typed-space =
      let e : length command + 0 ≡ length command = omega arith in
      subst (λ n. typed n ≡ 32) e (typed-right 0 0x39 refl ∙ space_char cap shift)

  typed-argument :
      (j key : ℕ)
      → get_elem? argument j ≡ some key
      → is_text_key key ≡ true
      → typed (suc (length command) + j) ≡ character cap shift key
  typed-argument j key at t =
      let e : length command + suc j ≡ suc (length command) + j = omega arith in
      subst (λ n. typed n ≡ character cap shift key) e
        (typed-right (suc j) key at ∙ (text_char cap shift key t).1)

  -- The whole line, but for its space.
  typed-IsPlain :
      (j : ℕ) → j < suc (length command) + length argument → j ≢ length command → IsPlain (typed j)
  typed-IsPlain j h other = elim (dec_lt j (length command)) [
    | yes in_command ↦ typed-command j in_command
    | no behind ↦
        let n = j - suc (length command) in
        let (key, at, t) = all_types-at is_text_key argument n more_text (omega arith) in
        let e : suc (length command) + n ≡ j = omega arith in
        subst IsPlain (sym (typed-argument n key at t) ∙ ap typed e)
          (character-IsPlain cap shift key t)
  ]

  -- The line after the enter key.
  ended : ℕ → ℕ
  ended = update typed (suc (length command) + length argument) 10

  ended-at : (j : ℕ) → j < suc (length command) + length argument → ended j ≡ typed j
  unfolding ended
  ended-at j h = update_ne typed (suc (length command) + length argument) j 10 (omega arith)

  ended-argument :
      (line args : Buffer) (nbytes : ℕ) (buf : Buffer)
      → nbytes < 2 ^ 31
      → suc (length command) + length argument < nbytes
      → suc (length command) + length argument < 128
      → 0 < length argument
      → (r : LineRead) × (buf' : Buffer) × (t_read ((ended, 0) ∷ []) 128 line args ≡ some r)
        × ((sys_getargs (some buf) nbytes r.get_args_buf).0 ≡ 0)
        × ((sys_getargs (some buf) nbytes r.get_args_buf).1 ≡ some buf')
        × ((k : ℕ) → k < length argument → buf' k ≡ ended (suc (length command) + k))
        × (buf' (length argument) ≡ 0)
  unfolding ended
  ended-argument line args nbytes buf w room short some_argument =
      let q = suc (length command) + length argument in
      let e : q - suc (length command) ≡ length argument = omega arith in
      subst
        (λ n.
          (r : LineRead) × (buf' : Buffer) × (t_read ((ended, 0) ∷ []) 128 line args ≡ some r)
          × ((sys_getargs (some buf) nbytes r.get_args_buf).0 ≡ 0)
          × ((sys_getargs (some buf) nbytes r.get_args_buf).1 ≡ some buf')
          × ((k : ℕ) → k < n → buf' k ≡ ended (suc (length command) + k))
          × (buf' n ≡ 0))
        e
        (typed_argument ended line args nbytes (length command) q buf w room short (omega arith)
          (ended-at (length command) (omega arith) ∙ typed-space) (update_self typed q 10)
          (λ k h other. subst IsPlain (sym (ended-at k h)) (typed-IsPlain k h other)))

-- On a terminal that reads and whose line is empty, a command, a space and an argument of at least
-- one character are typed, 127 characters at most, and the enter key is pressed. Then the read that
-- waits for the line returns, and sys_getargs gives the program the characters of the argument's
-- keys, in order and ended with a NUL, if the program's buffer is longer than the whole line, the
-- command included: `nbytes`, below 2 ^ 31, is more than the characters typed. Keys are the text
-- keys of the main block, caps lock and shift stay as they are, and control is up.
pub typed_command-argument :
    (beyond d : ℕ) (command argument : List ℕ) (cap shift : Bool) (row : ℕ → ℕ) (k : Kernel)
    (line args : Buffer) (nbytes : ℕ) (buf : Buffer)
    → Line d cap shift 0 row k
    → all_types is_text_key command ≡ true
    → all_types is_text_key argument ≡ true
    → 0 < length argument
    → suc (length command) + length argument < 128
    → suc (length command) + length argument < nbytes
    → nbytes < 2 ^ 31
    → (let l = kb_handler beyond 0x1C (press_all beyond (command_keys command argument) k) in
        (r : LineRead) × (buf' : Buffer) × (t_read ((l.kb_buff d, 0) ∷ []) 128 line args ≡ some r)
        × ((sys_getargs (some buf) nbytes r.get_args_buf).0 ≡ 0)
        × ((sys_getargs (some buf) nbytes r.get_args_buf).1 ≡ some buf')
        × ((j key : ℕ) → get_elem? argument j ≡ some key → buf' j ≡ character cap shift key)
        × (buf' (length argument) ≡ 0))
unfolding ended typed
typed_command-argument beyond d command argument cap shift row k line args nbytes buf l text more
      some_argument short room w =
    let keys = command_keys command argument in
    let q = suc (length command) + length argument in
    let count : 0 + length keys ≡ q = omega (arith, length-append command (0x39 ∷ argument)) in
    let pressed =
      press_all-Line beyond keys d 0 row cap shift k (all_types-both command argument text more)
        (omega arith) l in
    let done = enter_key-Entered beyond d (0 + length keys) _ cap shift _ pressed in
    let line_is =
      done.line.1.buff
      ∙ ap (λ n. update (typed command argument cap shift row text more) n 10) count in
    let (r, buf', read, found, result, copied, stop) =
      ended-argument command argument cap shift row text more line args nbytes buf w room short
        some_argument in
    (
      r,
      buf',
      ap (λ b. t_read ((b, 0) ∷ []) 128 line args) line_is ∙ read,
      found,
      result,
      λ j key at.
          let (low, t) = get_elem?-types is_text_key argument j key more at in
          copied j low
          ∙ (ended-at command argument cap shift row text more (suc (length command) + j)
                (omega arith)
              ∙ typed-argument command argument cap shift row text more j key at t),
      stop,
    )
