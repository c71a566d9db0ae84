-- ===== src/Kernel/Typing/Text.antt =====
-- What the keys that type a character do to a line, from their scan codes.
use illinix_os.Prelude.{
  ℕ, suc, ◌<◌, ◌≡◌, ◌≢◌, ◌∙◌, refl, sym, ap, subst, Bool, true, false, ◌&&◌, ◌||◌, not, Option,
  some, ap₂, arith, ltb, ◌==◌, if◌then◌else◌, if_intro, update, ◌⊎◌, inl, inr, Bool-cases,
}
use illinix_os.Prelude.Bits.{passes, passes_lem}
use illinix_os.Kernel.{Kernel}
use illinix_os.Kernel.Typing.{type_char, reset_counter}
use illinix_os.Kernel.Typing.Handler.{
  table_at, pick, type_picked, type_key, edit_rest, edit, kb_handler,
}
use illinix_os.Kernel.Typing.Characters.{described, with_modifiers, pick_lem}
use illinix_os.Kernel.Typing.Routes.{
  Same-trans, prepared, prepared-Same, reset_counter-Same, reserved, kb_handler-rest,
  kb_handler-finish, finish, finish-Same,
}
use illinix_os.Kernel.Typing.Reading.{Reads-shown, Line, Same-Line, type_char-Line}

-- A character key: a key of the main block that has a plain character.
unfoldable pub is_text_key : ℕ → Bool
is_text_key key = ltb key 54 && not (table_at 0 key == 0)

-- The scan codes that kb_handler does not take for a character.
unfoldable pub other_key : ℕ → Bool
unfolding reserved
other_key key =
    reserved key
    || (key == 0x39
        || (key == 0x0F
            || (key == 0x48 || (key == 0x0E || (key == 0x1C || (key == 0x36 || key == 0x2A))))))

text_keys : passes (λ key. table_at 0 key == 0 || not (other_key key)) 54 ≡ true
unfolding passes table_at other_key reserved
text_keys = refl

pub text_key_lem : (key : ℕ) → is_text_key key ≡ true → (key < 54) × (other_key key ≡ false)
unfolding is_text_key
text_key_lem key h =
    let low : key < 54 = ground arith in
    let row = passes_lem (λ i. table_at 0 i == 0 || not (other_key i)) 54 key low text_keys in
    (low, ground (arith, row, h))

text_route :
    (beyond key : ℕ) (k : Kernel)
    → key < 54
    → other_key key ≡ false
    → k.keys.ctrl ≡ 0
    → edit_rest beyond key k
      ≡ type_picked (pick beyond (not (k.keys.cap == 0)) (not (k.keys.shift == 0)) key) k
unfolding edit_rest type_key other_key
text_route beyond key k low plain no_ctrl =
    let Done = λ (l : Kernel).
      l ≡ type_picked (pick beyond (not (k.keys.cap == 0)) (not (k.keys.shift == 0)) key) k in
    if_intro Done (key == 0x0E) (λ t. absurd (ground (arith, plain)))
      (λ _.
        if_intro Done (key == 0x1C) (λ t. absurd (ground (arith, plain)))
          (λ _.
            if_intro Done (key == 0x36 || key == 0x2A) (λ t. absurd (ground (arith, plain)))
              (λ _.
                if_intro Done (key == 0xAA || key == 0xB6) (λ t. absurd (ground (arith, low)))
                  (λ _.
                    if_intro Done (key == 0x3A) (λ t. absurd (ground (arith, low)))
                      (λ _.
                        if_intro Done (not (k.keys.ctrl == 0) && key == 0x26)
                          (λ t. absurd (ground (arith, no_ctrl)))
                          (λ _.
                            if_intro Done (ltb 0x37 key) (λ t. absurd (ground (arith, low)))
                              (λ _. refl)))))))

-- The character that a text key stores.
abbrev pub character : Bool → Bool → ℕ → ℕ
character cap shift key = with_modifiers cap shift (table_at 0 key)

described-some :
    (cap shift : Bool) (c : ℕ)
    → not (c == 0) ≡ true
    → described cap shift c ≡ some (with_modifiers cap shift c)
unfolding described
described-some cap shift c h =
    if_intro (λ (o : Option ℕ). o ≡ some (with_modifiers cap shift c)) (c == 0)
      (λ t. absurd (ground arith)) (λ _. refl)

both_true : (a b : Bool) → (a && b) ≡ true → (a ≡ true) × (b ≡ true)
both_true a b h = ground arith

picked :
    (beyond key : ℕ) (cap shift : Bool)
    → is_text_key key ≡ true
    → pick beyond cap shift key ≡ some (character cap shift key)
unfolding is_text_key
picked beyond key cap shift h =
    let (low, plain) = both_true (ltb key 54) (not (table_at 0 key == 0)) h in
    pick_lem beyond key cap shift (ground (arith, low))
    ∙ described-some cap shift (table_at 0 key) plain

-- One text key.
press-Line :
    (beyond key d i : ℕ) (row : ℕ → ℕ) (cap shift : Bool) (k : Kernel)
    → is_text_key key ≡ true
    → i < 127
    → Line d cap shift i row k
    → Line d cap shift (suc i) (update row i (character cap shift key)) (kb_handler beyond key k)
unfolding other_key type_picked
press-Line beyond key d i row cap shift k text room l =
    let (low, plain) = text_key_lem key text in
    let start : Kernel = reset_counter key (prepared k) in
    let (r, h) : Line d cap shift i row start =
      Same-Line (Same-trans (prepared-Same k) (reset_counter-Same key (prepared k))) l in
    let e : edit_rest beyond key start ≡ type_char (character cap shift key) start =
      text_route beyond key start low plain r.no_ctrl
      ∙ (ap₂ (λ x y. type_picked (pick beyond x y key) start) r.caps_lock r.shift_key
          ∙ ap (λ o. type_picked o start) (picked beyond key cap shift text)) in
    let typed =
      subst (Line d cap shift (suc i) (update row i (character cap shift key))) (sym e)
        (type_char-Line d i _ row cap shift start room (r, h)) in
    Same-Line
      (kb_handler-rest beyond key k (ground (arith, plain)) (ground (arith, plain))
        (ground (arith, plain)) (ground (arith, plain)) l.0.no_ctrl (Reads-shown l.0))
      typed

no_action : (beyond : ℕ) (k : Kernel) → k.keys.ctrl ≡ 0 → edit_rest beyond 0x39 k ≡ k
unfolding edit_rest type_key
no_action beyond k no_ctrl =
    if_intro (λ (l : Kernel). l ≡ k) (not (k.keys.ctrl == 0) && 0x39 == 0x26)
      (λ t. absurd (ground (arith, no_ctrl))) (λ _. refl)

space-route :
    (beyond : ℕ) (k : Kernel)
    → edit beyond 0x39 k ≡ edit_rest beyond 0x39 (reset_counter 0x39 (type_char 32 k))
unfolding edit
space-route beyond k = refl

-- The space bar.
space-Line :
    (beyond d i : ℕ) (row : ℕ → ℕ) (cap shift : Bool) (k : Kernel)
    → i < 127
    → Line d cap shift i row k
    → Line d cap shift (suc i) (update row i 32) (kb_handler beyond 0x39 k)
unfolding reserved
space-Line beyond d i row cap shift k room l =
    let typed : Kernel = type_char 32 (prepared k) in
    let w : Line d cap shift (suc i) (update row i 32) typed =
      type_char-Line d i 32 row cap shift (prepared k) room (Same-Line (prepared-Same k) l) in
    let w' = Same-Line (reset_counter-Same 0x39 typed) w in
    let e : edit beyond 0x39 (prepared k) ≡ reset_counter 0x39 typed =
      space-route beyond (prepared k) ∙ no_action beyond (reset_counter 0x39 typed) w'.0.no_ctrl in
    subst (Line d cap shift (suc i) (update row i 32))
      (sym (kb_handler-finish beyond 0x39 k refl l.0.no_ctrl (Reads-shown l.0) ∙ ap finish e))
      (Same-Line (finish-Same (reset_counter 0x39 typed)) w')

-- The keys that type a character: the text keys and the space bar.
unfoldable pub is_line_key : ℕ → Bool
is_line_key key = is_text_key key || key == 0x39

unfoldable pub line_char : Bool → Bool → ℕ → ℕ
line_char cap shift key = if key == 0x39 then 32 else character cap shift key

pub space_char : (cap shift : Bool) → line_char cap shift 0x39 ≡ 32
unfolding line_char
space_char cap shift = refl

pub text_char :
    (cap shift : Bool) (key : ℕ)
    → is_text_key key ≡ true
    → (key ≢ 0x39) × (line_char cap shift key ≡ character cap shift key)
unfolding line_char
text_char cap shift key h =
    let low = (text_key_lem key h).0 in
    (
      omega (arith, low),
      if_intro (λ (c : ℕ). c ≡ character cap shift key) (key == 0x39)
          (λ t. absurd (ground (arith, low))) (λ _. refl),
    )

typed_key-cases : (key : ℕ) → is_line_key key ≡ true → (is_text_key key ≡ true) ⊎ (key ≡ 0x39)
unfolding is_line_key
typed_key-cases key h = elim (Bool-cases (is_text_key key)) [
  | inl yes_text ↦ inl yes_text
  | inr no_text ↦ inr (ground (arith, h, no_text))
]

pub typed_key-Line :
    (beyond key d i : ℕ) (row : ℕ → ℕ) (cap shift : Bool) (k : Kernel)
    → is_line_key key ≡ true
    → i < 127
    → Line d cap shift i row k
    → Line d cap shift (suc i) (update row i (line_char cap shift key)) (kb_handler beyond key k)
typed_key-Line beyond key d i row cap shift k types room l = elim (typed_key-cases key types) [
  | inl text ↦
      subst (λ c. Line d cap shift (suc i) (update row i c) (kb_handler beyond key k))
        (sym (text_char cap shift key text).1)
        (press-Line beyond key d i row cap shift k text room l)
  | inr space ↦
      subst
        (λ x.
          Line d cap shift (suc i) (update row i (line_char cap shift x)) (kb_handler beyond x k))
        (sym space)
        (subst (λ c. Line d cap shift (suc i) (update row i c) (kb_handler beyond 0x39 k))
          (sym (space_char cap shift)) (space-Line beyond d i row cap shift k room l))
]
