-- ===== src/Kernel/Typing/Keys.antt =====
-- Every key keeps the keyboard's bounds.
use illinix_os.Prelude.{
  ℕ, ◌≡◌, refl, ◌&&◌, ◌||◌, not, Option, none, some, ltb, ◌==◌, if◌then◌else◌, if_intro,
}
use illinix_os.Kernel.{Kernel}
use illinix_os.Kernel.Typing.{type_char, begin_line}
use illinix_os.Kernel.Typing.Handler.{
  type_picked, type_key, edit_rest, edit, ask_switch, react, kb_handler,
}
use illinix_os.Kernel.Typing.Bounds.{
  IsKeyboard, type_char-IsKeyboard, type_tab-IsKeyboard, begin_line-IsKeyboard,
  raise_line-IsKeyboard, reset_counter-IsKeyboard,
}
use illinix_os.Kernel.Typing.Erasing.{backspace-IsKeyboard, clear_line-IsKeyboard}
use illinix_os.Kernel.Typing.Lines.{up_arrow-IsKeyboard}
use illinix_os.Kernel.Typing.Pushing.{enter-IsKeyboard}

type_picked-IsKeyboard : (c : Option ℕ) (k : Kernel) → IsKeyboard k → IsKeyboard (type_picked c k)
unfolding type_picked
type_picked-IsKeyboard none k v = v
type_picked-IsKeyboard (some c) k v = type_char-IsKeyboard c k v

-- A state with the same line, screen and saved lines.
same_line :
    (k l : Kernel)
    → l.kb_idx ≡ k.kb_idx
    → l.screen ≡ k.screen
    → l.keys.og_y ≡ k.keys.og_y
    → l.keys.kb_save ≡ k.keys.kb_save
    → l.keys.up_arrow_counter ≡ k.keys.up_arrow_counter
    → IsKeyboard k
    → IsKeyboard l
same_line k l e f g h c v = record {
  idx = λ t. rw e (v.idx t);
  drawn = rw f v.drawn;
  og_row = λ t. rw g (v.og_row t);
  saved = λ t n few. rw h (v.saved t n few);
  recalls = λ t. rw c (v.recalls t);
}

edit_rest-IsKeyboard :
    (beyond key : ℕ) (k : Kernel) → IsKeyboard k → IsKeyboard (edit_rest beyond key k)
unfolding edit_rest type_key
edit_rest-IsKeyboard beyond key k v =
    if_intro IsKeyboard (key == 0x0E) (λ _. backspace-IsKeyboard k v)
      (λ _.
        if_intro IsKeyboard (key == 0x1C) (λ _. enter-IsKeyboard k v)
          (λ _.
            if_intro IsKeyboard (key == 0x36 || key == 0x2A)
              (λ _. same_line k _ refl refl refl refl refl v)
              (λ _.
                if_intro IsKeyboard (key == 0xAA || key == 0xB6)
                  (λ _. same_line k _ refl refl refl refl refl v)
                  (λ _.
                    if_intro IsKeyboard (key == 0x3A)
                      (λ _. same_line k _ refl refl refl refl refl v)
                      (λ _.
                        if_intro IsKeyboard (not (k.keys.ctrl == 0) && key == 0x26)
                          (λ _. clear_line-IsKeyboard k v)
                          (λ _.
                            if_intro IsKeyboard (ltb 0x37 key) (λ _. v)
                              (λ _. type_picked-IsKeyboard _ k v)))))))

edit-IsKeyboard : (beyond key : ℕ) (k : Kernel) → IsKeyboard k → IsKeyboard (edit beyond key k)
unfolding edit
edit-IsKeyboard beyond key k v =
    let spaced : Kernel = if key == 0x39 then type_char 32 k else k in
    let w : IsKeyboard spaced =
      if_intro IsKeyboard (key == 0x39) (λ _. type_char-IsKeyboard 32 k v) (λ _. v) in
    if_intro IsKeyboard (key == 0x0F) (λ _. type_tab-IsKeyboard 4 k v)
      (λ _.
        if_intro IsKeyboard (key == 0x48) (λ _. up_arrow-IsKeyboard spaced w)
          (λ _. edit_rest-IsKeyboard beyond key _ (reset_counter-IsKeyboard key spaced w)))

ask_switch-IsKeyboard : (t : ℕ) (k : Kernel) → IsKeyboard k → IsKeyboard (ask_switch t k)
unfolding ask_switch
ask_switch-IsKeyboard t k v = same_line k _ refl refl refl refl refl v

react-IsKeyboard : (beyond key : ℕ) (k : Kernel) → IsKeyboard k → IsKeyboard (react beyond key k)
unfolding react
react-IsKeyboard beyond key k v =
    let alt = not (k.keys.alt == 0) in
    if_intro IsKeyboard (alt && key == 0x3B) (λ _. ask_switch-IsKeyboard 0 k v)
      (λ _.
        if_intro IsKeyboard (alt && key == 0x3C) (λ _. ask_switch-IsKeyboard 1 k v)
          (λ _.
            if_intro IsKeyboard (alt && key == 0x3D) (λ _. ask_switch-IsKeyboard 2 k v)
              (λ _.
                if_intro IsKeyboard (k.keys.ctrl == 1 && key == 0x30)
                  (λ _. same_line k _ refl refl refl refl refl v)
                  (λ _.
                    if_intro IsKeyboard (k.keys.ctrl == 1 && key == 0x2E)
                      (λ _. same_line k _ refl refl refl refl refl v)
                      (λ _.
                        if_intro IsKeyboard (key == 0x1D)
                          (λ _. same_line k _ refl refl refl refl refl v)
                          (λ _.
                            if_intro IsKeyboard (key == 0x9D)
                              (λ _. same_line k _ refl refl refl refl refl v)
                              (λ _.
                                if_intro IsKeyboard (key == 0x38)
                                  (λ _. same_line k _ refl refl refl refl refl v)
                                  (λ _.
                                    if_intro IsKeyboard (key == 0xB8)
                                      (λ _. same_line k _ refl refl refl refl refl v)
                                      (λ _.
                                        if_intro IsKeyboard
                                          (k.terminal_read_flag k.displayed_terminal == 0) (λ _. v)
                                          (λ _. edit-IsKeyboard beyond key _ (
                                            raise_line-IsKeyboard (begin_line k)
                                              (begin_line-IsKeyboard k v))))))))))))

-- Whatever key arrives, in whatever state of the modifier keys, the index of every terminal's line
-- stays below 128, so that no character is stored outside the buffer; the cursor of every terminal,
-- the hardware cursor and the place where a line begins stay on the screen; and each of the five
-- saved lines keeps a tab to end it.
pub kb_handler-IsKeyboard :
    (beyond key : ℕ) (k : Kernel) → IsKeyboard k → IsKeyboard (kb_handler beyond key k)
unfolding kb_handler
kb_handler-IsKeyboard beyond key k v =
    let shown : Kernel = record k { video_page = 0xB8 } in
    same_line (react beyond key shown) _ refl refl refl refl refl
      (react-IsKeyboard beyond key shown (same_line k shown refl refl refl refl refl v))
