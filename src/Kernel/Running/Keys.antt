-- ===== src/Kernel/Running/Keys.antt =====
-- No key changes the processes: kb_handler only changes the keyboard, the line, the screen and the
-- requests to the scheduler.
use illinix_os.Prelude.{
  ℕ, ◌≡◌, refl, ap, Option, none, some, not, ◌&&◌, ◌||◌, ltb, ◌==◌, if_intro, if◌then◌else◌,
}
use illinix_os.Kernel.{Kernel}
use illinix_os.Kernel.Typing.{type_char, begin_line, raise_line, reset_counter}
use illinix_os.Kernel.Typing.Handler.{
  type_picked, type_key, edit_rest, edit, ask_switch, react, kb_handler,
}
use illinix_os.Kernel.Running.Same.{Keeps, same_processes}
use illinix_os.Kernel.Running.Lines.{
  Same, Same-trans, keys-Same, Same-refl, type_char-Same, type_tab-Same, begin_line-Same,
  raise_line-Same, reset_counter-Same, backspace-Same, enter-Same, clear_line-Same, up_arrow-Same,
  Processes,
}

type_picked-Same : (c : Option ℕ) (k : Kernel) → Same k (type_picked c k)
unfolding Same type_picked
type_picked-Same none k = refl
type_picked-Same (some c) k = type_char-Same c k

ask_switch-Same : (t : ℕ) (k : Kernel) → Same k (ask_switch t k)
unfolding Same ask_switch
ask_switch-Same t k = refl

quote-Same : (k : Kernel) (flags : ℕ → ℕ) → Same k (record k { severance_quote_flag = flags })
unfolding Same
quote-Same k flags = refl

sigquit-Same : (k : Kernel) (flags : ℕ → ℕ) → Same k (record k { sigquit_flag = flags })
unfolding Same
sigquit-Same k flags = refl

type_key-Same : (beyond key : ℕ) (k : Kernel) → Same k (type_key beyond key k)
unfolding type_key
type_key-Same beyond key k =
    if_intro (Same k) (ltb 0x37 key) (λ _. Same-refl k) (λ _. type_picked-Same _ k)

edit_rest-Same : (beyond key : ℕ) (k : Kernel) → Same k (edit_rest beyond key k)
unfolding edit_rest
edit_rest-Same beyond key k =
    if_intro (Same k) (key == 0x0E) (λ _. backspace-Same k)
      (λ _.
        if_intro (Same k) (key == 0x1C) (λ _. enter-Same k)
          (λ _.
            if_intro (Same k) (key == 0x36 || key == 0x2A) (λ _. keys-Same k _)
              (λ _.
                if_intro (Same k) (key == 0xAA || key == 0xB6) (λ _. keys-Same k _)
                  (λ _.
                    if_intro (Same k) (key == 0x3A) (λ _. keys-Same k _)
                      (λ _.
                        if_intro (Same k) (not (k.keys.ctrl == 0) && key == 0x26)
                          (λ _. clear_line-Same k) (λ _. type_key-Same beyond key k))))))

edit-Same : (beyond key : ℕ) (k : Kernel) → Same k (edit beyond key k)
unfolding edit
edit-Same beyond key k =
    let spaced : Kernel = if key == 0x39 then type_char 32 k else k in
    let same : Same k spaced =
      if_intro (Same k) (key == 0x39) (λ _. type_char-Same 32 k) (λ _. Same-refl k) in
    if_intro (Same k) (key == 0x0F) (λ _. type_tab-Same 4 k)
      (λ _.
        if_intro (Same k) (key == 0x48) (λ _. Same-trans k spaced _ same (up_arrow-Same spaced))
          (λ _.
            Same-trans k (reset_counter key spaced) _
              (Same-trans k spaced _ same (reset_counter-Same key spaced))
              (edit_rest-Same beyond key (reset_counter key spaced))))

react-Same : (beyond key : ℕ) (k : Kernel) → Same k (react beyond key k)
unfolding react
react-Same beyond key k =
    if_intro (Same k) (not (k.keys.alt == 0) && key == 0x3B) (λ _. ask_switch-Same 0 k)
      (λ _.
        if_intro (Same k) (not (k.keys.alt == 0) && key == 0x3C) (λ _. ask_switch-Same 1 k)
          (λ _.
            if_intro (Same k) (not (k.keys.alt == 0) && key == 0x3D) (λ _. ask_switch-Same 2 k)
              (λ _.
                if_intro (Same k) (k.keys.ctrl == 1 && key == 0x30) (λ _. quote-Same k _)
                  (λ _.
                    if_intro (Same k) (k.keys.ctrl == 1 && key == 0x2E) (λ _. sigquit-Same k _)
                      (λ _.
                        if_intro (Same k) (key == 0x1D) (λ _. keys-Same k _)
                          (λ _.
                            if_intro (Same k) (key == 0x9D) (λ _. keys-Same k _)
                              (λ _.
                                if_intro (Same k) (key == 0x38) (λ _. keys-Same k _)
                                  (λ _.
                                    if_intro (Same k) (key == 0xB8) (λ _. keys-Same k _)
                                      (λ _.
                                        if_intro (Same k)
                                          (k.terminal_read_flag k.displayed_terminal == 0)
                                          (λ _. Same-refl k)
                                          (λ _.
                                            Same-trans k (raise_line (begin_line k)) _
                                              (Same-trans k (begin_line k) _ (begin_line-Same k)
                                                (raise_line-Same (begin_line k)))
                                              (edit-Same beyond key
                                                (raise_line (begin_line k)))))))))))))

kb_handler-Same : (beyond key : ℕ) (k : Kernel) → Same k (kb_handler beyond key k)
unfolding Same kb_handler
kb_handler-Same beyond key k = react-Same beyond key (record k { video_page = 0xB8 })

-- The same, as the other calls state it.
pub kb_handler-Keeps :
    (beyond key : ℕ) (k : Kernel)
    → Keeps k (kb_handler beyond key k) × ((kb_handler beyond key k).pcbs ≡ k.pcbs)
unfolding Same
kb_handler-Keeps beyond key k =
    let e = kb_handler-Same beyond key k in
    let blocks : (kb_handler beyond key k).pcbs ≡ k.pcbs = ap (λ (p : Processes). p.pcbs) e in
    (
      same_processes k _ (ap (λ (p : Processes). p.shell_count) e)
          (ap (λ (p : Processes). p.scheduled_terminal) e)
          (ap (λ (p : Processes). p.processes_active) e)
          (ap (λ (p : Processes). p.num_active_processes) e)
          (ap (λ (p : Processes). p.current_process_idx) e) (ap (λ (p : Processes). p.user_page) e)
          (ap (λ (p : Processes). p.esp0) e) (ap (λ (p : Processes). p.no_parent_shell_flag) e)
          (λ t. ap (λ (p : Processes). (p.terminal_processes t).active_process_pid) e) blocks,
      blocks,
    )
