-- ===== src/Kernel/Typing/Routes.antt =====
-- Which part of kb_handler a key reaches, and what the parts before it keep.
use illinix_os.Prelude.{
  ℕ, ◌≡◌, ◌≢◌, ◌∙◌, refl, sym, ap, subst, Bool, false, ◌&&◌, ◌||◌, not, arith, ◌==◌, if◌then◌else◌,
  if_intro,
}
use illinix_os.Pic.{send_eoi}
use illinix_os.Kernel.{Kernel}
use illinix_os.Kernel.Typing.{type_char, begin_line, raise_line, reset_counter}
use illinix_os.Kernel.Typing.Handler.{edit_rest, edit, react, kb_handler}

-- What the keys that do not edit the line leave alone, and the preparations for those that do.
pub record Same (k l : Kernel) : Type 0 where
  pub shown : l.displayed_terminal ≡ k.displayed_terminal
  pub idx : l.kb_idx ≡ k.kb_idx
  pub buff : l.kb_buff ≡ k.kb_buff
  pub reading : l.terminal_read_flag ≡ k.terminal_read_flag
  pub ctrl : l.keys.ctrl ≡ k.keys.ctrl
  pub cap : l.keys.cap ≡ k.keys.cap
  pub shift : l.keys.shift ≡ k.keys.shift
  pub saved : l.keys.kb_save ≡ k.keys.kb_save

pub Same-refl : (k : Kernel) → Same k k
Same-refl k = record {
  shown = refl;
  idx = refl;
  buff = refl;
  reading = refl;
  ctrl = refl;
  cap = refl;
  shift = refl;
  saved = refl;
}

pub Same-trans : {k l m : Kernel} → Same k l → Same l m → Same k m
Same-trans a b = record {
  shown = b.shown ∙ a.shown;
  idx = b.idx ∙ a.idx;
  buff = b.buff ∙ a.buff;
  reading = b.reading ∙ a.reading;
  ctrl = b.ctrl ∙ a.ctrl;
  cap = b.cap ∙ a.cap;
  shift = b.shift ∙ a.shift;
  saved = b.saved ∙ a.saved;
}

begin_line-Same : (k : Kernel) → Same k (begin_line k)
unfolding begin_line
begin_line-Same k =
    if_intro (Same k) (k.setup k.displayed_terminal == 0) (λ _. Same-refl k)
      (λ _. record {
        shown = refl;
        idx = refl;
        buff = refl;
        reading = refl;
        ctrl = refl;
        cap = refl;
        shift = refl;
        saved = refl;
      })

raise_line-Same : (k : Kernel) → Same k (raise_line k)
unfolding raise_line
raise_line-Same k =
    let d : ℕ = k.displayed_terminal in
    if_intro (Same k) (k.keys.y == 24 && (k.keys.og_y d == 24 && k.screen.next_row_flag d == 1))
      (λ _. record {
        shown = refl;
        idx = refl;
        buff = refl;
        reading = refl;
        ctrl = refl;
        cap = refl;
        shift = refl;
        saved = refl;
      })
      (λ _. Same-refl k)

pub reset_counter-Same : (key : ℕ) (k : Kernel) → Same k (reset_counter key k)
unfolding reset_counter
reset_counter-Same key k =
    if_intro (Same k) (key == 0xC8) (λ _. Same-refl k)
      (λ _. record {
        shown = refl;
        idx = refl;
        buff = refl;
        reading = refl;
        ctrl = refl;
        cap = refl;
        shift = refl;
        saved = refl;
      })

-- The state in which the keys that edit the line find it.
abbrev pub prepared : Kernel → Kernel
prepared k = raise_line (begin_line (record k { video_page = 0xB8 }))

pub prepared-Same : (k : Kernel) → Same k (prepared k)
prepared-Same k =
    let shown : Kernel = record k { video_page = 0xB8 } in
    let unchanged : Same k shown = record {
      shown = refl;
      idx = refl;
      buff = refl;
      reading = refl;
      ctrl = refl;
      cap = refl;
      shift = refl;
      saved = refl;
    } in
    Same-trans unchanged (Same-trans (begin_line-Same shown) (raise_line-Same (begin_line shown)))

-- The keys that ask for another terminal or move control or alt.
unfoldable pub reserved : ℕ → Bool
reserved key =
    key == 0x3B
    || (key == 0x3C
        || (key == 0x3D || (key == 0x1D || (key == 0x9D || (key == 0x38 || key == 0xB8)))))

react-edit :
    (beyond key : ℕ) (k : Kernel)
    → reserved key ≡ false
    → k.keys.ctrl ≡ 0
    → k.terminal_read_flag k.displayed_terminal ≢ 0
    → react beyond key k ≡ edit beyond key (raise_line (begin_line k))
unfolding react reserved
react-edit beyond key k free no_ctrl reading =
    let alt = not (k.keys.alt == 0) in
    let Done = λ (l : Kernel). l ≡ edit beyond key (raise_line (begin_line k)) in
    if_intro Done (alt && key == 0x3B) (λ t. absurd (ground (arith, free)))
      (λ _.
        if_intro Done (alt && key == 0x3C) (λ t. absurd (ground (arith, free)))
          (λ _.
            if_intro Done (alt && key == 0x3D) (λ t. absurd (ground (arith, free)))
              (λ _.
                if_intro Done (k.keys.ctrl == 1 && key == 0x30)
                  (λ t. absurd (ground (arith, no_ctrl)))
                  (λ _.
                    if_intro Done (k.keys.ctrl == 1 && key == 0x2E)
                      (λ t. absurd (ground (arith, no_ctrl)))
                      (λ _.
                        if_intro Done (key == 0x1D) (λ t. absurd (ground (arith, free)))
                          (λ _.
                            if_intro Done (key == 0x9D) (λ t. absurd (ground (arith, free)))
                              (λ _.
                                if_intro Done (key == 0x38) (λ t. absurd (ground (arith, free)))
                                  (λ _.
                                    if_intro Done (key == 0xB8) (λ t. absurd (ground (arith, free)))
                                      (λ _.
                                        if_intro Done
                                          (k.terminal_read_flag k.displayed_terminal == 0)
                                          (λ t. absurd (ground (arith, reading)))
                                          (λ _. refl))))))))))

-- The keys behind the up arrow.
pub edit-edit_rest :
    (beyond key : ℕ) (k : Kernel)
    → key ≢ 0x39
    → key ≢ 0x0F
    → key ≢ 0x48
    → edit beyond key k ≡ edit_rest beyond key (reset_counter key k)
unfolding edit
edit-edit_rest beyond key k a b c =
    let spaced : Kernel = if key == 0x39 then type_char 32 k else k in
    let plain : spaced ≡ k =
      if_intro (λ (l : Kernel). l ≡ k) (key == 0x39) (λ t. absurd (ground (arith, a)))
        (λ _. refl) in
    let Done = λ (l : Kernel). l ≡ edit_rest beyond key (reset_counter key k) in
    if_intro Done (key == 0x0F) (λ t. absurd (ground (arith, b)))
      (λ _.
        if_intro Done (key == 0x48) (λ t. absurd (ground (arith, c)))
          (λ _. ap (λ l. edit_rest beyond key (reset_counter key l)) plain))

-- The end of the interrupt.
unfoldable pub finish : Kernel → Kernel
finish k = record k { pic = send_eoi k.pic 1 }

pub finish-Same : (k : Kernel) → Same k (finish k)
unfolding finish
finish-Same k = record {
  shown = refl;
  idx = refl;
  buff = refl;
  reading = refl;
  ctrl = refl;
  cap = refl;
  shift = refl;
  saved = refl;
}

-- A key that no earlier part of kb_handler takes.
pub kb_handler-finish :
    (beyond key : ℕ) (k : Kernel)
    → reserved key ≡ false
    → k.keys.ctrl ≡ 0
    → k.terminal_read_flag k.displayed_terminal ≢ 0
    → kb_handler beyond key k ≡ finish (edit beyond key (prepared k))
unfolding kb_handler finish
kb_handler-finish beyond key k free no_ctrl reading =
    ap finish (react-edit beyond key (record k { video_page = 0xB8 }) free no_ctrl reading)

pub kb_handler-rest :
    (beyond key : ℕ) (k : Kernel)
    → reserved key ≡ false
    → key ≢ 0x39
    → key ≢ 0x0F
    → key ≢ 0x48
    → k.keys.ctrl ≡ 0
    → k.terminal_read_flag k.displayed_terminal ≢ 0
    → Same (edit_rest beyond key (reset_counter key (prepared k))) (kb_handler beyond key k)
kb_handler-rest beyond key k free a b c no_ctrl reading =
    let e =
      kb_handler-finish beyond key k free no_ctrl reading
      ∙ ap finish (edit-edit_rest beyond key (prepared k) a b c) in
    subst (Same (edit_rest beyond key (reset_counter key (prepared k)))) (sym e) (finish-Same _)

-- The up arrow's count before and after the preparations.
pub prepared-counter : (k : Kernel) → (prepared k).keys.up_arrow_counter ≡ k.keys.up_arrow_counter
unfolding begin_line raise_line
prepared-counter k =
    let d : ℕ = k.displayed_terminal in
    let shown : Kernel = record k { video_page = 0xB8 } in
    let kept = λ (l : Kernel). l.keys.up_arrow_counter ≡ k.keys.up_arrow_counter in
    let begun : kept (begin_line shown) = if_intro kept (k.setup d == 0) (λ _. refl) (λ _. refl) in
    let l : Kernel = begin_line shown in
    if_intro kept
      (l.keys.y == 24
        && (l.keys.og_y l.displayed_terminal == 24
            && l.screen.next_row_flag l.displayed_terminal == 1))
      (λ _. begun) (λ _. begun)
