-- ===== src/Kernel/Boot.antt =====
-- `entry` of student-distrib/kernel.c from its segment descriptors on: the order in which it starts the
-- devices, the interrupt table, the page tables and the terminals.
pub mod Keyboard
pub mod Tests
use illinix_os.Prelude.{
  ℕ, ◌/◌, ◌%◌, ◌+◌, ◌<◌, ◌≡◌, refl, ◌∙◌, true, not, ltb, ◌&&◌, ◌||◌, ◌++◌, arith, ◌==◌, ==_iff,
  if◌then◌else◌, update, ap, Bool, false, suc, ◌-◌, List, [], ◌∷◌, if_intro,
}
use illinix_os.Prelude.Bits.{passes, passes_lem}
use illinix_os.Pic.{Pic, pic1, pic2, i8259_init, enable_irq}
use illinix_os.Pic.Masks.{masked, boot_lines}
use illinix_os.Rtc.Interrupt.{init_rtc}
use illinix_os.Idt.{Gate, Wrappers, initialize_idt}
use illinix_os.Idt.Gates.{initialize_idt-present}
use illinix_os.Paging.{Tables, paging_init}
use illinix_os.Segments.{SegDesc, the_ldt_desc, the_tss_desc}
use illinix_os.Kernel.{Kernel}
use illinix_os.Kernel.Typing.Start.{enable_cursor, init_keyboard}
use illinix_os.Kernel.Scheduling.{terminal_init, init_pit}

-- What the linker places: the handlers, the two page tables, and the segments with their sizes.
pub record Placed : Type 0 where
  pub ldt : ℕ
  pub ldt_size : ℕ
  pub tss : ℕ
  pub tss_size : ℕ
  pub wrappers : Wrappers
  pub first_page_table_at : ℕ
  pub vmem_page_table_at : ℕ

pub record Machine : Type 0 where
  pub kernel : Kernel
  pub idt : ℕ → Gate
  pub tables : Tables
  pub ldt_desc_ptr : SegDesc
  pub tss_desc_ptr : SegDesc
  pub ldt_segment_selector : ℕ
  pub ss0 : ℕ

-- init_rtc on the kernel's state; `input k` is what its k-th read of a port returns.
unfoldable pub start_clock : (ℕ → ℕ) → Kernel → Kernel
start_clock input k =
    let (rtc, pic, sent) = init_rtc input k.rtc k.pic in
    record k { rtc = rtc; pic = pic; port_log = k.port_log ++ sent }

-- `input 0` and `input 1` are read by init_keyboard, the others by init_rtc.
unfoldable pub entry : Placed → (ℕ → ℕ) → Machine → Machine
entry at input m =
    let reset = record m.kernel { esp0 = 0x800000; pic = i8259_init m.kernel.pic } in
    let keyboard = init_keyboard (input 0) (input 1) reset in
    let clock = start_clock (λ i. input (2 + i)) keyboard in
    record {
      kernel = init_pit (terminal_init clock);
      idt = initialize_idt at.wrappers m.idt;
      tables = paging_init at.first_page_table_at at.vmem_page_table_at m.tables;
      ldt_desc_ptr = the_ldt_desc at.ldt at.ldt_size m.ldt_desc_ptr;
      tss_desc_ptr = the_tss_desc at.tss at.tss_size m.tss_desc_ptr;
      ldt_segment_selector = 0x38;
      ss0 = 0x18;
    }

entry-pic :
    (at : Placed) (input : ℕ → ℕ) (m : Machine)
    → (entry at input m).kernel.pic
      ≡ enable_irq (enable_irq (enable_irq (i8259_init m.kernel.pic) 1) 8) 0
unfolding entry init_pit terminal_init start_clock init_rtc init_keyboard enable_cursor
entry-pic at input m = refl

gate_table :
    passes
      (λ j.
        (if ltb (0x20 + j) 20 && not (0x20 + j == 15)
            || (0x20 + j == 0x80 || (0x20 + j == 0x21 || (0x20 + j == 0x28 || 0x20 + j == 0x20)))
          then 1
          else 0)
        == (if j == 0 || (j == 1 || j == 8) then 1 else 0))
      16
    ≡ true
unfolding passes
gate_table = refl

-- How a controller takes the bytes that are written to it: a byte with bit 4 set at the command port
-- opens an initialization, and the byte that comes next at the data port is the vector of its line 0.
unfoldable pub vector_base : ℕ → Bool → ℕ → List (ℕ × ℕ) → ℕ
vector_base port opened base [] = base
vector_base port opened base ((at, v) ∷ log) =
    let first = vector_base port true base log in
    let second = vector_base port false v log in
    let rest = vector_base port opened base log in
    if at == port && v / 16 % 2 == 1
    then first
    else if at == suc port && opened
    then second
    else rest

-- The vector of each line, by what has been written to the two controllers.
unfoldable pub vector_of : List (ℕ × ℕ) → ℕ → ℕ
unfolding vector_base
vector_of log j =
    if ltb j 8 then vector_base pic1 false 0 log + j else vector_base pic2 false 0 log + (j - 8)

module _ (port base : ℕ) (log : List (ℕ × ℕ))
    (ends : (opened : Bool) (old : ℕ) → vector_base port opened old log ≡ base) where
  -- An initialization counts whatever was written before it.
  vector_base-last :
      (before : List (ℕ × ℕ)) (opened : Bool) (old : ℕ)
      → vector_base port opened old (before ++ log) ≡ base
  unfolding vector_base
  vector_base-last [] opened old = ends opened old
  vector_base-last ((at, v) ∷ before) opened old =
      if_intro (λ x. x ≡ base) (at == port && v / 16 % 2 == 1)
        (λ _. vector_base-last before true old)
        (λ _.
          if_intro (λ x. x ≡ base) (at == suc port && opened) (λ _. vector_base-last before false v)
            (λ _. vector_base-last before opened old))

-- What i8259_init writes, but for the masks.
abbrev init_words : List (ℕ × ℕ)
init_words =
    (0x20, 0x11)
    ∷ (0xA0, 0x11)
    ∷ (0x21, 0x20)
    ∷ (0xA1, 0x28)
    ∷ (0x21, 0x04)
    ∷ (0xA1, 0x02)
    ∷ (0x21, 0x01)
    ∷ (0xA1, 0x01)
    ∷ []

entry-vector :
    (at : Placed) (input : ℕ → ℕ) (m : Machine) (j : ℕ)
    → j < 16
    → vector_of (entry at input m).kernel.pic.sent j ≡ 0x20 + j
unfolding vector_of vector_base i8259_init enable_irq entry init_pit terminal_init start_clock
    init_rtc init_keyboard enable_cursor
entry-vector at input m j h =
    if_intro (λ x. x ≡ 0x20 + j) (ltb j 8)
      (λ low.
        ap (λ b. b + j)
          (vector_base-last pic1 0x20 init_words (λ opened old. refl) m.kernel.pic.sent false 0))
      (λ high.
        ap (λ b. b + (j - 8))
          (vector_base-last pic2 0x28 init_words (λ opened old. refl) m.kernel.pic.sent false 0)
        ∙ ground arith)

-- When entry has started the machine, whatever the controllers, the table and the tables of pages
-- held before: of the 16 interrupt lines exactly 0, 1, 2 and 8 are let through; of the 16 vectors
-- that the controllers have been told to send these lines to, exactly those of 0, 1 and 8 have a
-- gate, which leaves out only line 2, the wire between the controllers; terminal 0 is the one
-- displayed and scheduled; and the counters of the clock are 0 for the three terminals.
pub entry-delivers :
    (at : Placed) (input : ℕ → ℕ) (m : Machine) (j t : ℕ)
    → j < 16
    → t < 3
    → (masked (entry at input m).kernel.pic j ≡ (
        if j == 0 then 0 else if j == 1 then 0 else if j == 2 then 0 else if j == 8 then 0 else 1))
      × (((entry at input m).idt (vector_of (entry at input m).kernel.pic.sent j)).present
          ≡ (if j == 0 || (j == 1 || j == 8) then 1 else 0))
      × (((entry at input m).kernel.displayed_terminal ≡ 0)
          × ((entry at input m).kernel.scheduled_terminal ≡ 0))
      × ((entry at input m).kernel.rtc.rtc_int t ≡ 0)
unfolding entry init_pit terminal_init start_clock init_rtc init_keyboard enable_cursor update
entry-delivers at input m j t h k = (
  boot_lines m.kernel.pic j h,
  ap (λ v. ((entry at input m).idt v).present) (entry-vector at input m j h)
      ∙ (initialize_idt-present at.wrappers m.idt (0x20 + j) (omega arith)).0
      ∙ (==_iff _ _).0 (passes_lem _ 16 j h gate_table),
  (refl, refl),
  ground arith,
)
