-- ===== src/Idt.antt =====
-- initialize_idt and set_exception_params of student-distrib/idt.c. The addresses of the assembly
-- wrappers of student-distrib/asm_macro.S are parameters.
pub mod Gates
pub mod Tests
use illinix_os.Prelude.{
  ℕ, zero, suc, ◌+◌, ◌/◌, ◌%◌, Bool, true, false, ◌||◌, ltb, ◌==◌, if◌then◌else◌, update,
}

-- `idt_desc_t`
pub record Gate : Type 0 where
  pub offset_15_00 : ℕ
  pub seg_selector : ℕ
  pub reserved4 : ℕ
  pub reserved3 : ℕ
  pub reserved2 : ℕ
  pub reserved1 : ℕ
  pub size : ℕ
  pub reserved0 : ℕ
  pub dpl : ℕ
  pub present : ℕ
  pub offset_31_16 : ℕ

-- The wrapper of each exception, by its number, and of each other vector.
pub record Wrappers : Type 0 where
  pub exception : ℕ → ℕ
  pub sys_call : ℕ
  pub keyboard_call : ℕ
  pub rtc_call : ℕ
  pub pit_call : ℕ

abbrev pub zero_gate : Gate
zero_gate = record {
  offset_15_00 = 0;
  seg_selector = 0;
  reserved4 = 0;
  reserved3 = 0;
  reserved2 = 0;
  reserved1 = 0;
  size = 0;
  reserved0 = 0;
  dpl = 0;
  present = 0;
  offset_31_16 = 0;
}

unfoldable pub set_idt_entry : ℕ → Gate → Gate
set_idt_entry handler g = record g {
  offset_31_16 = handler / 65536 % 65536;
  offset_15_00 = handler % 65536;
}

-- The fields that every gate gets: a trap gate has `trap` 1, an interrupt gate 0.
unfoldable pub set_fields : ℕ → ℕ → Gate → Gate
set_fields trap dpl g = record g {
  seg_selector = 0x10;
  reserved4 = 0;
  reserved3 = trap;
  reserved2 = 1;
  reserved1 = 1;
  size = 1;
  reserved0 = 0;
  dpl = dpl;
  present = 1;
}

-- The case 15 has the wrapper of 16, and the default sets no handler.
unfoldable pub set_exception_params : Wrappers → Gate → ℕ → Gate
unfolding set_fields set_idt_entry
set_exception_params w g vec =
    let handler : ℕ = w.exception (if vec == 15 then 16 else vec) in
    set_fields 1 0 (if ltb vec 20 then set_idt_entry handler g else g)

unfoldable pub zero_gates : ℕ → ℕ → (ℕ → Gate) → ℕ → Gate
zero_gates zero i d = d
zero_gates (suc n) i d = zero_gates n (suc i) (update d i zero_gate)

-- One round of the loop over the exceptions.
unfoldable pub exception_gate : Wrappers → ℕ → Gate → Gate
exception_gate w i g =
    if i == 15 || i == 20 then record g { present = 0 } else set_exception_params w g i

unfoldable pub exception_gates : Wrappers → ℕ → ℕ → (ℕ → Gate) → ℕ → Gate
exception_gates w zero i d = d
exception_gates w (suc n) i d = exception_gates w n (suc i) (update d i (exception_gate w i (d i)))

-- The four gates that follow the exceptions.
unfoldable pub device_gates : Wrappers → (ℕ → Gate) → ℕ → Gate
device_gates w d =
    let d1 = update d 0x80 (set_idt_entry w.sys_call (set_fields 1 3 (d 0x80))) in
    let d2 = update d1 0x21 (set_idt_entry w.keyboard_call (set_fields 0 3 (d1 0x21))) in
    let d3 = update d2 0x28 (set_idt_entry w.rtc_call (set_fields 0 0 (d2 0x28))) in
    update d3 0x20 (set_idt_entry w.pit_call (set_fields 0 0 (d3 0x20)))

unfoldable pub initialize_idt : Wrappers → (ℕ → Gate) → ℕ → Gate
initialize_idt w d = device_gates w (exception_gates w 21 0 (zero_gates 256 0 d))
