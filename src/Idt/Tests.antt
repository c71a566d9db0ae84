-- ===== src/Idt/Tests.antt =====
-- The gates of the keyboard and of the page fault.
use illinix_os.Prelude.{ℕ, ◌+◌, ◌*◌, ◌≡◌, arith}
use illinix_os.Idt.{Gate, Wrappers, zero_gate, initialize_idt}
use illinix_os.Idt.Gates.{initialize_idt-present}

abbrev pub wrappers : Wrappers
wrappers = record {
  exception = λ i. 0x401000 + 16 * i;
  sys_call = 0x402000;
  keyboard_call = 0x402100;
  rtc_call = 0x402200;
  pit_call = 0x402300;
}

abbrev pub empty : ℕ → Gate
empty i = zero_gate

initialize_idt-present_example :
    ((initialize_idt wrappers empty 0x21).present ≡ 1)
    × ((initialize_idt wrappers empty 0x21).dpl ≡ 3)
initialize_idt-present_example = initialize_idt-present wrappers empty 0x21 (omega arith)
