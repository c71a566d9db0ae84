-- ===== src/Pic.antt =====
-- student-distrib/i8259.c: the two interrupt controllers. Reading a data port gives the mask that
-- was written to it last; `sent` logs the other bytes written, each with its port.
pub mod Masks
pub mod Requests
pub mod Tests
use illinix_os.Prelude.{
  ℕ, ◌+◌, ◌-◌, ◌%◌, ◌^◌, ◌/◌, bit_and, bit_or, List, [], ◌∷◌, ◌++◌, ltb, if◌then◌else◌,
}

pub record Pic : Type 0 where
  pub master_mask : ℕ
  pub slave_mask : ℕ
  pub sent : List (ℕ × ℕ)

abbrev pub pic1 : ℕ
pic1 = 0x20

abbrev pub pic2 : ℕ
pic2 = 0xA0

abbrev pub eoi : ℕ
eoi = 0x60

-- `value & ~(1 << n)` and `value | (1 << n)`, as bytes.
unfoldable pub clear_bit : ℕ → ℕ → ℕ
clear_bit value n = bit_and value (255 - 2 ^ n % 256)

unfoldable pub set_bit : ℕ → ℕ → ℕ
set_bit value n = bit_or value (2 ^ n % 256)

unfoldable pub enable_irq : Pic → ℕ → Pic
enable_irq p irq =
    if ltb irq 8
    then record p { master_mask = clear_bit p.master_mask irq }
    else record p { slave_mask = clear_bit p.slave_mask (irq - 8) }

unfoldable pub disable_irq : Pic → ℕ → Pic
disable_irq p irq =
    if ltb irq 8
    then record p { master_mask = set_bit p.master_mask irq }
    else record p { slave_mask = set_bit p.slave_mask (irq - 8) }

unfoldable pub send_eoi : Pic → ℕ → Pic
send_eoi p irq =
    if ltb irq 8
    then record p { sent = p.sent ++ (pic1, bit_or eoi irq) ∷ [] }
    else record p { sent = p.sent ++ (pic1, bit_or eoi 2) ∷ (pic2, bit_or eoi (irq - 8)) ∷ [] }

-- The initialization words, then both masks full, then the line of the second controller.
unfoldable pub i8259_init : Pic → Pic
unfolding enable_irq clear_bit
i8259_init p =
    enable_irq
      (record {
        master_mask = 0xff;
        slave_mask = 0xff;
        sent =
            p.sent
            ++ (pic1, 0x11)
              ∷ (pic2, 0x11)
              ∷ (pic1 + 1, 0x20)
              ∷ (pic2 + 1, 0x28)
              ∷ (pic1 + 1, 0x04)
              ∷ (pic2 + 1, 0x02)
              ∷ (pic1 + 1, 0x01)
              ∷ (pic2 + 1, 0x01)
              ∷ [];
      })
      2
