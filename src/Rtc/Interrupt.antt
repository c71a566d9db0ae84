-- ===== src/Rtc/Interrupt.antt =====
-- student-distrib/rtc.c: the clock's start and its interrupt, with the interrupt controllers. `sent`
-- is a list of bytes written, each with its port, and `input k` what the k-th read of a port returns.
use illinix_os.Prelude.{
  ℕ, ◌<◌, ◌≡◌, refl, List, [], ◌∷◌, ◌==◌, if◌then◌else◌, update, arith, bit_or,
}
use illinix_os.Rtc.{Rtc, rtc_handler}
use illinix_os.Pic.{Pic, enable_irq, send_eoi}
use illinix_os.Pic.Masks.{masked, IsPic, enable_irq-masked}

-- `char prev` and `| 0x80`, `| 0x40` are taken to the byte that `outb` writes.
unfoldable pub init_rtc : (ℕ → ℕ) → Rtc → Pic → Rtc × Pic × List (ℕ × ℕ)
unfolding update
init_rtc input r p = (
  record r { rtc_int = update (update (update r.rtc_int 0 0) 1 0) 2 0 },
  enable_irq p 8,
  (0x70, bit_or (input 0) 0x80) ∷ (0x70, 0x8B) ∷ (0x70, 0x8B) ∷ (0x71, bit_or (input 2) 0x40) ∷ [],
)

-- The whole of the handler: the counters and flags, then the end of the interrupt on both controllers.
unfoldable pub rtc_interrupt : Rtc → Pic → Rtc × Pic × List (ℕ × ℕ)
rtc_interrupt r p = (rtc_handler r, send_eoi p 8, (0x70, 0x0C) ∷ [])

-- init_rtc lets the clock's line through, leaves the other 15 lines as they were, and starts the
-- three counters at 0 without touching the counts that they are compared with.
pub init_rtc-starts :
    (input : ℕ → ℕ) (r : Rtc) (p : Pic) (j : ℕ)
    → IsPic p
    → j < 16
    → (masked (init_rtc input r p).1 j ≡ (if j == 8 then 0 else masked p j))
      × ((t : ℕ)
          → t < 3
          → ((init_rtc input r p).0.rtc_int t ≡ 0)
            × ((init_rtc input r p).0.counter_max t ≡ r.counter_max t))
unfolding init_rtc
init_rtc-starts input r p j v h =
    (enable_irq-masked p 8 j v (omega arith) h, λ t k. (ground arith, refl))
