-- ===== src/Rtc/Tests.antt =====
-- The clock on concrete frequencies.
use illinix_os.Prelude.{ℕ, ◌/◌, ◌<◌, ◌≤◌, ◌≡◌, refl, none, some, arith}
use illinix_os.Rtc.{Rtc, rtc_read, rtc_write}
use illinix_os.Rtc.Wait.{write_then_read}

abbrev fresh : Rtc
fresh = record { rtc_int = λ t. 0; counter_max = λ t. 256; flag = λ t. 0 }

write_then_read_example :
    (r' : Rtc) × (rtc_write 1 100 4 fresh ≡ some (0, r'))
    × (3 < 512 / 100 → rtc_read 3 1 r' ≡ none)
    × (512 / 100 ≤ 3
        → (s : Rtc) × (rtc_read 3 1 r' ≡ some (0, s))
          × (s.flag 1 ≡ 0)
          × (s.counter_max 1 ≡ 512 / 100))
write_then_read_example =
    write_then_read fresh 1 100 3 (omega arith) refl (omega arith) (omega arith)

abbrev port : ℕ → ℕ
port k = 0x26
