-- ===== src/Rtc.antt =====
-- student-distrib/rtc.c: the real-time clock, shared by the three terminals.
pub mod Wait
pub mod Rate
pub mod Interrupt
pub mod Tests
use illinix_os.Prelude.{
  ℕ, zero, suc, ◌+◌, ◌-◌, ◌*◌, ◌/◌, ◌%◌, ◌^◌, bit_and, bit_or, Bool, true, false, ◌||◌, not, Option,
  none, some, List, [], ◌∷◌, ◌++◌, ltb, ◌==◌, if◌then◌else◌, update,
}
use illinix_os.Prelude.Word.{u32, sign_bit, failure, add32, sub32, slt}

-- One element for each terminal.
pub record Rtc : Type 0 where
  pub rtc_int : ℕ → ℕ
  pub counter_max : ℕ → ℕ
  pub flag : ℕ → ℕ

-- What rtc_handler does for one terminal, once the three counters have gone up.
unfoldable pub raise_flag : Rtc → ℕ → Rtc
raise_flag r i =
    if not (slt (r.rtc_int i) (r.counter_max i)) then record r { flag = update r.flag i 1 } else r

unfoldable pub count_up : Rtc → ℕ → Rtc
count_up r i = record r { rtc_int = update r.rtc_int i (add32 (r.rtc_int i) 1) }

unfoldable pub rtc_handler : Rtc → Rtc
unfolding raise_flag count_up update
rtc_handler r = raise_flag (raise_flag (raise_flag (count_up (count_up (count_up r 0) 1) 2) 0) 1) 2

-- The waiting loop of rtc_read while `n` clock interrupts arrive; `none` if it still waits.
unfoldable pub rtc_wait : ℕ → ℕ → Rtc → Option Rtc
rtc_wait zero t r = if r.flag t == 0 then none else some r
rtc_wait (suc n) t r =
    let rest = rtc_wait n t (rtc_handler r) in if r.flag t == 0 then rest else some r

unfoldable pub finish_read : ℕ → Rtc → Rtc
finish_read t r = record r { flag = update r.flag t 0; rtc_int = update r.rtc_int t 0 }

-- The call returns 0 once it stops waiting.
unfoldable pub rtc_read : ℕ → ℕ → Rtc → Option (ℕ × Rtc)
rtc_read n t r = elim (rtc_wait n t (record r { rtc_int = update r.rtc_int t 0 })) [
  | none ↦ none
  | some r' ↦ some (0, finish_read t r')
]

-- `512 / new_freq` for an `int32_t` that is not 0.
unfoldable pub period : ℕ → ℕ
period freq = if ltb freq sign_bit then 512 / freq else sub32 0 (512 / (u32 - freq))

-- `none` is the divide error that a frequency of 0 raises.
unfoldable pub rtc_write : ℕ → ℕ → ℕ → Rtc → Option (ℕ × Rtc)
rtc_write t freq nbytes r =
    if not (nbytes == 4)
    then some (failure, r)
    else if freq == 0
    then none
    else some (
      0,
      record r {
        counter_max = update r.counter_max t (period freq);
        rtc_int = update r.rtc_int t 0;
      },
    )

-- `while (frequency >>= 1) log++`; 32 rounds empty any word.
unfoldable pub log_loop : ℕ → ℕ → ℕ → ℕ
log_loop zero f log = log
log_loop (suc n) f log = let rest = log_loop n (f / 2) (log + 1) in if f / 2 == 0 then log else rest

-- The result, and the bytes written, each with its port. `input k` is what the k-th read of a port
-- returns.
unfoldable pub rtc_set_frequency : (ℕ → ℕ) → ℕ → ℕ × List (ℕ × ℕ)
rtc_set_frequency input frequency =
    let rate = 16 - log_loop 32 frequency 0 in
    if slt frequency 2 || slt 1024 frequency
    then (failure, [])
    else if not (bit_and frequency (sub32 frequency 1) == 0)
    then (failure, [])
    else (
      0,
      (0x70, bit_or (input 0) 0x80)
          ∷ (0x70, 0x8A)
          ∷ (0x70, 0x8A)
          ∷ (0x71, bit_or (bit_and (input 2) 0xF0) rate)
          ∷ (0x70, bit_and (input 3) 0x7F)
          ∷ [],
    )

unfoldable pub rtc_open : (ℕ → ℕ) → ℕ × List (ℕ × ℕ)
unfolding rtc_set_frequency
rtc_open input = (0, (rtc_set_frequency input 512).1)

unfoldable pub rtc_close : ℕ → ℕ
rtc_close fd = 0
