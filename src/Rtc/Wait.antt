-- ===== src/Rtc/Wait.antt =====
-- How long a read of the clock waits after its period has been set.
use illinix_os.Prelude.{
  ℕ, zero, suc, ◌+◌, ◌/◌, ◌^◌, ◌≤◌, ◌<◌, ◌≡◌, ◌∙◌, none, some, arith, dec_lt, if◌then◌else◌, update,
  update_self,
}
use illinix_os.Prelude.Word.{slt, add32}
use illinix_os.Rtc.{Rtc, rtc_handler, rtc_wait, finish_read, rtc_read, period, rtc_write}

-- One interrupt, as one terminal sees it.
rtc_handler-at :
    (r : Rtc) (t : ℕ)
    → t < 3
    → ((rtc_handler r).rtc_int t ≡ add32 (r.rtc_int t) 1)
      × ((rtc_handler r).counter_max t ≡ r.counter_max t)
      × ((rtc_handler r).flag t
          ≡ (if slt (add32 (r.rtc_int t) 1) (r.counter_max t) then r.flag t else 1))
unfolding rtc_handler
rtc_handler-at r zero h = ground arith
rtc_handler-at r (suc zero) h = ground arith
rtc_handler-at r (suc (suc zero)) h = ground arith
rtc_handler-at r (suc (suc (suc t))) h = absurd (omega arith)

module _ (t : ℕ) (at_terminal : t < 3) where
  -- The flag stays down as long as the counter is below its limit.
  rtc_wait-none :
      (n : ℕ) (r : Rtc)
      → r.flag t ≡ 0
      → r.rtc_int t + n < r.counter_max t
      → r.counter_max t < 2 ^ 31
      → rtc_wait n t r ≡ none
  unfolding rtc_wait
  rtc_wait-none zero r down room w = ground arith
  rtc_wait-none (suc n) r down room w =
      ground (arith, rtc_handler-at r t at_terminal, rtc_wait-none n (rtc_handler r))

  rtc_wait-up : (n : ℕ) (r : Rtc) → r.flag t ≡ 1 → rtc_wait n t r ≡ some r
  unfolding rtc_wait
  rtc_wait-up zero r up = ground arith
  rtc_wait-up (suc n) r up = ground arith

  -- The interrupt that reaches the limit ends the wait.
  rtc_wait-some :
      (n : ℕ) (r : Rtc)
      → r.flag t ≡ 0
      → r.rtc_int t < r.counter_max t
      → r.counter_max t ≤ r.rtc_int t + n
      → r.counter_max t < 2 ^ 31
      → (s : Rtc) × (rtc_wait n t r ≡ some s) × (s.counter_max t ≡ r.counter_max t)
  unfolding rtc_wait
  rtc_wait-some zero r down room enough w = absurd (omega arith)
  rtc_wait-some (suc n) r down room enough w = elim (dec_lt (r.rtc_int t + 1) (r.counter_max t)) [
    | yes more ↦
        let (s, e, m) =
          rtc_wait-some n (rtc_handler r) (ground (arith, rtc_handler-at r t at_terminal))
            (ground (arith, rtc_handler-at r t at_terminal))
            (ground (arith, rtc_handler-at r t at_terminal))
            (ground (arith, rtc_handler-at r t at_terminal)) in
        (s, ground arith, ground (arith, rtc_handler-at r t at_terminal))
    | no last ↦
        let up : (rtc_handler r).flag t ≡ 1 = ground (arith, rtc_handler-at r t at_terminal) in
        (
          rtc_handler r,
          ground (arith, rtc_wait-up n (rtc_handler r) up),
          (rtc_handler-at r t at_terminal).1,
        )
  ]

  rtc_read-none :
      (n : ℕ) (r : Rtc)
      → r.flag t ≡ 0
      → n < r.counter_max t
      → r.counter_max t < 2 ^ 31
      → rtc_read n t r ≡ none
  unfolding rtc_read
  rtc_read-none n r down room w =
      let counter : update r.rtc_int t 0 t ≡ 0 = update_self r.rtc_int t 0 in
      let start : Rtc = record r { rtc_int = update r.rtc_int t 0 } in
      rw (rtc_wait-none n start down (rw counter (omega arith)) w, rtc_read)

  rtc_read-some :
      (n : ℕ) (r : Rtc)
      → r.flag t ≡ 0
      → 0 < r.counter_max t
      → r.counter_max t ≤ n
      → r.counter_max t < 2 ^ 31
      → (s : Rtc) × (rtc_read n t r ≡ some (0, s))
        × (s.flag t ≡ 0)
        × (s.counter_max t ≡ r.counter_max t)
  unfolding rtc_read finish_read
  rtc_read-some n r down pos enough w =
      let counter : update r.rtc_int t 0 t ≡ 0 = update_self r.rtc_int t 0 in
      let (s, e, m) =
        rtc_wait-some n (record r { rtc_int = update r.rtc_int t 0 }) down (rw counter pos)
          (rw counter (omega arith)) w in
      (finish_read t s, rw (e, rtc_read), update_self s.flag t 0, m)

period-eq : (freq : ℕ) → freq ≤ 512 → period freq ≡ 512 / freq
unfolding period
period-eq freq h = ground arith

-- A terminal whose flag is down sets a frequency from 1 to 512 and reads. The read does not return
-- before 512 / frequency clock interrupts have arrived, and returns 0 with that one, with the flag
-- down and the period as it was set.
pub write_then_read :
    (r : Rtc) (t freq n : ℕ)
    → t < 3
    → r.flag t ≡ 0
    → 0 < freq
    → freq ≤ 512
    → (r' : Rtc) × (rtc_write t freq 4 r ≡ some (0, r'))
      × (n < 512 / freq → rtc_read n t r' ≡ none)
      × (512 / freq ≤ n
          → (s : Rtc) × (rtc_read n t r' ≡ some (0, s))
            × (s.flag t ≡ 0)
            × (s.counter_max t ≡ 512 / freq))
unfolding rtc_write
write_then_read r t freq n h down pos small =
    let r' : Rtc = record r {
      counter_max = update r.counter_max t (512 / freq);
      rtc_int = update r.rtc_int t 0;
    } in
    let limit : r'.counter_max t ≡ 512 / freq = update_self r.counter_max t (512 / freq) in
    let once : 0 < 512 / freq = grind arith in
    let below : 512 / freq ≤ 512 = omega arith in
    (
      r',
      rw (period-eq freq small) (ground arith),
      λ early. rtc_read-none t h n r' down (rw limit early) (rw limit (omega arith)),
      λ late.
          let (s, e, f, m) =
            rtc_read-some t h n r' down (rw limit once) (rw limit late) (rw limit (omega arith)) in
          (s, e, f, m ∙ limit),
    )
