-- ===== src/Rtc/Rate.antt =====
-- The frequencies that rtc_set_frequency accepts, and the divider that it programs for each.
use illinix_os.Prelude.{
  ℕ, ◌+◌, ◌-◌, ◌*◌, ◌/◌, ◌^◌, ◌≤◌, ◌<◌, ◌≡◌, ◌⊎◌, ◌≢◌, refl, [], ◌∷◌, arith, leb, ◌==◌, not, true,
  Bool, ◌&&◌, ◌||◌, bit_and, bit_or,
}
use illinix_os.Prelude.Bits.{passes, passes_lem, agree, agree_sound}
use illinix_os.Prelude.Word.{failure, sub32}
use illinix_os.Rtc.{rtc_set_frequency, log_loop}

abbrev is_power : ℕ → Bool
is_power f = bit_and f (sub32 f 1) == 0

-- The logarithm of a power of 2 from 2 to 1024 is exact and is from 1 to 10.
abbrev log_is_exact : ℕ → Bool
log_is_exact f =
    not (leb 2 f && is_power f)
    || (2 ^ log_loop 32 f 0 == f && (leb 1 (log_loop 32 f 0) && leb (log_loop 32 f 0) 10))

log_table : passes log_is_exact 1025 ≡ true
unfolding passes log_loop
log_table = refl

log_facts :
    (f : ℕ)
    → 2 ≤ f
    → f ≤ 1024
    → is_power f ≡ true
    → (2 ^ log_loop 32 f 0 ≡ f) × (1 ≤ log_loop 32 f 0) × (log_loop 32 f 0 ≤ 10)
log_facts f h k e = ground (arith, passes_lem log_is_exact 1025 f (omega arith) log_table)

-- The register keeps its upper half and gets the rate in the lower.
register_table :
    agree 256 16 (λ a rate. bit_or (bit_and a 0xF0) rate) (λ a rate. a / 16 * 16 + rate) ≡ true
unfolding agree
register_table = refl

-- A power of 2 from 2 to 1024 is accepted: the call returns 0, having written to the register that
-- it selects just before a byte whose upper half is that of the register's old value and whose
-- lower half is a rate with 2 ^ (16 - rate) the frequency.
pub rtc_set_frequency-accepts :
    (input : ℕ → ℕ) (f : ℕ)
    → 2 ≤ f
    → f ≤ 1024
    → bit_and f (sub32 f 1) ≡ 0
    → input 2 < 256
    → (rate : ℕ) × (2 ^ (16 - rate) ≡ f)
      × (rate < 16)
      × (rtc_set_frequency input f ≡ (
        0,
        (0x70, bit_or (input 0) 0x80)
            ∷ (0x70, 0x8A)
            ∷ (0x70, 0x8A)
            ∷ (0x71, input 2 / 16 * 16 + rate)
            ∷ (0x70, bit_and (input 3) 0x7F)
            ∷ [],
      ))
unfolding rtc_set_frequency
rtc_set_frequency-accepts input f h k e byte =
    let (exact, least, most) = log_facts f h k (ground arith) in
    let rate : ℕ = 16 - log_loop 32 f 0 in
    let written : bit_or (bit_and (input 2) 0xF0) rate ≡ input 2 / 16 * 16 + rate =
      agree_sound 256 16 _ _ (input 2) rate register_table byte (omega arith) in
    let inverse : 16 - rate ≡ log_loop 32 f 0 = omega arith in
    (rate, rw inverse exact, omega arith, ground arith)

-- Every other word is refused, and nothing is written.
pub rtc_set_frequency-refuses :
    (input : ℕ → ℕ) (f : ℕ)
    → f < 2 ^ 32
    → (f < 2) ⊎ ((1024 < f) ⊎ (bit_and f (sub32 f 1) ≢ 0))
    → rtc_set_frequency input f ≡ (failure, [])
unfolding rtc_set_frequency
rtc_set_frequency-refuses input f w h = ground arith
