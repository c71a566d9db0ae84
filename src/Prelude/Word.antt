-- ===== src/Prelude/Word.antt =====
-- Machine words. A 32-bit value, signed or unsigned, is its bit pattern, a number below 2 ^ 32;
-- a signed comparison moves both sides by 2 ^ 31, so that -2 ^ 31 is the least.
use Prim.Native.Nat.{ℕ, suc, ◌+◌, ◌-◌, ◌/◌, ◌%◌, ◌^◌, ◌≤◌, ◌<◌}
use mathlib.Core.Path.{◌≡◌}
use mathlib.Core.Bool.{Bool, false, ◌||◌}
use native.Mathlib.Omega.{arith}
use illinix_os.Prelude.Tests.{ltb, if◌then◌else◌}

abbrev pub u32 : ℕ
u32 = 2 ^ 32

abbrev pub sign_bit : ℕ
sign_bit = 2 ^ 31

-- -1, the result of a call that fails.
abbrev pub failure : ℕ
failure = 2 ^ 32 - 1

abbrev pub add32 : ℕ → ℕ → ℕ
add32 a b = (a + b) % u32

abbrev pub sub32 : ℕ → ℕ → ℕ
sub32 a b = (a + u32 - b) % u32

-- `a < b` for two `int32_t`.
abbrev pub slt : ℕ → ℕ → Bool
slt a b = ltb (add32 a sign_bit) (add32 b sign_bit)

-- `a / k` and `a % k` for an `int32_t` and a positive constant: both round toward zero.
unfoldable pub sdiv : ℕ → ℕ → ℕ
sdiv a k = if ltb a sign_bit then a / k else sub32 0 ((u32 - a) / k)

unfoldable pub smod : ℕ → ℕ → ℕ
smod a k = if ltb a sign_bit then a % k else sub32 0 ((u32 - a) % k)

-- On values below 2 ^ 31 the signed order is the order of the numbers.
pub slt-eq-ltb : (a b : ℕ) → a < 2 ^ 31 → b < 2 ^ 31 → slt a b ≡ ltb a b
slt-eq-ltb a b p q = ground arith

-- The test that every call with a descriptor begins with.
abbrev pub bad_fd : ℕ → Bool
bad_fd fd = slt fd 0 || slt 7 fd

pub bad_fd-lt : (fd : ℕ) → fd < 2 ^ 32 → bad_fd fd ≡ false → fd < 8
bad_fd-lt fd w h = ground arith

pub lt-bad_fd : (fd : ℕ) → fd < 8 → bad_fd fd ≡ false
lt-bad_fd fd h = ground arith

pub sdiv-eq-div : (a k : ℕ) → a < 2 ^ 31 → sdiv a k ≡ a / k
unfolding sdiv
sdiv-eq-div a k h = ground arith

pub smod-eq-mod : (a k : ℕ) → a < 2 ^ 31 → smod a k ≡ a % k
unfolding smod
smod-eq-mod a k h = ground arith

pub add32-one : (a : ℕ) → a < 2 ^ 31 → add32 a 1 ≡ suc a
add32-one a h = omega arith

pub sub32-le : (a b : ℕ) → b ≤ a → a < 2 ^ 32 → sub32 a b ≡ a - b
sub32-le a b h w = omega arith

-- How often `for (i = 0; i < n; i++)` runs, the test on two `int`.
unfoldable pub rounds_to : ℕ → ℕ
rounds_to n = if slt 0 n then n else 0

pub rounds_to-eq : (n : ℕ) → n < 2 ^ 31 → rounds_to n ≡ n
unfolding rounds_to
rounds_to-eq n h = ground arith
