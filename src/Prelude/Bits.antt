-- ===== src/Prelude/Bits.antt =====
-- Facts about bytes, by evaluation at every value.
use Prim.Native.Nat.{ℕ, zero, suc, ◌<◌}
use mathlib.Core.Path.{◌≡◌}
use mathlib.Core.Bool.{Bool, true, ◌&&◌}
use native.Mathlib.Omega.{arith}
use illinix_os.Prelude.Tests.{◌==◌, ==_iff}

-- A test that passes at each of `0, ..., bound - 1`.
unfoldable pub passes : (ℕ → Bool) → ℕ → Bool
passes test zero = true
passes test (suc bound) = passes test bound && test bound

pub passes_lem :
    (test : ℕ → Bool) (bound at : ℕ) → at < bound → passes test bound ≡ true → test at ≡ true
unfolding passes
passes_lem test zero at below table = absurd (omega arith)
passes_lem test (suc bound) at below table = ground (arith, passes_lem test bound at)

-- Two functions of a number below `m` and one below `n` that agree everywhere.
unfoldable pub agree : ℕ → ℕ → (ℕ → ℕ → ℕ) → (ℕ → ℕ → ℕ) → Bool
unfolding passes
agree m n f g = passes (λ x. passes (λ y. f x y == g x y) n) m

pub agree_sound :
    (m n : ℕ) (f g : ℕ → ℕ → ℕ) (x y : ℕ) → agree m n f g ≡ true → x < m → y < n → f x y ≡ g x y
unfolding agree
agree_sound m n f g x y h p q =
    let row : passes (λ y. f x y == g x y) n ≡ true =
      passes_lem (λ x. passes (λ y. f x y == g x y) n) m x p h in
    (==_iff _ _).0 (passes_lem (λ y. f x y == g x y) n y q row)
