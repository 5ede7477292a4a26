-- ===== src/Common/Bits.antt =====
-- The binary digits of a number, and what `|`, `&`, `~`, `1 << k` do to them, at every width.
use Prim.Native.Nat.{
  ℕ, zero, suc, ◌+◌, ◌*◌, ◌/◌, ◌%◌, ◌≤◌, min, max, digits, bit_and, bit_or, bit_and-bitwise,
  bit_or-bitwise,
}
use mathlib.Core.Path.{◌≡◌, refl}
use mathlib.Core.Bool.{Bool, ◌&&◌, ◌||◌}
use native.Mathlib.Nat.{le_refl}
use native.Mathlib.Omega.{arith}
use raspberry_pi_gaming_cons.Common.Tests.{◌==◌}

-- The bits of `digits` do not depend on its fuel, once that covers the first number.
module _ (tail : ℕ → ℕ) (op : ℕ → ℕ → ℕ) where
  digits-fuel : (m n a b : ℕ) → a ≤ m → a ≤ n → digits tail op m a b ≡ digits tail op n a b
  digits-fuel zero zero a b h k = refl
  digits-fuel zero (suc n) zero b h k = refl
  digits-fuel (suc m) zero zero b h k = refl
  digits-fuel (suc m) (suc n) zero b h k = refl
  digits-fuel zero n (suc a) b h k = absurd (omega arith)
  digits-fuel (suc m) zero (suc a) b h k = absurd (omega arith)
  digits-fuel (suc m) (suc n) (suc a) b h k =
      rw (digits-fuel m n (suc a / 2) (b / 2) (omega arith) (omega arith))

pub bit_and_step : (v w : ℕ) → bit_and v w ≡ min (v % 2) (w % 2) + 2 * bit_and (v / 2) (w / 2)
bit_and_step (suc v) w =
    let same =
      digits-fuel (λ _. 0) min v (suc v / 2) (suc v / 2) (w / 2) (omega arith) (le_refl _) in
    simp bit_and-bitwise (omega (arith, same))
bit_and_step zero w = simp bit_and-bitwise (omega arith)

pub bit_or_step : (v w : ℕ) → bit_or v w ≡ max (v % 2) (w % 2) + 2 * bit_or (v / 2) (w / 2)
bit_or_step (suc v) w =
    let same =
      digits-fuel (λ r. r) max v (suc v / 2) (suc v / 2) (w / 2) (omega arith) (le_refl _) in
    simp bit_or-bitwise (omega (arith, same))
bit_or_step zero w = simp bit_or-bitwise (omega arith)

pub zero-bit_and : (b : ℕ) → bit_and 0 b ≡ 0
zero-bit_and b = bit_and-bitwise 0 b

-- `(w >> j) & 1`
abbrev pub bit_at : ℕ → ℕ → Bool
bit_at w zero = w % 2 == 1
bit_at w (suc j) = bit_at (w / 2) j

pub bit_at-bit_or : (a b j : ℕ) → bit_at (bit_or a b) j ≡ (bit_at a j || bit_at b j)
bit_at-bit_or a b zero = ground (arith, bit_or_step a b)
bit_at-bit_or a b (suc j) =
    let e : bit_or a b / 2 ≡ bit_or (a / 2) (b / 2) = omega (arith, bit_or_step a b) in
    rw e (bit_at-bit_or (a / 2) (b / 2) j)

pub bit_at-bit_and : (a b j : ℕ) → bit_at (bit_and a b) j ≡ (bit_at a j && bit_at b j)
bit_at-bit_and a b zero = ground (arith, bit_and_step a b)
bit_at-bit_and a b (suc j) =
    let e : bit_and a b / 2 ≡ bit_and (a / 2) (b / 2) = omega (arith, bit_and_step a b) in
    rw e (bit_at-bit_and (a / 2) (b / 2) j)
