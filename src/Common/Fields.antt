-- ===== src/Common/Fields.antt =====
-- Fields of a word: low masks, aligned addresses, `|` of disjoint fields, and the lowest set bit.
use Prim.Native.Nat.{
  ℕ, zero, suc, ◌+◌, ◌-◌, ◌*◌, ◌/◌, ◌%◌, ◌^◌, ◌≤◌, ◌<◌, bit_and, bit_or, bit_or-bitwise,
}
use mathlib.Core.Path.{◌≡◌, refl, ap, ◌∙◌}
use mathlib.Core.Logic.{inl, inr}
use mathlib.Core.Bool.{true, false}
use native.Mathlib.Nat.{
  pow-suc, mod-eq_of_lt, mod-lt, div-add-mod, add-mul-mod_self_left, div-div-eq-div-mul, mul_comm,
}
use native.Mathlib.Omega.{arith}
use raspberry_pi_gaming_cons.Common.Tests.{◌==◌, if◌then◌else◌, Bool-cases}
use raspberry_pi_gaming_cons.Common.Bits.{zero-bit_and, bit_and_step, bit_or_step, bit_at}
use raspberry_pi_gaming_cons.Common.Words.{bit_and-zero, pow-pos}

pub bit_or-zero : (n a : ℕ) → a < 2 ^ n → bit_or a 0 ≡ a
bit_or-zero zero a h = let e : a ≡ 0 = omega arith in rw e (bit_or-bitwise 0 0)
bit_or-zero (suc n) a h =
    omega (arith, bit_or_step a 0, bit_or-zero n (a / 2) (omega (arith, pow-suc 2 n)))

pub bit_or_comm : (n a b : ℕ) → a < 2 ^ n → b < 2 ^ n → bit_or a b ≡ bit_or b a
bit_or_comm zero a b h k =
    let ea : a ≡ 0 = omega arith in let eb : b ≡ 0 = omega arith in rw (ea, eb)
bit_or_comm (suc n) a b h k = omega (
  arith,
  bit_or_step a b,
  bit_or_step b a,
  bit_or_comm n (a / 2) (b / 2) (omega (arith, pow-suc 2 n)) (omega (arith, pow-suc 2 n)),
)

double-pow : (q k : ℕ) → q * 2 ^ suc k ≡ 2 * (q * 2 ^ k)
double-pow q k = rw (pow-suc 2 k) (omega arith)

-- `(q << k) | r`, for a field r of k bits
pub bit_or_fields : (n k q r : ℕ) → q < 2 ^ n → r < 2 ^ k → bit_or (q * 2 ^ k) r ≡ q * 2 ^ k + r
bit_or_fields n zero q r h fits =
    let e : r ≡ 0 = omega arith in
    let o : q * 2 ^ 0 ≡ q = omega arith in rw (e, o, bit_or-zero n q h) (omega arith)
bit_or_fields n (suc k) q r h fits = omega (
  arith,
  bit_or_step (q * 2 ^ suc k) r,
  half,
  double-pow q k,
  bit_or_fields n k q (r / 2) h (omega (arith, pow-suc 2 k)),
)
  where
    half : bit_or (q * 2 ^ suc k / 2) (r / 2) ≡ bit_or (q * 2 ^ k) (r / 2)
    half =
        let e : q * 2 ^ suc k / 2 ≡ q * 2 ^ k = omega (arith, double-pow q k) in
        ap (λ x. bit_or x (r / 2)) e

mod-double : (m w : ℕ) → 0 < m → w % (m * 2) ≡ w / 2 % m * 2 + w % 2
mod-double m w p =
    let e : w ≡ w / 2 % m * 2 + w % 2 + m * 2 * (w / 2 / m) =
      omega (arith, div-add-mod (w / 2) m) in
    let small : w / 2 % m * 2 + w % 2 < m * 2 = omega (arith, mod-lt (w / 2) p) in
    ap (λ x. x % (m * 2)) e
    ∙ (add-mul-mod_self_left (w / 2 % m * 2 + w % 2) (m * 2) (w / 2 / m) ∙ mod-eq_of_lt small)

-- `w & ((1 << k) - 1)`
pub bit_and_mask : (k n w : ℕ) → w < 2 ^ n → bit_and w (2 ^ k - 1) ≡ w % 2 ^ k
bit_and_mask k zero w h =
    let e : w ≡ 0 = omega arith in rw (e, zero-bit_and) (omega (arith, pow-pos k))
bit_and_mask zero (suc n) w h = omega (arith, bit_and-zero (suc n) w h)
bit_and_mask (suc k) (suc n) w h = omega (
  arith,
  bit_and_step w (2 ^ suc k - 1),
  half,
  bit_and_mask k n (w / 2) (omega (arith, pow-suc 2 n)),
  pow-suc 2 k,
  pow-pos k,
  rem,
)
  where
    half : bit_and (w / 2) ((2 ^ suc k - 1) / 2) ≡ bit_and (w / 2) (2 ^ k - 1)
    half =
        let e : (2 ^ suc k - 1) / 2 ≡ 2 ^ k - 1 = omega (arith, pow-suc 2 k, pow-pos k) in
        ap (bit_and (w / 2)) e

    rem : w % 2 ^ suc k ≡ w / 2 % 2 ^ k * 2 + w % 2
    rem = rw (pow-suc 2 k) (mod-double (2 ^ k) w (pow-pos k))

div-double : (m w : ℕ) → w / 2 / m ≡ w / (m * 2)
div-double m w = rw (div-div-eq-div-mul w 2 m, mul_comm 2 m) refl

-- `w & ~((1 << k) - 1)`, over n bits
pub bit_and_align : (k n w : ℕ) → w < 2 ^ n → k ≤ n → bit_and w (2 ^ n - 2 ^ k) ≡ w / 2 ^ k * 2 ^ k
bit_and_align zero n w h le = omega (arith, bit_and_mask n n w h, mod-eq_of_lt h)
bit_and_align (suc k) zero w h le = absurd (omega arith)
bit_and_align (suc k) (suc n) w h le = omega (
  arith,
  bit_and_step w (2 ^ suc n - 2 ^ suc k),
  half,
  bit_and_align k n (w / 2) (omega (arith, pow-suc 2 n)) (omega arith),
  pow-suc 2 k,
  pow-suc 2 n,
  quot,
  double-pow (w / 2 ^ suc k) k,
)
  where
    half : bit_and (w / 2) ((2 ^ suc n - 2 ^ suc k) / 2) ≡ bit_and (w / 2) (2 ^ n - 2 ^ k)
    half =
        let e : (2 ^ suc n - 2 ^ suc k) / 2 ≡ 2 ^ n - 2 ^ k =
          omega (arith, pow-suc 2 k, pow-suc 2 n) in
        ap (bit_and (w / 2)) e

    quot : w / 2 / 2 ^ k * 2 ^ k ≡ w / 2 ^ suc k * 2 ^ k
    quot = rw (pow-suc 2 k, div-double) refl

-- `__builtin_ctzll`: the index of the lowest set bit of a word of n bits.
unfoldable pub ctz : ℕ → ℕ → ℕ
ctz zero w = 0
ctz (suc n) w = if w % 2 == 1 then 0 else suc (ctz n (w / 2))

pub ctz-lt : (n w : ℕ) → 0 < w → w < 2 ^ n → ctz n w < n
unfolding ctz
ctz-lt zero w p h = absurd (omega arith)
ctz-lt (suc n) w p h = ground (arith, pow-suc 2 n, ctz-lt n (w / 2))

pub bit_at-ctz : (n w : ℕ) → 0 < w → w < 2 ^ n → bit_at w (ctz n w) ≡ true
unfolding ctz
bit_at-ctz zero w p h = absurd (omega arith)
bit_at-ctz (suc n) w p h = elim (Bool-cases (w % 2 == 1)) [
  | inl odd ↦ rw odd odd
  | inr even ↦ rw even (bit_at-ctz n (w / 2) (ground arith) (omega (arith, pow-suc 2 n)))
]

pub bit_at-lt-ctz : (n w j : ℕ) → j < ctz n w → bit_at w j ≡ false
unfolding ctz
bit_at-lt-ctz zero w j h = absurd (omega arith)
bit_at-lt-ctz (suc n) w zero h = ground arith
bit_at-lt-ctz (suc n) w (suc j) h = ground (arith, bit_at-lt-ctz n (w / 2) j)
