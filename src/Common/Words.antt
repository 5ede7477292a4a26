-- ===== src/Common/Words.antt =====
-- The operators of C on `uint64_t`, and on fields of a word, as arithmetic on numbers.
use Prim.Native.Nat.{ℕ, zero, suc, ◌+◌, ◌-◌, ◌*◌, ◌/◌, ◌%◌, ◌^◌, ◌≤◌, ◌<◌, bit_and, bit_or}
use mathlib.Core.Path.{◌≡◌, refl}
use mathlib.Core.Bool.{false, not}
use native.Mathlib.Nat.{pow-suc, one-le-pow, pow-le-pow_right}
use native.Mathlib.Omega.{arith}
use raspberry_pi_gaming_cons.Common.Tests.{◌==◌, ltb}
use raspberry_pi_gaming_cons.Common.Bits.{zero-bit_and, bit_and_step, bit_or_step, bit_at}

abbrev pub u64 : ℕ → ℕ
u64 n = n % 2 ^ 64

abbrev pub u32 : ℕ → ℕ
u32 n = n % 2 ^ 32

-- `a - b` wraps.
abbrev pub sub64 : ℕ → ℕ → ℕ
sub64 a b = (a + 2 ^ 64 - b) % 2 ^ 64

-- `~a`
abbrev pub not64 : ℕ → ℕ
not64 a = 2 ^ 64 - 1 - a

-- `1ULL << k`, for k < 64
abbrev pub shl_one : ℕ → ℕ
shl_one k = 2 ^ k % 2 ^ 64

-- `~a` over n bits
abbrev pub not_bits : ℕ → ℕ → ℕ
not_bits n a = 2 ^ n - 1 - a

pub pow-lt : (k : ℕ) → k < 64 → 2 ^ k < 2 ^ 64
pow-lt k h = omega (arith, pow-le-pow_right {n = 2} (omega arith) {i = k} {j = 63} (omega arith))

pub shl_one-eq : (k : ℕ) → k < 64 → shl_one k ≡ 2 ^ k
shl_one-eq k h = omega (arith, pow-lt k h)

pub pow-pos : (k : ℕ) → 0 < 2 ^ k
pow-pos k = one-le-pow k 2 (omega arith)

pub bit_at-zero : (j : ℕ) → bit_at 0 j ≡ false
bit_at-zero zero = refl
bit_at-zero (suc j) = bit_at-zero j

pub bit_at-pow : (k j : ℕ) → bit_at (2 ^ k) j ≡ (k == j)
bit_at-pow zero zero = refl
bit_at-pow zero (suc j) = ground (arith, bit_at-zero j)
bit_at-pow (suc k) zero = ground (arith, pow-suc 2 k)
bit_at-pow (suc k) (suc j) =
    let e : 2 ^ suc k / 2 ≡ 2 ^ k = omega (arith, pow-suc 2 k) in
    rw e (ground (arith, bit_at-pow k j))

pub bit_at-not_bits : (n w j : ℕ) → w < 2 ^ n → j < n → bit_at (not_bits n w) j ≡ not (bit_at w j)
bit_at-not_bits zero w j h k = absurd (omega arith)
bit_at-not_bits (suc n) w zero h k = ground (arith, pow-suc 2 n)
bit_at-not_bits (suc n) w (suc j) h k =
    let e : not_bits (suc n) w / 2 ≡ not_bits n (w / 2) = omega (arith, pow-suc 2 n) in
    rw e (bit_at-not_bits n (w / 2) j (omega (arith, pow-suc 2 n)) (omega arith))

-- `(1 << k) - 1` has the bits below k.
pub bit_at-low_mask : (k j : ℕ) → bit_at (2 ^ k - 1) j ≡ ltb j k
bit_at-low_mask zero j = rw bit_at-zero (ground arith)
bit_at-low_mask (suc k) zero = ground (arith, pow-suc 2 k, pow-pos k)
bit_at-low_mask (suc k) (suc j) =
    let e : (2 ^ suc k - 1) / 2 ≡ 2 ^ k - 1 = omega (arith, pow-suc 2 k, pow-pos k) in
    rw e (ground (arith, bit_at-low_mask k j))

pub bit_or-lt : (n a b : ℕ) → a < 2 ^ n → b < 2 ^ n → bit_or a b < 2 ^ n
bit_or-lt zero a b h k =
    let ea : a ≡ 0 = omega arith in let eb : b ≡ 0 = omega arith in rw (ea, eb) (omega arith)
bit_or-lt (suc n) a b h k = omega (
  arith,
  pow-suc 2 n,
  bit_or_step a b,
  bit_or-lt n (a / 2) (b / 2) (omega (arith, pow-suc 2 n)) (omega (arith, pow-suc 2 n)),
)

pub bit_and-le : (n a b : ℕ) → a < 2 ^ n → bit_and a b ≤ a
bit_and-le zero a b h = let ea : a ≡ 0 = omega arith in rw (ea, zero-bit_and) (omega arith)
bit_and-le (suc n) a b h =
    omega (arith, bit_and_step a b, bit_and-le n (a / 2) (b / 2) (omega (arith, pow-suc 2 n)))

-- The C test `(w & (1ULL << k)) != 0` reads one bit.
pub bit_and-zero : (n w : ℕ) → w < 2 ^ n → bit_and w 0 ≡ 0
bit_and-zero zero w h = let e : w ≡ 0 = omega arith in rw e refl
bit_and-zero (suc n) w h =
    omega (arith, bit_and_step w 0, bit_and-zero n (w / 2) (omega (arith, pow-suc 2 n)))

pub bit_and-pow : (k n w : ℕ) → w < 2 ^ n → (bit_and w (2 ^ k) == 0) ≡ not (bit_at w k)
bit_and-pow k zero w h =
    let e : w ≡ 0 = omega arith in rw (e, bit_at-zero k) (ground (arith, zero-bit_and (2 ^ k)))
bit_and-pow zero (suc n) w h =
    ground (arith, bit_and_step w 1, bit_and-zero n (w / 2) (omega (arith, pow-suc 2 n)))
bit_and-pow (suc k) (suc n) w h =
    let e : 2 ^ suc k / 2 ≡ 2 ^ k = omega (arith, pow-suc 2 k) in
    let s : bit_and w (2 ^ suc k) ≡ bit_and (w / 2) (2 ^ k) * 2 =
      rw (← e) (omega (arith, bit_and_step w (2 ^ suc k), pow-suc 2 k)) in
    rw s (ground (arith, bit_and-pow k n (w / 2) (omega (arith, pow-suc 2 n))))
