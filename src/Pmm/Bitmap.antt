-- ===== src/Pmm/Bitmap.antt =====
-- The bitmap as a set of used frames: what reading, setting and clearing one bit do to it.
use raspberry_pi_gaming_cons.Common.{
  ℕ, zero, suc, ◌/◌, ◌%◌, ◌^◌, ◌<◌, ◌≡◌, ◌≢◌, inl, inr, List, [], ◌∷◌, sym, Bool, false, not, ◌&&◌,
  ◌||◌, ◌==◌, Bool-cases, get_or, set, length, arith, get_or-set_self, get_or-set_ne, ==→eq, ==→ne,
}
use raspberry_pi_gaming_cons.Common.Bits.{bit_at, bit_at-bit_or, bit_at-bit_and}
use raspberry_pi_gaming_cons.Common.Words.{
  not64, shl_one, pow-lt, shl_one-eq, bit_at-pow, bit_at-not_bits, bit_or-lt, bit_and-le,
  bit_and-pow,
}
use raspberry_pi_gaming_cons.Pmm.{or_word, test_bit, clear_bit}

-- The abstract view: is frame `idx` used?
abbrev pub frame_used : List ℕ → ℕ → Bool
frame_used words idx = bit_at (get_or words (idx / 64) 0) (idx % 64)

-- Every word fits 64 bits.
abbrev pub Fit : List ℕ → Type 0
Fit words = (i : ℕ) → get_or words i 0 < 2 ^ 64

pub test_bit-eq-frame_used :
    (words : List ℕ) (idx : ℕ) → Fit words → test_bit words idx ≡ frame_used words idx
test_bit-eq-frame_used words idx fit =
    rw (shl_one-eq (idx % 64) (omega arith), bit_and-pow (idx % 64) 64 _ (fit (idx / 64)))
      (ground arith)

pub set-Fit : (words : List ℕ) (i v : ℕ) → Fit words → v < 2 ^ 64 → Fit (set words i v)
set-Fit [] i v fit h j = fit j
set-Fit (w ∷ words) zero v fit h zero = h
set-Fit (w ∷ words) zero v fit h (suc j) = fit (suc j)
set-Fit (w ∷ words) (suc i) v fit h zero = fit zero
set-Fit (w ∷ words) (suc i) v fit h (suc j) = set-Fit words i v (λ k. fit (suc k)) h j

pub or_word-Fit :
    (words : List ℕ) (i mask : ℕ) → Fit words → mask < 2 ^ 64 → Fit (or_word words i mask)
or_word-Fit words i mask fit h = set-Fit words i _ fit (bit_or-lt 64 _ _ (fit i) h)

pub bit_at-or_word_self :
    (words : List ℕ) (i mask j : ℕ)
    → i < length words
    → bit_at (get_or (or_word words i mask) i 0) j ≡ (bit_at (get_or words i 0) j || bit_at mask j)
bit_at-or_word_self words i mask j h = rw (get_or-set_self words i _ 0 h) (bit_at-bit_or _ mask j)

-- Two frames of one word are told apart by their bits.
same-word : (i j : ℕ) → i / 64 ≡ j / 64 → (i % 64 == j % 64) ≡ (i == j)
same-word i j e = ground arith

other-word : (i j : ℕ) → i / 64 ≢ j / 64 → (i == j) ≡ false
other-word i j ne = ground arith

-- Setting the bit of frame `idx` adds that frame and no other.
pub frame_used-or_word :
    (words : List ℕ) (idx j : ℕ)
    → idx / 64 < length words
    → frame_used (or_word words (idx / 64) (shl_one (idx % 64))) j
      ≡ (frame_used words j || idx == j)
frame_used-or_word words idx j h = elim (Bool-cases (idx / 64 == j / 64)) [
  | inl e ↦
      let e' : j / 64 ≡ idx / 64 = sym (==→eq _ _ e) in
      rw (
        e',
        bit_at-or_word_self words (idx / 64) _ (j % 64) h,
        shl_one-eq (idx % 64) (omega arith),
        bit_at-pow,
        same-word idx j (sym e'),
      )
  | inr e ↦
      let ne : idx / 64 ≢ j / 64 = ==→ne _ _ e in
      rw (get_or-set_ne words (idx / 64) (j / 64) _ 0 ne, other-word idx j ne) (ground arith)
]

-- Clearing the bit of frame `idx` removes that frame and no other.
pub frame_used-clear_bit :
    (words : List ℕ) (idx j : ℕ)
    → idx / 64 < length words
    → frame_used (clear_bit words idx) j ≡ (frame_used words j && not (idx == j))
frame_used-clear_bit words idx j h = elim (Bool-cases (idx / 64 == j / 64)) [
  | inl e ↦
      let e' : j / 64 ≡ idx / 64 = sym (==→eq _ _ e) in
      rw (
        e',
        get_or-set_self words (idx / 64) _ 0 h,
        bit_at-bit_and,
        shl_one-eq (idx % 64) (omega arith),
        bit_at-not_bits 64 (2 ^ (idx % 64)) (j % 64) (pow-lt _ (omega arith)) (omega arith),
        bit_at-pow,
        same-word idx j (sym e'),
      )
  | inr e ↦
      let ne : idx / 64 ≢ j / 64 = ==→ne _ _ e in
      rw (get_or-set_ne words (idx / 64) (j / 64) _ 0 ne, other-word idx j ne) (ground arith)
]

pub clear_bit-Fit : (words : List ℕ) (idx : ℕ) → Fit words → Fit (clear_bit words idx)
clear_bit-Fit words idx fit =
    set-Fit words (idx / 64) _ fit
      (omega (arith, bit_and-le 64 _ (not64 (shl_one (idx % 64))) (fit (idx / 64)), fit (idx / 64)))
