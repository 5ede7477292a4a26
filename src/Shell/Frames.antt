-- ===== src/Shell/Frames.antt =====
-- The number of used frames that `meminfo` prints.
use raspberry_pi_gaming_cons.Common.{
  ℕ, zero, suc, ◌+◌, ◌-◌, ◌*◌, ◌/◌, ◌%◌, ◌≤◌, ◌<◌, ◌≡◌, refl, List, Bool, true, ◌==◌, if◌then◌else◌,
  get_or, arith, ap, ap₂, ◌∙◌, sym,
}
use raspberry_pi_gaming_cons.Common.Bits.{bit_at}
use raspberry_pi_gaming_cons.Pmm.{Pmm, scan_words}
use raspberry_pi_gaming_cons.Pmm.Bitmap.{frame_used}
use raspberry_pi_gaming_cons.Pmm.Valid.{used, IsValid}
use raspberry_pi_gaming_cons.Shell.{popcount, set_bits, used_frames}

-- How many numbers below `n` satisfy a test.
abbrev pub count_below : ℕ → (ℕ → Bool) → ℕ
count_below zero p = 0
count_below (suc n) p = (if p n then 1 else 0) + count_below n p

count_below-add :
    (m n : ℕ) (p : ℕ → Bool)
    → count_below (n + m) p ≡ count_below m p + count_below n (λ j. p (m + j))
count_below-add m zero p =
    let same : 0 + m ≡ m = omega arith in ap (λ k. count_below k p) same ∙ omega arith
count_below-add m (suc n) p =
    let next : suc n + m ≡ suc (n + m) = omega arith in
    let at : m + n ≡ n + m = omega arith in rw (next, at) (omega (arith, count_below-add m n p))

count_below-ext :
    (n : ℕ) (p q : ℕ → Bool) → ((j : ℕ) → j < n → p j ≡ q j) → count_below n p ≡ count_below n q
count_below-ext zero p q same = refl
count_below-ext (suc n) p q same =
    rw (same n (omega arith), count_below-ext n p q (λ j h. same j (omega arith))) refl

count_below-all : (n : ℕ) (p : ℕ → Bool) → ((j : ℕ) → j < n → p j ≡ true) → count_below n p ≡ n
count_below-all zero p all = refl
count_below-all (suc n) p all =
    rw (all n (omega arith)) (omega (arith, count_below-all n p (λ j h. all j (omega arith))))

count_below-first :
    (n : ℕ) (p : ℕ → Bool)
    → count_below (suc n) p ≡ (if p 0 then 1 else 0) + count_below n (λ j. p (suc j))
count_below-first zero p = refl
count_below-first (suc n) p = omega (arith, count_below-first n p)

count_below-le : (n : ℕ) (p : ℕ → Bool) → count_below n p ≤ n
count_below-le zero p = omega arith
count_below-le (suc n) p = ground (arith, count_below-le n p)

popcount_lem : (n w : ℕ) → popcount n w ≡ count_below n (bit_at w)
unfolding popcount
popcount_lem zero w = refl
popcount_lem (suc n) w =
    let low : w % 2 ≡ (if w % 2 == 1 then 1 else 0) = ground arith in
    ap₂ (λ a b. a + b) low (popcount_lem n (w / 2)) ∙ sym (count_below-first n (bit_at w))

set_bits_lem :
    (n i : ℕ) (words : List ℕ)
    → set_bits n i words ≡ count_below (n * 64) (λ j. frame_used words (i * 64 + j))
unfolding set_bits
set_bits_lem zero i words = refl
set_bits_lem (suc n) i words =
    ap₂ (λ a b. a + b)
      (popcount_lem 64 (get_or words i 0)
        ∙ count_below-ext 64 (bit_at (get_or words i 0)) (λ j. frame_used words (i * 64 + j))
            (λ j h.
              let word : i ≡ (i * 64 + j) / 64 = omega arith in
              let bit : j ≡ (i * 64 + j) % 64 = omega arith in
              ap₂ (λ a b. bit_at (get_or words a 0) b) word bit))
      (set_bits_lem n (i + 1) words
        ∙ count_below-ext (n * 64) (λ j. frame_used words ((i + 1) * 64 + j))
            (λ j. frame_used words (i * 64 + (64 + j)))
            (λ j h.
              let at : (i + 1) * 64 + j ≡ i * 64 + (64 + j) = omega arith in
              ap (frame_used words) at))
    ∙ sym (count_below-add 64 (n * 64) (λ j. frame_used words (i * 64 + j)))
    ∙ ap (λ k. count_below k (λ j. frame_used words (i * 64 + j))) (omega arith)

-- In a valid state, the population counts of the bitmap's words, less the bits of the last word that
-- stand for no frame, add up to the number of frames in use.
pub used_frames-count : (p : Pmm) → IsValid p → used_frames p ≡ count_below p.total_frames (used p)
unfolding used_frames
used_frames-count p v =
    let padding = scan_words p * 64 - p.total_frames in
    let split : scan_words p * 64 ≡ padding + p.total_frames = omega (arith, v.in_memory) in
    let start : count_below (scan_words p * 64) (λ j. frame_used p.bitmap (0 * 64 + j))
        ≡ count_below (scan_words p * 64) (used p) =
      count_below-ext (scan_words p * 64) (λ j. frame_used p.bitmap (0 * 64 + j)) (used p)
        (λ j h. let at : 0 * 64 + j ≡ j = omega arith in ap (used p) at) in
    let all : count_below padding (λ j. used p (p.total_frames + j)) ≡ padding =
      count_below-all padding (λ j. used p (p.total_frames + j))
        (λ j h. v.padded (p.total_frames + j) (omega arith) (omega arith)) in
    let sum : count_below (scan_words p * 64) (used p)
        ≡ count_below p.total_frames (used p) + padding =
      ap (λ k. count_below k (used p)) split
      ∙ count_below-add p.total_frames padding (used p)
      ∙ ap (λ k. count_below p.total_frames (used p) + k) all in
    omega (
      arith,
      set_bits_lem (scan_words p) 0 p.bitmap,
      start,
      sum,
      v.in_memory,
      count_below-le p.total_frames (used p),
    )
