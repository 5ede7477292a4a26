-- ===== src/Pmm/Alloc.antt =====
-- `alloc_frame` hands out the lowest free frame, or 0 when there is none.
use raspberry_pi_gaming_cons.Common.{
  ℕ, zero, suc, ◌+◌, ◌-◌, ◌*◌, ◌/◌, ◌%◌, ◌^◌, ◌<◌, ◌≡◌, refl, ◌≢◌, ◌⊎◌, inl, inr, true, false, ◌||◌,
  ltb, ◌==◌, Bool-cases, get_or, length, arith, length-set, ==→eq, ==→ne, ltb→lt,
}
use raspberry_pi_gaming_cons.Common.Bits.{bit_at}
use raspberry_pi_gaming_cons.Common.Words.{not64, shl_one, bit_at-not_bits, bit_at-low_mask}
use raspberry_pi_gaming_cons.Common.Fields.{ctz, ctz-lt, bit_at-ctz, bit_at-lt-ctz}
use raspberry_pi_gaming_cons.Pmm.{
  Pmm, page_size, scan_words, address, or_word, alloc_scan, alloc_frame,
}
use raspberry_pi_gaming_cons.Pmm.Bitmap.{or_word-Fit, frame_used-or_word}
use raspberry_pi_gaming_cons.Pmm.Valid.{used, IsValid, address-eq}

-- The lowest free frame `idx` is handed out, and becomes the only new used frame.
pub record Taken (p : Pmm) (idx : ℕ) (r : ℕ × Pmm) : Type 0 where
  pub in_range : idx < p.total_frames
  pub was_free : used p idx ≡ false
  pub lowest : (j : ℕ) → j < idx → used p j ≡ true
  pub result : r.0 ≡ p.phys_mem_start + idx * page_size
  pub marks : (j : ℕ) → used (r.1) j ≡ (used p j || idx == j)
  pub valid : IsValid (r.1)
  pub start : r.1.phys_mem_start ≡ p.phys_mem_start
  pub total : r.1.total_frames ≡ p.total_frames

-- Every frame is used, the result is 0, and nothing changes.
pub record Exhausted (p : Pmm) (r : ℕ × Pmm) : Type 0 where
  pub full : (j : ℕ) → j < p.total_frames → used p j ≡ true
  pub result : r ≡ (0, p)

-- Marking a frame keeps the invariant.
pub mark-IsValid :
    {p : Pmm} (idx : ℕ)
    → IsValid p
    → idx < p.total_frames
    → IsValid (record p { bitmap = or_word p.bitmap (idx / 64) (shl_one (idx % 64)) })
mark-IsValid {p} idx v h = record {
  fit = or_word-Fit p.bitmap (idx / 64) _ v.fit (omega arith);
  covered = omega (arith, v.covered, length-set p.bitmap (idx / 64) _);
  padded = λ j a b.
      rw (frame_used-or_word p.bitmap idx j (omega (arith, v.covered)), v.padded j a b) refl;
  aligned = v.aligned;
  positive = v.positive;
  in_memory = v.in_memory;
}

full_word-used : (k : ℕ) → k < 64 → bit_at (2 ^ 64 - 1) k ≡ true
full_word-used k h = ground (arith, bit_at-low_mask 64 k)

module _ {p : Pmm} (v : IsValid p) (i : ℕ) where
  abbrev word : ℕ
  word = get_or p.bitmap i 0

  abbrev bit : ℕ
  bit = ctz 64 (not64 word)

  -- Where the word is not full, its lowest clear bit is the frame `i * 64 + bit`.
  module _ (some_free : word ≢ 2 ^ 64 - 1) where
    bit-lt : bit < 64
    bit-lt = ctz-lt 64 (not64 word) (omega (arith, v.fit i)) (omega arith)

    bit-free : bit_at word bit ≡ false
    bit-free = ground (
      arith,
      bit_at-ctz 64 (not64 word) (omega (arith, v.fit i)) (omega arith),
      bit_at-not_bits 64 word bit (v.fit i) bit-lt,
    )

    below-bit-used : (k : ℕ) → k < bit → bit_at word k ≡ true
    below-bit-used k h = ground (
      arith,
      bit_at-lt-ctz 64 (not64 word) k h,
      bit_at-not_bits 64 word k (v.fit i) (omega (arith, bit-lt)),
    )

    abbrev idx : ℕ
    idx = i * 64 + bit

    idx-word : idx / 64 ≡ i
    idx-word = omega (arith, bit-lt)

    idx-bit : idx % 64 ≡ bit
    idx-bit = omega (arith, bit-lt)

    idx-free : used p idx ≡ false
    idx-free = rw (idx-word, idx-bit) bit-free

    idx-in_range : i < scan_words p → idx < p.total_frames
    idx-in_range h = elim (Bool-cases (ltb idx p.total_frames)) [
      | inl e ↦ ltb→lt _ _ e
      | inr e ↦ ground (arith, v.padded idx, idx-free, bit-lt)
    ]

    taken :
        i < scan_words p
        → ((j : ℕ) → j < i * 64 → used p j ≡ true)
        → Taken p idx (address p idx, record p { bitmap = or_word p.bitmap i (shl_one bit) })
    taken h below =
        let lt : idx < p.total_frames = idx-in_range h in
        let at : idx / 64 < length p.bitmap = omega (arith, v.covered, lt) in
        record {
          in_range = lt;
          was_free = idx-free;
          lowest = lowest;
          result = address-eq idx v lt;
          marks = λ j. rw (idx-word, idx-bit) at (frame_used-or_word p.bitmap idx j at);
          valid = rw (idx-word, idx-bit) at (mark-IsValid idx v lt);
          start = refl;
          total = refl;
        }
      where
        lowest : (j : ℕ) → j < idx → used p j ≡ true
        lowest j lt = elim (Bool-cases (ltb j (i * 64))) [
          | inl e ↦ below j (ltb→lt _ _ e)
          | inr e ↦
              let q : j / 64 ≡ i = ground (arith, bit-lt) in
              rw q (below-bit-used (j % 64) (ground arith))
        ]

alloc_scan-result :
    {p : Pmm}
    → IsValid p
    → (rounds i : ℕ) → i + rounds ≡ scan_words p
    → ((j : ℕ) → j < i * 64 → used p j ≡ true)
    → ((idx : ℕ) × Taken p idx (alloc_scan rounds i p)) ⊎ Exhausted p (alloc_scan rounds i p)
unfolding alloc_scan
alloc_scan-result v zero i e below =
    inr (record { full = λ j h. below j (omega (arith, v.in_memory)); result = refl })
alloc_scan-result {p} v (suc rounds) i e below =
    elim (Bool-cases (get_or p.bitmap i 0 == 2 ^ 64 - 1)) [
      | inl full ↦
          rw full (alloc_scan-result v rounds (i + 1) (omega arith) (next (==→eq _ _ full)))
      | inr some_free ↦ rw some_free (
          inl (
            i * 64 + ctz 64 (not64 (get_or p.bitmap i 0)),
            taken v i (==→ne _ _ some_free) (omega arith) below,
          ))
    ]
  where
    next : get_or p.bitmap i 0 ≡ 2 ^ 64 - 1 → (j : ℕ) → j < (i + 1) * 64 → used p j ≡ true
    next full j h = elim (Bool-cases (ltb j (i * 64))) [
      | inl lt ↦ below j (ltb→lt _ _ lt)
      | inr ge ↦
          let q : j / 64 ≡ i = ground arith in rw (q, full) (full_word-used (j % 64) (omega arith))
    ]

-- In a valid state `alloc_frame` either hands out the lowest free frame, marks that frame and no other,
-- and keeps the invariant; or every frame is used, it returns 0, and nothing changes.
pub alloc_frame_lem :
    (p : Pmm) → IsValid p → ((idx : ℕ) × Taken p idx (alloc_frame p)) ⊎ Exhausted p (alloc_frame p)
unfolding alloc_frame
alloc_frame_lem p v =
    alloc_scan-result v (scan_words p) 0 (omega arith) (λ j h. absurd (omega arith))

-- `alloc_frame` keeps the invariant on both branches.
pub alloc_frame-IsValid : {p : Pmm} → IsValid p → IsValid (alloc_frame p).1
alloc_frame-IsValid {p} v = elim (alloc_frame_lem p v) [
  | inl (idx, t) ↦ t.valid
  | inr x ↦ rw x.result v
]
