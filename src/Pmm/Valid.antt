-- ===== src/Pmm/Valid.antt =====
-- The invariant of the frame allocator, and `pmm_init`.
use raspberry_pi_gaming_cons.Common.{
  ℕ, ◌+◌, ◌-◌, ◌*◌, ◌/◌, ◌%◌, ◌^◌, ◌≤◌, ◌<◌, ◌≡◌, List, Bool, true, false, ap, leb, ◌==◌,
  if◌then◌else◌, Bool-cases, length, arith, replicate, get_or-replicate, length-replicate,
  length-set, get_or-set_ne, inl, inr, sym, ==→eq, ==→ne,
}
use raspberry_pi_gaming_cons.Common.Bits.{bit_at}
use raspberry_pi_gaming_cons.Common.Words.{
  u64, sub64, not64, shl_one, shl_one-eq, pow-lt, pow-pos, bit_at-zero, bit_at-not_bits,
  bit_at-low_mask,
}
use raspberry_pi_gaming_cons.Common.Fields.{bit_and_align}
use raspberry_pi_gaming_cons.Pmm.{
  Pmm, page_size, phys_mem_end, round_up, mask_tail, pmm_init, scan_words, address,
}
use raspberry_pi_gaming_cons.Pmm.Bitmap.{frame_used, Fit, or_word-Fit, bit_at-or_word_self}

abbrev pub used : Pmm → ℕ → Bool
used p idx = frame_used p.bitmap idx

pub record IsValid (p : Pmm) : Type 0 where
  pub fit : Fit p.bitmap
  pub covered : p.total_frames ≤ 64 * length p.bitmap
  -- The bits that stand for no frame are set.
  pub padded : (j : ℕ) → p.total_frames ≤ j → j < scan_words p * 64 → used p j ≡ true
  pub aligned : p.phys_mem_start % page_size ≡ 0
  pub positive : 0 < p.phys_mem_start
  pub in_memory : p.phys_mem_start + p.total_frames * page_size ≤ phys_mem_end

-- A frame's address does not wrap, and lies in the managed range.
pub address-eq :
    {p : Pmm} (idx : ℕ)
    → IsValid p
    → idx < p.total_frames
    → address p idx ≡ p.phys_mem_start + idx * page_size
address-eq idx v h = omega arith

pub round_up_lem : (x : ℕ) → x + 4096 < 2 ^ 64 → round_up x page_size ≡ (x + 4095) / 4096 * 4096
unfolding round_up
round_up_lem x h =
    let e : sub64 (u64 (x + 4096)) 1 ≡ x + 4095 = omega arith in
    rw e (bit_and_align 12 64 (x + 4095) (omega arith) (omega arith))

module _ (n total : ℕ) where
  abbrev words : List ℕ
  words = mask_tail (replicate n 0) total

  tail_mask-lt : not64 (sub64 (shl_one (total % 64)) 1) < 2 ^ 64
  tail_mask-lt = omega arith

  zeros-Fit : Fit (replicate n 0)
  zeros-Fit i = rw get_or-replicate (omega arith)

  words-Fit : Fit words
  words-Fit = elim (Bool-cases (total % 64 == 0)) [
    | inl e ↦ rw e zeros-Fit
    | inr e ↦ rw e (or_word-Fit _ (total / 64) _ zeros-Fit tail_mask-lt)
  ]

  length-words : length words ≡ n
  length-words = elim (Bool-cases (total % 64 == 0)) [
    | inl e ↦ rw e (length-replicate n 0)
    | inr e ↦ rw (e, length-set) (length-replicate n 0)
  ]

  mask_bit :
      (k : ℕ) → k < 64 → bit_at (not64 (sub64 (shl_one (total % 64)) 1)) k ≡ leb (total % 64) k
  mask_bit k h =
      let s : sub64 (shl_one (total % 64)) 1 ≡ 2 ^ (total % 64) - 1 = omega (
        arith,
        shl_one-eq (total % 64) (omega arith),
        pow-pos (total % 64),
        pow-lt (total % 64) (omega arith),
      ) in
      rw
        (
          s,
          bit_at-not_bits 64 (2 ^ (total % 64) - 1) k
              (omega (arith, pow-lt (total % 64) (omega arith))) h,
          bit_at-low_mask,
        )
        (ground arith)

  zeros-free : (j : ℕ) → frame_used (replicate n 0) j ≡ false
  zeros-free j = rw (get_or-replicate, bit_at-zero)

  words_bit :
      (j : ℕ)
      → total ≤ 64 * n
      → frame_used words j ≡ (
          if total % 64 == 0
          then false
          else if total / 64 == j / 64
          then leb (total % 64) (j % 64)
          else false)
  words_bit j h = elim (Bool-cases (total % 64 == 0)) [
    | inl e ↦ rw e (zeros-free j)
    | inr e ↦ rw e (elim (Bool-cases (total / 64 == j / 64)) [
      | inl q ↦
          let q' : j / 64 ≡ total / 64 = sym (==→eq _ _ q) in
          rw (
            q,
            q',
            bit_at-or_word_self (replicate n 0) (total / 64) _ (j % 64)
                (omega (arith, length-replicate {A = ℕ} n 0, ==→ne _ _ e)),
            get_or-replicate,
            bit_at-zero,
            mask_bit (j % 64) (omega arith),
          )
      | inr q ↦
          rw (q, get_or-set_ne {A = ℕ} (replicate n 0) (total / 64) (j / 64) _ 0 (==→ne _ _ q))
            (zeros-free j)
    ])
  ]

  words-free : (j : ℕ) → total ≤ 64 * n → j < total → frame_used words j ≡ false
  words-free j h k = rw (words_bit j h) (ground arith)

  words-padded :
      (j : ℕ) → total ≤ 64 * n → total ≤ j → j < (total + 63) / 64 * 64 → frame_used words j ≡ true
  words-padded j h k l = rw (words_bit j h) (ground arith)

-- Room for the bitmap between the kernel image and the end of memory.
abbrev pub Fits : ℕ → Type 0
Fits kernel_end = kernel_end + 0x10000 ≤ phys_mem_end

-- The geometry that `pmm_init` computes.
abbrev bitmap_addr : ℕ → ℕ
bitmap_addr kernel_end = (kernel_end + 4095) / 4096 * 4096

abbrev bitmap_words : ℕ → ℕ
bitmap_words kernel_end = ((phys_mem_end - bitmap_addr kernel_end) / 4096 + 63) / 64

abbrev start_of : ℕ → ℕ
start_of kernel_end = (bitmap_addr kernel_end + bitmap_words kernel_end * 8 + 4095) / 4096 * 4096

abbrev total_of : ℕ → ℕ
total_of kernel_end = (phys_mem_end - start_of kernel_end) / 4096

abbrev initial : ℕ → Pmm
initial kernel_end = record {
  bitmap = mask_tail (replicate (bitmap_words kernel_end) 0) (total_of kernel_end);
  phys_mem_start = start_of kernel_end;
  total_frames = total_of kernel_end;
}

pub pmm_init_lem : (kernel_end : ℕ) → Fits kernel_end → pmm_init kernel_end ≡ initial kernel_end
unfolding pmm_init
pmm_init_lem kernel_end h = rw (at_addr, bytes, eight, at_start, frames)
  where
    at_addr : round_up kernel_end page_size ≡ bitmap_addr kernel_end
    at_addr = round_up_lem kernel_end (omega arith)

    bytes :
        u64 (u64 (sub64 phys_mem_end (bitmap_addr kernel_end) / page_size + 63) / 64 * 8)
        ≡ bitmap_words kernel_end * 8
    bytes = omega arith

    eight : bitmap_words kernel_end * 8 / 8 ≡ bitmap_words kernel_end
    eight = omega arith

    at_start :
        round_up (u64 (bitmap_addr kernel_end + bitmap_words kernel_end * 8)) page_size
        ≡ start_of kernel_end
    at_start =
        let e : u64 (bitmap_addr kernel_end + bitmap_words kernel_end * 8)
            ≡ bitmap_addr kernel_end + bitmap_words kernel_end * 8 =
          omega arith in
        rw e (round_up_lem _ (omega arith))

    frames : sub64 phys_mem_end (start_of kernel_end) / page_size ≡ total_of kernel_end
    frames = ap (λ (x : ℕ). x / page_size) (omega arith)

total-le-words :
    (kernel_end : ℕ) → Fits kernel_end → total_of kernel_end ≤ 64 * bitmap_words kernel_end
total-le-words kernel_end h = omega arith

initial-IsValid : (kernel_end : ℕ) → Fits kernel_end → IsValid (initial kernel_end)
initial-IsValid k h = record {
  fit = words-Fit (bitmap_words k) (total_of k);
  covered = rw (length-words (bitmap_words k) (total_of k)) (total-le-words k h);
  padded =
      λ j p q. words-padded (bitmap_words k) (total_of k) j (total-le-words k h) p (omega arith);
  aligned = omega arith;
  positive = omega arith;
  in_memory = omega arith;
}

metadata-below :
    (k : ℕ)
    → Fits k
    → round_up k page_size + 8 * length (initial k).bitmap ≤ (initial k).phys_mem_start
metadata-below k h =
    rw (round_up_lem k (omega arith), length-words (bitmap_words k) (total_of k)) (omega arith)

-- With room for the bitmap between the kernel image and the end of memory, `pmm_init` establishes the
-- invariant, every frame is free, and the words of the bitmap end before the first frame.
pub pmm_init-IsValid :
    (kernel_end : ℕ)
    → Fits kernel_end
    → IsValid (pmm_init kernel_end)
      × ((j : ℕ) → j < (pmm_init kernel_end).total_frames → used (pmm_init kernel_end) j ≡ false)
      × (round_up kernel_end page_size + 8 * length (pmm_init kernel_end).bitmap
          ≤ (pmm_init kernel_end).phys_mem_start)
pmm_init-IsValid k h = rw (pmm_init_lem k h) (
  initial-IsValid k h,
  λ j lt. words-free (bitmap_words k) (total_of k) j (total-le-words k h) lt,
  metadata-below k h,
)

pub pmm_init-frames : (kernel_end : ℕ) → Fits kernel_end → 0 < (pmm_init kernel_end).total_frames
pmm_init-frames k h = rw (pmm_init_lem k h) (omega arith)
