-- ===== src/Pmm/Free.antt =====
-- `free_frame` frees the frame at an address of the managed range, and ignores every other address.
use raspberry_pi_gaming_cons.Common.{
  ℕ, ◌+◌, ◌-◌, ◌*◌, ◌/◌, ◌%◌, ◌^◌, ◌≤◌, ◌<◌, ◌≡◌, refl, ◌≢◌, inl, inr, Bool, not, ◌&&◌, ltb, leb,
  ◌==◌, if◌then◌else◌, Bool-cases, arith, length-set, ap, ==→eq,
}
use raspberry_pi_gaming_cons.Common.Words.{sub64}
use raspberry_pi_gaming_cons.Pmm.{Pmm, page_size, clear_bit, alloc_frame, free_frame}
use raspberry_pi_gaming_cons.Pmm.Bitmap.{
  frame_used-clear_bit, clear_bit-Fit, test_bit-eq-frame_used,
}
use raspberry_pi_gaming_cons.Pmm.Valid.{used, IsValid}
use raspberry_pi_gaming_cons.Pmm.Alloc.{alloc_frame_lem}

-- The base address of a managed frame.
abbrev pub IsFrame : Pmm → ℕ → Type 0
IsFrame p addr =
    (p.phys_mem_start ≤ addr)
    × (addr < p.phys_mem_start + p.total_frames * page_size)
    × (addr % page_size ≡ 0)

-- The index of the frame at an address.
abbrev pub index_of : Pmm → ℕ → ℕ
index_of p addr = (addr - p.phys_mem_start) / page_size

cleared-IsValid :
    {p : Pmm} (idx : ℕ)
    → IsValid p
    → idx < p.total_frames
    → IsValid (record p { bitmap = clear_bit p.bitmap idx })
cleared-IsValid {p} idx v h = record {
  fit = clear_bit-Fit p.bitmap idx v.fit;
  covered = omega (arith, v.covered, length-set p.bitmap (idx / 64) _);
  padded = λ j a b.
      rw (frame_used-clear_bit p.bitmap idx j (omega (arith, v.covered)), v.padded j a b)
        (ground arith);
  aligned = v.aligned;
  positive = v.positive;
  in_memory = v.in_memory;
}

-- The guards of `free_frame` accept a frame's address, and what is left is the test of its bit.
free_frame-frame :
    {p : Pmm} (addr : ℕ)
    → IsValid p
    → IsFrame p addr
    → free_frame addr p ≡ (
        if used p (index_of p addr)
        then record p { bitmap = clear_bit p.bitmap (index_of p addr) }
        else p)
unfolding free_frame
free_frame-frame {p} addr v f =
    let e : sub64 addr p.phys_mem_start / page_size ≡ index_of p addr = omega arith in
    rw (e, test_bit-eq-frame_used p.bitmap (index_of p addr) v.fit) (ground arith)

-- Freeing the address of a managed frame makes that frame free and changes no other.
pub used-free_frame :
    {p : Pmm} (addr j : ℕ)
    → IsValid p
    → IsFrame p addr
    → used (free_frame addr p) j ≡ (used p j && not (index_of p addr == j))
used-free_frame {p} addr j v f =
    rw (free_frame-frame addr v f) (elim (Bool-cases (used p (index_of p addr))) [
      | inl e ↦ rw e (frame_used-clear_bit p.bitmap (index_of p addr) j (omega (arith, v.covered)))
      | inr e ↦ rw e (ground arith)
    ])

-- An address that is no frame's changes nothing.
pub free_frame-ignored :
    {p : Pmm} (addr : ℕ) → IsValid p → addr < 2 ^ 64 → ¬ IsFrame p addr → free_frame addr p ≡ p
unfolding free_frame
free_frame-ignored {p} addr v h n = ground (arith, n)

-- The managed range stays.
pub free_frame-range :
    (addr : ℕ) (p : Pmm)
    → ((free_frame addr p).phys_mem_start ≡ p.phys_mem_start)
      × ((free_frame addr p).total_frames ≡ p.total_frames)
unfolding free_frame
free_frame-range addr p = ground arith

abbrev is_frame : Pmm → ℕ → Bool
is_frame p addr =
    leb p.phys_mem_start addr
    && ltb addr (p.phys_mem_start + p.total_frames * page_size)
    && addr % page_size == 0

-- `free_frame` keeps the invariant, whatever the address.
pub free_frame-IsValid :
    {p : Pmm} (addr : ℕ) → addr < 2 ^ 64 → IsValid p → IsValid (free_frame addr p)
free_frame-IsValid {p} addr h v = elim (Bool-cases (is_frame p addr)) [
  | inl e ↦
      let f : IsFrame p addr = (ground arith, ground arith, ground arith) in
      rw (free_frame-frame addr v f) (elim (Bool-cases (used p (index_of p addr))) [
        | inl u ↦ rw u (cleared-IsValid (index_of p addr) v (omega arith))
        | inr u ↦ rw u v
      ])
  | inr e ↦ rw (free_frame-ignored addr v h (λ f. ground (arith, f.0, f.1, f.2))) v
]

-- A frame that `alloc_frame` hands out is free again after `free_frame`, and so is no other: the two
-- states have the same used frames.
pub free_frame-alloc_frame :
    {p : Pmm}
    → IsValid p
    → (alloc_frame p).0 ≢ 0
    → (j : ℕ) → used (free_frame (alloc_frame p).0 (alloc_frame p).1) j ≡ used p j
free_frame-alloc_frame {p} v some_frame j = elim (alloc_frame_lem p v) [
  | inl (idx, t) ↦
      let r = alloc_frame p in
      let f : IsFrame r.1 r.0 = omega (arith, t.result, t.start, t.total, t.in_range, v.aligned) in
      let at : index_of r.1 r.0 ≡ idx = omega (arith, t.result, t.start) in
      rw (used-free_frame r.0 j t.valid f, at, t.marks)
        (elim (Bool-cases (idx == j)) [
          | inl e ↦ rw (e, ← ==→eq idx j e, t.was_free) refl
          | inr e ↦ rw e (ground arith)
        ])
  | inr x ↦ absurd (some_frame (ap (λ r. r.0) x.result))
]
