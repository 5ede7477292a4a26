-- ===== src/Mmu/Descriptors.antt =====
-- Table descriptors, and the tables that they lead to.
use raspberry_pi_gaming_cons.Common.{
  ℕ, ◌+◌, ◌*◌, ◌/◌, ◌%◌, ◌^◌, ◌<◌, ◌≡◌, refl, ◌≢◌, ◌∙◌, ap, inl, inr, bit_and, bit_or, true, false,
  ◌==◌, Bool-cases, arith, eq→==,
}
use raspberry_pi_gaming_cons.Common.Fields.{bit_and_mask, bit_and_align, bit_or_fields}
use raspberry_pi_gaming_cons.Pmm.{Pmm, alloc_frame}
use raspberry_pi_gaming_cons.Pmm.Valid.{IsValid}
use raspberry_pi_gaming_cons.Pmm.Alloc.{alloc_frame_lem}
use raspberry_pi_gaming_cons.Mmu.{Mmu, addr_mask, is_valid, get_or_alloc_table}

pub descriptor : (child : ℕ) → child % 4096 ≡ 0 → child < 2 ^ 47 → bit_or child 3 ≡ child + 3
descriptor child h k =
    let e : child ≡ child / 4096 * 2 ^ 12 = omega arith in
    ap (λ c. bit_or c 3) e
    ∙ bit_or_fields 48 12 (child / 4096) 3 (omega arith) (omega arith)
    ∙ omega arith

pub descriptor-child :
    (child : ℕ) → child % 4096 ≡ 0 → child < 2 ^ 47 → bit_and (bit_or child 3) addr_mask ≡ child
descriptor-child child h k =
    rw (descriptor child h k)
      (bit_and_align 12 48 (child + 3) (omega arith) (omega arith) ∙ omega arith)

pub is_valid-descriptor :
    (child : ℕ) → child % 4096 ≡ 0 → child < 2 ^ 47 → is_valid (bit_or child 3) ≡ true
is_valid-descriptor child h k =
    let e : bit_and (child + 3) 3 ≡ (child + 3) % 2 ^ 2 =
      bit_and_mask 2 48 (child + 3) (omega arith) in
    rw (descriptor child h k) (ground arith)

pub descriptor-valid :
    (child : ℕ) → child % 4096 ≡ 0 → child < 2 ^ 47 → (bit_and (bit_or child 3) 1 == 0) ≡ false
descriptor-valid child h k =
    let e : bit_and (child + 3) 1 ≡ (child + 3) % 2 ^ 1 =
      bit_and_mask 1 48 (child + 3) (omega arith) in
    rw (descriptor child h k) (ground arith)

-- A frame of a valid allocator is a page below 2^47.
pub alloc_frame-page :
    (p : Pmm) → IsValid p → ((alloc_frame p).0 % 4096 ≡ 0) × ((alloc_frame p).0 < 2 ^ 47)
alloc_frame-page p v = elim (alloc_frame_lem p v) [
  | inl (idx, t) ↦
      (omega (arith, t.result, v.aligned), omega (arith, t.result, t.in_range, v.in_memory))
  | inr x ↦ let e = ap (λ r. r.0) x.result in (omega (arith, e), omega (arith, e))
]

-- With a valid frame allocator, a table that `_get_or_alloc_table` gave out is the one that it gives out
-- again for the same entry, and the second call changes nothing; the first did not fail.
pub get_or_alloc_table-again :
    (table index : ℕ) (m : Mmu)
    → IsValid m.pmm
    → (get_or_alloc_table table index m).0 ≢ 0
    → get_or_alloc_table table index (get_or_alloc_table table index m).1
      ≡ get_or_alloc_table table index m
unfolding get_or_alloc_table
get_or_alloc_table-again table index m v =
    elim (Bool-cases (bit_and (m.tables table index) 1 == 0)) [
      | inr there ↦ rw there (λ ok. rw there refl)
      | inl missing ↦ rw missing (elim (Bool-cases ((alloc_frame m.pmm).0 == 0)) [
        | inl failed ↦ rw failed (λ ok. absurd (ok refl))
        | inr fresh ↦ rw fresh (λ ok.
            let (aligned, low) = alloc_frame-page m.pmm v in
            rw
              (
                eq→== table table refl,
                eq→== index index refl,
                descriptor-valid (alloc_frame m.pmm).0 aligned low,
                descriptor-child (alloc_frame m.pmm).0 aligned low,
              )
              refl)
      ])
    ]
