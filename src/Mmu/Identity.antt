-- ===== src/Mmu/Identity.antt =====
-- Maps that take every page to itself or to nothing.
use raspberry_pi_gaming_cons.Common.{
  ℕ, zero, suc, ◌+◌, ◌-◌, ◌*◌, ◌/◌, ◌%◌, ◌^◌, ◌≤◌, ◌<◌, ◌≡◌, refl, ◌⊎◌, inl, inr, bit_and, bit_or,
  Bool, true, false, List, [], ◌∷◌, Bool-cases, arith, ap, ◌∙◌, eq→==,
}
use raspberry_pi_gaming_cons.Common.Bits.{bit_or_step}
use raspberry_pi_gaming_cons.Common.Fields.{bit_and_mask, bit_and_align, bit_or_fields, bit_or-zero}
use raspberry_pi_gaming_cons.Pmm.{page_size}
use raspberry_pi_gaming_cons.Mmu.{
  Mmu, addr_mask, is_valid, l1_index, l2_index, l3_index, map_range, translate,
}
use raspberry_pi_gaming_cons.Mmu.Map.{View, update, Implements}
use raspberry_pi_gaming_cons.Mmu.Unmap.{page, cleared}
use raspberry_pi_gaming_cons.Mmu.Spans.{hits, covered, written, cleared-eq, page_number}
use raspberry_pi_gaming_cons.Mmu.Ranges.{Effect}
use raspberry_pi_gaming_cons.Mmu.Contract.{map_range-Effect, translate-Implements}
use raspberry_pi_gaming_cons.Mmu.Setup.{Region, map_all}

-- Every page maps to itself or to nothing.
abbrev pub IsIdentity : View → Type 0
IsIdentity view =
    (a b c : ℕ)
    → (view a b c ≡ 0)
      ⊎ ((is_valid (view a b c) ≡ true)
          × (bit_and (view a b c) addr_mask ≡ a * 2 ^ 30 + b * 2 ^ 21 + c * 2 ^ 12))

-- Flags that leave the address alone and have the page bits set.
abbrev pub IsPageFlags : ℕ → Type 0
IsPageFlags flags = (flags < 4096) × (flags % 4 ≡ 3)

bit_or-three : (x : ℕ) → x < 2 ^ 48 → x % 4 ≡ 3 → bit_or x 3 ≡ x
bit_or-three x h e =
    omega (arith, bit_or_step x 3, bit_or_step (x / 2) 1, bit_or-zero 48 (x / 2 / 2) (omega arith))

pub page_entry :
    (p flags : ℕ)
    → p % 4096 ≡ 0
    → p < 2 ^ 39
    → IsPageFlags flags
    → bit_or (bit_or p flags) 3 ≡ p + flags
page_entry p flags al lo (small, low_bits) =
    let e : p ≡ p / 4096 * 2 ^ 12 = omega arith in
    let fields : bit_or p flags ≡ p + flags =
      ap (λ x. bit_or x flags) e
      ∙ bit_or_fields 48 12 (p / 4096) flags (omega arith) (omega arith)
      ∙ omega arith in
    rw fields (bit_or-three (p + flags) (omega arith) (omega arith))

module _ (va flags : ℕ) (al : va % 4096 ≡ 0) (lo : va < 2 ^ 39) (ok : IsPageFlags flags)
    {view : View} (id : IsIdentity view) where
  update-IsIdentity : IsIdentity (update va (bit_or (bit_or va flags) 3) view)
  update-IsIdentity a b c = elim (Bool-cases (hits va a b c)) [
    | inr e ↦ rw e (id a b c)
    | inl e ↦
        let e1 : l1_index va ≡ a = ground arith in
        let e2 : l2_index va ≡ b = ground arith in
        let e3 : l3_index va ≡ c = ground arith in
        let number = page_number va (omega arith) in
        let low : bit_and (va + flags) 3 ≡ (va + flags) % 2 ^ 2 =
          bit_and_mask 2 48 (va + flags) (omega (arith, ok.0)) in
        let high = bit_and_align 12 48 (va + flags) (omega (arith, ok.0)) (omega arith) in
        rw (e, page_entry va flags al lo ok)
          (inr (eq→== _ _ (omega (arith, low, ok.1)), high ∙ omega (arith, ok.0)))
  ]

same_page :
    (va : ℕ)
    → va < 2 ^ 39
    → l1_index va * 2 ^ 30 + l2_index va * 2 ^ 21 + l3_index va * 2 ^ 12 ≡ va / 4096 * 2 ^ 12
same_page va lo = let number = page_number va (omega arith) in omega arith

-- A page of an identity map translates to itself.
pub translated :
    {view : View} {m : Mmu} (va : ℕ)
    → va < 2 ^ 39
    → Implements m view
    → IsIdentity view
    → (translate va m ≡ va) ⊎ (translate va m ≡ 2 ^ 64 - 1)
translated {view} va lo imp id =
    rw (translate-Implements va (omega arith) imp)
      (elim (id (l1_index va) (l2_index va) (l3_index va)) [
        | inl e ↦ rw e (inr refl)
        | inr (valid, e) ↦
            rw (valid, e)
              (inl (
                ap (λ x. bit_or x (bit_and va 0xFFF)) (same_page va lo)
                ∙ ap (bit_or (va / 4096 * 2 ^ 12)) (bit_and_mask 12 64 va (omega arith))
                ∙ bit_or_fields 48 12 (va / 4096) (va % 2 ^ 12) (omega arith) (omega arith)
                ∙ omega arith))
      ])

-- Pages from `base` in the address space of 512 GiB.
abbrev pub Inside : ℕ → ℕ → Type 0
Inside base pages = (base % 4096 ≡ 0) × (base + pages * 4096 ≤ 2 ^ 39)

written-IsIdentity :
    (rounds base flags i : ℕ) {view : View}
    → IsPageFlags flags
    → Inside base (i + rounds)
    → IsIdentity view
    → IsIdentity (written rounds base base flags i view)
written-IsIdentity zero base flags i ok fits id = id
written-IsIdentity (suc rounds) base flags i ok fits id =
    written-IsIdentity rounds base flags (i + 1) ok (fits.0, omega (arith, fits.1))
      (update-IsIdentity (page base i) flags (omega (arith, fits.0, fits.1)) (omega (arith, fits.1))
        ok id)

cleared-IsIdentity :
    (count base : ℕ) {view : View} → IsIdentity view → IsIdentity (cleared count base 0 view)
cleared-IsIdentity count base {view} id a b c =
    rw (cleared-eq count base 0 view a b c) (elim (Bool-cases (covered count base 0 a b c)) [
      | inl e ↦ rw e (inl refl)
      | inr e ↦ rw e (id a b c)
    ])

-- The state implements an identity map.
abbrev pub HasIdentity : Mmu → Type 0
HasIdentity m = (view : View) × Implements m view × IsIdentity view

Effect-HasIdentity :
    (rounds base flags : ℕ) (view : View) (r : Bool × Mmu)
    → IsPageFlags flags
    → Inside base rounds
    → IsIdentity view
    → Effect base base rounds flags view r
    → HasIdentity r.1
Effect-HasIdentity rounds base flags view (true, m) ok fits id imp = (
  written rounds base base flags 0 view,
  imp,
  written-IsIdentity rounds base flags 0 ok (fits.0, omega (arith, fits.1)) id,
)
Effect-HasIdentity rounds base flags view (false, m) ok fits id (count, within, imp) =
    (cleared count base 0 view, imp, cleared-IsIdentity count base id)

abbrev pub AllInside : List Region → Type 0
AllInside [] = ℕ
AllInside (r ∷ rest) =
    IsPageFlags r.flags × (r.size ≤ 2 ^ 39) × Inside r.base (r.size / page_size) × AllInside rest

pub map_all-HasIdentity :
    (rs : List Region) {m : Mmu} → AllInside rs → HasIdentity m → HasIdentity (map_all rs m)
map_all-HasIdentity [] all has = has
map_all-HasIdentity (r ∷ rest) {m} (ok, small, fits, all) (view, imp, id) =
    map_all-HasIdentity rest all (
      Effect-HasIdentity (r.size / page_size) r.base r.flags view
        (map_range r.base r.base r.size r.flags m) ok fits id
        (map_range-Effect r.base r.base r.size r.flags small imp))
