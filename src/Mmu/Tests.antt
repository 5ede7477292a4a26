-- ===== src/Mmu/Tests.antt =====
-- A page mapped into an empty set of tables.
use raspberry_pi_gaming_cons.Common.{
  ℕ, zero, suc, ◌+◌, ◌-◌, ◌^◌, ◌<◌, ◌≡◌, ◌≢◌, ◌⊎◌, refl, some, Bool, false, bit_and, bit_or,
  if◌then◌else◌, [], ◌∷◌, arith, true, all_below, all_below_sound, ltb, ◌||◌,
}
use raspberry_pi_gaming_cons.Common.Fields.{ctz}
use raspberry_pi_gaming_cons.Pmm.{Pmm, alloc_frame, free_frame}
use raspberry_pi_gaming_cons.Pmm.Valid.{IsValid, used}
use raspberry_pi_gaming_cons.Pmm.Bitmap.{Fit}
use raspberry_pi_gaming_cons.Mmu.{
  Mmu, addr_mask, is_valid, get_or_alloc_table, map_range, map_from, map_page, translate, unmap,
  unmap_locked, unmap_from,
}
use raspberry_pi_gaming_cons.Mmu.Map.{View, Implements}
use raspberry_pi_gaming_cons.Mmu.Unmap.{page, at, cleared}
use raspberry_pi_gaming_cons.Mmu.Spans.{written}
use raspberry_pi_gaming_cons.Mmu.Ranges.{Effect, Ends}
use raspberry_pi_gaming_cons.Mmu.Contract.{map_range-Effect, unmap-Implements, translate-Implements}
use raspberry_pi_gaming_cons.Mmu.Setup.{Boot, mmu_init}
use raspberry_pi_gaming_cons.Mmu.Bare.{bare, bare-Implements}
use raspberry_pi_gaming_cons.Mmu.Installed.{mmu_init-identity}

-- A mapped page translates, with the offset kept, and no longer after it is unmapped.
mapped_page : translate 0x40001234 (map_range 0x40001000 0x5000 4096 0x703 bare).1 ≡ 0x5234
unfolding translate map_range map_from map_page get_or_alloc_table alloc_frame ctz unmap_locked
    unmap_from
mapped_page = refl

unmapped_page :
    translate 0x40001234 (unmap 0x40001000 4096 (map_range 0x40001000 0x5000 4096 0x703 bare).1)
    ≡ 2 ^ 64 - 1
unfolding translate map_range map_from map_page get_or_alloc_table alloc_frame ctz unmap_locked
    unmap_from unmap all_below free_frame
unmapped_page = refl

-- The first frame after the top-level table.
first_table : (get_or_alloc_table 0x100000 1 bare).0 ≡ 0x101000
unfolding get_or_alloc_table alloc_frame ctz
first_table = refl

map_range-Effect_example :
    Effect 0x40001000 0x5000 1 0x703 (λ _ _ _. 0) (map_range 0x40001000 0x5000 4096 0x703 bare)
map_range-Effect_example =
    map_range-Effect 0x40001000 0x5000 4096 0x703 (omega arith) bare-Implements

-- The state after that call, which succeeds.
abbrev mapped : Mmu
mapped = (map_range 0x40001000 0x5000 4096 0x703 bare).1

abbrev one_page : View
one_page = written 1 0x40001000 0x5000 0x703 0 (λ _ _ _. 0)

Ends-true :
    (va limit : ℕ) (full view : View) (r : Bool × Mmu)
    → r.0 ≡ true
    → Ends va limit full view r
    → Implements r.1 full
Ends-true va limit full view (true, m) e imp = imp
Ends-true va limit full view (false, m) e ends = absurd (ground arith)

map_succeeds : (map_range 0x40001000 0x5000 4096 0x703 bare).0 ≡ true
unfolding map_range map_from map_page get_or_alloc_table alloc_frame ctz unmap_locked unmap_from
map_succeeds = refl

mapped-Implements : Implements mapped one_page
mapped-Implements =
    Ends-true 0x40001000 1 (written 1 0x40001000 0x5000 0x703 0 (λ _ _ _. 0)) (λ _ _ _. 0)
      (map_range 0x40001000 0x5000 4096 0x703 bare) map_succeeds
      (map_range-Effect 0x40001000 0x5000 4096 0x703 (omega arith) bare-Implements)

page_mapped : (j : ℕ) → j < 1 → at one_page (page 0x40001000 j) ≢ 0
page_mapped zero h e = ground (arith, e)
page_mapped (suc j) h e = omega arith

unmap-Implements_example :
    Implements (unmap 0x40001000 4096 mapped) (cleared 1 0x40001000 0 one_page)
unmap-Implements_example =
    unmap-Implements 0x40001000 4096 (omega arith) mapped-Implements page_mapped

translate-Implements_example : translate 0x40001234 mapped ≡ (
    if is_valid (at one_page 0x40001234)
    then bit_or (bit_and (at one_page 0x40001234) addr_mask) (bit_and 0x40001234 0xFFF)
    else 2 ^ 64 - 1)
translate-Implements_example = translate-Implements 0x40001234 (omega arith) mapped-Implements

-- Three free frames: a map of two pages in two regions of 1 GiB lacks the fourth.
abbrev tight : Pmm
tight = record { bitmap = (2 ^ 64 - 2 ^ 4 + 1) ∷ []; phys_mem_start = 0x100000; total_frames = 4 }

tight-Fit : Fit tight.bitmap
tight-Fit zero = omega arith
tight-Fit (suc i) = omega arith

tight-table : all_below 64 (λ i. ltb i 4 || used tight i) ≡ true
unfolding all_below
tight-table = refl

tight-IsValid : IsValid tight
tight-IsValid = record {
  fit = tight-Fit;
  covered = omega arith;
  padded =
      λ j h k. ground (arith, all_below_sound 64 (λ i. ltb i 4 || used tight i) j tight-table k);
  aligned = refl;
  positive = omega arith;
  in_memory = omega arith;
}

tight_fails : (map_range 0x7FFFF000 0x5000 8192 0x703 (record bare { pmm = tight })).0 ≡ false
unfolding map_range map_from map_page get_or_alloc_table alloc_frame ctz unmap_locked unmap_from
    all_below free_frame
tight_fails = refl

mmu_init-identity_example :
    (boot : Boot) × (mmu_init 0x100000 0 (λ _ _. 0) ≡ some boot)
    × ((translate 0x80000 boot.mmu ≡ 0x80000) ⊎ (translate 0x80000 boot.mmu ≡ 2 ^ 64 - 1))
mmu_init-identity_example =
    mmu_init-identity 0x100000 0 (λ _ _. 0) 0x80000 (omega arith) (omega arith) (omega arith)
