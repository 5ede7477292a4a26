-- ===== src/Mmu/Contract.antt =====
-- What `map`, `unmap` and `translate` promise of an abstract map from pages to descriptors.
use raspberry_pi_gaming_cons.Common.{
  ℕ, ◌-◌, ◌/◌, ◌^◌, ◌≤◌, ◌<◌, ◌≡◌, ◌≢◌, refl, inl, inr, if◌then◌else◌, Bool-cases, arith, bit_or,
  bit_and,
}
use raspberry_pi_gaming_cons.Pmm.{page_size}
use raspberry_pi_gaming_cons.Mmu.{
  Mmu, addr_mask, is_valid, l1_index, l2_index, l3_index, map_range, unmap, unmap_locked, translate,
}
use raspberry_pi_gaming_cons.Mmu.Tree.{next_table}
use raspberry_pi_gaming_cons.Mmu.Map.{View, Implements, l1_index-lt, l2_index-lt, l3_index-lt}
use raspberry_pi_gaming_cons.Mmu.Unmap.{page, at, cleared, unmap_from-Clears}
use raspberry_pi_gaming_cons.Mmu.Ranges.{Effect, Clears-all, map_from-Ends}

-- For a range of at most 512 GiB, the whole address space, in a state that implements an abstract map:
-- when `map` succeeds, the new state implements the map with the descriptors of all pages of the range
-- written in order, each `phys + i * PAGE_SIZE` with the flags and the page bits; when it fails, one in
-- which the pages that had been written are cleared, and no other page changed.
pub map_range-Effect :
    (va phys size flags : ℕ) {view : View} {m : Mmu}
    → size ≤ 2 ^ 39
    → Implements m view
    → Effect va phys (size / page_size) flags view (map_range va phys size flags m)
unfolding map_range
map_range-Effect va phys size flags {view} le imp =
    map_from-Ends (size / page_size) va phys flags 0 (size / page_size) (omega arith) (omega arith)
      (record { inside = λ a b c e. absurd (ground arith); outside = λ a b c e. refl }) imp

-- Where every page of a range maps to something, at most 512 GiB of them, `unmap` leaves a state that
-- implements the map without those pages and with all others.
pub unmap-Implements :
    (va size : ℕ) {view : View} {m : Mmu}
    → size ≤ 2 ^ 39
    → Implements m view
    → ((j : ℕ) → j < size / page_size → at view (page va j) ≢ 0)
    → Implements (unmap va size m) (cleared (size / page_size) va 0 view)
unfolding unmap unmap_locked
unmap-Implements va size le imp mapped =
    Clears-all (omega arith) mapped (unmap_from-Clears (size / page_size) va 0 imp)

-- In a state that implements an abstract map, `translate` gives, for every virtual address, the address
-- in the descriptor of its page with the offset in the page, or `~0` where the map has no valid page
-- descriptor.
pub translate-Implements :
    (va : ℕ) {view : View} {m : Mmu}
    → va < 2 ^ 64
    → Implements m view
    → translate va m ≡ (
        if is_valid (at view va)
        then bit_or (bit_and (at view va) addr_mask) (bit_and va 0xFFF)
        else 2 ^ 64 - 1)
unfolding translate
translate-Implements va {view} {m} h imp =
    rw
      (← imp.agree (l1_index va) (l2_index va) (l3_index va) (l1_index-lt va h) (l2_index-lt va h)
        (l3_index-lt va h))
      (elim (Bool-cases (is_valid (m.tables m.l1_table (l1_index va)))) [
        | inl e ↦
            rw e
              (elim (Bool-cases
                (is_valid (m.tables (next_table m m.l1_table (l1_index va)) (l2_index va)))) [
                  | inl e2 ↦
                      rw e2
                        (elim (Bool-cases (
                          is_valid (
                            m.tables
                              (next_table m (next_table m m.l1_table (l1_index va)) (l2_index va))
                              (l3_index va)))) [ inl e3 ↦ rw e3 refl | inr e3 ↦ rw e3 refl ])
                  | inr e2 ↦ rw e2 refl
                ])
        | inr e ↦ rw e refl
      ])
