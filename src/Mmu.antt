-- ===== src/Mmu.antt =====
-- The page tables of src/kernel/mmu/mmu.cpp. `mmu_lock` brackets each body, so a call is one atomic
-- step here; barriers and TLB maintenance have no effect on the tables and are left out.
pub mod Descriptors
pub mod Tree
pub mod Pages
pub mod Fresh
pub mod Map
pub mod Dropped
pub mod Unmap
pub mod Spans
pub mod Ranges
pub mod Contract
pub mod Setup
pub mod Identity
pub mod Installed
pub mod Frames
pub mod Bare
mod Tests
use raspberry_pi_gaming_cons.Common.{
  ℕ, zero, suc, ◌+◌, ◌-◌, ◌*◌, ◌/◌, ◌^◌, bit_and, bit_or, Bool, true, false, not, ltb, ◌==◌, ◌&&◌,
  if◌then◌else◌, all_below,
}
use raspberry_pi_gaming_cons.Common.Words.{u64}
use raspberry_pi_gaming_cons.Pmm.{Pmm, page_size, alloc_frame, free_frame}

-- The descriptors in memory, by the address of a table and the index in it; `l1_table`; and the
-- allocator that the tables come from.
pub record Mmu : Type 0 where
  pub tables : ℕ → ℕ → ℕ
  pub l1_table : ℕ
  pub pmm : Pmm

abbrev pub pte_normal_rw : ℕ
pte_normal_rw = 0x703

abbrev pub pte_device_rw : ℕ
pte_device_rw = 0x707

abbrev pub addr_mask : ℕ
addr_mask = 0x0000FFFFFFFFF000

abbrev pub l1_index : ℕ → ℕ
l1_index va = bit_and (va / 2 ^ 30) 0x1FF

abbrev pub l2_index : ℕ → ℕ
l2_index va = bit_and (va / 2 ^ 21) 0x1FF

abbrev pub l3_index : ℕ → ℕ
l3_index va = bit_and (va / 2 ^ 12) 0x1FF

-- `(desc & 0b11) == 0b11`
abbrev pub is_valid : ℕ → Bool
is_valid desc = bit_and desc 3 == 3

-- `table[index] = desc`
abbrev pub store : ℕ → ℕ → ℕ → Mmu → Mmu
store table index desc m = record m {
  tables = λ t i. if t == table && i == index then desc else m.tables t i;
}

-- The loop that clears a new table.
abbrev pub clear_table : ℕ → Mmu → Mmu
clear_table table m = record m {
  tables = λ t i. if t == table && ltb i 512 then 0 else m.tables t i;
}

-- The next table, or 0 when there is no frame for it.
unfoldable pub get_or_alloc_table : ℕ → ℕ → Mmu → ℕ × Mmu
get_or_alloc_table table index m =
    let entry = m.tables table index in
    let r = alloc_frame m.pmm in
    let m' = record m { pmm = r.1 } in
    if not (bit_and entry 1 == 0)
    then (bit_and entry addr_mask, m)
    else if r.0 == 0
    then (0, m')
    else (r.0, store table index (bit_or r.0 3) (clear_table r.0 m'))

unfoldable pub translate : ℕ → Mmu → ℕ
translate virt m =
    let l1_desc = m.tables m.l1_table (l1_index virt) in
    let l2_desc = m.tables (bit_and l1_desc addr_mask) (l2_index virt) in
    let l3_desc = m.tables (bit_and l2_desc addr_mask) (l3_index virt) in
    if not (is_valid l1_desc)
    then 2 ^ 64 - 1
    else if not (is_valid l2_desc)
    then 2 ^ 64 - 1
    else if not (is_valid l3_desc)
    then 2 ^ 64 - 1
    else bit_or (bit_and l3_desc addr_mask) (bit_and virt 0xFFF)

abbrev pub table_is_empty : ℕ → Mmu → Bool
table_is_empty table m = all_below 512 (λ i. m.tables table i == 0)

-- A table that has become empty leaves its parent and goes back to the allocator.
abbrev pub drop_if_empty : ℕ → ℕ → ℕ → Mmu → Mmu
drop_if_empty table parent index m =
    let m' = store parent index 0 m in
    if table_is_empty table m then record m' { pmm = free_frame table m.pmm } else m

-- The loop of `_unmap_locked`, with `rounds` pages to go; a missing table ends it.
unfoldable pub unmap_from : ℕ → ℕ → ℕ → Mmu → Mmu
unmap_from zero va i m = m
unmap_from (suc rounds) va i m =
    let current_va = u64 (va + u64 (i * page_size)) in
    let l1_desc = m.tables m.l1_table (l1_index current_va) in
    let l2_table = bit_and l1_desc addr_mask in
    let l2_desc = m.tables l2_table (l2_index current_va) in
    let l3_table = bit_and l2_desc addr_mask in
    let cleared = store l3_table (l3_index current_va) 0 m in
    let m2 = drop_if_empty l3_table l2_table (l2_index current_va) cleared in
    let m1 = drop_if_empty l2_table m.l1_table (l1_index current_va) m2 in
    let rest = unmap_from rounds va (i + 1) m1 in
    if not (is_valid l1_desc) then m else if not (is_valid l2_desc) then m else rest

unfoldable pub unmap_locked : ℕ → ℕ → Mmu → Mmu
unmap_locked va size m = unmap_from (size / page_size) va 0 m

unfoldable pub unmap : ℕ → ℕ → Mmu → Mmu
unmap va size m = unmap_locked va size m

-- One round of the loop of `map`; `false` is a failure to get a table.
unfoldable pub map_page : ℕ → ℕ → ℕ → Mmu → Bool × Mmu
map_page current_va current_phys flags m =
    let r2 = get_or_alloc_table m.l1_table (l1_index current_va) m in
    let r3 = get_or_alloc_table r2.0 (l2_index current_va) r2.1 in
    if r2.0 == 0
    then (false, r2.1)
    else if r3.0 == 0
    then (false, r3.1)
    else (true, store r3.0 (l3_index current_va) (bit_or (bit_or current_phys flags) 3) r3.1)

-- The loop of `map`, with `rounds` pages to go; a failure undoes the pages before it.
unfoldable pub map_from : ℕ → ℕ → ℕ → ℕ → ℕ → Mmu → Bool × Mmu
map_from zero va phys flags i m = (true, m)
map_from (suc rounds) va phys flags i m =
    let r = map_page (u64 (va + u64 (i * page_size))) (u64 (phys + u64 (i * page_size))) flags m in
    let rest = map_from rounds va phys flags (i + 1) r.1 in
    if r.0 then rest else (false, unmap_locked va (u64 (i * page_size)) r.1)

unfoldable pub map_range : ℕ → ℕ → ℕ → ℕ → Mmu → Bool × Mmu
map_range va phys size flags m = map_from (size / page_size) va phys flags 0 m
