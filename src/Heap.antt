-- ===== src/Heap.antt =====
-- The kernel heap: src/kernel/heap_alloc/heap_alloc.cpp, constants from include/kernel/heap_alloc.h.
-- `heap_lock` brackets the body of `kmalloc`, so a call is one atomic step here.
pub mod Bump
mod Tests
use raspberry_pi_gaming_cons.Common.{
  ℕ, zero, suc, ◌+◌, ◌-◌, ◌/◌, ◌^◌, bit_and, ltb, ◌==◌, if◌then◌else◌,
}
use raspberry_pi_gaming_cons.Common.Words.{u64, sub64, not64}
use raspberry_pi_gaming_cons.Pmm.{page_size, alloc_frame}
use raspberry_pi_gaming_cons.Mmu.{Mmu, pte_normal_rw, map_range}

abbrev pub heap_base : ℕ
heap_base = 0x100000000

abbrev pub heap_max_size : ℕ
heap_max_size = 0x100000

pub record Heap : Type 0 where
  pub bump_ptr : ℕ
  pub heap_end : ℕ
  pub mmu : Mmu

-- How a call ends: with a pointer, or in `panic`, which does not return.
pub data Outcome : Type 0 where
  returned : ℕ → Heap → Outcome
  exhausted : Heap → Outcome
  out_of_frames : Heap → Outcome

unfoldable pub kheap_init : Mmu → Heap
kheap_init m = record { bump_ptr = heap_base; heap_end = heap_base; mmu = m }

-- One round of the loop: a page is mapped at the end of the heap. The result of `map` is not looked at.
abbrev pub grow : Heap → Heap
grow h =
    let r = alloc_frame h.mmu.pmm in
    let m = record h.mmu { pmm = r.1 } in
    record {
      bump_ptr = h.bump_ptr;
      heap_end = u64 (h.heap_end + page_size);
      mmu = (map_range h.heap_end r.0 page_size pte_normal_rw m).1;
    }

-- The allocation after the loop.
abbrev pub take_bytes : ℕ → Heap → Outcome
take_bytes aligned h = returned h.bump_ptr (record h { bump_ptr = u64 (h.bump_ptr + aligned) })

-- The loop `while (heap_end < required_end)`, with at most `fuel` rounds; what follows it runs in the
-- state it leaves.
unfoldable pub grow_to : ℕ → ℕ → ℕ → Heap → Outcome
grow_to zero required_end aligned h = take_bytes aligned h
grow_to (suc fuel) required_end aligned h =
    let r = alloc_frame h.mmu.pmm in
    let rest = grow_to fuel required_end aligned (grow h) in
    if ltb h.heap_end required_end
    then (if r.0 == 0 then out_of_frames (record h { mmu = record h.mmu { pmm = r.1 } }) else rest)
    else take_bytes aligned h

-- `(size + 15) & ~15`
abbrev pub align16 : ℕ → ℕ
align16 size = bit_and (u64 (size + 15)) (not64 15)

unfoldable pub kmalloc : ℕ → Heap → Outcome
kmalloc size h =
    let aligned = align16 size in
    let required_end = u64 (h.bump_ptr + aligned) in
    if ltb (heap_base + heap_max_size) required_end
    then exhausted h
    else grow_to (heap_max_size / page_size) required_end aligned h
