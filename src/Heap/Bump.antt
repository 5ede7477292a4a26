-- ===== src/Heap/Bump.antt =====
-- What `kmalloc` gives out.
use raspberry_pi_gaming_cons.Common.{ℕ, ◌+◌, ◌*◌, ◌/◌, ◌%◌, ◌^◌, ◌≤◌, ◌<◌, ◌≡◌, refl, ◌∙◌, arith}
use raspberry_pi_gaming_cons.Common.Words.{u64}
use raspberry_pi_gaming_cons.Common.Fields.{bit_and_align}
use raspberry_pi_gaming_cons.Pmm.{Pmm, page_size, alloc_frame}
use raspberry_pi_gaming_cons.Mmu.{Mmu}
use raspberry_pi_gaming_cons.Heap.{
  Heap, Outcome, returned, exhausted, out_of_frames, heap_base, heap_max_size, kheap_init, align16,
}

pub record IsValid (h : Heap) : Type 0 where
  pub low : heap_base ≤ h.bump_ptr
  pub mapped : h.bump_ptr ≤ h.heap_end
  pub high : h.heap_end ≤ heap_base + heap_max_size
  pub whole_pages : h.heap_end % page_size ≡ 0
  pub aligned : h.bump_ptr % 16 ≡ 0

-- The block that a call gives out: it starts where the blocks before it end, is aligned to 16 bytes,
-- has room for the bytes asked for and less than 16 more, and ends where the next block starts, within
-- the region over which the loop has run. A call that runs out of frames has met a state of the frame
-- allocator in which `alloc_frame` gives 0, with the heap still too short.
unfoldable pub Block : ℕ → Heap → Outcome → Type 0
Block size h (returned ptr h') =
    (ptr ≡ h.bump_ptr)
    × ((ptr % 16 ≡ 0)
        × ((ptr + size ≤ h'.bump_ptr) × ((h'.bump_ptr < ptr + size + 16) × IsValid h')))
Block size h (exhausted h') = (h' ≡ h) × (heap_base + heap_max_size < h.bump_ptr + size + 16)
Block size h (out_of_frames h') =
    IsValid h'
    × ((h'.bump_ptr ≡ h.bump_ptr)
        × ((h'.heap_end < h.bump_ptr + size + 16)
            × ((p : Pmm) × (alloc_frame p ≡ (0, h'.mmu.pmm)))))

pub align16_lem : (size : ℕ) → size + 16 < 2 ^ 64 → align16 size ≡ (size + 15) / 16 * 16
align16_lem size h = bit_and_align 4 64 (u64 (size + 15)) (omega arith) (omega arith) ∙ omega arith

-- `kheap_init` starts with a valid, empty heap.
pub kheap_init-IsValid : (m : Mmu) → IsValid (kheap_init m)
unfolding kheap_init
kheap_init-IsValid m = record {
  low = omega arith;
  mapped = omega arith;
  high = omega arith;
  whole_pages = refl;
  aligned = refl;
}
