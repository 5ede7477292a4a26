-- ===== src/Dma.antt =====
-- The DMA arena of src/kernel/dma/dma.cpp, constants from include/kernel/dma.h. The lock is taken twice
-- in `dma_alloc`; the model runs the calls one after the other, without a call of another core between.
pub mod Arena
mod Tests
use raspberry_pi_gaming_cons.Common.{
  ℕ, zero, suc, ◌+◌, ◌-◌, ◌*◌, ◌/◌, ◌^◌, ltb, ◌==◌, if◌then◌else◌,
}
use raspberry_pi_gaming_cons.Common.Words.{u64, sub64}
use raspberry_pi_gaming_cons.Pmm.{page_size, alloc_frames, free_frame}
use raspberry_pi_gaming_cons.Mmu.{Mmu, map_range, unmap, translate}

abbrev pub dma_base : ℕ
dma_base = 0x140000000

abbrev pub dma_max_size : ℕ
dma_max_size = 0x100000

abbrev pub pte_normal_nc_rw : ℕ
pte_normal_nc_rw = 0x60B

pub record Dma : Type 0 where
  pub dma_bump_ptr : ℕ
  pub mmu : Mmu

abbrev pub page_count : ℕ → ℕ
page_count size = sub64 (u64 (size + page_size)) 1 / page_size

abbrev pub aligned_size : ℕ → ℕ
aligned_size size = u64 (page_count size * page_size)

-- The loop that frees `n` frames from frame `i` of the buffer at `phys`.
unfoldable pub free_run : ℕ → ℕ → ℕ → Mmu → Mmu
free_run zero phys i m = m
free_run (suc n) phys i m =
    free_run n phys (i + 1) (record m { pmm = free_frame (u64 (phys + u64 (i * page_size))) m.pmm })

unfoldable pub dma_reclaim_va : ℕ → ℕ → Dma → Dma
dma_reclaim_va va size d =
    if d.dma_bump_ptr == u64 (va + aligned_size size) then record d { dma_bump_ptr = va } else d

-- The address of the buffer, or 0, and the new state.
unfoldable pub dma_alloc : ℕ → Dma → ℕ × Dma
dma_alloc size d =
    let va = d.dma_bump_ptr in
    let reserved = record d { dma_bump_ptr = u64 (va + aligned_size size) } in
    let r = alloc_frames (page_count size) d.mmu.pmm in
    let framed = record d.mmu { pmm = r.1 } in
    let mapped = map_range va r.0 (aligned_size size) pte_normal_nc_rw framed in
    if ltb (dma_base + dma_max_size) (u64 (va + aligned_size size))
    then (0, d)
    else if r.0 == 0
    then (0, dma_reclaim_va va size (record reserved { mmu = framed }))
    else if mapped.0
    then (va, record reserved { mmu = mapped.1 })
    else (
      0,
      dma_reclaim_va va size (record reserved { mmu = free_run (page_count size) r.0 0 mapped.1 }),
    )

unfoldable pub dma_free : ℕ → ℕ → Dma → Dma
dma_free va size d =
    let phys = translate va d.mmu in
    if phys == 2 ^ 64 - 1
    then d
    else record d { mmu = free_run (page_count size) phys 0 (unmap va (aligned_size size) d.mmu) }
