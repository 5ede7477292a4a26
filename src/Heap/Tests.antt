-- ===== src/Heap/Tests.antt =====
-- Runs of the heap over an empty set of page tables.
use raspberry_pi_gaming_cons.Common.{[], ◌∷◌}
use raspberry_pi_gaming_cons.Mmu.{Mmu}

abbrev bare : Mmu
bare = record {
  tables = λ _ _. 0;
  l1_table = 0x100000;
  pmm = record { bitmap = 1 ∷ []; phys_mem_start = 0x100000; total_frames = 64 };
}
