-- ===== src/Libc/Tests.antt =====
-- Runs of the system calls.
use raspberry_pi_gaming_cons.Common.{◌+◌, ◌*◌, ◌<◌, ◌≤◌, ◌≢◌, ◌≡◌, refl, [], ◌∷◌, some, arith}
use raspberry_pi_gaming_cons.Common.Fields.{ctz}
use raspberry_pi_gaming_cons.Pmm.{page_size, alloc_frame}
use raspberry_pi_gaming_cons.Mmu.{translate, map_range, map_from, map_page, get_or_alloc_table}
use raspberry_pi_gaming_cons.Mmu.Setup.{Boot, mmu_init}
use raspberry_pi_gaming_cons.Mmu.Bare.{bare, bare-Implements}
use raspberry_pi_gaming_cons.Libc.Backed.{Backed}
use raspberry_pi_gaming_cons.Libc.Growth.{sbrk-Backed, translate-Backed, mmu_init-Backed}
use raspberry_pi_gaming_cons.Libc.{
  initial, extend_to, Sys, value, unset, up, sbrk, newlib_heap_base, write,
}
use raspberry_pi_gaming_cons.Libc.Break.{IsValid}

abbrev started : Sys
started = record {
  curr_brk = newlib_heap_base + 5000;
  heap_end = newlib_heap_base + 8192;
  errno = unset;
  mmu = record {
    tables = λ _ _. 0;
    l1_table = 0x100000;
    pmm = record { bitmap = 1 ∷ []; phys_mem_start = 0x100000; total_frames = 64 };
  };
}

started-IsValid : IsValid started
started-IsValid = record {
  low = omega arith;
  covered = omega arith;
  high = omega arith;
  whole_pages = refl;
}

stdout_ok : (write 1 (b'a' ∷ b'b' ∷ []) started).1.0 ≡ value 2
unfolding write
stdout_ok = refl

-- A heap without pages, over tables that map nothing.
abbrev empty : Sys
empty = record {
  curr_brk = newlib_heap_base;
  heap_end = newlib_heap_base;
  errno = unset;
  mmu = bare;
}

empty-IsValid : IsValid empty
empty-IsValid = record {
  low = omega arith;
  covered = omega arith;
  high = omega arith;
  whole_pages = refl;
}

empty-Backed : Backed empty
empty-Backed = record {
  view = λ _ _ _. 0;
  frame = λ _. 0;
  implements = bare-Implements;
  framed = record {
    mapped = λ va lo hi. absurd (omega arith);
    inside = λ n lo hi. absurd (omega arith);
    own = λ n k lo lo' hi hi' e. absurd (omega arith);
  };
}

extended : (sbrk (up 100) empty).0 ≡ value newlib_heap_base
unfolding sbrk extend_to alloc_frame ctz map_range map_from map_page get_or_alloc_table
extended = refl

sbrk-Backed_example : Backed (sbrk (up 100) empty).1
sbrk-Backed_example =
    sbrk-Backed 100 newlib_heap_base empty empty-IsValid (omega arith) empty-Backed extended

grown_break : (sbrk (up 100) empty).1.curr_brk ≡ newlib_heap_base + 100
unfolding sbrk extend_to alloc_frame ctz map_range map_from map_page get_or_alloc_table
grown_break = refl

grown_end : (sbrk (up 100) empty).1.heap_end ≡ newlib_heap_base + 4096
unfolding sbrk extend_to alloc_frame ctz map_range map_from map_page get_or_alloc_table
grown_end = refl

grown-IsValid : IsValid (sbrk (up 100) empty).1
grown-IsValid = record {
  low = omega (arith, grown_break);
  covered = omega (arith, grown_break, grown_end);
  high = omega (arith, grown_end);
  whole_pages = omega (arith, grown_end);
}

grown-Backed : Backed (sbrk (up 100) empty).1
grown-Backed =
    sbrk-Backed 100 newlib_heap_base empty empty-IsValid (omega arith) empty-Backed extended

translate-Backed_example :
    ((sbrk (up 100) empty).1.mmu.pmm.phys_mem_start
      ≤ translate (newlib_heap_base + 7) (sbrk (up 100) empty).1.mmu)
    × ((translate (newlib_heap_base + 7) (sbrk (up 100) empty).1.mmu
          < (sbrk (up 100) empty).1.mmu.pmm.phys_mem_start
            + (sbrk (up 100) empty).1.mmu.pmm.total_frames * page_size)
        × (translate (newlib_heap_base + 7) (sbrk (up 100) empty).1.mmu
            ≢ translate newlib_heap_base (sbrk (up 100) empty).1.mmu))
translate-Backed_example =
    translate-Backed (sbrk (up 100) empty).1 (newlib_heap_base + 7) newlib_heap_base grown-IsValid
      grown-Backed (omega arith) (omega (arith, grown_end)) (omega arith) (omega (arith, grown_end))
      (λ e. omega arith)

mmu_init-Backed_example :
    (boot : Boot) × (mmu_init 0x100000 0 (λ _ _. 0) ≡ some boot)
    × IsValid (initial boot.mmu)
    × Backed (initial boot.mmu)
mmu_init-Backed_example = mmu_init-Backed 0x100000 0 (λ _ _. 0) (omega arith) (omega arith)
