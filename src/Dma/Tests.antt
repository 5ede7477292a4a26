-- ===== src/Dma/Tests.antt =====
-- Runs of the DMA arena over page tables that map nothing.
use raspberry_pi_gaming_cons.Common.{◌⊎◌, refl, arith}
use raspberry_pi_gaming_cons.Mmu.Bare.{bare, bare-Implements}
use raspberry_pi_gaming_cons.Dma.{Dma, dma_base, dma_alloc}
use raspberry_pi_gaming_cons.Dma.Arena.{IsValid, Buffer, Refused, dma_alloc-Reserved}

abbrev fresh : Dma
fresh = record { dma_bump_ptr = dma_base; mmu = bare }

fresh-IsValid : IsValid fresh
fresh-IsValid = record { low = omega arith; high = omega arith; whole_pages = refl }

dma_alloc-Reserved_example :
    Buffer 5000 (λ _ _ _. 0) fresh (dma_alloc 5000 fresh)
    ⊎ Refused 5000 fresh (dma_alloc 5000 fresh)
dma_alloc-Reserved_example =
    dma_alloc-Reserved 5000 fresh fresh-IsValid bare-Implements (omega arith) (omega arith)
