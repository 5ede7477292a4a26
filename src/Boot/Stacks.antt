-- ===== src/Boot/Stacks.antt =====
-- The stacks of the other cores, and the order of the start.
use raspberry_pi_gaming_cons.Common.{ℕ, zero, suc, ◌+◌, ◌/◌, ◌%◌, ◌≤◌, ◌≡◌, ◌⊎◌, List, Option, some}
use raspberry_pi_gaming_cons.Pmm.{Pmm, alloc_frame}
use raspberry_pi_gaming_cons.Mmu.{Mmu}
use raspberry_pi_gaming_cons.Mmu.Setup as Setup
use raspberry_pi_gaming_cons.Heap.{
  Heap, Outcome, returned, exhausted, out_of_frames, heap_base, heap_max_size, kmalloc,
}
use raspberry_pi_gaming_cons.Heap.Bump.{IsValid}
use raspberry_pi_gaming_cons.Interrupts.{interrupt_init}
use raspberry_pi_gaming_cons.Uart.{uart_init}
use raspberry_pi_gaming_cons.Boot.{
  Kernel, Outside, Course, in_shell, panicked, no_answer, crt_init, mount, turn_on, start_cores,
}

-- `rounds` cores from core `i` on were turned on, one after the other, each with a stack of its own: 4096
-- bytes that end at an address divisible by 16, the first of them at `low` or later and the last below
-- `high`, which do not overlap.
pub data Started {W : Type 0} (psci_cpu_on : ℕ → ℕ → W → W) : ℕ → ℕ → ℕ → W → ℕ → W → Type 0 where
  all_on : (i low : ℕ) (w : W) → Started psci_cpu_on zero i low w low w
  turned_on :
      (rounds i low ptr mid : ℕ) (w : W) (high : ℕ) (w' : W)
      → low ≤ ptr
      → (ptr + 4096) % 16 ≡ 0
      → ptr + 4096 ≤ mid
      → Started psci_cpu_on rounds (i + 1) mid (psci_cpu_on i (ptr + 4096) w) high w'
      → Started psci_cpu_on (suc rounds) i low w high w'

module _ {W F D : Type 0} (out : Outside W F D) where
  abbrev pub turn : ℕ → ℕ → W → W
  turn i top w = out.psci_cpu_on i out.secondary_entry top w

  -- A call of `kmalloc` for a stack, on a valid heap, that met a state of the frame allocator in which
  -- `alloc_frame` gives 0.
  abbrev pub NoFrame : Heap → Type 0
  NoFrame h =
      (h0 : Heap) × IsValid h0
      × (kmalloc 4096 h0 ≡ out_of_frames h)
      × (p : Pmm) × (alloc_frame p ≡ (0, h.mmu.pmm))

  abbrev pub Running : ℕ → ℕ → (Kernel W → Course W) → Kernel W → Course W → Type 0
  Running rounds i next k course =
      ((k' : Kernel W) × (course ≡ next k')
        × Started turn rounds i k.heap.bump_ptr k.world k'.heap.bump_ptr k'.world
        × IsValid k'.heap)
      ⊎ ((h : Heap) × (course ≡ panicked h) × NoFrame h)

  -- What follows the call of `kmalloc` for core `i`.
  abbrev pub continue : ℕ → ℕ → (Kernel W → Course W) → Kernel W → Outcome → Course W
  continue rounds i next k (returned ptr h) =
      start_cores out rounds (i + 1) next (turn_on out i ptr h k)
  continue rounds i next k (exhausted h) = panicked h
  continue rounds i next k (out_of_frames h) = panicked h

  -- What is outside of the kernel when the cores are turned on, after the constructors and the UART, and
  -- after the mount with the test of the card, which left `w`: the timer and the interrupt controller.
  abbrev pub before_cores : W → W
  before_cores w = interrupt_init out.gic (out.start_timer (out.cntfrq / 10) w)

  -- The mount after the constructors and the UART.
  abbrev pub mounted : List (Kernel W → Kernel W) → Kernel W → Option W
  mounted constructors k = mount out (uart_init out.uart (crt_init constructors k).world)

  -- The cores are started on a new heap; then the shell runs, or VideoCore does not answer.
  abbrev pub Entered : List (Kernel W → Kernel W) → Kernel W → Course W → Type 0
  Entered constructors k course =
      (k' : Kernel W) × ((course ≡ in_shell k') ⊎ (course ≡ no_answer k'))
      × (w : W) × (mounted constructors k ≡ some w)
      × (high : ℕ) × Started turn 3 1 heap_base (before_cores w) high k'.world
      × (high ≤ heap_base + heap_max_size)
