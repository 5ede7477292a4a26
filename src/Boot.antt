-- ===== src/Boot.antt =====
-- The start of the kernel: src/kernel/kernel.cpp and src/kernel/crt/crt.cpp. What `kernel_main` prints is
-- left out, and so is the shell, which does not return. FatFs, the firmware that turns cores on, the C allocator and
-- VideoCore are arguments.
pub mod Selftest
pub mod Stacks
mod Tests
use raspberry_pi_gaming_cons.Common.{
  ℕ, zero, suc, ◌+◌, List, [], ◌∷◌, Option, none, some, Bool, true, false, not, ◌==◌, ◌||◌, ◌&&◌,
  bit_or, if◌then◌else◌, length,
}
use raspberry_pi_gaming_cons.Common.Words.{u64}
use raspberry_pi_gaming_cons.Mmu.{Mmu}
use raspberry_pi_gaming_cons.Mmu.Setup.{mmu_init}
use raspberry_pi_gaming_cons.Heap.{
  Heap, Outcome, returned, exhausted, out_of_frames, kheap_init, kmalloc,
}
use raspberry_pi_gaming_cons.Dma.{Dma, dma_alloc}
use raspberry_pi_gaming_cons.Render.{Framebuffer}
use raspberry_pi_gaming_cons.Display.{
  Display, display_init, get_resolution, set_resolution, revision_request, size_request,
  resolution_request,
}
use raspberry_pi_gaming_cons.Timer.{Timer, timer_init}
use raspberry_pi_gaming_cons.Interrupts.{Gic, interrupt_init}
use raspberry_pi_gaming_cons.Interrupts.Print.{Piece, puts, put_uint}
use raspberry_pi_gaming_cons.Uart.{Device, uart_init}
use raspberry_pi_gaming_cons.Shell.Files.{FatFs, fr_ok, fa_read, fa_write}

-- The constructors that `.init_array` lists, run in its order.
unfoldable pub crt_init : {S : Type 0} → List (S → S) → S → S
crt_init [] s = s
crt_init (ctor ∷ rest) s = crt_init rest (ctor s)

-- `operator new`, over `malloc`, which gives an address and a new state.
unfoldable pub operator_new : {S : Type 0} → (ℕ → S → ℕ × S) → ℕ → S → ℕ × S
operator_new malloc size s = if size == 0 then malloc 1 s else malloc size s

-- `operator delete`, over `free`.
unfoldable pub operator_delete : {S : Type 0} → (ℕ → S → S) → ℕ → S → S
operator_delete free ptr s = if ptr == 0 then s else free ptr s

-- What a secondary core prints before it waits for ever.
unfoldable pub secondary_main : ℕ → List Piece
secondary_main core_id = puts "Core " ∷ put_uint core_id ∷ puts " has been turned on.\r\n" ∷ []

abbrev pub fa_create_always : ℕ
fa_create_always = 0x08

-- How `sd_selftest` ends.
pub data Verdict : Type 0 where
  not_created : Verdict
  write_failed : Verdict
  not_reopened : Verdict
  mismatch : Verdict
  passed : Verdict

unfoldable pub test_path : List ℕ
test_path = b'/' ∷ b'k' ∷ b'n' ∷ b'l' ∷ b't' ∷ b'e' ∷ b's' ∷ b't' ∷ b'.' ∷ b't' ∷ b'x' ∷ b't' ∷ []

unfoldable pub payload : List ℕ
payload =
    b'r' ∷ b'a' ∷ b's' ∷ b'p' ∷ b'b' ∷ b'e' ∷ b'r' ∷ b'r' ∷ b'y' ∷ b'-' ∷ b'p' ∷ b'i' ∷ b'-' ∷ b'g'
    ∷ b'a' ∷ b'm' ∷ b'i' ∷ b'n' ∷ b'g' ∷ b'-' ∷ b'c' ∷ b'o' ∷ b'n' ∷ b's' ∷ b'o' ∷ b'l' ∷ b'e'
    ∷ b' ' ∷ b'S' ∷ b'D' ∷ b' ' ∷ b's' ∷ b'e' ∷ b'l' ∷ b'f' ∷ b'-' ∷ b't' ∷ b'e' ∷ b's' ∷ b't' ∷ 10
    ∷ []

-- Whether `memcmp` of `n` bytes finds a difference.
unfoldable pub differ : ℕ → List ℕ → List ℕ → Bool
differ zero xs ys = false
differ (suc n) (x ∷ xs) (y ∷ ys) = not (x == y) || differ n xs ys
differ (suc n) [] ys = true
differ (suc n) xs [] = true

module _ {W F D : Type 0} (fs : FatFs W F D) where
  -- The second half of `sd_selftest`: the file is read back.
  unfoldable pub read_back : W → Verdict × W
  read_back w =
      let again = fs.f_open test_path fa_read w in
      let got = fs.f_read again.1.0 63 again.1.1 in
      let bytes = got.1.0 in
      let closed = fs.f_close got.1.1.0 got.1.1.1 in
      if not (again.0 == fr_ok)
      then (not_reopened, again.1.1)
      else if not (got.0 == fr_ok)
          || (not (length bytes == length payload) || differ (length payload) bytes payload)
      then (mismatch, closed)
      else (passed, closed)

  unfoldable pub sd_selftest : W → Verdict × W
  sd_selftest w =
      let file = fs.f_open test_path (bit_or fa_write fa_create_always) w in
      let done = fs.f_write file.1.0 payload file.1.1 in
      let closed = fs.f_close done.1.1.0 done.1.1.1 in
      if not (file.0 == fr_ok)
      then (not_created, file.1.1)
      else if not (done.0 == fr_ok) || not (done.1.0 == length payload)
      then (write_failed, closed)
      else read_back closed

-- The globals of the kernel, and the state W of what is outside of it.
pub record Kernel (W : Type 0) : Type 0 where
  pub heap : Heap
  pub dma_bump_ptr : ℕ
  pub fb : Framebuffer
  pub term_cols : ℕ
  pub term_rows : ℕ
  pub timer : Timer
  pub world : W

-- What the kernel meets: FatFs with `f_mount`, which is `none` where the driver of the card below it waits
-- for ever, the firmware's `psci_cpu_on`, VideoCore, with the requests that it ever answers, the devices, the
-- system registers of the timer, and the address of the code for the other cores.
pub record Outside (W F D : Type 0) : Type 0 where
  pub fs : FatFs W F D
  pub f_mount : W → Option (ℕ × W)
  pub psci_cpu_on : ℕ → ℕ → ℕ → W → W
  pub video_core : List ℕ → List ℕ
  pub answers : List ℕ → Bool
  pub uart : Device W
  pub gic : Gic W
  pub cntfrq : ℕ
  pub start_timer : ℕ → W → W
  pub secondary_entry : ℕ

-- How `kernel_main` gets on: into the shell, into the endless loop of `mmu_init`, into `panic`, or into a
-- wait without end, for the card in `f_mount` or for VideoCore in `_send_command`.
pub data Course (W : Type 0) : Type 0 where
  in_shell : Kernel W → Course W
  no_root_table : Course W
  panicked : Heap → Course W
  mounting : Course W
  no_answer : Kernel W → Course W

module _ {W F D : Type 0} (out : Outside W F D) where
  -- The mount and, after it, the test of the card.
  unfoldable pub mount : W → Option W
  mount w = elim (out.f_mount w) [
    | none ↦ none
    | some r ↦ some (if r.0 == fr_ok then (sd_selftest out.fs r.1).1 else r.1)
  ]

  -- `timer_init` and `interrupt_init`
  unfoldable pub start_interrupts : Kernel W → Kernel W
  start_interrupts k =
      let t = timer_init out.cntfrq k.timer in
      record k { timer = t.0; world = interrupt_init out.gic (out.start_timer t.1 k.world) }

  -- Core `i`, with the top of its stack.
  abbrev pub turn_on : ℕ → ℕ → Heap → Kernel W → Kernel W
  turn_on i ptr h k = record k {
    heap = h;
    world = out.psci_cpu_on i out.secondary_entry (u64 (ptr + 4096)) k.world;
  }

  -- The loop over the other cores, from core `i` on with `rounds` to go; `next` is what follows it.
  unfoldable pub start_cores : ℕ → ℕ → (Kernel W → Course W) → Kernel W → Course W
  start_cores zero i next k = next k
  start_cores (suc rounds) i next k = elim (kmalloc 4096 k.heap) [
    | returned ptr h ↦ start_cores rounds (i + 1) next (turn_on i ptr h k)
    | exhausted h ↦ panicked h
    | out_of_frames h ↦ panicked h
  ]

  -- A request is sent, for which there is a buffer of `size` bytes, and never answered.
  abbrev pub stuck : List ℕ → ℕ → Dma → Bool
  stuck request size d = not ((dma_alloc size d).0 == 0) && not (out.answers request)

  -- The display, from `display_init` to the first `set_resolution`, where VideoCore answers.
  abbrev pub displayed : Kernel W → Kernel W
  displayed k =
      let dma : Dma = record { dma_bump_ptr = k.dma_bump_ptr; mmu = k.heap.mmu } in
      let asked = (get_resolution out.video_core (display_init out.video_core dma).1).1 in
      let set =
        set_resolution out.video_core 1920 1080
          (record { fb = k.fb; term_cols = k.term_cols; term_rows = k.term_rows; dma = asked }) in
      record k {
        heap = record (k.heap) { mmu = set.1.dma.mmu };
        dma_bump_ptr = set.1.dma.dma_bump_ptr;
        fb = set.1.fb;
        term_cols = set.1.term_cols;
        term_rows = set.1.term_rows;
      }

  -- Whether one of the three requests is never answered.
  abbrev pub waits : Kernel W → Bool
  waits k =
      let dma : Dma = record { dma_bump_ptr = k.dma_bump_ptr; mmu = k.heap.mmu } in
      let started = (display_init out.video_core dma).1 in
      let asked = (get_resolution out.video_core started).1 in
      stuck revision_request 32 dma
      || (stuck size_request 32 started || stuck (resolution_request 1920 1080) 152 asked)

  unfoldable pub start_display : Kernel W → Option (Kernel W)
  start_display k = if waits k then none else some (displayed k)

  -- The display, and the shell.
  unfoldable pub show : Kernel W → Course W
  show k = elim (start_display k) [ none ↦ no_answer k | some k' ↦ in_shell k' ]

  -- What follows `mmu_init`, on the tables that it leaves.
  unfoldable pub with_tables : Mmu → Kernel W → Course W
  with_tables m k = elim (mount k.world) [
    | none ↦ mounting
    | some w ↦ start_cores 3 1 show (start_interrupts (record k { heap = kheap_init m; world = w }))
  ]

  -- `kernel_main`: `constructors` are those of `.init_array`, and `kernel_end`, `sctlr` and `memory` are
  -- what `mmu_init` finds.
  unfoldable pub kernel_main :
      List (Kernel W → Kernel W) → ℕ → ℕ → (ℕ → ℕ → ℕ) → Kernel W → Course W
  kernel_main constructors kernel_end sctlr memory k =
      let k1 = crt_init constructors k in
      let k2 = record k1 { world = uart_init out.uart k1.world } in
      elim (mmu_init kernel_end sctlr memory) [
        | none ↦ no_root_table
        | some b ↦ with_tables b.mmu k2
      ]
