-- ===== src/Pmm.antt =====
-- The physical memory manager: src/kernel/pmm/pmm.cpp and include/kernel/pmm.h.
-- `pmm_lock` brackets each body, so a call is one atomic step here.
pub mod Bitmap
pub mod Valid
pub mod Alloc
pub mod Runs
pub mod Free
mod Tests
use raspberry_pi_gaming_cons.Common.{
  ℕ, zero, suc, ◌+◌, ◌-◌, ◌*◌, ◌/◌, ◌%◌, ◌^◌, bit_and, bit_or, List, Bool, not, Option, none, some,
  ltb, leb, ◌==◌, ◌||◌, if◌then◌else◌, get_or, set, replicate,
}
use raspberry_pi_gaming_cons.Common.Words.{u64, sub64, not64, shl_one}
use raspberry_pi_gaming_cons.Common.Fields.{ctz}

abbrev pub page_size : ℕ
page_size = 4096

abbrev pub phys_mem_end : ℕ
phys_mem_end = 0x3F800000

-- The globals `bitmap`, `phys_mem_start` and `total_frames`. The bitmap is the array of 64-bit words
-- that `pmm_init` clears.
pub record Pmm : Type 0 where
  pub bitmap : List ℕ
  pub phys_mem_start : ℕ
  pub total_frames : ℕ

-- `(value + align - 1) & ~(align - 1)`
unfoldable pub round_up : ℕ → ℕ → ℕ
round_up value align = bit_and (sub64 (u64 (value + align)) 1) (not64 (sub64 align 1))

-- `bitmap[i] |= mask`
abbrev pub or_word : List ℕ → ℕ → ℕ → List ℕ
or_word words i mask = set words i (bit_or (get_or words i 0) mask)

-- The bits of the last word that stand for no frame are marked used.
abbrev pub mask_tail : List ℕ → ℕ → List ℕ
mask_tail words total =
    if total % 64 == 0
    then words
    else or_word words (total / 64) (not64 (sub64 (shl_one (total % 64)) 1))

-- `kernel_end` is the address of the linker's symbol `__kernel_end`.
unfoldable pub pmm_init : ℕ → Pmm
pmm_init kernel_end =
    let bitmap_addr = round_up kernel_end page_size in
    let managed_bytes = sub64 phys_mem_end bitmap_addr in
    let max_frames = managed_bytes / page_size in
    let bitmap_bytes = u64 (u64 (max_frames + 63) / 64 * 8) in
    let start = round_up (u64 (bitmap_addr + bitmap_bytes)) page_size in
    let total = sub64 phys_mem_end start / page_size in
    record {
      bitmap = mask_tail (replicate (bitmap_bytes / 8) 0) total;
      phys_mem_start = start;
      total_frames = total;
    }

-- Frame `idx` in a result: `phys_mem_start + idx * PAGE_SIZE`.
abbrev pub address : Pmm → ℕ → ℕ
address p idx = u64 (p.phys_mem_start + u64 (idx * page_size))

-- The words that the scan of `alloc_frame` visits.
abbrev pub scan_words : Pmm → ℕ
scan_words p = u64 (p.total_frames + 63) / 64

-- The loop of `alloc_frame`, from word `i` with `rounds` words to go.
pub alloc_scan : ℕ → ℕ → Pmm → ℕ × Pmm
alloc_scan zero i p = (0, p)
alloc_scan (suc rounds) i p =
    let word = get_or p.bitmap i 0 in
    let rest = alloc_scan rounds (i + 1) p in
    let bit_index = ctz 64 (not64 word) in
    if word == 2 ^ 64 - 1 then rest else (
      address p (i * 64 + bit_index),
      record p { bitmap = or_word p.bitmap i (shl_one bit_index) },
    )

-- The address of a frame, or 0 when there is none, and the new state.
unfoldable pub alloc_frame : Pmm → ℕ × Pmm
unfolding alloc_scan
alloc_frame p = alloc_scan (scan_words p) 0 p

-- `(bitmap[idx / 64] & (1ULL << (idx % 64))) != 0`
abbrev pub test_bit : List ℕ → ℕ → Bool
test_bit words idx = not (bit_and (get_or words (idx / 64) 0) (shl_one (idx % 64)) == 0)

-- The scanning loop of `alloc_frames`, with `rounds` frames to go: the start of the run it finds.
pub find_run : ℕ → List ℕ → ℕ → ℕ → ℕ → ℕ → Option ℕ
find_run zero words count idx run_start run_len = none
find_run (suc rounds) words count idx run_start run_len =
    let start = if run_len == 0 then idx else run_start in
    let skip = find_run rounds words count (idx + 1) run_start 0 in
    let more = find_run rounds words count (idx + 1) start (run_len + 1) in
    if test_bit words idx then skip else if run_len + 1 == count then some start else more

-- Its marking loop, over `n` frames from `i`.
pub mark_run : ℕ → ℕ → List ℕ → List ℕ
mark_run zero i words = words
mark_run (suc n) i words = mark_run n (i + 1) (or_word words (i / 64) (shl_one (i % 64)))

unfoldable pub alloc_frames : ℕ → Pmm → ℕ × Pmm
unfolding find_run mark_run
alloc_frames count p =
    if count == 0 then (0, p) else elim (find_run p.total_frames p.bitmap count 0 0 0) [
      | none ↦ (0, p)
      | some run_start ↦
          (address p run_start, record p { bitmap = mark_run count run_start p.bitmap })
    ]

-- `bitmap[idx / 64] &= ~(1ULL << (idx % 64))`
abbrev pub clear_bit : List ℕ → ℕ → List ℕ
clear_bit words idx =
    set words (idx / 64) (bit_and (get_or words (idx / 64) 0) (not64 (shl_one (idx % 64))))

unfoldable pub free_frame : ℕ → Pmm → Pmm
free_frame addr p =
    let frame_index = sub64 addr p.phys_mem_start / page_size in
    if ltb addr p.phys_mem_start || leb phys_mem_end addr
    then p
    else if not (addr % page_size == 0)
    then p
    else if leb p.total_frames frame_index
    then p
    else if test_bit p.bitmap frame_index
    then record p { bitmap = clear_bit p.bitmap frame_index }
    else p
