-- ===== src/Libc.antt =====
-- The system calls of src/kernel/libc_retarget/libc_retarget.cpp. `newlib_lock` brackets the body of
-- `_sbrk`, so a call is one atomic step here; `errno` is one cell, that of the core that calls.
pub mod Break
pub mod Backed
pub mod Growth
mod Tests
use raspberry_pi_gaming_cons.Common.{
  ℕ, zero, suc, ◌+◌, ◌-◌, ◌*◌, ◌/◌, ◌^◌, List, [], ◌∷◌, ◌++◌, Bool, true, false, ltb, leb, ◌==◌,
  ◌||◌, length, if◌then◌else◌,
}
use raspberry_pi_gaming_cons.Common.Words.{u64, sub64}
use raspberry_pi_gaming_cons.Pmm.{page_size, round_up, alloc_frame, free_frame}
use raspberry_pi_gaming_cons.Mmu.{Mmu, pte_normal_rw, map_range, unmap, translate}

abbrev pub newlib_heap_base : ℕ
newlib_heap_base = 0x180000000

abbrev pub newlib_heap_max_size : ℕ
newlib_heap_max_size = 0x38000000

-- The values of newlib's <sys/errno.h> that the calls store.
pub data Errno : Type 0 where
  unset : Errno
  enomem : Errno
  ebadf : Errno
  espipe : Errno
  einval : Errno

pub record Sys : Type 0 where
  pub curr_brk : ℕ
  pub heap_end : ℕ
  pub errno : Errno
  pub mmu : Mmu

-- The globals as they are initialised, over the tables that the kernel has set up.
abbrev pub initial : Mmu → Sys
initial m = record {
  curr_brk = newlib_heap_base;
  heap_end = newlib_heap_base;
  errno = unset;
  mmu = m;
}

-- `(void*)-1`, and `-1` of an `int`
pub data Answer : Type 0 where
  value : ℕ → Answer
  failed : Answer

-- The loop of `_free_sbrk`, with at most `fuel` rounds.
unfoldable pub shrink_to : ℕ → ℕ → Sys → Sys
shrink_to zero bound s = s
shrink_to (suc fuel) bound s =
    let page = sub64 s.heap_end page_size in
    let pa = translate page s.mmu in
    let m = unmap page page_size s.mmu in
    let m' = record m { pmm = free_frame pa m.pmm } in
    let rest = shrink_to fuel bound (record s { heap_end = page; mmu = m' }) in
    if ltb bound s.heap_end then rest else s

-- `required_end` is `curr_brk + incr` in 64 bits.
unfoldable pub free_sbrk : ℕ → Sys → Bool × Sys
free_sbrk required_end s =
    let bound = round_up required_end page_size in
    let shrunk = shrink_to (newlib_heap_max_size / page_size) bound s in
    if ltb required_end newlib_heap_base
    then (false, s)
    else (true, record shrunk { curr_brk = required_end })

-- The loop of `_sbrk`, with at most `fuel` rounds: whether it gets to its end.
unfoldable pub extend_to : ℕ → ℕ → Sys → Bool × Sys
extend_to zero required_end s = (true, s)
extend_to (suc fuel) required_end s =
    let r = alloc_frame s.mmu.pmm in
    let framed = record s.mmu { pmm = r.1 } in
    let mapped = map_range s.heap_end r.0 page_size pte_normal_rw framed in
    let freed = record (mapped.1) { pmm = free_frame r.0 mapped.1.pmm } in
    let rest =
      extend_to fuel required_end
        (record s { heap_end = u64 (s.heap_end + page_size); mmu = mapped.1 }) in
    if ltb s.heap_end required_end
    then (if r.0 == 0
        then (false, record s { errno = enomem; mmu = framed })
        else if mapped.0
        then rest
        else (false, record s { errno = enomem; mmu = freed }))
    else (true, s)

-- The argument of `_sbrk`, a signed 64-bit number.
pub data Increment : Type 0 where
  up : ℕ → Increment
  down : ℕ → Increment

unfoldable pub sbrk : Increment → Sys → Answer × Sys
sbrk (up incr) s =
    let required_end = u64 (s.curr_brk + incr) in
    let r = extend_to (newlib_heap_max_size / page_size) required_end s in
    if incr == 0
    then (value s.curr_brk, s)
    else if ltb (newlib_heap_base + newlib_heap_max_size) required_end
    then (failed, record s { errno = enomem })
    else if r.0
    then (value (r.1.curr_brk), record (r.1) { curr_brk = u64 (r.1.curr_brk + incr) })
    else (failed, r.1)
sbrk (down decr) s =
    let r = free_sbrk (sub64 s.curr_brk decr) s in
    if decr == 0
    then (value s.curr_brk, s)
    else if r.0
    then (value s.curr_brk, r.1)
    else (failed, record (r.1) { errno = enomem; curr_brk = s.curr_brk })

-- `_write`: the bytes handed to `io_putc`, the result, and `errno`.
unfoldable pub write : ℕ → List ℕ → Sys → List ℕ × (Answer × Sys)
write fd buf s =
    if fd == 1 || fd == 2
    then (buf, (value (length buf), s))
    else ([], (failed, record s { errno = ebadf }))

abbrev pub read : ℕ → ℕ → Answer
read fd nbyte = value 0

abbrev pub close : ℕ → Answer
close fildes = if fildes == 1 || fildes == 2 then value 0 else failed

abbrev pub lseek : ℕ → Sys → Answer × Sys
lseek fildes s = (failed, record s { errno = espipe })

-- `_fstat`: whether it reports a character device, the result, and `errno`.
abbrev pub fstat : ℕ → Sys → Bool × (Answer × Sys)
fstat fd s =
    if fd == 1 || fd == 2
    then (true, (value 0, s))
    else (false, (failed, record s { errno = ebadf }))

abbrev pub isatty : ℕ → ℕ
isatty fildes = if fildes == 1 || fildes == 2 then 1 else 0

abbrev pub kill : ℕ → ℕ → Sys → Answer × Sys
kill pid sig s = (failed, record s { errno = einval })

abbrev pub getpid : ℕ
getpid = 1
