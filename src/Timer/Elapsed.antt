-- ===== src/Timer/Elapsed.antt =====
-- What the tick comparisons measure.
use raspberry_pi_gaming_cons.Common.{
  ℕ, ◌+◌, ◌*◌, ◌/◌, ◌%◌, ◌^◌, ◌<◌, ◌≡◌, refl, List, ◌∷◌, some, false, leb, arith,
}
use raspberry_pi_gaming_cons.Common.Words.{sub64}
use raspberry_pi_gaming_cons.Timer.{ticks_elapsed_ms, target_ticks, delay_reads}

-- When the counter has advanced by `d` ticks since `start_ticks`, past a wrap of the counter or not,
-- `ticks_elapsed_ms` tells whether `d` has reached `freq / 1000 * ms`, as long as that product fits in
-- 64 bits.
pub ticks_elapsed_ms_lem :
    (cntfrq start_ticks d ms : ℕ)
    → start_ticks < 2 ^ 64
    → d < 2 ^ 64
    → cntfrq / 1000 * ms < 2 ^ 64
    → ticks_elapsed_ms cntfrq ((start_ticks + d) % 2 ^ 64) start_ticks ms
      ≡ leb (cntfrq / 1000 * ms) d
unfolding ticks_elapsed_ms
ticks_elapsed_ms_lem cntfrq start_ticks d ms hs hd ht =
    let target : target_ticks cntfrq ms ≡ cntfrq / 1000 * ms = omega arith in
    let gone : sub64 ((start_ticks + d) % 2 ^ 64) start_ticks ≡ d = omega arith in
    rw (target, gone) refl

-- `delay_ms` measures from the frequency and not from the count at the call: once the counter is past
-- the frequency by more than the target, it returns at its first read, however long the delay asked for.
pub delay_reads-no_wait :
    (cntfrq n count : ℕ) (later : List ℕ)
    → count < 2 ^ 64
    → cntfrq / 1000 * n < 2 ^ 64
    → cntfrq + cntfrq / 1000 * n < count
    → delay_reads cntfrq n (count ∷ later) ≡ some 1
unfolding delay_reads
delay_reads-no_wait cntfrq n count later hc ht past =
    let over : leb (sub64 count cntfrq) (target_ticks cntfrq n) ≡ false = ground arith in
    rw over refl
