-- ===== src/Timer.antt =====
-- The delays of src/kernel/timer/timer.cpp. The system registers CNTFRQ_EL0 and CNTPCT_EL0 are read
-- from the outside: the first as a number, the second as the counts that successive reads give.
pub mod Elapsed
use raspberry_pi_gaming_cons.Common.{
  ℕ, zero, suc, ◌+◌, ◌*◌, ◌/◌, ◌^◌, List, [], ◌∷◌, Option, none, some, Bool, leb, if◌then◌else◌,
}
use raspberry_pi_gaming_cons.Common.Words.{u64, sub64}

-- The globals `time` and `freq`.
pub record Timer : Type 0 where
  pub time : ℕ
  pub freq : ℕ

-- `timer_init`: the latched frequency, and the value for CNTP_TVAL_EL0.
unfoldable pub timer_init : ℕ → Timer → Timer × ℕ
timer_init cntfrq t = (record t { freq = cntfrq }, cntfrq / 10)

unfoldable pub increment_time : Timer → Timer
increment_time t = record t { time = u64 (t.time + 1) }

abbrev pub get_time : Timer → ℕ
get_time t = t.time

abbrev pub get_freq : Timer → ℕ
get_freq t = t.freq

-- `(freq / 1000) * ms`
abbrev pub target_ticks : ℕ → ℕ → ℕ
target_ticks cntfrq ms = u64 (cntfrq / 1000 * ms)

unfoldable pub ticks_elapsed_ms : ℕ → ℕ → ℕ → ℕ → Bool
ticks_elapsed_ms cntfrq now start_ticks ms = leb (target_ticks cntfrq ms) (sub64 now start_ticks)

-- `delay_ms` against the counts that its reads of the counter give: how many it reads before it
-- returns, or `none` when the counts run out first. It takes its start from CNTFRQ_EL0, as the code does.
unfoldable pub delay_reads : ℕ → ℕ → List ℕ → Option ℕ
delay_reads cntfrq n [] = none
delay_reads cntfrq n (d_time ∷ later) =
    let rest = delay_reads cntfrq n later in
    if leb (sub64 d_time cntfrq) (target_ticks cntfrq n)
    then (elim rest [ none ↦ none | some k ↦ some (suc k) ])
    else some 1
