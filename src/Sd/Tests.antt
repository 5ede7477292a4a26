-- ===== src/Sd/Tests.antt =====
-- Runs of the driver's waits and commands against toy controllers.
use raspberry_pi_gaming_cons.Common.{ℕ, suc, ◌%◌, ◌^◌, ◌≡◌, refl, true, arith}
use raspberry_pi_gaming_cons.Sd.{Host, reset_line}
use raspberry_pi_gaming_cons.Sd.Clock.{Running, ended, reset_line-ends}

-- A controller that answers 6 to every read, so that no reset ever clears; its state is the counter.
abbrev stuck_host : Host ℕ
stuck_host = record {
  mmio_read = λ r w. (6, w);
  mmio_write = λ r v w. w;
  get_ticks = λ w. (w % 2 ^ 64, suc w);
  cntfrq = 54000;
}

stuck_host-Running : Running stuck_host
stuck_host-Running = record {
  clock = λ w. w;
  reading = λ w. refl;
  advances = λ w. omega arith;
  pace = λ w. omega arith;
  steady = λ r w. omega arith;
  quick = λ r w. omega arith;
}

reset_line-ends_example : ended (reset_line stuck_host 5401 2 7) ≡ true
reset_line-ends_example =
    reset_line-ends {host = stuck_host} stuck_host-Running 5401 2 7 (omega arith) (omega arith)
