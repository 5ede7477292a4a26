-- ===== src/Sd/ToyTests.antt =====
-- Blocks read from and written to a toy card, and a controller that latches nothing.
use raspberry_pi_gaming_cons.Common.{ℕ, ◌≡◌, refl, List, [], replicate, none}
use raspberry_pi_gaming_cons.Sd.{Host}
use raspberry_pi_gaming_cons.Sd.Identify.{sdio_init}
use raspberry_pi_gaming_cons.Sd.NoCard.{sdio_init-endless}
use raspberry_pi_gaming_cons.Sd.Toy.{Toy}

abbrev block : List ℕ
block = replicate 512 7

abbrev blank : List ℕ
blank = replicate 512 0

-- A controller that answers 0 to every read.
abbrev silent_host : Host ℕ
silent_host = record {
  mmio_read = λ r w. (0, w);
  mmio_write = λ r v w. w;
  get_ticks = λ w. (0, w);
  cntfrq = 54000000;
}

sdio_init-endless_example :
    sdio_init silent_host 1000
      (record { world = 0; base_clock = 0; cid = []; rca = 0; ccs = 0; card_inserted = 0 })
    ≡ none
sdio_init-endless_example =
    sdio_init-endless {host = silent_host} (record { no_event = λ w. refl; no_error = λ w. refl })
      1000 (record { world = 0; base_clock = 0; cid = []; rca = 0; ccs = 0; card_inserted = 0 })
