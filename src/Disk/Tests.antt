-- ===== src/Disk/Tests.antt =====
-- The port over the driver of a toy card.
use raspberry_pi_gaming_cons.Common.{ℕ, List, [], ◌∷◌, replicate}
use raspberry_pi_gaming_cons.Sd.Bringup as Bringup
use raspberry_pi_gaming_cons.Sd.Toy.{Toy, counting}
use raspberry_pi_gaming_cons.Disk.{Disk}
use raspberry_pi_gaming_cons.Disk.Requests.{Request, read_sectors, write_sectors}

abbrev mounted : Disk (Bringup.Driver Toy)
mounted = record {
  init_status = 0;
  world = record {
    world = counting;
    base_clock = 0;
    cid = [];
    rca = 1;
    ccs = 0;
    card_inserted = 1;
  };
}

abbrev sevens : List ℕ
sevens = replicate 512 7

abbrev blank : List ℕ
blank = replicate 1024 0

-- Sector 5 is written, and read with the one before it.
abbrev requests : List Request
requests = write_sectors 5 1 sevens ∷ read_sectors 4 2 blank ∷ []
