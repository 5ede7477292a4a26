-- ===== src/Disk/Card.antt =====
-- The SD driver of src/sd/sd.cpp behind the port of src/kernel/fatfs_retarget/diskio.c.
use raspberry_pi_gaming_cons.Common.{
  ℕ, ◌/◌, ◌%◌, ◌^◌, List, Option, none, some, Bool, ◌==◌, if◌then◌else◌, get_or,
}
use raspberry_pi_gaming_cons.Sd.{Host, word_bytes}
use raspberry_pi_gaming_cons.Sd.Bringup as Bringup
use raspberry_pi_gaming_cons.Sd.Identify as Identify
use raspberry_pi_gaming_cons.Sd.Transfer as Transfer
use raspberry_pi_gaming_cons.Sd.Pio.{IsHealthy}
use raspberry_pi_gaming_cons.Disk.{Driver}

-- The driver with the controller's new state.
abbrev pub after_read :
    {W : Type 0}
    → Bringup.Driver W
    → Option (Bool × (List ℕ × W))
    → Option (Bool × (List ℕ × Bringup.Driver W))
after_read d none = none
after_read d (some r) = some (r.0, (r.1.0, record d { world = r.1.1 }))

abbrev pub after_write :
    {W : Type 0}
    → Bringup.Driver W
    → Option (Bool × (List ℕ × W))
    → Option (Bool × Bringup.Driver W)
after_write d none = none
after_write d (some r) = some (r.0, record d { world = r.1.1 })

-- The driver, whose waits get `fuel` rounds; reads and writes take the CCS that `sdio_init` stored.
abbrev pub sd_driver : {W : Type 0} → Host W → ℕ → Driver (Bringup.Driver W)
sd_driver host fuel = record {
  card_inserted = λ d. d.card_inserted;
  sdio_init = Identify.sdio_init host fuel;
  sdio_read =
      λ lba count buf d. after_read d (Transfer.sdio_read host fuel d.ccs lba count buf d.world);
  sdio_write =
      λ lba count buf d. after_write d (Transfer.sdio_write host fuel d.ccs lba count buf d.world);
}

-- The bytes of words, the lowest byte of each first.
abbrev pub bytes_of : (ℕ → ℕ) → ℕ → ℕ
bytes_of words a = get_or (word_bytes (words (a / 4))) (a % 4) 0

module _ {W : Type 0} {host : Host W} (ok : IsHealthy host) where
  abbrev pub card_bytes : Bringup.Driver W → ℕ → ℕ
  card_bytes d = bytes_of (ok.contents d.world)

  -- `sdio_init` has stored the CCS of the card.
  abbrev pub card_ready : Bringup.Driver W → Bool
  card_ready d = d.ccs == ok.ccs

  -- The sectors that the card's addresses can name.
  abbrev pub card_sectors : ℕ
  card_sectors = if ok.ccs == 0 then 2 ^ 23 else 2 ^ 32
