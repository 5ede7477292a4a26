-- ===== src/Disk/Status.antt =====
-- The status that FatFs sees.
use raspberry_pi_gaming_cons.Common.{
  ℕ, ◌≡◌, refl, ◌≢◌, List, some, true, false, ◌==◌, if◌then◌else◌, Bool-cases, inl, inr, arith,
}
use raspberry_pi_gaming_cons.Disk.{
  Driver, Disk, res_parerr, dev_sd, sta_noinit, disk_status, disk_initialize, disk_read, disk_write,
  disk_ioctl,
}

module _ {W : Type 0} (sd : Driver W) where
  -- When `sdio_init` returns, so does `disk_initialize`; a ready drive stays ready for `disk_status` while
  -- the card is in, which does not touch the state, and once the card is out there is no disk.
  pub disk_status-disk_initialize :
      (d : Disk W) (w : W)
      → sd.sdio_init d.world ≡ some (true, w)
      → (disk_initialize sd dev_sd d ≡ some (0, record { init_status = 0; world = w }))
        × (disk_status sd dev_sd (record { init_status = 0; world = w }) ≡ (
            if sd.card_inserted w == 0
            then (3, record { init_status = 3; world = w })
            else (0, record { init_status = 0; world = w })))
  unfolding disk_status disk_initialize
  disk_status-disk_initialize d w ok = (
    rw (disk_initialize, ok) refl,
    elim (Bool-cases (sd.card_inserted w == 0)) [
      | inl out ↦ rw out refl
      | inr stays ↦ rw stays refl
    ],
  )

  -- Whatever is asked of a drive other than the card, the answer is an error and nothing happens.
  pub other_drive :
      (d : Disk W) (pdrv sector count cmd : ℕ) (buff : List ℕ)
      → pdrv ≢ dev_sd
      → (disk_status sd pdrv d ≡ (sta_noinit, d))
        × ((disk_initialize sd pdrv d ≡ some (sta_noinit, d))
            × ((disk_read sd pdrv buff sector count d ≡ some (res_parerr, (buff, d)))
                × ((disk_write sd pdrv buff sector count d ≡ some (res_parerr, d))
                    × (disk_ioctl sd pdrv cmd ≡ res_parerr))))
  unfolding disk_status disk_initialize disk_read disk_write disk_ioctl
  other_drive d pdrv sector count cmd buff other =
      let e : (pdrv == dev_sd) ≡ false = ground arith in rw e (refl, (refl, (refl, (refl, refl))))
