-- ===== src/Disk.antt =====
-- The port of FatFs to the card: src/kernel/fatfs_retarget/diskio.c.
pub mod Status
pub mod Device
pub mod Requests
pub mod Card
mod Tests
use raspberry_pi_gaming_cons.Common.{
  ℕ, zero, suc, bit_or, List, [], Option, none, some, Bool, true, false, not, ◌==◌, if◌then◌else◌,
}

-- The driver behind it, over a state W of the card and its controller; `none` is a call that goes on for
-- longer than its fuel. A read gives the buffer as it leaves it.
pub record Driver (W : Type 0) : Type 0 where
  pub card_inserted : W → ℕ
  pub sdio_init : W → Option (Bool × W)
  pub sdio_read : ℕ → ℕ → List ℕ → W → Option (Bool × (List ℕ × W))
  pub sdio_write : ℕ → ℕ → List ℕ → W → Option (Bool × W)

abbrev pub dev_sd : ℕ
dev_sd = 0

-- DRESULT
pub data Result : Type 0 where
  res_ok : Result
  res_error : Result
  res_wrprt : Result
  res_notrdy : Result
  res_parerr : Result

abbrev pub sta_noinit : ℕ
sta_noinit = 1

abbrev pub sta_nodisk : ℕ
sta_nodisk = 2

abbrev pub ctrl_sync : ℕ
ctrl_sync = 0

pub record Disk (W : Type 0) : Type 0 where
  pub init_status : ℕ
  pub world : W

module _ {W : Type 0} (sd : Driver W) where
  unfoldable pub disk_status : ℕ → Disk W → ℕ × Disk W
  disk_status pdrv d =
      let d' =
        if sd.card_inserted d.world == 0
        then record d { init_status = bit_or sta_noinit sta_nodisk }
        else d in
      if not (pdrv == dev_sd) then (sta_noinit, d) else (d'.init_status, d')

  -- What `disk_initialize` makes of the result of `sdio_init`.
  abbrev pub init_result : Bool × W → ℕ × Disk W
  init_result r =
      let status =
        if r.0
        then 0
        else if sd.card_inserted r.1 == 0
        then bit_or sta_noinit sta_nodisk
        else sta_noinit in
      (status, record { init_status = status; world = r.1 })

  unfoldable pub disk_initialize : ℕ → Disk W → Option (ℕ × Disk W)
  disk_initialize pdrv d =
      if not (pdrv == dev_sd)
      then some (sta_noinit, d)
      else elim (sd.sdio_init d.world) [ none ↦ none | some r ↦ some (init_result r) ]

  abbrev pub verdict : Bool → Result
  verdict ok = if not ok then res_error else res_ok

  -- The result and `buff`.
  unfoldable pub disk_read : ℕ → List ℕ → ℕ → ℕ → Disk W → Option (Result × (List ℕ × Disk W))
  disk_read pdrv buff sector count d =
      if not (pdrv == dev_sd)
      then some (res_parerr, (buff, d))
      else elim (sd.sdio_read sector count buff d.world) [
        | none ↦ none
        | some r ↦ some (verdict r.0, (r.1.0, record d { world = r.1.1 }))
      ]

  unfoldable pub disk_write : ℕ → List ℕ → ℕ → ℕ → Disk W → Option (Result × Disk W)
  disk_write pdrv buff sector count d =
      if not (pdrv == dev_sd)
      then some (res_parerr, d)
      else elim (sd.sdio_write sector count buff d.world) [
        | none ↦ none
        | some r ↦ some (verdict r.0, record d { world = r.1 })
      ]

  unfoldable pub disk_ioctl : ℕ → ℕ → Result
  disk_ioctl pdrv cmd =
      if not (pdrv == dev_sd)
      then res_parerr
      else if not (cmd == ctrl_sync)
      then res_parerr
      else res_ok
