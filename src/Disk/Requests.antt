-- ===== src/Disk/Requests.antt =====
-- Any sequence of reads and writes of the disk, against an array of bytes.
use raspberry_pi_gaming_cons.Common.{
  ℕ, ◌*◌, ◌<◌, ◌≤◌, List, [], ◌∷◌, Option, none, some, length, get_or,
}
use raspberry_pi_gaming_cons.Disk.{Driver, Disk, Result, res_ok, dev_sd, disk_read, disk_write}
use raspberry_pi_gaming_cons.Disk.Device.{InRange, overlay, filled}

pub data Request : Type 0 where
  read_sectors : ℕ → ℕ → List ℕ → Request
  write_sectors : ℕ → ℕ → List ℕ → Request

-- The requests on an array: what it is afterwards, and their results with the buffers they leave.
abbrev pub replay : List Request → (ℕ → ℕ) → ℕ → ℕ
replay [] f = f
replay (read_sectors sector count buff ∷ rs) f = replay rs f
replay (write_sectors sector count buff ∷ rs) f = replay rs (overlay sector count buff f)

abbrev pub replay_results : List Request → (ℕ → ℕ) → List (Result × List ℕ)
replay_results [] f = []
replay_results (read_sectors sector count buff ∷ rs) f =
    (res_ok, filled f (sector * 512) (count * 512) buff) ∷ replay_results rs f
replay_results (write_sectors sector count buff ∷ rs) f =
    (res_ok, buff) ∷ replay_results rs (overlay sector count buff f)

-- Each request is in range; a buffer to read into holds what is read, and one to write holds bytes.
abbrev pub AllFit : ℕ → List Request → Type 0
AllFit capacity [] = Unit
AllFit capacity (read_sectors sector count buff ∷ rs) =
    InRange capacity sector count × ((count * 512 ≤ length buff) × AllFit capacity rs)
AllFit capacity (write_sectors sector count buff ∷ rs) =
    InRange capacity sector count × (((j : ℕ) → get_or buff j 0 < 256) × AllFit capacity rs)

module _ {W : Type 0} (sd : Driver W) where
  -- The requests on the disk, with their results and the buffers they leave.
  unfoldable pub run : List Request → Disk W → Option (List (Result × List ℕ) × Disk W)
  run [] d = some ([], d)
  run (read_sectors sector count buff ∷ rs) d = elim (disk_read sd dev_sd buff sector count d) [
    | none ↦ none
    | some r ↦ elim (run rs r.1.1) [ none ↦ none | some o ↦ some ((r.0, r.1.0) ∷ o.0, o.1) ]
  ]
  run (write_sectors sector count buff ∷ rs) d = elim (disk_write sd dev_sd buff sector count d) [
    | none ↦ none
    | some r ↦ elim (run rs r.1) [ none ↦ none | some o ↦ some ((r.0, buff) ∷ o.0, o.1) ]
  ]
