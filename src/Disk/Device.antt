-- ===== src/Disk/Device.antt =====
-- What the port of src/kernel/fatfs_retarget/diskio.c asks of the driver: an array of bytes, in sectors.
use raspberry_pi_gaming_cons.Common.{
  ℕ, zero, suc, ◌+◌, ◌-◌, ◌*◌, ◌^◌, ◌<◌, ◌≤◌, ◌≡◌, List, [], ◌∷◌, some, Bool, true, ltb, leb, ◌&&◌,
  if◌then◌else◌, length, get_or,
}
use raspberry_pi_gaming_cons.Disk.{Driver}

-- The array with the bytes of `buff` in `count` sectors from `sector` on.
abbrev pub overlay : ℕ → ℕ → List ℕ → (ℕ → ℕ) → ℕ → ℕ
overlay sector count buff f a =
    if leb (sector * 512) a && ltb a ((sector + count) * 512)
    then get_or buff (a - sector * 512) 0
    else f a

-- The buffer with `n` bytes of the array from address `a` on in front, as far as it reaches.
unfoldable pub filled : (ℕ → ℕ) → ℕ → ℕ → List ℕ → List ℕ
filled f a zero buff = buff
filled f a (suc n) [] = []
filled f a (suc n) (x ∷ buff) = f a ∷ filled f (a + 1) n buff

-- The sectors of a request: 1 to 65535 of them, from one of the device on.
abbrev pub InRange : ℕ → ℕ → ℕ → Type 0
InRange capacity sector count = (sector < capacity) × ((0 < count) × (count < 2 ^ 16))

-- A driver that, once it is ready, succeeds at each call in range, reads what was written last at each
-- address, and stays ready.
pub record IsBlockDevice {W : Type 0} (sd : Driver W) (bytes : W → ℕ → ℕ) (ready : W → Bool)
    (capacity : ℕ) : Type 0 where
  pub reads :
      (sector count : ℕ) (buff : List ℕ) (w : W)
      → ready w ≡ true
      → InRange capacity sector count
      → count * 512 ≤ length buff
      → (w' : W) × (sd.sdio_read sector count buff w
          ≡ some (true, (filled (bytes w) (sector * 512) (count * 512) buff, w')))
        × (bytes w' ≡ bytes w)
        × (ready w' ≡ true)
  pub writes :
      (sector count : ℕ) (buff : List ℕ) (w : W)
      → ready w ≡ true
      → InRange capacity sector count
      → ((j : ℕ) → get_or buff j 0 < 256)
      → (w' : W) × (sd.sdio_write sector count buff w ≡ some (true, w'))
        × (bytes w' ≡ overlay sector count buff (bytes w))
        × (ready w' ≡ true)
