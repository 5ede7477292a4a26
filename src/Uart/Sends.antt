-- ===== src/Uart/Sends.antt =====
-- What the driver sends.
use raspberry_pi_gaming_cons.Common.{
  ℕ, ◌^◌, ◌≤◌, ◌<◌, ◌≡◌, ◌⊎◌, bit_and, List, [], ◌∷◌, ◌++◌, true, ◌==◌,
}
use raspberry_pi_gaming_cons.Uart.{uart0_dr, uart0_fr, Device}

-- A line that drains: the transmit FIFO is full for a bounded number of polls at most, a write to the data
-- register sends the byte, and a read of the flags sends nothing.
pub record IsDraining {W : Type 0} (dev : Device W) : Type 0 where
  pub sent : W → List ℕ
  pub polls : W → ℕ
  pub latency : ℕ
  pub bounded : (w : W) → polls w ≤ latency
  pub drains :
      (w : W)
      → ((bit_and (dev.mmio_read uart0_fr w).0 (2 ^ 5) == 0) ≡ true)
        ⊎ (polls (dev.mmio_read uart0_fr w).1 < polls w)
  pub flags_keep : (w : W) → sent (dev.mmio_read uart0_fr w).1 ≡ sent w
  pub sends : (c : ℕ) (w : W) → sent (dev.mmio_write uart0_dr c w) ≡ sent w ++ c ∷ []
