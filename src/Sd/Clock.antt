-- ===== src/Sd/Clock.antt =====
-- The clock of the card, and the waits that the timer bounds.
use raspberry_pi_gaming_cons.Common.{
  ℕ, zero, suc, ◌+◌, ◌-◌, ◌*◌, ◌/◌, ◌%◌, ◌^◌, ◌≤◌, ◌<◌, ◌≡◌, refl, ◌∙◌, Option, none, some, Bool,
  true, false, bit_and, leb, ◌==◌, Bool-cases, inl, inr, arith,
}
use raspberry_pi_gaming_cons.Common.Fields.{bit_and_mask}
use raspberry_pi_gaming_cons.Timer.{ticks_elapsed_ms}
use raspberry_pi_gaming_cons.Timer.Elapsed.{ticks_elapsed_ms_lem}
use raspberry_pi_gaming_cons.Sd.{
  Host, Register, software_reset, divisor, divisor_field, wait_cleared, reset_line,
}

-- For a base clock of 1 to 204 MHz, the divisor written to the register gives the fastest clock for the
-- card that does not exceed 400 kHz.
pub divisor_field-fastest :
    (base_clock_mhz : ℕ)
    → 0 < base_clock_mhz
    → base_clock_mhz ≤ 204
    → (base_clock_mhz * 1000000 ≤ 400000 * (2 * divisor_field base_clock_mhz))
      × (400000 * (2 * (divisor_field base_clock_mhz - 1)) < base_clock_mhz * 1000000)
unfolding divisor
divisor_field-fastest base_clock_mhz pos small =
    let e : (base_clock_mhz == 0) ≡ false = ground arith in
    rw
      (
        e,
        bit_and_mask 8 64 (((base_clock_mhz * 1000000) % 2 ^ 64 + 800000 - 1) / 800000)
            (omega arith),
      )
      (omega arith, omega arith)

-- A counter that runs: a value behind the 64 bits that are read, which each reading of the counter
-- advances, and which no step advances by more than 2^32.
pub record Running {W : Type 0} (host : Host W) : Type 0 where
  pub clock : W → ℕ
  pub reading : (w : W) → (host.get_ticks w).0 ≡ clock w % 2 ^ 64
  pub advances : (w : W) → clock w < clock (host.get_ticks w).1
  pub pace : (w : W) → clock (host.get_ticks w).1 ≤ clock w + 2 ^ 32
  pub steady : (r : Register) (w : W) → clock w ≤ clock (host.mmio_read r w).1
  pub quick : (r : Register) (w : W) → clock (host.mmio_read r w).1 ≤ clock w + 2 ^ 32

-- The wait has come to an end.
abbrev pub ended : {W : Type 0} → Option (Bool × W) → Bool
ended none = false
ended (some r) = true

module _ {W : Type 0} {host : Host W} (run : Running host) where
  wait_cleared-ends :
      (fuel bit began : ℕ) (w : W)
      → host.cntfrq / 1000 * 100 < 2 ^ 63
      → began ≤ run.clock w
      → run.clock w ≤ began + host.cntfrq / 1000 * 100 + 2 ^ 33
      → host.cntfrq / 1000 * 100 + began < fuel + run.clock w
      → 0 < fuel
      → ended (wait_cleared host fuel bit (began % 2 ^ 64) w) ≡ true
  unfolding wait_cleared
  wait_cleared-ends zero bit began w small after bounded enough pos = absurd (omega arith)
  wait_cleared-ends (suc fuel) bit began w small after bounded enough pos =
      elim (Bool-cases (bit_and (host.mmio_read software_reset w).0 bit == 0)) [
        | inl clear ↦ rw clear refl
        | inr set ↦
            rw (set, elapsed)
              (elim (Bool-cases (leb (host.cntfrq / 1000 * 100) (run.clock w1 - began))) [
                | inl over ↦ rw over refl
                | inr early ↦ rw early (
                    let next = host.get_ticks w1 in
                    let later = run.advances w1 in
                    let near = run.pace w1 in
                    let still = run.steady software_reset w in
                    wait_cleared-ends fuel bit began next.1 small (omega arith) (ground arith)
                      (omega arith) (ground arith))
              ])
      ]
    where
      w1 : W
      w1 = (host.mmio_read software_reset w).1

      elapsed :
          ticks_elapsed_ms host.cntfrq (host.get_ticks w1).0 (began % 2 ^ 64) 100
          ≡ leb (host.cntfrq / 1000 * 100) (run.clock w1 - began)
      elapsed =
          let now : (host.get_ticks w1).0 ≡ (began % 2 ^ 64 + (run.clock w1 - began)) % 2 ^ 64 =
            run.reading w1 ∙ omega (arith, run.steady software_reset w) in
          rw now (
            ticks_elapsed_ms_lem host.cntfrq (began % 2 ^ 64) (run.clock w1 - began) 100
              (omega arith) (omega (arith, run.quick software_reset w)) (omega arith))

  -- With a counter that runs, the reset of a line ends within as many rounds as 100 ms have ticks, even
  -- if the controller never clears the bit.
  pub reset_line-ends :
      (fuel bit : ℕ) (w : W)
      → host.cntfrq / 1000 * 100 < 2 ^ 63
      → host.cntfrq / 1000 * 100 < fuel
      → ended (reset_line host fuel bit w) ≡ true
  unfolding reset_line
  reset_line-ends fuel bit w small enough =
      let w0 = host.mmio_write software_reset bit w in
      rw (run.reading w0) (
        wait_cleared-ends fuel bit (run.clock w0) (host.get_ticks w0).1 small
          (omega (arith, run.advances w0)) (omega (arith, run.pace w0))
          (omega (arith, run.advances w0)) (omega arith))
