-- ===== src/Sd/NoCard.antt =====
-- `sdio_init` on a controller whose interrupt status stays 0.
use raspberry_pi_gaming_cons.Common.{ℕ, zero, suc, ◌≡◌, refl, none, some}
use raspberry_pi_gaming_cons.Sd.{
  Host, finish, ResponseType, no_response, issue, wait_free, wait_complete, send_command,
  normal_interrupt_status, error_interrupt_status,
}
use raspberry_pi_gaming_cons.Sd.Bringup.{Driver, ◌>>=◌, bind-none, bind-endless, sdio_clock_init}
use raspberry_pi_gaming_cons.Sd.Identify.{
  cmd, send_cmd8, identify_attempts, sdio_identify_stage1, inquire, sdio_init,
}

-- A controller that latches no event, as with every status bit masked.
pub record IsMasked {W : Type 0} (host : Host W) : Type 0 where
  pub no_event : (w : W) → (host.mmio_read normal_interrupt_status w).0 ≡ 0
  pub no_error : (w : W) → (host.mmio_read error_interrupt_status w).0 ≡ 0

module _ {W : Type 0} {host : Host W} (masked : IsMasked host) where
  wait_complete-endless : (fuel : ℕ) (w : W) → wait_complete host fuel w ≡ none
  unfolding wait_complete
  wait_complete-endless zero w = refl
  wait_complete-endless (suc fuel) w =
      let n = host.mmio_read normal_interrupt_status w in
      let e = host.mmio_read error_interrupt_status n.1 in
      rw (masked.no_event w, masked.no_error n.1) (wait_complete-endless fuel e.1)

  send_command-endless :
      (fuel index argument : ℕ) (t : ResponseType) (w : W)
      → send_command host fuel index argument t w ≡ none
  unfolding send_command
  send_command-endless fuel index argument t w =
      elim (wait_free host fuel w)
        as (λ o.
          elim o [
            | none ↦ none
            | some w1 ↦ elim (wait_complete host fuel (issue host index argument t w1)) [
              | none ↦ none
              | some e ↦ finish host fuel t e.0 e.1
            ]
          ]
          ≡ none) [
            | none ↦ refl
            | some w1 ↦ rw (wait_complete-endless fuel (issue host index argument t w1)) refl
          ]

  cmd-endless :
      (fuel index argument : ℕ) (t : ResponseType) (d : Driver W)
      → cmd host fuel index argument t d ≡ none
  cmd-endless fuel index argument t d =
      rw (cmd, send_command-endless fuel index argument t d.world) refl

  stage1-endless : (fuel : ℕ) (d : Driver W) → sdio_identify_stage1 host fuel d ≡ none
  unfolding sdio_identify_stage1 identify_attempts
  stage1-endless fuel d =
      bind-none (cmd host fuel 0 0 no_response)
        (λ idle. send_cmd8 host fuel (identify_attempts host fuel 1)) d
        (cmd-endless fuel 0 0 no_response d)

  -- On a controller that latches no event, `sdio_init` does not end, whatever `_sdio_clock_init` found:
  -- no number of rounds is enough for its waits.
  pub sdio_init-endless : (fuel : ℕ) (d : Driver W) → sdio_init host fuel d ≡ none
  unfolding sdio_init
  sdio_init-endless fuel d =
      bind-endless (sdio_clock_init host fuel)
        (λ clocked. (sdio_identify_stage1 host fuel >>= inquire host fuel)) d
        (λ a d'.
          bind-none (sdio_identify_stage1 host fuel) (inquire host fuel) d'
            (stage1-endless fuel d'))
