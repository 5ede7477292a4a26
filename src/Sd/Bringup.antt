-- ===== src/Sd/Bringup.antt =====
-- The globals of src/sd/sd.cpp, and the bring-up of the clock in `_sdio_clock_init`.
use raspberry_pi_gaming_cons.Common.{
  ℕ, zero, suc, ◌≡◌, refl, ap, ◌*◌, ◌/◌, ◌^◌, bit_and, bit_or, List, Option, none, some, Bool, true,
  false, leb, ◌==◌, if◌then◌else◌,
}
use raspberry_pi_gaming_cons.Common.Words.{sub64, not_bits}
use raspberry_pi_gaming_cons.Timer.{target_ticks}
use raspberry_pi_gaming_cons.Sd.{
  Register, Host, divisor_field, wait_cleared, wait_stable, software_reset, clock_control,
  present_state, capabilities, power_control, normal_interrupt_status_enable,
  error_interrupt_status_enable, host_controller_version, pinctrl_emmc_pull, cfg_sd_pin_sel,
}

-- The controller, and the globals of the driver.
pub record Driver (W : Type 0) : Type 0 where
  pub world : W
  pub base_clock : ℕ
  pub cid : List ℕ
  pub rca : ℕ
  pub ccs : ℕ
  pub card_inserted : ℕ

-- Code of the driver; `none` is a wait that goes on for more rounds than its fuel.
abbrev pub Code : Type 0 → Type 0 → Type 0
Code W A = Driver W → Option (A × Driver W)

infixl 5 ◌>>=◌ ◌>>◌
abbrev pub ◌>>=◌ : {W A B : Type 0} → Code W A → (A → Code W B) → Code W B
m >>= f = λ d. elim (m d) [ none ↦ none | some r ↦ f r.0 r.1 ]

-- A step that does not end.
pub bind-none :
    {W A B : Type 0} (m : Code W A) (f : A → Code W B) (d : Driver W)
    → m d ≡ none
    → (m >>= f) d ≡ none
bind-none m f d e = ap (λ o. elim o [ none ↦ none | some r ↦ f r.0 r.1 ]) e

-- A step before one that never ends.
pub bind-endless :
    {W A B : Type 0} (m : Code W A) (f : A → Code W B) (d : Driver W)
    → ((a : A) (d' : Driver W) → f a d' ≡ none)
    → (m >>= f) d ≡ none
bind-endless m f d never = elim (m d) as (λ o. elim o [ none ↦ none | some r ↦ f r.0 r.1 ] ≡ none) [
  | none ↦ refl
  | some r ↦ never r.0 r.1
]

abbrev pub ◌>>◌ : {W B : Type 0} → Code W (Unit {0}) → Code W B → Code W B
m >> k = m >>= λ _. k

abbrev pub give : {W A : Type 0} → A → Code W A
give a d = some (a, d)

-- Code that uses the controller only.
abbrev pub on_host : {W A : Type 0} → (W → Option (A × W)) → Code W A
on_host f d = elim (f d.world) [ none ↦ none | some r ↦ some (r.0, record d { world = r.1 }) ]

abbrev pub changed : {W : Type 0} → (Driver W → Driver W) → Code W (Unit {0})
changed f d = some (tt, f d)

module _ {W : Type 0} (host : Host W) where
  abbrev pub read : Register → Code W ℕ
  read r = on_host (λ w. some (host.mmio_read r w))

  abbrev pub write : Register → ℕ → Code W (Unit {0})
  write r v = on_host (λ w. some (tt, host.mmio_write r v w))

  abbrev pub ticks : Code W ℕ
  ticks = on_host (λ w. some (host.get_ticks w))

  -- A register is read, and written with some bits cleared and others set.
  abbrev pub rewrite16 : Register → ℕ → ℕ → Code W (Unit {0})
  rewrite16 r clear bits = read r >>= λ v. write r (bit_or (bit_and v (not_bits 16 clear)) bits)

  unfoldable pub sdio_pinctrl_init : Code W (Unit {0})
  sdio_pinctrl_init = read pinctrl_emmc_pull >>= λ v.
      write pinctrl_emmc_pull (bit_or (bit_and v (not_bits 32 0xFF0C)) 0xAA08)

  unfoldable pub sdio_cfg_select_sd_pin_timing : Code W (Unit {0})
  sdio_cfg_select_sd_pin_timing =
      read cfg_sd_pin_sel >>= λ v. write cfg_sd_pin_sel (bit_or (bit_and v (not_bits 32 3)) 2)

  -- `_sdio_wait_clock_stable`
  unfoldable pub sdio_wait_clock_stable : ℕ → Code W Bool
  sdio_wait_clock_stable fuel = ticks >>= λ start. on_host (wait_stable host fuel start)

  -- With a stable internal clock: the PLL, and the clock of the card.
  unfoldable pub supply_card : ℕ → Code W Bool
  supply_card fuel = do
    rewrite16 clock_control 0 (2 ^ 3)
    locked ← sdio_wait_clock_stable fuel
    if locked then rewrite16 clock_control 0 (2 ^ 2) >> give true else give false

  -- The divisor, the clock generator and the internal clock.
  unfoldable pub supply_clock : ℕ → ℕ → Code W Bool
  supply_clock fuel base_clock_mhz = do
    rewrite16 clock_control 0xFF00 (divisor_field base_clock_mhz * 2 ^ 8)
    rewrite16 clock_control (2 ^ 5) 0
    rewrite16 clock_control 0 1
    stable ← sdio_wait_clock_stable fuel
    if stable then supply_card fuel else give false

  -- What `_sdio_clock_init` does with a card inserted.
  unfoldable pub power_and_clock : ℕ → Code W Bool
  power_and_clock fuel = do
    caps ← read capabilities
    write power_control 0x0F
    write normal_interrupt_status_enable 0xFFFF
    write error_interrupt_status_enable 0xFFFF
    version ← read host_controller_version
    let mhz = bit_and (caps / 2 ^ 8) 0xFF
    let base_clock_mhz = if mhz == 0 then 200 else mhz
    changed (λ d. record d { base_clock = base_clock_mhz * 1000000 })
    supply_clock fuel base_clock_mhz

  unfoldable pub detect_card : ℕ → Code W Bool
  detect_card fuel = do
    sdio_pinctrl_init
    sdio_cfg_select_sd_pin_timing
    present ← read present_state
    let inserted = bit_and (present / 2 ^ 16) 1
    changed (λ d. record d { card_inserted = inserted })
    if inserted == 0 then give false else power_and_clock fuel

  unfoldable pub sdio_clock_init : ℕ → Code W Bool
  sdio_clock_init fuel = do
    write software_reset 1
    reset_start ← ticks
    cleared ← on_host (wait_cleared host fuel 1 reset_start)
    if cleared then detect_card fuel else give false

  -- `delay_ms`, which takes its start from CNTFRQ_EL0; each round reads the counter.
  unfoldable pub delay_ms : ℕ → ℕ → Code W (Unit {0})
  delay_ms zero n d = none
  delay_ms (suc fuel) n d =
      let r = host.get_ticks d.world in
      let d' = record d { world = r.1 } in
      let rest = delay_ms fuel n d' in
      if leb (sub64 r.0 host.cntfrq) (target_ticks host.cntfrq n) then rest else some (tt, d')
