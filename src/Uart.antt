-- ===== src/Uart.antt =====
-- The PL011 driver of src/kernel/io/io.cpp: `uart_putc`, `uart_getc`,
-- `uart_puts`, `uart_handle_irq` and `uart_init`.
-- `uart_lock` brackets a character, so a call for one is an atomic step here.
pub mod Sends
mod Tests
use raspberry_pi_gaming_cons.Common.{
  ℕ, zero, suc, ◌*◌, ◌/◌, ◌%◌, ◌^◌, bit_and, bit_or, List, [], ◌∷◌, Option, none, some, Bool, true,
  false, not, ◌==◌, if◌then◌else◌,
}

-- The registers of the UART, of its clock and of its two pins.
pub data Port : Type 0 where
  uart0_dr : Port
  uart0_fr : Port
  uart0_icr : Port
  uart0_cr : Port
  uart0_ibrd : Port
  uart0_fbrd : Port
  uart0_lcrh : Port
  uart0_imsc : Port
  clk_uart_div_int : Port
  clk_uart_ctrl : Port
  gpio14_ctrl : Port
  gpio15_ctrl : Port
  gpio14_pad : Port
  gpio15_pad : Port

-- The device, with state W, by `mmio_read` and `mmio_write`.
pub record Device (W : Type 0) : Type 0 where
  pub mmio_read : Port → W → ℕ × W
  pub mmio_write : Port → ℕ → W → W

-- The writes of `uart_init`, in their order.
abbrev pub init_writes : List (Port × ℕ)
init_writes =
    (uart0_cr, 0)
    ∷ (clk_uart_div_int, 1)
    ∷ (clk_uart_ctrl, bit_or (bit_or (2 * 2 ^ 5) (2 ^ 11)) 1)
    ∷ (gpio14_ctrl, 4)
    ∷ (gpio15_ctrl, 4)
    ∷ (gpio14_pad, 0x12)
    ∷ (gpio15_pad, 0xD2)
    ∷ (uart0_icr, 0x7FF)
    ∷ (uart0_ibrd, 27)
    ∷ (uart0_fbrd, 8)
    ∷ (uart0_lcrh, bit_or (bit_or (2 ^ 4) (2 ^ 5)) (2 ^ 6))
    ∷ (uart0_imsc, bit_or 2 (0x7F * 2 ^ 4))
    ∷ (uart0_cr, bit_or (bit_or 1 (2 ^ 8)) (2 ^ 9))
    ∷ []

module _ {W : Type 0} (dev : Device W) where
  write_all : List (Port × ℕ) → W → W
  write_all [] w = w
  write_all (r ∷ rest) w = write_all rest (dev.mmio_write r.0 r.1 w)

  unfoldable pub uart_init : W → W
  unfolding write_all
  uart_init w = write_all init_writes w

  -- The wait for a bit of the flag register to clear; `none` is one of more than `fuel` rounds.
  unfoldable pub wait_flag : ℕ → ℕ → W → Option W
  wait_flag zero bit w = none
  wait_flag (suc fuel) bit w =
      let r = dev.mmio_read uart0_fr w in
      let rest = wait_flag fuel bit r.1 in if bit_and r.0 bit == 0 then some r.1 else rest

  unfoldable pub uart_putc : ℕ → ℕ → W → Option W
  uart_putc fuel c w = elim (wait_flag fuel (2 ^ 5) w) [
    | none ↦ none
    | some w' ↦ some (dev.mmio_write uart0_dr c w')
  ]

  -- The character is the low byte of the data register.
  unfoldable pub uart_getc : ℕ → W → Option (ℕ × W)
  uart_getc fuel w = elim (wait_flag fuel (2 ^ 4) w) [
    | none ↦ none
    | some w' ↦ let r = dev.mmio_read uart0_dr w' in some (r.0 % 2 ^ 8, r.1)
  ]

  -- The bytes of the string, without its terminating zero.
  unfoldable pub uart_puts : ℕ → List ℕ → W → Option W
  uart_puts fuel [] w = some w
  uart_puts fuel (c ∷ str) w = elim (uart_putc fuel c w) [
    | none ↦ none
    | some w' ↦ uart_puts fuel str w'
  ]

  -- Five reads of the data register, of which four are tests and the last is echoed.
  unfoldable pub uart_handle_irq : ℕ → W → Option W
  uart_handle_irq fuel w =
      let r1 = dev.mmio_read uart0_dr w in
      let r2 = dev.mmio_read uart0_dr r1.1 in
      let r3 = dev.mmio_read uart0_dr r2.1 in
      let r4 = dev.mmio_read uart0_dr r3.1 in
      let r5 = dev.mmio_read uart0_dr r4.1 in
      let tests =
        bit_or (bit_or (bit_or (bit_and r1.0 8) (bit_and r2.0 9)) (bit_and r3.0 10))
          (bit_and r4.0 11) in
      if not (tests == 0) then some r4.1 else elim (uart_putc fuel (bit_and r5.0 0xFF) r5.1) [
        | none ↦ none
        | some w' ↦ some (dev.mmio_write uart0_icr 0x7FF w')
      ]
