-- ===== src/Interrupts.antt =====
-- The setup of the interrupt controller, the exception report and the interrupt handler of
-- src/kernel/interrupts/interrupts.cpp. Interrupts/Print is what the handlers of exceptions print.
pub mod Report
pub mod Print
pub mod Dump
mod Tests
use raspberry_pi_gaming_cons.Common.{
  ℕ, zero, suc, ◌+◌, ◌/◌, ◌^◌, bit_and, bit_or, List, [], ◌∷◌, Option, none, some, not, ◌==◌, ◌||◌,
  if◌then◌else◌,
}
use raspberry_pi_gaming_cons.Common.Words.{u64}
use raspberry_pi_gaming_cons.Timer.{Timer, increment_time}

-- The cases of the switch on the exception class.
pub data Class : Type 0 where
  instruction_abort_lower : Class
  instruction_abort_same : Class
  data_abort_lower : Class
  data_abort_same : Class
  illegal_state : Class
  system_call : Class
  breakpoint : Class
  unexpected : ℕ → Class

-- `(esr >> 26) & 0x3F`, and the fault status within `esr & 0x1FFFFFF`
abbrev pub exception_class : ℕ → ℕ
exception_class esr = bit_and (esr / 2 ^ 26) 0x3F

abbrev pub fault_status : ℕ → ℕ
fault_status esr = bit_and (bit_and esr 0x1FFFFFF) 0x3F

unfoldable pub decode : ℕ → Class
decode esr =
    let ec = exception_class esr in
    if ec == 0x20
    then instruction_abort_lower
    else if ec == 0x21
    then instruction_abort_same
    else if ec == 0x24
    then data_abort_lower
    else if ec == 0x25
    then data_abort_same
    else if ec == 0x0E
    then illegal_state
    else if ec == 0x15
    then system_call
    else if ec == 0x3C
    then breakpoint
    else unexpected ec

abbrev pub max_backtrace_depth : ℕ
max_backtrace_depth = 32

-- The loop of the backtrace over the words in memory, with `rounds` frames to go: the return addresses
-- that it prints.
unfoldable pub frames_from : ℕ → (ℕ → ℕ) → ℕ → List ℕ
frames_from zero mem fp = []
frames_from (suc rounds) mem fp =
    let rest = frames_from rounds mem (mem fp) in
    if fp == 0 || not (bit_and fp 0xF == 0) then [] else mem (u64 (fp + 8)) ∷ rest

unfoldable pub backtrace : (ℕ → ℕ) → ℕ → List ℕ
backtrace mem fp = frames_from max_backtrace_depth mem fp

-- `handle_interrupt_requests` for a value of GICC_IAR: the new timer, the value written to
-- CNTP_TVAL_EL0 if any, and the value written to GICC_EOIR.
unfoldable pub handle_interrupt_requests : ℕ → Timer → Timer × (Option ℕ × ℕ)
handle_interrupt_requests iar t =
    if bit_and iar 0x3FF == 30
    then (increment_time t, (some (t.freq / 10), iar))
    else (t, (none, iar))

-- The registers of the GIC that `interrupt_init` reads and writes.
pub data GicRegister : Type 0 where
  gicd_ctlr : GicRegister
  gicd_isenabler0 : GicRegister
  gicc_ctlr : GicRegister
  gicc_pmr : GicRegister

-- The controller, with state W, by `mmio_read` and `mmio_write`.
pub record Gic (W : Type 0) : Type 0 where
  pub mmio_read : GicRegister → W → ℕ × W
  pub mmio_write : GicRegister → ℕ → W → W

-- The distributor is off while the timer's interrupt is enabled.
unfoldable pub interrupt_init : {W : Type 0} → Gic W → W → W
interrupt_init gic w =
    let off = gic.mmio_write gicd_ctlr 0 w in
    let enabled = gic.mmio_read gicd_isenabler0 off in
    let timer = gic.mmio_write gicd_isenabler0 (bit_or enabled.0 (2 ^ 30)) enabled.1 in
    let on = gic.mmio_write gicd_ctlr 1 timer in
    gic.mmio_write gicc_ctlr 1 (gic.mmio_write gicc_pmr 0xFF on)
