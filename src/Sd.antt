-- ===== src/Sd.antt =====
-- Commands and waits of the SD driver, src/sd/sd.cpp and include/sd/sd.h, over a host controller that
-- is an argument. Diagnostic output is left out.
pub mod Command
pub mod Clock
pub mod Data
pub mod Transfer
pub mod Pio
pub mod Stored
pub mod Blocks
pub mod Media
pub mod Bringup
pub mod Identify
pub mod NoCard
mod Tests
mod ToyTests
pub mod Toy
use raspberry_pi_gaming_cons.Common.{
  ℕ, zero, suc, ◌+◌, ◌-◌, ◌*◌, ◌/◌, ◌%◌, ◌^◌, bit_and, bit_or, List, [], ◌∷◌, get_or, Option, none,
  some, Bool, true, false, not, ◌==◌, ◌&&◌, ◌||◌, if◌then◌else◌,
}
use raspberry_pi_gaming_cons.Common.Words.{u64}
use raspberry_pi_gaming_cons.Timer.{ticks_elapsed_ms}

-- The registers that the modelled part reads and writes.
pub data Register : Type 0 where
  software_reset : Register
  clock_control : Register
  present_state : Register
  argument_low : Register
  argument_high : Register
  command : Register
  normal_interrupt_status : Register
  error_interrupt_status : Register
  response0 : Register
  response2 : Register
  response4 : Register
  response6 : Register
  block_size : Register
  block_count : Register
  transfer_mode : Register
  buffer_data : Register
  capabilities : Register
  power_control : Register
  normal_interrupt_status_enable : Register
  error_interrupt_status_enable : Register
  host_controller_version : Register
  host_control_2 : Register
  pinctrl_emmc_pull : Register
  cfg_sd_pin_sel : Register

-- A host controller with state W: its registers, read and written by the `mmio_` functions of each
-- width, and the counter and frequency of the timer.
pub record Host (W : Type 0) : Type 0 where
  pub mmio_read : Register → W → ℕ × W
  pub mmio_write : Register → ℕ → W → W
  pub get_ticks : W → ℕ × W
  pub cntfrq : ℕ

-- SDCommandStatus
pub data Status : Type 0 where
  success : Status
  timeout : Status
  crc_error : Status
  index_error : Status
  not_expected : Status
  data_timeout_error : Status
  data_crc_error : Status
  data_end_bit_error : Status

-- SDResponseType
pub data ResponseType : Type 0 where
  no_response : ResponseType
  r1 : ResponseType
  r1b : ResponseType
  r2 : ResponseType
  r3 : ResponseType
  r4 : ResponseType
  r6 : ResponseType
  r7 : ResponseType

-- The bits that the switch on the response type adds.
abbrev pub response_bits : ResponseType → ℕ
response_bits no_response = 0
response_bits r1 = bit_or (bit_or (2 ^ 4) (2 ^ 3)) 2
response_bits r1b = bit_or (bit_or (2 ^ 4) (2 ^ 3)) 3
response_bits r2 = bit_or (2 ^ 3) 1
response_bits r3 = 2
response_bits r4 = 2
response_bits r6 = bit_or (bit_or (2 ^ 4) (2 ^ 3)) 2
response_bits r7 = bit_or (bit_or (2 ^ 4) (2 ^ 3)) 2

abbrev pub expects_response : ResponseType → Bool
expects_response no_response = false
expects_response _ = true

unfoldable pub command_val : ℕ → ResponseType → ℕ
command_val cmd response_type = bit_or (bit_and cmd 0x3F * 2 ^ 8) (response_bits response_type)

-- The status for a value of ERROR_INTERRUPT_STATUS that is not zero.
unfoldable pub classify : ℕ → Status
classify error_status =
    if not (bit_and error_status 2 == 0)
    then crc_error
    else if not (bit_and error_status 8 == 0)
    then index_error
    else timeout

-- The status for an error in the data phase.
unfoldable pub classify_data : ℕ → Status
classify_data error_status =
    if not (bit_and error_status (2 ^ 5) == 0)
    then data_crc_error
    else if not (bit_and error_status (2 ^ 6) == 0)
    then data_end_bit_error
    else data_timeout_error

-- The four bytes that a word of the data port is stored as.
unfoldable pub word_bytes : ℕ → List ℕ
word_bytes word =
    bit_and word 0xFF
    ∷ bit_and (word / 2 ^ 8) 0xFF
    ∷ bit_and (word / 2 ^ 16) 0xFF
    ∷ bit_and (word / 2 ^ 24) 0xFF
    ∷ []

-- The word that goes to the data port for four bytes of the buffer.
unfoldable pub bytes_word : List ℕ → ℕ
bytes_word buf =
    bit_or (bit_or (bit_or (get_or buf 0 0) (get_or buf 1 0 * 2 ^ 8)) (get_or buf 2 0 * 2 ^ 16))
      (get_or buf 3 0 * 2 ^ 24)

-- The divisor of the clock for a base clock in MHz, and the field that it is written to.
unfoldable pub divisor : ℕ → ℕ
divisor base_clock_mhz =
    let base_clock = u64 ((if base_clock_mhz == 0 then 200 else base_clock_mhz) * 1000000) in
    (base_clock + 800000 - 1) / 800000

abbrev pub divisor_field : ℕ → ℕ
divisor_field base_clock_mhz = bit_and (divisor base_clock_mhz) 0xFF

module _ {W : Type 0} (host : Host W) where
  -- The wait of `_sdio_reset_cmd_line` and `_sdio_reset_dat_line` for their bit to clear, with at most
  -- `fuel` rounds: whether it cleared in 100 ms.
  unfoldable pub wait_cleared : ℕ → ℕ → ℕ → W → Option (Bool × W)
  wait_cleared zero bit start w = none
  wait_cleared (suc fuel) bit start w =
      let r = host.mmio_read software_reset w in
      let t = host.get_ticks r.1 in
      let rest = wait_cleared fuel bit start t.1 in
      if bit_and r.0 bit == 0
      then some (true, r.1)
      else if ticks_elapsed_ms host.cntfrq t.0 start 100
      then some (false, t.1)
      else rest

  -- `_sdio_reset_cmd_line` for the bit 2, `_sdio_reset_dat_line` for the bit 4
  unfoldable pub reset_line : ℕ → ℕ → W → Option (Bool × W)
  reset_line fuel bit w =
      let t = host.get_ticks (host.mmio_write software_reset bit w) in wait_cleared fuel bit t.0 t.1

  -- `_sdio_wait_clock_stable`, from the loop on
  unfoldable pub wait_stable : ℕ → ℕ → W → Option (Bool × W)
  wait_stable zero start w = none
  wait_stable (suc fuel) start w =
      let r = host.mmio_read clock_control w in
      let t = host.get_ticks r.1 in
      let rest = wait_stable fuel start t.1 in
      if not (bit_and (r.0 / 2) 1 == 0)
      then some (true, r.1)
      else if ticks_elapsed_ms host.cntfrq t.0 start 150
      then some (false, t.1)
      else rest

  -- The wait for the CMD line to be free.
  unfoldable pub wait_free : ℕ → W → Option W
  wait_free zero w = none
  wait_free (suc fuel) w =
      let r = host.mmio_read present_state w in
      let rest = wait_free fuel r.1 in if bit_and r.0 1 == 1 then rest else some r.1

  -- The wait for Command Complete or an error: the value of ERROR_INTERRUPT_STATUS it ends with.
  unfoldable pub wait_complete : ℕ → W → Option (ℕ × W)
  wait_complete zero w = none
  wait_complete (suc fuel) w =
      let n = host.mmio_read normal_interrupt_status w in
      let e = host.mmio_read error_interrupt_status n.1 in
      let rest = wait_complete fuel e.1 in if bit_and n.0 1 == 0 && e.0 == 0 then rest else some e

  -- What follows the wait: the status, the response if there is one, and the state.
  unfoldable pub finish : ℕ → ResponseType → ℕ → W → Option (Status × (Option ℕ × W))
  finish fuel response_type error_status w =
      let cleared = host.mmio_write error_interrupt_status error_status w in
      let done = host.mmio_write normal_interrupt_status 1 w in
      let r = host.mmio_read response0 done in
      if not (error_status == 0)
      then elim (reset_line fuel 2 cleared) [
        | none ↦ none
        | some q ↦ some (classify error_status, (none, q.1))
      ]
      else if expects_response response_type
      then some (success, (some r.0, r.1))
      else some (success, (none, done))

  -- The writes that issue a command.
  abbrev pub issue : ℕ → ℕ → ResponseType → W → W
  issue cmd argument response_type w =
      let w1 = host.mmio_write argument_low (bit_and argument 0xFFFF) w in
      let w2 = host.mmio_write argument_high (bit_and (argument / 2 ^ 16) 0xFFFF) w1 in
      host.mmio_write command (command_val cmd response_type) w2

  -- `_send_command`; `none` is a wait that goes on for more than `fuel` rounds.
  unfoldable pub send_command : ℕ → ℕ → ℕ → ResponseType → W → Option (Status × (Option ℕ × W))
  send_command fuel cmd argument response_type w = elim (wait_free fuel w) [
    | none ↦ none
    | some w1 ↦ elim (wait_complete fuel (issue cmd argument response_type w1)) [
      | none ↦ none
      | some e ↦ finish fuel response_type e.0 e.1
    ]
  ]

  -- What the second `_send_command` does after CMD55, by its status and response.
  unfoldable pub after_cmd55 :
      ℕ → ℕ → ℕ → ResponseType → Status × (Option ℕ × W) → Option (Status × (Option ℕ × W))
  after_cmd55 fuel cmd argument response_type (crc_error, r) = some (crc_error, (none, r.1))
  after_cmd55 fuel cmd argument response_type (index_error, r) = some (index_error, (none, r.1))
  after_cmd55 fuel cmd argument response_type (timeout, r) = some (timeout, (none, r.1))
  after_cmd55 fuel cmd argument response_type (st, (none, w)) = some (not_expected, (none, w))
  after_cmd55 fuel cmd argument response_type (st, (some response, w)) =
      if bit_and (response / 2 ^ 5) 1 == 0
      then some (not_expected, (none, w))
      else send_command fuel cmd argument response_type w

  -- `_send_command` of an application command
  unfoldable pub send_app_command : ℕ → ℕ → ℕ → ResponseType → W → Option (Status × (Option ℕ × W))
  send_app_command fuel cmd argument response_type w = elim (send_command fuel 55 0 r1 w) [
    | none ↦ none
    | some r ↦ after_cmd55 fuel cmd argument response_type r
  ]
