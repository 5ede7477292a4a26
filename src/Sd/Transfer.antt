-- ===== src/Sd/Transfer.antt =====
-- Data commands: `_send_data_command`, `sdio_read` and `sdio_write` of src/sd/sd.cpp.
use raspberry_pi_gaming_cons.Common.{
  ℕ, zero, suc, ◌+◌, ◌*◌, ◌/◌, ◌%◌, ◌^◌, bit_and, bit_or, List, [], ◌∷◌, drop, set, Option, none,
  some, Bool, true, false, not, ltb, ◌==◌, ◌&&◌, if◌then◌else◌,
}
use raspberry_pi_gaming_cons.Common.Words.{u32, not_bits}
use raspberry_pi_gaming_cons.Sd.{
  Host, Status, success, ResponseType, r1, command_val, classify, classify_data, word_bytes,
  bytes_word, expects_response, reset_line, wait_complete, argument_low, argument_high, command,
  present_state, normal_interrupt_status, error_interrupt_status, response0, block_size,
  block_count, transfer_mode, buffer_data,
}

-- How a data command ends: the status, the response if one was read, the buffer and the state.
pub record Ended (W : Type 0) : Type 0 where
  pub status : Status
  pub response : Option ℕ
  pub buf : List ℕ
  pub world : W

-- TRANSFER_MODE after its read-modify-write.
unfoldable pub transfer_mode_val : ℕ → Bool → ℕ → ℕ
transfer_mode_val old is_read count =
    let direction = if is_read then bit_or old (2 ^ 4) else bit_and old (not_bits 16 (2 ^ 4)) in
    let multi =
      if ltb 1 count then bit_or direction (2 ^ 5) else bit_and direction (not_bits 16 (2 ^ 5)) in
    let no_auto = bit_and multi (not_bits 16 (3 * 2 ^ 2)) in
    let auto = if ltb 1 count then bit_or no_auto (2 ^ 2) else no_auto in
    bit_and (bit_or auto 2) (not_bits 16 1)

abbrev pub ready_bit : Bool → ℕ
ready_bit is_read = if is_read then 2 ^ 5 else 2 ^ 4

-- `buf[offset + k] = bytes[k]`
unfoldable pub store_bytes : List ℕ → ℕ → List ℕ → List ℕ
store_bytes [] offset buf = buf
store_bytes (b ∷ bytes) offset buf = store_bytes bytes (offset + 1) (set buf offset b)

module _ {W : Type 0} (host : Host W) where
  -- The wait for both lines to be free; the second read is made only when the first finds CMD free.
  unfoldable pub wait_lines : ℕ → W → Option W
  wait_lines zero w = none
  wait_lines (suc fuel) w =
      let cmd = host.mmio_read present_state w in
      let dat = host.mmio_read present_state cmd.1 in
      let again_cmd = wait_lines fuel cmd.1 in
      let again_dat = wait_lines fuel dat.1 in
      if bit_and cmd.0 1 == 1
      then again_cmd
      else if bit_and (dat.0 / 2) 1 == 1
      then again_dat
      else some dat.1

  -- The wait for a bit of NORMAL_INTERRUPT_STATUS or an error: the value of ERROR_INTERRUPT_STATUS.
  unfoldable pub wait_status : ℕ → ℕ → W → Option (ℕ × W)
  wait_status zero bit w = none
  wait_status (suc fuel) bit w =
      let n = host.mmio_read normal_interrupt_status w in
      let e = host.mmio_read error_interrupt_status n.1 in
      let rest = wait_status fuel bit e.1 in
      if bit_and n.0 bit == 0 && e.0 == 0 then rest else some e

  -- The writes that set up and issue a data command.
  unfoldable pub issue_data : ℕ → ℕ → ResponseType → ℕ → Bool → W → W
  issue_data cmd argument response_type count is_read w =
      let size = host.mmio_read block_size w in
      let w1 =
        host.mmio_write block_size (bit_or (bit_and size.0 (not_bits 16 0xFFF)) 0x200) size.1 in
      let w2 = host.mmio_write block_count count w1 in
      let w3 = host.mmio_write argument_low (bit_and argument 0xFFFF) w2 in
      let w4 = host.mmio_write argument_high (bit_and (argument / 2 ^ 16) 0xFFFF) w3 in
      let mode = host.mmio_read transfer_mode w4 in
      let w5 = host.mmio_write transfer_mode (transfer_mode_val mode.0 is_read count) mode.1 in
      host.mmio_write command (bit_or (command_val cmd response_type) (2 ^ 5)) w5

  -- An error of the data phase: it is cleared and the DAT line is reset.
  unfoldable pub data_fault : ℕ → ℕ → Option ℕ → List ℕ → W → Option (Ended W)
  data_fault fuel error_status response buf w =
      elim (reset_line host fuel 4 (host.mmio_write error_interrupt_status error_status w)) [
        | none ↦ none
        | some q ↦ some (record {
          status = classify_data error_status;
          response = response;
          buf = buf;
          world = q.1;
        })
      ]

  -- At the start of a block, the wait for the buffer, whose error it gives; 0 elsewhere.
  unfoldable pub block_start : ℕ → Bool → ℕ → W → Option (ℕ × W)
  block_start fuel is_read i w =
      if i % 128 == 0
      then elim (wait_status fuel (ready_bit is_read) w) [
        | none ↦ none
        | some e ↦
            if e.0 == 0
            then some (0, host.mmio_write normal_interrupt_status (ready_bit is_read) e.1)
            else some e
      ]
      else some (0, w)

  -- Word `i` goes from the data port to the buffer, or from the buffer to the data port.
  unfoldable pub move_word : Bool → ℕ → List ℕ → W → List ℕ × W
  move_word is_read i buf w =
      let word = host.mmio_read buffer_data w in
      if is_read
      then (store_bytes (word_bytes word.0) (i * 4) buf, word.1)
      else (buf, host.mmio_write buffer_data (bytes_word (drop (i * 4) buf)) w)

  -- What follows the loop: the wait for Transfer Complete.
  unfoldable pub finish_data : ℕ → Option ℕ → List ℕ → W → Option (Ended W)
  finish_data fuel response buf w = elim (wait_status fuel 2 w) [
    | none ↦ none
    | some e ↦
        if e.0 == 0
        then some (record {
          status = success;
          response = response;
          buf = buf;
          world = host.mmio_write normal_interrupt_status 2 e.1;
        })
        else data_fault fuel e.0 response buf e.1
  ]

  -- The loop over the words, with `rounds` of them to go, and what follows it.
  unfoldable pub transfer : ℕ → Bool → ℕ → ℕ → Option ℕ → List ℕ → W → Option (Ended W)
  transfer fuel is_read zero i response buf w = finish_data fuel response buf w
  transfer fuel is_read (suc rounds) i response buf w = elim (block_start fuel is_read i w) [
    | none ↦ none
    | some e ↦
        let moved = move_word is_read i buf e.1 in
        let rest = transfer fuel is_read rounds (i + 1) response moved.0 moved.1 in
        if e.0 == 0 then rest else data_fault fuel e.0 response buf e.1
  ]

  -- What follows the wait for the command to complete with the value `e` of ERROR_INTERRUPT_STATUS.
  unfoldable pub run_data : ℕ → ResponseType → ℕ → Bool → List ℕ → ℕ × W → Option (Ended W)
  run_data fuel response_type count is_read buf e =
      let cleared = host.mmio_write error_interrupt_status e.0 e.1 in
      let done = host.mmio_write normal_interrupt_status 1 e.1 in
      let r = host.mmio_read response0 done in
      let words = u32 (count * 128) in
      if not (e.0 == 0)
      then elim (reset_line host fuel 2 cleared) [
        | none ↦ none
        | some q ↦ some (record { status = classify e.0; response = none; buf = buf; world = q.1 })
      ]
      else if expects_response response_type
      then transfer fuel is_read words 0 (some r.0) buf r.1
      else transfer fuel is_read words 0 none buf done

  -- `_send_data_command`; `none` is a wait that goes on for more than `fuel` rounds.
  unfoldable pub send_data_command :
      ℕ → ℕ → ℕ → ResponseType → ℕ → Bool → List ℕ → W → Option (Ended W)
  send_data_command fuel cmd argument response_type count is_read buf w = elim (wait_lines fuel w) [
    | none ↦ none
    | some free ↦
        elim (wait_complete host fuel (issue_data cmd argument response_type count is_read free)) [
          | none ↦ none
          | some e ↦ run_data fuel response_type count is_read buf e
        ]
  ]

-- `_sdio_check_card_status`
unfoldable pub check_card_status : ℕ → Bool
check_card_status status =
    if not (bit_and status (2 ^ 31) == 0)
    then false
    else if not (bit_and status (2 ^ 30) == 0)
    then false
    else if not (bit_and status (2 ^ 29) == 0)
    then false
    else if not (bit_and status (2 ^ 26) == 0)
    then false
    else if not (bit_and status (2 ^ 21) == 0)
    then false
    else if not (bit_and status (2 ^ 20) == 0)
    then false
    else bit_and status (2 ^ 19) == 0

-- What `sdio_read` and `sdio_write` make of the end of their command; `response` starts as 0.
abbrev pub judge : Status → Option ℕ → Bool
judge success none = check_card_status 0
judge success (some response) = check_card_status response
judge _ response = false

abbrev pub adj_lba : ℕ → ℕ → ℕ
adj_lba ccs lba = if ccs == 0 then u32 (lba * 512) else lba

module _ {W : Type 0} (host : Host W) where
  -- The two branches of `sdio_read` and of `sdio_write`, by the indices of their commands. The block
  -- count of the data command has 16 bits.
  unfoldable pub block_io : ℕ → ℕ → ℕ → Bool → ℕ → ℕ → ℕ → List ℕ → W → Option (Bool × (List ℕ × W))
  block_io fuel single multiple is_read ccs lba count buf w =
      let cmd = if count == 1 then single else multiple in
      if count == 0
      then some (false, (buf, w))
      else elim (send_data_command host fuel cmd (adj_lba ccs lba) r1 (count % 2 ^ 16) is_read buf
          w) [ none ↦ none | some e ↦ some (judge e.status e.response, (e.buf, e.world)) ]

  unfoldable pub sdio_read : ℕ → ℕ → ℕ → ℕ → List ℕ → W → Option (Bool × (List ℕ × W))
  sdio_read fuel ccs lba count buf w = block_io fuel 17 18 true ccs lba count buf w

  unfoldable pub sdio_write : ℕ → ℕ → ℕ → ℕ → List ℕ → W → Option (Bool × (List ℕ × W))
  sdio_write fuel ccs lba count buf w = block_io fuel 24 25 false ccs lba count buf w
