-- ===== src/Sd/Identify.antt =====
-- The identification of a card: `_sdio_identify_stage1` to `sdio_init` of src/sd/sd.cpp.
use raspberry_pi_gaming_cons.Common.{
  ℕ, zero, suc, ◌*◌, ◌/◌, ◌^◌, bit_and, [], ◌∷◌, Option, none, some, Bool, true, false, not, ◌==◌,
  ◌&&◌, if◌then◌else◌,
}
use raspberry_pi_gaming_cons.Timer.{ticks_elapsed_ms}
use raspberry_pi_gaming_cons.Sd.{
  Host, Status, success, timeout, crc_error, index_error, ResponseType, no_response, r1, r1b, r2,
  r3, r6, r7, send_command, send_app_command, clock_control, present_state, response2, response4,
  response6, host_control_2,
}
use raspberry_pi_gaming_cons.Sd.Bringup.{
  Code, ◌>>=◌, ◌>>◌, give, changed, read, ticks, rewrite16, sdio_clock_init, delay_ms,
}

abbrev pub is_success : Status → Bool
is_success success = true
is_success _ = false

-- The statuses that end an application command.
abbrev pub is_failure : Status → Bool
is_failure crc_error = true
is_failure index_error = true
is_failure timeout = true
is_failure _ = false

-- `*response_out`, which a command without a response leaves as it was.
abbrev pub out : Option ℕ → ℕ → ℕ
out none old = old
out (some response) old = response

-- The echo that CMD8 answers with: the voltage and the check pattern.
abbrev pub echoes : ℕ → Bool
echoes response = bit_and (response / 2 ^ 8) 0xF == 1 && bit_and response 0xFF == 0xAA

module _ {W : Type 0} (host : Host W) where
  abbrev pub cmd : ℕ → ℕ → ℕ → ResponseType → Code W (Status × Option ℕ)
  cmd fuel index argument t d = elim (send_command host fuel index argument t d.world) [
    | none ↦ none
    | some r ↦ some ((r.0, r.1.0), record d { world = r.1.1 })
  ]

  abbrev pub acmd : ℕ → ℕ → ℕ → ResponseType → Code W (Status × Option ℕ)
  acmd fuel index argument t d = elim (send_app_command host fuel index argument t d.world) [
    | none ↦ none
    | some r ↦ some ((r.0, r.1.0), record d { world = r.1.1 })
  ]

  -- `_sdio_read_cid`, into the global
  abbrev pub store_cid : ℕ → ℕ → ℕ → ℕ → Code W (Unit {0})
  store_cid c0 c1 c2 c3 = changed (λ d. record d { cid = c0 ∷ c1 ∷ c2 ∷ c3 ∷ [] })

  unfoldable pub sdio_read_cid : ℕ → Code W Bool
  sdio_read_cid fuel = do
    (status, response) ← cmd fuel 2 0 r2
    if is_success status
        then (do
          c1 ← read host response2
          c2 ← read host response4
          c3 ← read host response6
          store_cid (out response 0) c1 c2 c3
          give true)
        else give false

  -- The selection of the card by its address, and the block length.
  unfoldable pub select_card : ℕ → ℕ → Code W Bool
  select_card fuel rca = do
    changed (λ d. record d { rca = rca })
    (selected, r) ← cmd fuel 7 (rca * 2 ^ 16) r1b
    if is_success selected
        then (do (length_set, r') ← cmd fuel 16 512 r1; give (is_success length_set))
        else give false

  unfoldable pub sdio_finish_identification : ℕ → Code W Bool
  sdio_finish_identification fuel = do
    known ← sdio_read_cid fuel
    if known
        then (do
          (status, response) ← cmd fuel 3 0 r6
          if is_success status
              then select_card fuel (bit_and (out response 0 / 2 ^ 16) 0xFFFF)
              else give false)
        else give false

  -- What follows CMD8 in the loop of `_sdio_identify_stage1`; `again` is the next attempt. The result is
  -- whether the card is usable, and the value of `*f8`.
  abbrev pub after_cmd8 : ℕ → Code W (Bool × ℕ) → Status → ℕ → Code W (Bool × ℕ)
  after_cmd8 fuel again timeout response = give (true, 0)
  after_cmd8 fuel again crc_error response =
      sdio_clock_init host fuel >>= λ ok. if ok then again else give (false, 1)
  after_cmd8 fuel again index_error response =
      sdio_clock_init host fuel >>= λ ok. if ok then again else give (false, 1)
  after_cmd8 fuel again _ response = give (echoes response, 1)

  unfoldable pub send_cmd8 : ℕ → Code W (Bool × ℕ) → Code W (Bool × ℕ)
  send_cmd8 fuel again = do
    (status, response) ← cmd fuel 8 0x1AA r7
    after_cmd8 fuel again status (out response 0)

  -- The loop of `_sdio_identify_stage1`, with `attempts` of them to go; each begins with CMD0.
  unfoldable pub identify_attempts : ℕ → ℕ → Code W (Bool × ℕ)
  identify_attempts fuel zero = give (false, 1)
  identify_attempts fuel (suc attempts) =
      cmd fuel 0 0 no_response >>= λ idle. send_cmd8 fuel (identify_attempts fuel attempts)

  unfoldable pub sdio_identify_stage1 : ℕ → Code W (Bool × ℕ)
  sdio_identify_stage1 fuel = identify_attempts fuel 2

  -- The loop of `_sdio_acmd41_poll`, with at most `rounds` rounds: whether the card got ready, and
  -- `*response_out`.
  unfoldable pub acmd41_rounds : ℕ → ℕ → ℕ → ℕ → ℕ → Code W (Bool × ℕ)
  acmd41_rounds fuel zero start argument response d = none
  acmd41_rounds fuel (suc rounds) start argument response d =
      (do
        now ← ticks host
        if ticks_elapsed_ms host.cntfrq now start 1000 then give (false, response) else (do
          (status, answer) ← acmd fuel 41 argument r3
          if is_failure status
              then give (false, out answer response)
              else if bit_and (out answer response / 2 ^ 31) 1 == 0
              then acmd41_rounds fuel rounds start argument (out answer response)
              else give (true, out answer response)))
        d

  unfoldable pub sdio_acmd41_poll : ℕ → ℕ → ℕ → Code W (Bool × ℕ)
  sdio_acmd41_poll fuel argument response = do
    start ← ticks host
    acmd41_rounds fuel fuel start argument response

  -- The second half of `_sdio_voltage_switch`, with the signal enabled and 5 ms waited.
  unfoldable pub check_switched : ℕ → Code W Bool
  check_switched fuel = do
    signal_enable ← read host host_control_2
    if not (bit_and (signal_enable / 2 ^ 3) 1 == 1) then give false else (do
      rewrite16 host clock_control 0 1
      delay_ms host fuel 1
      present ← read host present_state
      give (bit_and (present / 2 ^ 20) 0xF == 0xF))

  unfoldable pub sdio_voltage_switch : ℕ → ℕ → Code W Bool
  sdio_voltage_switch fuel s18a = if s18a == 0 then give true else (do
    (status, r) ← cmd fuel 11 0 r1
    if not (is_success status) then give false else (do
      rewrite16 host clock_control 1 0
      present ← read host present_state
      if not (bit_and (present / 2 ^ 20) 0xF == 0) then give false else (do
        rewrite16 host host_control_2 (2 ^ 3) (2 ^ 3)
        delay_ms host fuel 5
        check_switched fuel)))

  abbrev pub set_ccs : ℕ → Code W (Unit {0})
  set_ccs ccs = changed (λ d. record d { ccs = ccs })

  unfoldable pub init_legacy : ℕ → ℕ → Code W Bool
  init_legacy fuel response = do
    (ready, answer) ← sdio_acmd41_poll fuel 0x40FF8000 response
    if not ready then give false else (do set_ccs 0; sdio_finish_identification fuel)

  -- A card that answered CMD8 and is ready with `response`.
  unfoldable pub init_by_capacity : ℕ → ℕ → Code W Bool
  init_by_capacity fuel response =
      if bit_and (response / 2 ^ 30) 1 == 0
      then (do set_ccs 0; sdio_finish_identification fuel)
      else (do
        switched ← sdio_voltage_switch fuel (bit_and (response / 2 ^ 24) 1)
        (usable, answer) ←
            if switched then give (true, response) else sdio_acmd41_poll fuel 0x40FF8000 response
        if not usable then give false else (do set_ccs 1; sdio_finish_identification fuel))

  unfoldable pub init_current : ℕ → ℕ → Code W Bool
  init_current fuel response = do
    (ready, answer) ← sdio_acmd41_poll fuel 0x50FF8000 response
    if not ready then give false else init_by_capacity fuel answer

  -- What follows the inquiry by ACMD41.
  unfoldable pub init_inquired : ℕ → ℕ → Status → ℕ → Code W Bool
  init_inquired fuel f8 status response =
      if is_failure status
      then give false
      else if f8 == 0
      then init_legacy fuel response
      else init_current fuel response

  -- The inquiry by ACMD41 of a card that is usable.
  unfoldable pub inquire : ℕ → Bool × ℕ → Code W Bool
  inquire fuel (usable, f8) = if not usable then give false else (do
    (status, answer) ← acmd fuel 41 0x01000000 r3
    init_inquired fuel f8 status (out answer 0))

  -- `sdio_init`, which does not look at the result of `_sdio_clock_init`
  unfoldable pub sdio_init : ℕ → Code W Bool
  sdio_init fuel =
      sdio_clock_init host fuel >>= λ clocked. (sdio_identify_stage1 fuel >>= inquire fuel)
