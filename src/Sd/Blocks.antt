-- ===== src/Sd/Blocks.antt =====
-- Blocks that `sdio_read` and `sdio_write` move.
use raspberry_pi_gaming_cons.Common.{
  ℕ, zero, suc, ◌+◌, ◌*◌, ◌/◌, ◌^◌, ◌<◌, ◌≤◌, ◌≡◌, ◌⊎◌, refl, inl, inr, List, drop, Option, some,
  Bool, true, false, arith, ◌∙◌, ap, subst, ◌==◌, if◌then◌else◌, ne→==, bit_and, bit_or, Bool-cases,
  not, sym, ltb, ◌&&◌, ◌||◌,
}
use raspberry_pi_gaming_cons.Common.Bits.{bit_at, bit_at-bit_or, bit_at-bit_and}
use raspberry_pi_gaming_cons.Common.Words.{not_bits, bit_at-not_bits, bit_at-low_mask, bit_at-pow}
use raspberry_pi_gaming_cons.Common.Fields.{bit_and_mask}
use raspberry_pi_gaming_cons.Common.Words.{u32}
use raspberry_pi_gaming_cons.Sd.{
  Host, success, r1, word_bytes, bytes_word, buffer_data, present_state, normal_interrupt_status,
  response0, command_val, block_size, block_count, transfer_mode, argument_low, argument_high,
  command, wait_complete,
}
use raspberry_pi_gaming_cons.Sd.Transfer.{
  Ended, wait_lines, wait_status, issue_data, move_word, store_bytes, finish_data, transfer,
  run_data, send_data_command, transfer_mode_val, check_card_status,
}
use raspberry_pi_gaming_cons.Sd.Pio.{
  IsHealthy, first_word, Port, moving, Setup, latch, data_command, IsTransfer, Same, Same-trans,
  read-Same, write-Same, wait_status-done, block_start-done,
}
use raspberry_pi_gaming_cons.Sd.Stored.{stored}

-- `n` words of the buffer from its word `i` on stand at the address `first` in the card, whose words were
-- `old` before, and no other word of it changed.
pub record Written (n i : ℕ) (buf : List ℕ) (first : ℕ) (old new : ℕ → ℕ) : Type 0 where
  pub inside : (m : ℕ) → m < n → new (first + m) ≡ bytes_word (drop ((i + m) * 4) buf)
  pub outside : (a : ℕ) → (a < first) ⊎ (first + n ≤ a) → new a ≡ old a

Written-suc :
    {n i : ℕ} {buf : List ℕ} {first : ℕ} {old mid new : ℕ → ℕ}
    → ((a : ℕ) → mid a ≡ (if a == first then bytes_word (drop (i * 4) buf) else old a))
    → Written n (i + 1) buf (first + 1) mid new
    → Written (suc n) i buf first old new
Written-suc {n} {i} {buf} {first} {old} {mid} {new} step rest = record {
  inside = from_first;
  outside = λ a out.
      rest.outside a (elim out [ inl low ↦ inl (omega arith) | inr high ↦ inr (omega arith) ])
      ∙ step a
      ∙ rw (ne→== a first (λ e. elim out [ inl low ↦ omega arith | inr high ↦ omega arith ])) refl;
}
  where
    from_first : (m : ℕ) → m < suc n → new (first + m) ≡ bytes_word (drop ((i + m) * 4) buf)
    from_first zero h =
        let e : first + 0 ≡ first = omega arith in
        let e' : i + 0 ≡ i = omega arith in
        let here : (first == first) ≡ true = ground arith in
        rw (e, e') (rest.outside first (inl (omega arith)) ∙ step first ∙ rw here refl)
    from_first (suc m) h =
        let e : first + suc m ≡ first + 1 + m = omega arith in
        let e' : i + suc m ≡ i + 1 + m = omega arith in rw (e, e') (rest.inside m (omega arith))

command_val-asks :
    (is_read : Bool) (count : ℕ)
    → bit_or (command_val (data_command is_read count) r1) (2 ^ 5)
      ≡ data_command is_read count * 256 + 0x3A
unfolding command_val
command_val-asks true count = elim (Bool-cases (count == 1)) [
  | inl one ↦ rw one refl
  | inr more ↦ rw more refl
]
command_val-asks false count = elim (Bool-cases (count == 1)) [
  | inl one ↦ rw one refl
  | inr more ↦ rw more refl
]

-- Bit `j` of TRANSFER_MODE after its read-modify-write, by what it was, for a read or not and for several
-- blocks or not.
abbrev mode_bit : Bool → Bool → ℕ → Bool → Bool
mode_bit is_read several j x =
    let d = if is_read then x || bit_at (2 ^ 4) j else x && bit_at (not_bits 16 (2 ^ 4)) j in
    let m = if several then d || bit_at (2 ^ 5) j else d && bit_at (not_bits 16 (2 ^ 5)) j in
    let n = m && bit_at (not_bits 16 (3 * 2 ^ 2)) j in
    let a = if several then n || bit_at (2 ^ 2) j else n in
    (a || bit_at 2 j) && bit_at (not_bits 16 1) j

mode_bit_lem :
    (old count : ℕ) (is_read : Bool) (j : ℕ)
    → bit_at (transfer_mode_val old is_read count) j
      ≡ mode_bit is_read (ltb 1 count) j (bit_at old j)
unfolding transfer_mode_val
mode_bit_lem old count true j = elim (Bool-cases (ltb 1 count)) [
  | inl more ↦ rw more (simp (bit_at-bit_or, bit_at-bit_and) refl)
  | inr one ↦ rw one (simp (bit_at-bit_or, bit_at-bit_and) refl)
]
mode_bit_lem old count false j = elim (Bool-cases (ltb 1 count)) [
  | inl more ↦ rw more (simp (bit_at-bit_or, bit_at-bit_and) refl)
  | inr one ↦ rw one (simp (bit_at-bit_or, bit_at-bit_and) refl)
]

mode_table :
    (is_read several x : Bool)
    → (mode_bit is_read several 0 x ≡ false)
      × (mode_bit is_read several 1 x ≡ true)
      × (mode_bit is_read several 2 x ≡ several)
      × (mode_bit is_read several 3 x ≡ false)
      × (mode_bit is_read several 4 x ≡ is_read)
      × (mode_bit is_read several 5 x ≡ several)
mode_table true true true = (refl, refl, refl, refl, refl, refl)
mode_table true true false = (refl, refl, refl, refl, refl, refl)
mode_table true false true = (refl, refl, refl, refl, refl, refl)
mode_table true false false = (refl, refl, refl, refl, refl, refl)
mode_table false true true = (refl, refl, refl, refl, refl, refl)
mode_table false true false = (refl, refl, refl, refl, refl, refl)
mode_table false false true = (refl, refl, refl, refl, refl, refl)
mode_table false false false = (refl, refl, refl, refl, refl, refl)

-- Whatever the registers held, a data command sets its transfer up.
IsTransfer-set_up :
    (is_read : Bool) (count low high old_size old_mode : ℕ)
    → IsTransfer is_read count
        (bit_or (command_val (data_command is_read count) r1) (2 ^ 5))
        (record {
          low = low;
          high = high;
          size = bit_or (bit_and old_size (not_bits 16 0xFFF)) 0x200;
          blocks = count;
          mode = transfer_mode_val old_mode is_read count;
        })
IsTransfer-set_up is_read count low high old_size old_mode = record {
  asks = command_val-asks is_read count;
  block = λ j h.
      let masked : bit_at (not_bits 16 0xFFF) j ≡ false =
        bit_at-not_bits 16 0xFFF j (omega arith) (omega arith)
        ∙ ap not (bit_at-low_mask 12 j)
        ∙ ground arith in
      rw
        (
          bit_at-bit_or (bit_and old_size (not_bits 16 0xFFF)) 0x200 j,
          bit_at-bit_and old_size (not_bits 16 0xFFF) j,
          masked,
          bit_at-pow 9 j,
        )
        (ground arith);
  length = refl;
  dma = bit 0 ∙ (mode_table is_read (ltb 1 count) (bit_at old_mode 0)).0;
  counted = bit 1 ∙ (mode_table is_read (ltb 1 count) (bit_at old_mode 1)).1;
  auto_stop = bit 2 ∙ (mode_table is_read (ltb 1 count) (bit_at old_mode 2)).2;
  no_auto_count = bit 3 ∙ (mode_table is_read (ltb 1 count) (bit_at old_mode 3)).3;
  direction = bit 4 ∙ (mode_table is_read (ltb 1 count) (bit_at old_mode 4)).4;
  multi = bit 5 ∙ (mode_table is_read (ltb 1 count) (bit_at old_mode 5)).5;
}
  where
    bit :
        (j : ℕ)
        → bit_at (transfer_mode_val old_mode is_read count) j
          ≡ mode_bit is_read (ltb 1 count) j (bit_at old_mode j)
    bit j = mode_bit_lem old_mode count is_read j

module _ {W : Type 0} {host : Host W} (ok : IsHealthy host) where
  -- The card is as it was, with the data port open.
  pub record At (port : Port) (w w' : W) : Type 0 where
    pub kept : (a : ℕ) → ok.contents w' a ≡ ok.contents w a
    pub at : ok.port w' ≡ port

  abbrev finished : Option ℕ → List ℕ → W → Ended W
  finished response buf w = record { status = success; response = response; buf = buf; world = w }

  finish_data-done :
      (fuel : ℕ) (response : Option ℕ) (buf : List ℕ) (w : W)
      → ok.latency < fuel
      → (w' : W) × (finish_data host fuel response buf w ≡ some (finished response buf w'))
        × Same ok w w'
  unfolding finish_data
  finish_data-done fuel response buf w h =
      let (w', result, same) =
        wait_status-done ok fuel 2 w (inr (inl refl)) (omega (arith, ok.bounded w)) in
      (
        host.mmio_write normal_interrupt_status 2 w',
        rw (finish_data, result) refl,
        Same-trans ok same (write-Same ok normal_interrupt_status 2 w' (λ q. cc) (λ q. cc)),
      )

  -- Every word of the card goes to its place, and the loop ends with success.
  pub transfer-reads :
      (fuel n i first : ℕ) (words : ℕ → ℕ) (response : Option ℕ) (buf : List ℕ) (w : W)
      → ok.latency < fuel
      → ok.port w ≡ moving true n first
      → ((k : ℕ) → ok.contents w (first + k) ≡ words k)
      → (w' : W) × (transfer host fuel true n i response buf w
          ≡ some (finished response (stored n i words buf) w'))
        × ((a : ℕ) → ok.contents w' a ≡ ok.contents w a)
  unfolding transfer move_word
  transfer-reads fuel zero i first words response buf w h is_open from_card =
      let (w', result, same) = finish_data-done fuel response buf w h in
      (w', result, same.contents_same)
  transfer-reads fuel (suc n) i first words response buf w h is_open from_card =
      let (w1, start, same) = block_start-done ok fuel i true w h in
      let next = host.mmio_read buffer_data w1 in
      let opened : ok.port w1 ≡ moving true (suc n) first = same.port_same ∙ is_open in
      let here : first ≡ first + 0 = omega arith in
      let word : next.0 ≡ words 0 =
        ok.takes w1 n first opened
        ∙ ap (ok.contents w1) here
        ∙ same.contents_same (first + 0)
        ∙ from_card 0 in
      let (w', result, kept) =
        transfer-reads fuel n (i + 1) (first + 1) (λ k. words (k + 1)) response
          (store_bytes (word_bytes (words 0)) (i * 4) buf) next.1 h
          (ok.read_moves w1 n first opened)
          (λ k.
            let place : first + 1 + k ≡ first + (k + 1) = omega arith in
            ap (ok.contents next.1) place
            ∙ ok.read_contents buffer_data w1 (first + (k + 1))
            ∙ same.contents_same (first + (k + 1))
            ∙ from_card (k + 1)) in
      (
        w',
        rw (transfer, start, word) result,
        λ a. kept a ∙ ok.read_contents buffer_data w1 a ∙ same.contents_same a,
      )

  -- Every word of the buffer goes to the card in order, and the loop ends with success.
  pub transfer-writes :
      (fuel n i first : ℕ) (response : Option ℕ) (buf : List ℕ) (w : W)
      → ok.latency < fuel
      → ok.port w ≡ moving false n first
      → (w' : W) × (transfer host fuel false n i response buf w ≡ some (finished response buf w'))
        × Written n i buf first (ok.contents w) (ok.contents w')
  unfolding transfer move_word
  transfer-writes fuel zero i first response buf w h is_open =
      let (w', result, same) = finish_data-done fuel response buf w h in
      (
        w',
        result,
        record { inside = λ m h. absurd (omega arith); outside = λ a out. same.contents_same a },
      )
  transfer-writes fuel (suc n) i first response buf w h is_open =
      let (w1, start, same) = block_start-done ok fuel i false w h in
      let word = bytes_word (drop (i * 4) buf) in
      let next = host.mmio_write buffer_data word w1 in
      let opened : ok.port w1 ≡ moving false (suc n) first = same.port_same ∙ is_open in
      let (w', result, rest) =
        transfer-writes fuel n (i + 1) (first + 1) response buf next h
          (ok.write_moves word w1 n first opened) in
      (
        w',
        rw (transfer, start) result,
        Written-suc {mid = ok.contents next}
            (λ a.
              ok.stores word w1 n first a opened
              ∙ ap (λ y. if a == first then word else y) (same.contents_same a))
            rest,
      )

  wait_complete-eq : (fuel : ℕ) (w : W) → wait_complete host fuel w ≡ wait_status host fuel 1 w
  unfolding wait_complete wait_status
  wait_complete-eq zero w = refl
  wait_complete-eq (suc fuel) w = rw (wait_complete-eq fuel _) refl

  wait_lines-done :
      (fuel : ℕ) (w : W) → 0 < fuel → (w' : W) × (wait_lines host fuel w ≡ some w') × Same ok w w'
  unfolding wait_lines
  wait_lines-done zero w h = absurd (omega arith)
  wait_lines-done (suc fuel) w h =
      let cmd = host.mmio_read present_state w in
      let dat = host.mmio_read present_state cmd.1 in
      (
        dat.1,
        rw (ok.cmd_free w, ok.dat_free cmd.1) refl,
        Same-trans ok (read-Same ok present_state w (λ q. cc))
            (read-Same ok present_state cmd.1 (λ q. cc)),
      )

  card_status-passes : (w : W) → check_card_status (host.mmio_read response0 w).0 ≡ true
  unfolding check_card_status
  card_status-passes w =
      let clear = λ (k : ℕ) (h : 19 ≤ k) (h' : k < 32). ok.no_card_error w k h h' in
      rw
        (
          clear 31 (omega arith) (omega arith),
          clear 30 (omega arith) (omega arith),
          clear 29 (omega arith) (omega arith),
          clear 26 (omega arith) (omega arith),
          clear 21 (omega arith) (omega arith),
          clear 20 (omega arith) (omega arith),
          clear 19 (omega arith) (omega arith),
        )
        refl

  -- The writes of a data command set the transfer up and issue it.
  issue_data-At :
      (argument count : ℕ) (is_read : Bool) (w : W)
      → argument < 2 ^ 32
      → 0 < count
      → At
          (moving is_read (count * 128) (first_word ok.ccs argument))
          w
          (issue_data host (data_command is_read count) argument r1 count is_read w)
  unfolding issue_data
  issue_data-At argument count is_read w h some_block =
      let size = host.mmio_read block_size w in
      let size_val = bit_or (bit_and size.0 (not_bits 16 0xFFF)) 0x200 in
      let w1 = host.mmio_write block_size size_val size.1 in
      let w2 = host.mmio_write block_count count w1 in
      let low = bit_and argument 0xFFFF in
      let high = bit_and (argument / 2 ^ 16) 0xFFFF in
      let w3 = host.mmio_write argument_low low w2 in
      let w4 = host.mmio_write argument_high high w3 in
      let mode = host.mmio_read transfer_mode w4 in
      let mode_val = transfer_mode_val mode.0 is_read count in
      let w5 = host.mmio_write transfer_mode mode_val mode.1 in
      let set_up : Setup = record {
        low = low;
        high = high;
        size = size_val;
        blocks = count;
        mode = mode_val;
      } in
      let e : ok.setup w5 ≡ set_up =
        ok.write_setup transfer_mode mode_val mode.1
        ∙ ap (latch transfer_mode mode_val) (
            ok.read_setup transfer_mode w4
            ∙ ok.write_setup argument_high high w3
            ∙ ap (latch argument_high high) (
                ok.write_setup argument_low low w2
                ∙ ap (latch argument_low low) (
                    ok.write_setup block_count count w1
                    ∙ ap (latch block_count count) (ok.write_setup block_size size_val size.1)))) in
      let whole : (ok.setup w5).high * 2 ^ 16 + (ok.setup w5).low ≡ argument =
        ap (λ (s : Setup). s.high * 2 ^ 16 + s.low) e
        ∙ omega (arith, bit_and_mask 16 32 argument h, bit_and_mask 16 32 (argument / 2 ^ 16)) in
      let asked =
        ok.opens is_read count (bit_or (command_val (data_command is_read count) r1) (2 ^ 5)) w5
          some_block
          (subst
            (IsTransfer is_read count
              (bit_or (command_val (data_command is_read count) r1) (2 ^ 5)))
            (sym e) (IsTransfer-set_up is_read count low high size.0 mode.0)) in
      record {
        kept = λ a.
            ok.write_contents command _ w5 a (λ q. cc)
            ∙ ok.write_contents transfer_mode mode_val mode.1 a (λ q. cc)
            ∙ ok.read_contents transfer_mode w4 a
            ∙ ok.write_contents argument_high high w3 a (λ q. cc)
            ∙ ok.write_contents argument_low low w2 a (λ q. cc)
            ∙ ok.write_contents block_count count w1 a (λ q. cc)
            ∙ ok.write_contents block_size size_val size.1 a (λ q. cc)
            ∙ ok.read_contents block_size w a;
        at = asked ∙ ap (λ x. moving is_read (count * 128) (first_word ok.ccs x)) whole;
      }

  -- A command gets to its data phase, with the data port open at the word that its argument names, a card
  -- status without an error, and no word moved: what is left is the loop.
  pub send_data_command-starts :
      (fuel argument count : ℕ) (is_read : Bool) (buf : List ℕ) (w : W)
      → ok.latency < fuel
      → argument < 2 ^ 32
      → 0 < count
      → (response : ℕ) × (w' : W) × (send_data_command host fuel
            (data_command is_read count)
            argument
            r1
            count
            is_read
            buf
            w
          ≡ transfer host fuel is_read (u32 (count * 128)) 0 (some response) buf w')
        × At (moving is_read (count * 128) (first_word ok.ccs argument)) w w'
        × (check_card_status response ≡ true)
  unfolding send_data_command run_data
  send_data_command-starts fuel argument count is_read buf w h small some_block =
      let cmd = data_command is_read count in
      let (free, lines, same1) = wait_lines-done fuel w (omega arith) in
      let issued = issue_data host cmd argument r1 count is_read free in
      let (w1, completed, same2) =
        wait_status-done ok fuel 1 issued (inl refl) (omega (arith, ok.bounded issued)) in
      let done = host.mmio_write normal_interrupt_status 1 w1 in
      let start = issue_data-At argument count is_read free small some_block in
      let after = Same-trans ok same2 (
        Same-trans ok (write-Same ok normal_interrupt_status 1 w1 (λ q. cc) (λ q. cc))
          (read-Same ok response0 done (λ q. cc))) in
      (
        (host.mmio_read response0 done).0,
        (host.mmio_read response0 done).1,
        rw
            (
              send_data_command,
              lines,
              wait_complete-eq fuel (issue_data host cmd argument r1 count is_read free),
              completed,
            )
            refl,
        record {
          kept = λ a. after.contents_same a ∙ start.kept a ∙ same1.contents_same a;
          at = after.port_same ∙ start.at;
        },
        card_status-passes done,
      )
