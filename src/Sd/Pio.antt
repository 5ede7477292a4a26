-- ===== src/Sd/Pio.antt =====
-- Words that go through the data port of a controller that reports no error.
use raspberry_pi_gaming_cons.Common.{
  ℕ, zero, suc, ◌+◌, ◌*◌, ◌/◌, ◌%◌, ◌^◌, ◌≤◌, ◌<◌, ◌≡◌, ◌≢◌, refl, ◌⊎◌, inl, inr, bit_and, set,
  some, Bool, true, false, ltb, ◌==◌, Bool-cases, arith, ◌∙◌, ap, if◌then◌else◌,
}
use raspberry_pi_gaming_cons.Common.Bits.{bit_at}
use raspberry_pi_gaming_cons.Sd.{
  Register, Host, buffer_data, present_state, normal_interrupt_status, error_interrupt_status,
  argument_low, argument_high, command, response0, block_size, block_count, transfer_mode,
}
use raspberry_pi_gaming_cons.Sd.Transfer.{ready_bit, wait_status, block_start}

-- The bits of NORMAL_INTERRUPT_STATUS that the driver waits for: Command Complete, Transfer Complete,
-- Buffer Write Ready and Buffer Read Ready.
abbrev pub IsStatusBit : ℕ → Type 0
IsStatusBit bit = (bit ≡ 1) ⊎ ((bit ≡ 2) ⊎ ((bit ≡ 2 ^ 4) ⊎ (bit ≡ 2 ^ 5)))

-- The address of the word that the argument of a data command names: cards of the standard capacity, whose
-- CCS is 0, take the address of a byte, the others that of a block of 128 words.
abbrev pub first_word : ℕ → ℕ → ℕ
first_word ccs argument = if ccs == 0 then argument / 512 * 128 else argument * 128

-- The registers that set up a transfer, as they were last written.
pub record Setup : Type 0 where
  pub low : ℕ
  pub high : ℕ
  pub size : ℕ
  pub blocks : ℕ
  pub mode : ℕ

abbrev pub latch : Register → ℕ → Setup → Setup
latch argument_low v s = record s { low = v }
latch argument_high v s = record s { high = v }
latch block_size v s = record s { size = v }
latch block_count v s = record s { blocks = v }
latch transfer_mode v s = record s { mode = v }
latch _ v s = s

-- READ_SINGLE_BLOCK and READ_MULTIPLE_BLOCK, WRITE_BLOCK and WRITE_MULTIPLE_BLOCK.
abbrev pub data_command : Bool → ℕ → ℕ
data_command true count = if count == 1 then 17 else 18
data_command false count = if count == 1 then 24 else 25

-- The value written to COMMAND and the registers ask for a transfer of `count` blocks of 512 bytes: the
-- command's index with a 48-bit response, both of its checks and Data Present; the block size and count;
-- and in TRANSFER_MODE the direction, Multi Block, Block Count Enable, Auto CMD12 for several blocks and
-- no DMA.
pub record IsTransfer (is_read : Bool) (count v : ℕ) (s : Setup) : Type 0 where
  pub asks : v ≡ data_command is_read count * 256 + 0x3A
  pub block : (j : ℕ) → j < 12 → bit_at s.size j ≡ (9 == j)
  pub length : s.blocks ≡ count
  pub dma : bit_at s.mode 0 ≡ false
  pub counted : bit_at s.mode 1 ≡ true
  pub auto_stop : bit_at s.mode 2 ≡ ltb 1 count
  pub no_auto_count : bit_at s.mode 3 ≡ false
  pub direction : bit_at s.mode 4 ≡ is_read
  pub multi : bit_at s.mode 5 ≡ ltb 1 count

-- The data port: whether it reads, how many words are left of the transfer, and the address of the next.
pub data Port : Type 0 where
  moving : Bool → ℕ → ℕ → Port

-- A controller that reports no error and is never inhibited, and that sets the awaited bit after a
-- bounded number of polls, with a card in it that reports no error either: `contents` are its words.
-- A command that asks for a transfer, with the registers set up for it, opens the data port at the word
-- that its argument names, in its direction and for the words of its blocks; as long as words are left, an
-- access to the port in that direction moves one and goes on to the next. What other commands do to the
-- port, and other writes to the data port to the words, is left open. No other access touches the two.
pub record IsHealthy {W : Type 0} (host : Host W) : Type 0 where
  pub ccs : ℕ
  pub contents : W → ℕ → ℕ
  pub port : W → Port
  pub setup : W → Setup
  pub polls : W → ℕ
  pub latency : ℕ
  pub bounded : (w : W) → polls w ≤ latency
  pub settles :
      (w : W) (bit : ℕ)
      → IsStatusBit bit
      → ((bit_and (host.mmio_read normal_interrupt_status w).0 bit == 0) ≡ false)
        ⊎ (polls
              (host.mmio_read error_interrupt_status (host.mmio_read normal_interrupt_status w).1).1
            < polls w)
  pub no_error : (w : W) → (host.mmio_read error_interrupt_status w).0 ≡ 0
  pub cmd_free : (w : W) → bit_and (host.mmio_read present_state w).0 1 ≡ 0
  pub dat_free : (w : W) → bit_and ((host.mmio_read present_state w).0 / 2) 1 ≡ 0
  pub no_card_error :
      (w : W) (k : ℕ) → 19 ≤ k → k < 32 → bit_and (host.mmio_read response0 w).0 (2 ^ k) ≡ 0
  pub takes :
      (w : W) (n a : ℕ)
      → port w ≡ moving true (suc n) a
      → (host.mmio_read buffer_data w).0 ≡ contents w a
  pub read_moves :
      (w : W) (n a : ℕ)
      → port w ≡ moving true (suc n) a
      → port (host.mmio_read buffer_data w).1 ≡ moving true n (a + 1)
  pub read_contents :
      (r : Register) (w : W) (a : ℕ) → contents (host.mmio_read r w).1 a ≡ contents w a
  pub read_port : (r : Register) (w : W) → r ≢ buffer_data → port (host.mmio_read r w).1 ≡ port w
  pub read_setup : (r : Register) (w : W) → setup (host.mmio_read r w).1 ≡ setup w
  pub stores :
      (v : ℕ) (w : W) (n a b : ℕ)
      → port w ≡ moving false (suc n) a
      → contents (host.mmio_write buffer_data v w) b ≡ (if b == a then v else contents w b)
  pub write_moves :
      (v : ℕ) (w : W) (n a : ℕ)
      → port w ≡ moving false (suc n) a
      → port (host.mmio_write buffer_data v w) ≡ moving false n (a + 1)
  pub write_contents :
      (r : Register) (v : ℕ) (w : W) (a : ℕ)
      → r ≢ buffer_data
      → contents (host.mmio_write r v w) a ≡ contents w a
  pub write_port :
      (r : Register) (v : ℕ) (w : W)
      → r ≢ buffer_data
      → r ≢ command
      → port (host.mmio_write r v w) ≡ port w
  pub write_setup :
      (r : Register) (v : ℕ) (w : W) → setup (host.mmio_write r v w) ≡ latch r v (setup w)
  pub opens :
      (is_read : Bool) (count v : ℕ) (w : W)
      → 0 < count
      → IsTransfer is_read count v (setup w)
      → port (host.mmio_write command v w)
        ≡ moving is_read (count * 128) (first_word ccs ((setup w).high * 2 ^ 16 + (setup w).low))

module _ {W : Type 0} {host : Host W} (ok : IsHealthy host) where
  -- No word went through the data port.
  pub record Same (w w' : W) : Type 0 where
    pub contents_same : (a : ℕ) → ok.contents w' a ≡ ok.contents w a
    pub port_same : ok.port w' ≡ ok.port w

  pub Same-refl : (w : W) → Same w w
  Same-refl w = record { contents_same = λ k. refl; port_same = refl }

  pub Same-trans : {a b c : W} → Same a b → Same b c → Same a c
  Same-trans p q = record {
    contents_same = λ k. q.contents_same k ∙ p.contents_same k;
    port_same = q.port_same ∙ p.port_same;
  }

  pub read-Same : (r : Register) (w : W) → r ≢ buffer_data → Same w (host.mmio_read r w).1
  read-Same r w ne = record {
    contents_same = λ k. ok.read_contents r w k;
    port_same = ok.read_port r w ne;
  }

  pub write-Same :
      (r : Register) (v : ℕ) (w : W)
      → r ≢ buffer_data
      → r ≢ command
      → Same w (host.mmio_write r v w)
  write-Same r v w ne ne' = record {
    contents_same = λ k. ok.write_contents r v w k ne;
    port_same = ok.write_port r v w ne ne';
  }

  -- A wait for a status bit ends, without an error.
  pub wait_status-done :
      (fuel bit : ℕ) (w : W)
      → IsStatusBit bit
      → ok.polls w < fuel
      → (w' : W) × (wait_status host fuel bit w ≡ some (0, w')) × Same w w'
  unfolding wait_status
  wait_status-done zero bit w is_bit h = absurd (omega arith)
  wait_status-done (suc fuel) bit w is_bit h =
      let n = host.mmio_read normal_interrupt_status w in
      let e = host.mmio_read error_interrupt_status n.1 in
      let kept : Same w e.1 =
        Same-trans (read-Same normal_interrupt_status w (λ q. cc))
          (read-Same error_interrupt_status n.1 (λ q. cc)) in
      let pair : e ≡ (0, e.1) = ap (λ x. (x, e.1)) (ok.no_error n.1) in
      elim (Bool-cases (bit_and n.0 bit == 0)) [
        | inr set ↦ rw set (e.1, ap some pair, kept)
        | inl clear ↦ elim (ok.settles w bit is_bit) [
          | inl set ↦ absurd (cc)
          | inr fewer ↦
              let (w', result, same) = wait_status-done fuel bit e.1 is_bit (omega arith) in
              rw (clear, ok.no_error n.1) (w', result, Same-trans kept same)
        ]
      ]

  pub block_start-done :
      (fuel i : ℕ) (is_read : Bool) (w : W)
      → ok.latency < fuel
      → (w' : W) × (block_start host fuel is_read i w ≡ some (0, w')) × Same w w'
  unfolding block_start
  block_start-done fuel i is_read w h = elim (Bool-cases (i % 128 == 0)) [
    | inr inside ↦ rw inside (w, refl, Same-refl w)
    | inl first ↦
        let (w', result, same) =
          wait_status-done fuel (ready_bit is_read) w (ready_bit-IsStatusBit is_read)
            (omega (arith, ok.bounded w)) in
        rw (first, result)
          (
            host.mmio_write normal_interrupt_status (ready_bit is_read) w',
            refl,
            Same-trans same
                (write-Same normal_interrupt_status (ready_bit is_read) w' (λ q. cc) (λ q. cc)),
          )
  ]
    where
      ready_bit-IsStatusBit : (r : Bool) → IsStatusBit (ready_bit r)
      ready_bit-IsStatusBit true = inr (inr (inr refl))
      ready_bit-IsStatusBit false = inr (inr (inl refl))
