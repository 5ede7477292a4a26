-- ===== src/Sd/Media.antt =====
-- What `sdio_read` and `sdio_write` do to the buffer and to the card.
use raspberry_pi_gaming_cons.Common.{
  ℕ, ◌+◌, ◌*◌, ◌/◌, ◌%◌, ◌^◌, ◌≤◌, ◌<◌, ◌≡◌, refl, inl, inr, List, get_or, get_or-drop, drop,
  length, some, true, false, ◌==◌, arith, ◌∙◌, ap, ne→==, Bool-cases, ==→eq,
}
use raspberry_pi_gaming_cons.Common.Words.{u32}
use raspberry_pi_gaming_cons.Sd.{Host, word_bytes}
use raspberry_pi_gaming_cons.Sd.Data.{word_bytes-bytes_word}
use raspberry_pi_gaming_cons.Sd.Transfer.{adj_lba, block_io, sdio_read, sdio_write}
use raspberry_pi_gaming_cons.Sd.Pio.{IsHealthy, first_word, moving}
use raspberry_pi_gaming_cons.Sd.Stored.{stored, stored-inside, stored-outside, length-stored}
use raspberry_pi_gaming_cons.Sd.Blocks.{
  Written, send_data_command-starts, transfer-reads, transfer-writes,
}

-- The buffer `new` holds the bytes of `count` blocks of words, the lowest byte of each first, and behind
-- them what `old` held.
pub record Delivered (words : ℕ → ℕ) (count : ℕ) (old new : List ℕ) : Type 0 where
  pub size : length new ≡ length old
  pub blocks :
      (m k : ℕ)
      → m < count * 128
      → k < 4
      → get_or new (m * 4 + k) 0 ≡ get_or (word_bytes (words m)) k 0
  pub behind : (j : ℕ) → count * 512 ≤ j → get_or new j 0 ≡ get_or old j 0

first_word-adj_lba :
    (ccs lba : ℕ)
    → lba < 2 ^ 32
    → (ccs ≡ 0 → lba < 2 ^ 23)
    → first_word ccs (adj_lba ccs lba) ≡ lba * 128
first_word-adj_lba ccs lba small near = elim (Bool-cases (ccs == 0)) [
  | inr block ↦ rw block refl
  | inl byte ↦ let inside : lba < 2 ^ 23 = near (==→eq ccs 0 byte) in rw byte (omega arith)
]

adj_lba-fits : (ccs lba : ℕ) → lba < 2 ^ 32 → adj_lba ccs lba < 2 ^ 32
adj_lba-fits ccs lba small = elim (Bool-cases (ccs == 0)) [
  | inr block ↦ rw block small
  | inl byte ↦ rw byte (omega arith)
]

-- Byte `j` of a buffer that was written, as the card gives it back.
pub Written-byte :
    (lba count : ℕ) (buf : List ℕ) (before after : ℕ → ℕ)
    → ((j : ℕ) → get_or buf j 0 < 256)
    → Written (count * 128) 0 buf (lba * 128) before after
    → (j : ℕ) → j < count * 512
    → get_or (word_bytes (after (lba * 128 + j / 4))) (j % 4) 0 ≡ get_or buf j 0
Written-byte lba count buf before after bytes written j inside =
    let m = j / 4 in
    let k = j % 4 in
    let split : (0 + m) * 4 + k ≡ j = omega arith in
    ap (λ x. get_or (word_bytes x) k 0) (written.inside m (omega arith))
    ∙ word_bytes-bytes_word (drop ((0 + m) * 4) buf) k
        (λ i. rw (get_or-drop ((0 + m) * 4) buf i 0) (bytes ((0 + m) * 4 + i))) (omega arith)
    ∙ get_or-drop ((0 + m) * 4) buf k 0
    ∙ ap (λ x. get_or buf x 0) split

module _ {W : Type 0} {host : Host W} (ok : IsHealthy host) where
  -- With a healthy controller that sets each awaited status bit in fewer polls than the fuel, and a block
  -- address that the card has (32 bits, or 23 for a card of standard capacity): `sdio_read` of 1 to 65535
  -- blocks into a buffer that holds them returns true, with the words of those blocks of the card in the
  -- buffer, the rest of the buffer as before, and no word of the card changed.
  pub sdio_read-Delivered :
      (fuel lba count : ℕ) (buf : List ℕ) (w : W)
      → ok.latency < fuel
      → lba < 2 ^ 32
      → (ok.ccs ≡ 0 → lba < 2 ^ 23)
      → 0 < count
      → count < 2 ^ 16
      → count * 512 ≤ length buf
      → (buf' : List ℕ) × (w' : W) × (sdio_read host fuel ok.ccs lba count buf w
          ≡ some (true, (buf', w')))
        × Delivered (λ m. ok.contents w (lba * 128 + m)) count buf buf'
        × ((a : ℕ) → ok.contents w' a ≡ ok.contents w a)
  unfolding sdio_read block_io
  sdio_read-Delivered fuel lba count buf w h fits near some_block small room =
      let words : u32 (count * 128) ≡ count * 128 = omega arith in
      let positive : (count == 0) ≡ false = ne→== count 0 (λ e. omega arith) in
      let size : count % 2 ^ 16 ≡ count = omega arith in
      let from_card = λ (m : ℕ). ok.contents w (lba * 128 + m) in
      let (response, w1, starts, start, passes) =
        send_data_command-starts ok fuel (adj_lba ok.ccs lba) count true buf w h
          (adj_lba-fits ok.ccs lba fits) some_block in
      let at_lba =
        start.at ∙ ap (moving true (count * 128)) (first_word-adj_lba ok.ccs lba fits near) in
      let (w', result, kept) =
        transfer-reads ok fuel (count * 128) 0 (lba * 128) from_card (some response) buf w1 h at_lba
          (λ k. start.kept (lba * 128 + k)) in
      (
        stored (count * 128) 0 from_card buf,
        w',
        rw (positive, size, starts, words, result, passes) refl,
        record {
          size = length-stored (count * 128) 0 from_card buf;
          blocks = λ m k inside byte.
              let at : m * 4 + k ≡ (0 + m) * 4 + k = omega arith in
              rw at (stored-inside (count * 128) 0 from_card buf m k inside byte (omega arith));
          behind = λ j after. stored-outside (count * 128) 0 from_card buf j (inr (omega arith));
        },
        λ a. kept a ∙ start.kept a,
      )

  -- With a healthy controller that sets each awaited status bit in fewer polls than the fuel, and a block
  -- address that the card has (32 bits, or 23 for a card of standard capacity): `sdio_write` of 1 to 65535
  -- blocks returns true; the words of the buffer stand in those blocks of the card, no other word of the
  -- card changed, and the buffer is as before.
  pub sdio_write-Written :
      (fuel lba count : ℕ) (buf : List ℕ) (w : W)
      → ok.latency < fuel
      → lba < 2 ^ 32
      → (ok.ccs ≡ 0 → lba < 2 ^ 23)
      → 0 < count
      → count < 2 ^ 16
      → (w' : W) × (sdio_write host fuel ok.ccs lba count buf w ≡ some (true, (buf, w')))
        × Written (count * 128) 0 buf (lba * 128) (ok.contents w) (ok.contents w')
  unfolding sdio_write block_io
  sdio_write-Written fuel lba count buf w h fits near some_block small =
      let words : u32 (count * 128) ≡ count * 128 = omega arith in
      let positive : (count == 0) ≡ false = ne→== count 0 (λ e. omega arith) in
      let size : count % 2 ^ 16 ≡ count = omega arith in
      let (response, w1, starts, start, passes) =
        send_data_command-starts ok fuel (adj_lba ok.ccs lba) count false buf w h
          (adj_lba-fits ok.ccs lba fits) some_block in
      let at_lba =
        start.at ∙ ap (moving false (count * 128)) (first_word-adj_lba ok.ccs lba fits near) in
      let (w', result, placed) =
        transfer-writes ok fuel (count * 128) 0 (lba * 128) (some response) buf w1 h at_lba in
      (
        w',
        rw (positive, size, starts, words, result, passes) refl,
        record { inside = placed.inside; outside = λ a out. placed.outside a out ∙ start.kept a },
      )
