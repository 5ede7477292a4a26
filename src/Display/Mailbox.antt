-- ===== src/Display/Mailbox.antt =====
-- The handshake of `_send_command` of src/display/display.cpp with the mailbox.
use raspberry_pi_gaming_cons.Common.{
  ℕ, zero, suc, ◌≤◌, ◌<◌, ◌≡◌, refl, ◌⊎◌, inl, inr, List, [], ◌∷◌, ◌++◌, Option, none, some, true,
  ◌==◌, bit_and, if◌then◌else◌, Bool-cases, arith, ap, ap₂, ◌∙◌, ◌+◌, ◌*◌, ◌/◌, ◌%◌, ◌^◌, bit_or,
}
use raspberry_pi_gaming_cons.Common.Fields.{bit_or_fields}
use raspberry_pi_gaming_cons.Mmu.{Mmu, translate}
use raspberry_pi_gaming_cons.Display.{mailbox_word, mbox_channel_property}

pub data MailRegister : Type 0 where
  mail0_rd : MailRegister
  mail0_sta : MailRegister
  mail1_wrt : MailRegister
  mail1_sta : MailRegister

-- The mailbox, with state W, by `mmio_read` and `mmio_write`.
pub record Mailbox (W : Type 0) : Type 0 where
  pub mmio_read : MailRegister → W → ℕ × W
  pub mmio_write : MailRegister → ℕ → W → W

abbrev pub arm_ms_full : ℕ
arm_ms_full = 0x80000000

abbrev pub arm_ms_empty : ℕ
arm_ms_empty = 0x40000000

abbrev pub mbox_channel_mask : ℕ
mbox_channel_mask = 0xF

module _ {W : Type 0} (mail : Mailbox W) where
  -- The wait for a bit of a status register to clear; `none` is one of more than `fuel` rounds.
  unfoldable pub wait_clear : ℕ → MailRegister → ℕ → W → Option W
  wait_clear zero r bit w = none
  wait_clear (suc fuel) r bit w =
      let sta = mail.mmio_read r w in
      let rest = wait_clear fuel r bit sta.1 in if bit_and sta.0 bit == 0 then some sta.1 else rest

  -- The wait for a reply of the property channel, with at most `rounds` replies; each is waited for with
  -- `fuel` rounds.
  unfoldable pub wait_reply : ℕ → ℕ → W → Option W
  wait_reply fuel zero w = none
  wait_reply fuel (suc rounds) w = elim (wait_clear fuel mail0_sta arm_ms_empty w) [
    | none ↦ none
    | some w' ↦
        let reply = mail.mmio_read mail0_rd w' in
        let rest = wait_reply fuel rounds reply.1 in
        if bit_and reply.0 mbox_channel_mask == mbox_channel_property then some reply.1 else rest
  ]

  -- `_send_command` for a buffer at `words`.
  unfoldable pub send_command : ℕ → ℕ → Mmu → W → Option W
  send_command fuel words m w = elim (wait_clear fuel mail1_sta arm_ms_full w) [
    | none ↦ none
    | some w' ↦ wait_reply fuel fuel (mail.mmio_write mail1_wrt (mailbox_word words m) w')
  ]

-- A mailbox that has room and a reply after a bounded number of polls, and whose replies are, after a
-- bounded number of others, of the property channel; `sent` are the words that were written to it.
pub record Answers {W : Type 0} (mail : Mailbox W) : Type 0 where
  pub sent : W → List ℕ
  pub polls : W → ℕ
  pub others : W → ℕ
  pub bound : ℕ
  pub polls_bounded : (w : W) → polls w ≤ bound
  pub others_bounded : (w : W) → others w ≤ bound
  pub has_room :
      (w : W)
      → ((bit_and (mail.mmio_read mail1_sta w).0 arm_ms_full == 0) ≡ true)
        ⊎ (polls (mail.mmio_read mail1_sta w).1 < polls w)
  pub has_reply :
      (w : W)
      → ((bit_and (mail.mmio_read mail0_sta w).0 arm_ms_empty == 0) ≡ true)
        ⊎ (polls (mail.mmio_read mail0_sta w).1 < polls w)
  pub replies :
      (w : W)
      → ((bit_and (mail.mmio_read mail0_rd w).0 mbox_channel_mask == mbox_channel_property) ≡ true)
        ⊎ (others (mail.mmio_read mail0_rd w).1 < others w)
  pub polled : (w : W) → others (mail.mmio_read mail0_sta w).1 ≡ others w
  pub reads : (r : MailRegister) (w : W) → sent (mail.mmio_read r w).1 ≡ sent w
  pub writes : (v : ℕ) (w : W) → sent (mail.mmio_write mail1_wrt v w) ≡ sent w ++ v ∷ []

mailbox_word_lem :
    (words : ℕ) (m : Mmu)
    → translate words m % 16 ≡ 0
    → translate words m < 2 ^ 32
    → mailbox_word words m ≡ translate words m + 8
unfolding mailbox_word
mailbox_word_lem words m al low =
    let shifted : translate words m ≡ translate words m / 16 * 2 ^ 4 = omega arith in
    let joined : bit_or (translate words m) 8 ≡ translate words m / 16 * 2 ^ 4 + 8 =
      ap (λ x. bit_or x 8) shifted
      ∙ bit_or_fields 32 4 (translate words m / 16) 8 (omega arith) (omega arith) in
    omega (arith, joined)

module _ {W : Type 0} {mail : Mailbox W} (ok : Answers mail) where
  wait_room :
      (fuel : ℕ) (w : W)
      → ok.polls w < fuel
      → (w' : W) × (wait_clear mail fuel mail1_sta arm_ms_full w ≡ some w')
        × (ok.sent w' ≡ ok.sent w)
  unfolding wait_clear
  wait_room zero w h = absurd (omega arith)
  wait_room (suc fuel) w h =
      let sta = mail.mmio_read mail1_sta w in
      elim (Bool-cases (bit_and sta.0 arm_ms_full == 0)) [
        | inl clear ↦ rw clear (sta.1, refl, ok.reads mail1_sta w)
        | inr full ↦ elim (ok.has_room w) [
          | inl clear ↦ absurd (cc)
          | inr fewer ↦
              let (w', ends, same) = wait_room fuel sta.1 (omega arith) in
              rw full (w', ends, same ∙ ok.reads mail1_sta w)
        ]
      ]

  wait_filled :
      (fuel : ℕ) (w : W)
      → ok.polls w < fuel
      → (w' : W) × (wait_clear mail fuel mail0_sta arm_ms_empty w ≡ some w')
        × (ok.sent w' ≡ ok.sent w)
        × (ok.others w' ≡ ok.others w)
  unfolding wait_clear
  wait_filled zero w h = absurd (omega arith)
  wait_filled (suc fuel) w h =
      let sta = mail.mmio_read mail0_sta w in
      elim (Bool-cases (bit_and sta.0 arm_ms_empty == 0)) [
        | inl clear ↦ rw clear (sta.1, refl, ok.reads mail0_sta w, ok.polled w)
        | inr empty ↦ elim (ok.has_reply w) [
          | inl clear ↦ absurd (cc)
          | inr fewer ↦
              let (w', ends, same, kept) = wait_filled fuel sta.1 (omega arith) in
              rw empty (w', ends, same ∙ ok.reads mail0_sta w, kept ∙ ok.polled w)
        ]
      ]

  wait_reply-ends :
      (fuel rounds : ℕ) (w : W)
      → ok.bound < fuel
      → ok.others w < rounds
      → (w' : W) × (wait_reply mail fuel rounds w ≡ some w') × (ok.sent w' ≡ ok.sent w)
  unfolding wait_reply
  wait_reply-ends fuel zero w h h' = absurd (omega arith)
  wait_reply-ends fuel (suc rounds) w h h' =
      let (w1, filled, same, kept) = wait_filled fuel w (omega (arith, ok.polls_bounded w)) in
      let reply = mail.mmio_read mail0_rd w1 in
      elim (Bool-cases (bit_and reply.0 mbox_channel_mask == mbox_channel_property)) [
        | inl ours ↦ (reply.1, rw (wait_reply, filled, ours) refl, ok.reads mail0_rd w1 ∙ same)
        | inr other ↦ elim (ok.replies w1) [
          | inl ours ↦ absurd (cc)
          | inr fewer ↦
              let (w', ends, same') = wait_reply-ends fuel rounds reply.1 h (omega arith) in
              (w', rw (wait_reply, filled, other) ends, same' ∙ ok.reads mail0_rd w1 ∙ same)
        ]
      ]

  -- On a mailbox that has room and a reply after fewer polls than the fuel, and gives fewer replies of
  -- other channels than that, and for a buffer whose physical address is a multiple of 16 below 4 GiB,
  -- `_send_command` ends, and has written one word, that physical address plus 8, the number of the
  -- property channel.
  pub send_command-ends :
      (fuel words : ℕ) (m : Mmu) (w : W)
      → ok.bound < fuel
      → translate words m % 16 ≡ 0
      → translate words m < 2 ^ 32
      → (w' : W) × (send_command mail fuel words m w ≡ some w')
        × (ok.sent w' ≡ ok.sent w ++ (translate words m + 8) ∷ [])
  unfolding send_command
  send_command-ends fuel words m w h al low =
      let (w1, room, same) = wait_room fuel w (omega (arith, ok.polls_bounded w)) in
      let wrote = mail.mmio_write mail1_wrt (mailbox_word words m) w1 in
      let (w', ends, kept) =
        wait_reply-ends fuel fuel wrote h (omega (arith, ok.others_bounded wrote)) in
      (
        w',
        rw (send_command, room) ends,
        kept
            ∙ ok.writes (mailbox_word words m) w1
            ∙ ap₂ (λ xs x. xs ++ x ∷ []) same (mailbox_word_lem words m al low),
      )
