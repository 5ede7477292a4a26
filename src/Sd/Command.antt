-- ===== src/Sd/Command.antt =====
-- What a command puts into the registers, and what it reports.
use raspberry_pi_gaming_cons.Common.{
  ℕ, ◌/◌, ◌%◌, ◌^◌, ◌<◌, ◌≡◌, refl, ◌∙◌, Option, none, some, Bool, true, false, not, bit_and, ◌==◌,
  Bool-cases, inl, inr, arith,
}
use raspberry_pi_gaming_cons.Common.Fields.{bit_and_mask, bit_or_fields}
use raspberry_pi_gaming_cons.Sd.{
  Host, Status, success, ResponseType, no_response, r1, r1b, r2, r3, r4, r6, r7, response_bits,
  command_val, classify, expects_response, finish,
}

response_bits-small : (t : ResponseType) → response_bits t < 2 ^ 8
response_bits-small no_response = omega arith
response_bits-small r1 = omega arith
response_bits-small r1b = omega arith
response_bits-small r2 = omega arith
response_bits-small r3 = omega arith
response_bits-small r4 = omega arith
response_bits-small r6 = omega arith
response_bits-small r7 = omega arith

-- The command register holds the index of the command in its high byte and the bits for the response in
-- its low byte; the index is one of 64.
pub command_val-fields :
    (cmd : ℕ) (t : ResponseType)
    → cmd < 64
    → (command_val cmd t / 2 ^ 8 ≡ cmd) × (command_val cmd t % 2 ^ 8 ≡ response_bits t)
unfolding command_val
command_val-fields cmd t h =
    let small = response_bits-small t in
    let masked : bit_and cmd 0x3F ≡ cmd = bit_and_mask 6 6 cmd h ∙ omega arith in
    rw (masked, bit_or_fields 6 8 cmd (response_bits t) h small) (omega arith, omega arith)

pub is_success : Status → Bool
is_success success = true
is_success _ = false

classify-fails : (e : ℕ) → is_success (classify e) ≡ false
unfolding classify is_success
classify-fails e = elim (Bool-cases (not (bit_and e 2 == 0))) [
  | inl crc ↦ rw crc refl
  | inr other ↦ rw other (elim (Bool-cases (not (bit_and e 8 == 0))) [
    | inl index ↦ rw index refl
    | inr rest ↦ rw rest refl
  ])
]

-- The command has come to an end, and reports success.
abbrev pub succeeded : {W : Type 0} → Option (Status × (Option ℕ × W)) → Bool
succeeded none = false
succeeded (some r) = is_success (r.0)

module _ {W : Type 0} (host : Host W) where
  failed-classify :
      (e : ℕ) (r : Option (Bool × W))
      → succeeded {W = W} (elim r [ none ↦ none | some q ↦ some (classify e, (none, q.1)) ]) ≡ false
  failed-classify e none = refl
  failed-classify e (some q) = classify-fails e

  -- A command whose wait ended with the value `e` of ERROR_INTERRUPT_STATUS comes to an end with success
  -- just when `e` is 0, for every type of response and whatever the controller does then.
  pub finish-succeeded :
      (fuel e : ℕ) (t : ResponseType) (w : W) → succeeded (finish host fuel t e w) ≡ (e == 0)
  unfolding finish is_success
  finish-succeeded fuel e t w = elim (Bool-cases (e == 0)) [
    | inr bad ↦ rw bad (failed-classify e _)
    | inl fine ↦ rw fine (elim (Bool-cases (expects_response t)) [
      | inl expected ↦ rw expected refl
      | inr silent ↦ rw silent refl
    ])
  ]
