-- ===== src/Sd/Data.antt =====
-- Words of the data port and the bytes of the buffer.
use raspberry_pi_gaming_cons.Common.{
  ℕ, ◌+◌, ◌*◌, ◌/◌, ◌%◌, ◌^◌, ◌<◌, ◌≡◌, ◌∙◌, refl, zero, suc, List, [], ◌∷◌, get_or, ap, arith,
}
use raspberry_pi_gaming_cons.Common.Fields.{bit_and_mask, bit_or_fields, bit_or_comm}
use raspberry_pi_gaming_cons.Sd.{word_bytes, bytes_word}

-- Four bytes as one word, the first byte lowest.
bytes_word_lem :
    (a b c d : ℕ)
    → a < 256
    → b < 256
    → c < 256
    → d < 256
    → bytes_word (a ∷ b ∷ c ∷ d ∷ []) ≡ ((d * 256 + c) * 256 + b) * 256 + a
unfolding bytes_word
bytes_word_lem a b c d ha hb hc hd =
    rw
      (
        bit_or_comm 16 a (b * 2 ^ 8) (omega arith) (omega arith),
        bit_or_fields 8 8 b a (omega arith) (omega arith),
        bit_or_comm 24 (b * 2 ^ 8 + a) (c * 2 ^ 16) (omega arith) (omega arith),
        bit_or_fields 8 16 c (b * 2 ^ 8 + a) (omega arith) (omega arith),
        bit_or_comm 32 (c * 2 ^ 16 + (b * 2 ^ 8 + a)) (d * 2 ^ 24) (omega arith) (omega arith),
        bit_or_fields 8 24 d (c * 2 ^ 16 + (b * 2 ^ 8 + a)) (omega arith) (omega arith),
      )
      (omega arith)

-- A 32-bit word read from the data port into four bytes of the buffer is the word that those bytes write
-- back.
pub bytes_word-word_bytes : (word : ℕ) → word < 2 ^ 32 → bytes_word (word_bytes word) ≡ word
unfolding word_bytes
bytes_word-word_bytes word h =
    rw
      (
        bit_and_mask 8 32 word h,
        bit_and_mask 8 32 (word / 2 ^ 8) (omega arith),
        bit_and_mask 8 32 (word / 2 ^ 16) (omega arith),
        bit_and_mask 8 32 (word / 2 ^ 24) (omega arith),
      )
      (bytes_word_lem (word % 256) (word / 2 ^ 8 % 256) (word / 2 ^ 16 % 256) (word / 2 ^ 24 % 256)
          (omega arith) (omega arith) (omega arith) (omega arith)
        ∙ omega arith)

byte_of :
    (bytes : List ℕ) (a b c d k : ℕ)
    → a < 256
    → b < 256
    → c < 256
    → d < 256
    → get_or bytes 0 0 ≡ a
    → get_or bytes 1 0 ≡ b
    → get_or bytes 2 0 ≡ c
    → get_or bytes 3 0 ≡ d
    → k < 4
    → get_or (word_bytes (((d * 256 + c) * 256 + b) * 256 + a)) k 0 ≡ get_or bytes k 0
unfolding word_bytes
byte_of bytes a b c d zero ha hb hc hd e0 e1 e2 e3 h =
    bit_and_mask 8 32 (((d * 256 + c) * 256 + b) * 256 + a) (omega arith) ∙ omega arith
byte_of bytes a b c d (suc zero) ha hb hc hd e0 e1 e2 e3 h =
    bit_and_mask 8 32 ((((d * 256 + c) * 256 + b) * 256 + a) / 2 ^ 8) (omega arith) ∙ omega arith
byte_of bytes a b c d (suc (suc zero)) ha hb hc hd e0 e1 e2 e3 h =
    bit_and_mask 8 32 ((((d * 256 + c) * 256 + b) * 256 + a) / 2 ^ 16) (omega arith) ∙ omega arith
byte_of bytes a b c d (suc (suc (suc zero))) ha hb hc hd e0 e1 e2 e3 h =
    bit_and_mask 8 32 ((((d * 256 + c) * 256 + b) * 256 + a) / 2 ^ 24) (omega arith) ∙ omega arith
byte_of bytes a b c d (suc (suc (suc (suc k)))) ha hb hc hd e0 e1 e2 e3 h = absurd (omega arith)

-- The four bytes that a word made of bytes is stored as.
pub word_bytes-bytes_word :
    (bytes : List ℕ) (k : ℕ)
    → ((j : ℕ) → get_or bytes j 0 < 256)
    → k < 4
    → get_or (word_bytes (bytes_word bytes)) k 0 ≡ get_or bytes k 0
unfolding bytes_word
word_bytes-bytes_word bytes k small h =
    ap (λ x. get_or (word_bytes x) k 0)
      (bytes_word_lem (get_or bytes 0 0) (get_or bytes 1 0) (get_or bytes 2 0) (get_or bytes 3 0)
        (small 0) (small 1) (small 2) (small 3))
    ∙ byte_of bytes (get_or bytes 0 0) (get_or bytes 1 0) (get_or bytes 2 0) (get_or bytes 3 0) k
        (small 0) (small 1) (small 2) (small 3) refl refl refl refl h
