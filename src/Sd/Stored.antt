-- ===== src/Sd/Stored.antt =====
-- The buffer after words of the data port were stored in it.
use raspberry_pi_gaming_cons.Common.{
  ℕ, zero, suc, ◌+◌, ◌*◌, ◌≤◌, ◌<◌, ◌≡◌, ◌⊎◌, refl, inl, inr, List, [], ◌∷◌, get_or, set, length,
  length-set, get_or-set_self, get_or-set_ne, arith, ◌∙◌, ap,
}
use raspberry_pi_gaming_cons.Sd.{word_bytes}
use raspberry_pi_gaming_cons.Sd.Transfer.{store_bytes}

pub length-store_bytes :
    (bytes : List ℕ) (offset : ℕ) (buf : List ℕ)
    → length (store_bytes bytes offset buf) ≡ length buf
unfolding store_bytes
length-store_bytes [] offset buf = refl
length-store_bytes (b ∷ bytes) offset buf =
    length-store_bytes bytes (offset + 1) (set buf offset b) ∙ length-set buf offset b

pub store_bytes-outside :
    (bytes : List ℕ) (offset : ℕ) (buf : List ℕ) (j : ℕ)
    → (j < offset) ⊎ (offset + length bytes ≤ j)
    → get_or (store_bytes bytes offset buf) j 0 ≡ get_or buf j 0
unfolding store_bytes
store_bytes-outside [] offset buf j out = refl
store_bytes-outside (b ∷ bytes) offset buf j out =
    store_bytes-outside bytes (offset + 1) (set buf offset b) j
      (elim out [ inl low ↦ inl (omega arith) | inr high ↦ inr (omega arith) ])
    ∙ get_or-set_ne buf offset j b 0
        (λ e. elim out [ inl low ↦ omega arith | inr high ↦ omega arith ])

pub store_bytes-inside :
    (bytes : List ℕ) (offset : ℕ) (buf : List ℕ) (k : ℕ)
    → k < length bytes
    → offset + length bytes ≤ length buf
    → get_or (store_bytes bytes offset buf) (offset + k) 0 ≡ get_or bytes k 0
unfolding store_bytes
store_bytes-inside [] offset buf k h fits = absurd (omega arith)
store_bytes-inside (b ∷ bytes) offset buf zero h fits =
    let same : offset + 0 ≡ offset = omega arith in
    rw same (
      store_bytes-outside bytes (offset + 1) (set buf offset b) offset (inl (omega arith))
      ∙ get_or-set_self buf offset b 0 (omega arith))
store_bytes-inside (b ∷ bytes) offset buf (suc k) h fits =
    let same : offset + suc k ≡ offset + 1 + k = omega arith in
    rw same (
      store_bytes-inside bytes (offset + 1) (set buf offset b) k (omega arith)
        (omega (arith, length-set buf offset b)))

-- `n` words of a sequence, stored from word `i` of the buffer on.
abbrev pub stored : ℕ → ℕ → (ℕ → ℕ) → List ℕ → List ℕ
stored zero i words buf = buf
stored (suc n) i words buf =
    stored n (i + 1) (λ k. words (k + 1)) (store_bytes (word_bytes (words 0)) (i * 4) buf)

pub length-stored :
    (n i : ℕ) (words : ℕ → ℕ) (buf : List ℕ) → length (stored n i words buf) ≡ length buf
length-stored zero i words buf = refl
length-stored (suc n) i words buf =
    length-stored n (i + 1) (λ k. words (k + 1)) _
    ∙ length-store_bytes (word_bytes (words 0)) (i * 4) buf

length-word_bytes : (x : ℕ) → length (word_bytes x) ≡ 4
unfolding word_bytes
length-word_bytes x = refl

pub stored-outside :
    (n i : ℕ) (words : ℕ → ℕ) (buf : List ℕ) (j : ℕ)
    → (j < i * 4) ⊎ ((i + n) * 4 ≤ j)
    → get_or (stored n i words buf) j 0 ≡ get_or buf j 0
stored-outside zero i words buf j out = refl
stored-outside (suc n) i words buf j out =
    let four = length-word_bytes (words 0) in
    stored-outside n (i + 1) (λ k. words (k + 1)) _ j
      (elim out [ inl low ↦ inl (omega arith) | inr high ↦ inr (omega arith) ])
    ∙ store_bytes-outside (word_bytes (words 0)) (i * 4) buf j
        (elim out [ inl low ↦ inl low | inr high ↦ inr (omega arith) ])

-- Byte `k` of word `m` of the sequence lies where it belongs.
pub stored-inside :
    (n i : ℕ) (words : ℕ → ℕ) (buf : List ℕ) (m k : ℕ)
    → m < n
    → k < 4
    → (i + n) * 4 ≤ length buf
    → get_or (stored n i words buf) ((i + m) * 4 + k) 0 ≡ get_or (word_bytes (words m)) k 0
stored-inside zero i words buf m k h small fits = absurd (omega arith)
stored-inside (suc n) i words buf zero k h small fits =
    let four = length-word_bytes (words 0) in
    let same : (i + 0) * 4 + k ≡ i * 4 + k = omega arith in
    rw same (
      stored-outside n (i + 1) (λ x. words (x + 1)) _ (i * 4 + k) (inl (omega arith))
      ∙ store_bytes-inside (word_bytes (words 0)) (i * 4) buf k (omega arith) (omega arith))
stored-inside (suc n) i words buf (suc m) k h small fits =
    let same : (i + suc m) * 4 + k ≡ (i + 1 + m) * 4 + k = omega arith in
    let next : m + 1 ≡ suc m = omega arith in
    rw same (
      stored-inside n (i + 1) (λ x. words (x + 1)) _ m k (omega arith) small
        (omega (arith, length-store_bytes (word_bytes (words 0)) (i * 4) buf))
      ∙ ap (λ x. get_or (word_bytes (words x)) k 0) next)
