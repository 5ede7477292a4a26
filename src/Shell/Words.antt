-- ===== src/Shell/Words.antt =====
-- The tokenizer takes apart what `join_args` puts together.
use raspberry_pi_gaming_cons.Common.{
  ℕ, zero, suc, ◌≤◌, ◌≡◌, refl, ap, ap₂, List, [], ◌∷◌, ◌++◌, Bool, true, false, not, ◌==◌, ◌&&◌,
  length, length-append, arith,
}
use raspberry_pi_gaming_cons.Shell.{join_rest, join_args, skip_spaces, token, parse_args, seq}

-- No byte of the string is a space.
abbrev pub solid : List ℕ → Bool
solid [] = true
solid (c ∷ s) = not (c == b' ') && solid s

-- Every string of the list is a word: it has a byte, and no space.
abbrev pub words : List (List ℕ) → Bool
words [] = true
words (s ∷ argv) = (not (length s == 0) && solid s) && words argv

-- No byte of the string is zero.
abbrev pub no_zero : List ℕ → Bool
no_zero [] = true
no_zero (c ∷ s) = not (c == 0) && no_zero s

token-end : (s : List ℕ) → solid s ≡ true → token (s ++ []) ≡ (s, [])
unfolding token
token-end [] h = refl
token-end (c ∷ s) h =
    let e : (c == b' ') ≡ false = ground arith in rw (e, token-end s (ground arith)) refl

token-space : (s p : List ℕ) → solid s ≡ true → token (s ++ b' ' ∷ p) ≡ (s, p)
unfolding token
token-space [] p h = refl
token-space (c ∷ s) p h =
    let e : (c == b' ') ≡ false = ground arith in rw (e, token-space s p (ground arith)) refl

skip_spaces-word :
    (s p : List ℕ) → (length s == 0) ≡ false → solid s ≡ true → skip_spaces (s ++ p) ≡ s ++ p
unfolding skip_spaces
skip_spaces-word [] p h k = absurd (ground arith)
skip_spaces-word (c ∷ s) p h k = let e : (c == b' ') ≡ false = ground arith in rw e refl

-- What `join_args` writes for a list of words, the tokenizer takes apart into the same words, as long as
-- they are no more than the slots of `argv`.
pub parse_args-join_args :
    (n : ℕ) (argv : List (List ℕ))
    → words argv ≡ true
    → length argv ≤ n
    → parse_args n (join_args argv) ≡ argv
unfolding parse_args join_args join_rest
parse_args-join_args zero [] h k = refl
parse_args-join_args (suc n) [] h k = unfold skip_spaces in refl
parse_args-join_args zero (s ∷ argv) h k = absurd (omega arith)
parse_args-join_args (suc n) (s ∷ []) h k =
    let some : (length s == 0) ≡ false = ground arith in
    let whole : solid s ≡ true = ground arith in
    let long : (length (s ++ []) == 0) ≡ false = ground (arith, length-append s []) in
    rw (skip_spaces-word s [] some whole, long, token-end s whole)
      (ap (λ l. s ∷ l) (parse_args-join_args n [] refl (omega arith)))
parse_args-join_args (suc n) (s ∷ t ∷ argv) h k =
    let some : (length s == 0) ≡ false = ground arith in
    let whole : solid s ≡ true = ground arith in
    let rest : List ℕ = join_args (t ∷ argv) in
    let long : (length (s ++ b' ' ∷ rest) == 0) ≡ false =
      ground (arith, length-append s (b' ' ∷ rest)) in
    rw (skip_spaces-word s (b' ' ∷ rest) some whole, long, token-space s rest whole)
      (ap (λ l. s ∷ l) (parse_args-join_args n (t ∷ argv) (ground arith) (omega arith)))

-- `seq` tells whether two strings without zero bytes are equal.
pub seq-eq : (a b : List ℕ) → no_zero a ≡ true → no_zero b ≡ true → seq a b ≡ true → a ≡ b
unfolding seq
seq-eq [] [] h k e = refl
seq-eq [] (y ∷ b) h k e = absurd (ground arith)
seq-eq (x ∷ a) [] h k e = absurd (ground arith)
seq-eq (x ∷ a) (y ∷ b) h k e =
    ap₂ (λ c s. c ∷ s) {x = x} (ground arith)
      (seq-eq a b (ground arith) (ground arith) (ground arith))
