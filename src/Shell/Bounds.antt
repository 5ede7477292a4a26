-- ===== src/Shell/Bounds.antt =====
-- The text that `cmd_write` joins fits its buffer, as it comes from one line.
use raspberry_pi_gaming_cons.Common.{
  ℕ, zero, suc, ◌+◌, ◌-◌, ◌≤◌, ◌<◌, ◌≡◌, refl, List, [], ◌∷◌, ◌==◌, length, length-append, drop,
  arith, Bool-cases, inl, inr,
}
use raspberry_pi_gaming_cons.Shell.{
  join_rest, join_args, skip_spaces, token, parse_args, max_args, max_line, read_line,
}
use raspberry_pi_gaming_cons.Shell.Lines.{length-read_line}

length-skip_spaces : (p : List ℕ) → length (skip_spaces p) ≤ length p
unfolding skip_spaces
length-skip_spaces [] = omega arith
length-skip_spaces (c ∷ p) = ground (arith, length-skip_spaces p)

-- The token and what follows it, with the separator when something follows.
record Split (p : List ℕ) : Type 0 where
  all : length (token p).0 + length (token p).1 ≤ length p
  more : 0 < length (token p).1 → length (token p).0 + length (token p).1 + 1 ≤ length p

length-token : (p : List ℕ) → Split p
unfolding token
length-token [] = record { all = omega arith; more = λ h. omega arith }
length-token (c ∷ p) = elim (Bool-cases (c == b' ')) [
  | inl e ↦ record { all = rw e (omega arith); more = rw e (λ h. omega arith) }
  | inr ne ↦
      let r = length-token p in
      record { all = rw ne (omega (arith, r.all)); more = rw ne (λ h. omega (arith, r.more h)) }
]

record Joined (line : List ℕ) (argv : List (List ℕ)) : Type 0 where
  all : length (join_rest argv) ≤ length line + 1
  none_left : length line ≡ 0 → length (join_rest argv) ≡ 0

parsed : (n : ℕ) (line : List ℕ) → Joined line (parse_args n line)
unfolding parse_args join_rest
parsed zero line = record { all = omega arith; none_left = λ _. refl }
parsed (suc n) line =
    let p = skip_spaces line in
    let r = token p in
    let short = length-skip_spaces line in
    elim (Bool-cases (length p == 0)) [
      | inl e ↦ rw e (record { all = omega arith; none_left = λ _. refl })
      | inr ne ↦
          let rec = parsed n r.1 in
          let split = length-token p in
          let sum = length-append r.0 (join_rest (parse_args n r.1)) in
          rw ne (record {
            all = ground (arith, rec.all, rec.none_left, split.all, split.more);
            none_left = λ z. ground arith;
          })
    ]

length-join_args : (argv : List (List ℕ)) → length (join_args argv) ≤ length (join_rest argv) - 1
unfolding join_args join_rest
length-join_args [] = omega arith
length-join_args (s ∷ argv) = omega arith

join_rest-drop :
    (k : ℕ) (argv : List (List ℕ)) → length (join_rest (drop k argv)) ≤ length (join_rest argv)
unfolding join_rest
join_rest-drop zero argv = omega arith
join_rest-drop (suc k) [] = omega arith
join_rest-drop (suc k) (s ∷ argv) =
    omega (arith, join_rest-drop k argv, length-append s (join_rest argv))

-- The arguments of a line, from any of them on, join to a text that is no longer than the line.
pub join_args-parse_args :
    (n start : ℕ) (line : List ℕ)
    → length (join_args (drop start (parse_args n line))) ≤ length line
join_args-parse_args n start line = omega (
  arith,
  length-join_args (drop start (parse_args n line)),
  join_rest-drop start (parse_args n line),
  (parsed n line).all,
)

-- Whatever is typed, the text that `cmd_write` joins from its line fits `text[MAX_LINE]` with its
-- terminating zero.
pub cmd_write-fits :
    (input : List ℕ)
    → length (join_args (drop 2 (parse_args max_args (read_line max_line input).0))) + 1 ≤ max_line
cmd_write-fits input =
    let line = (read_line max_line input).0 in
    omega
      (arith, join_args-parse_args max_args 2 line, length-read_line max_line input (omega arith))
