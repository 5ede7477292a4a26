-- ===== src/Shell/Tests.antt =====
-- Runs of the line editor, the tokenizer and the dispatcher.
use raspberry_pi_gaming_cons.Common.{ℕ, ◌+◌, ◌≤◌, ◌≡◌, refl, List, [], ◌∷◌, length, drop, arith}
use raspberry_pi_gaming_cons.Shell.{
  join_args, parse_args, read_line, run_line, cmd_cd, not_found, max_line, max_args, seq, token,
  skip_spaces, dispatch,
}
use raspberry_pi_gaming_cons.Shell.Words.{parse_args-join_args}
use raspberry_pi_gaming_cons.Shell.Bounds.{cmd_write-fits}

abbrev two_words : List (List ℕ)
two_words = (b'c' ∷ b'd' ∷ []) ∷ (b'a' ∷ []) ∷ []

runs_cd : (run_line (b'c' ∷ b'd' ∷ b' ' ∷ b'a' ∷ [])).0 ≡ cmd_cd
unfolding run_line parse_args skip_spaces token dispatch seq
runs_cd = refl

no_fill : (run_line (b'f' ∷ b'i' ∷ b'l' ∷ b'l' ∷ [])).0 ≡ not_found
unfolding run_line parse_args skip_spaces token dispatch seq
no_fill = refl

parse_args-join_args_example : parse_args 16 (join_args two_words) ≡ two_words
parse_args-join_args_example = parse_args-join_args 16 two_words refl (omega arith)

cmd_write-fits_example :
    length (join_args (drop 2 (parse_args max_args (read_line max_line (b'a' ∷ 13 ∷ [])).0))) + 1
    ≤ max_line
cmd_write-fits_example = cmd_write-fits (b'a' ∷ 13 ∷ [])

abbrev ls_name : List ℕ
ls_name = b'l' ∷ b's' ∷ []
