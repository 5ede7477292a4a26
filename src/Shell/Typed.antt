-- ===== src/Shell/Typed.antt =====
-- What `shell_run` does with lines that are typed.
use mathlib.Core.Path.{fun_ext}
use raspberry_pi_gaming_cons.Common.{
  ℕ, zero, suc, ◌+◌, ◌-◌, ◌<◌, ◌≡◌, refl, List, [], ◌∷◌, ◌++◌, Option, none, some, true, false, not,
  leb, ◌==◌, ◌&&◌, ◌||◌, length, arith, ap,
}
use raspberry_pi_gaming_cons.Shell.{max_line, run_line}
use raspberry_pi_gaming_cons.Shell.Files.{FatFs}
use raspberry_pi_gaming_cons.Shell.Resolution.{ℤ}
use raspberry_pi_gaming_cons.Shell.Lines.{printable, read_line-printable}
use raspberry_pi_gaming_cons.Shell.Session.{
  Event, banner, Console, waiting, after_command, execute, ask, session, shell_run,
}

-- The bytes of some lines, each ended by a return.
abbrev pub typed : List (List ℕ) → List ℕ
typed [] = []
typed (line ∷ lines) = line ++ 13 ∷ typed lines

-- Each line is of printable bytes, and fits the buffer.
abbrev pub AllShort : List (List ℕ) → Type 0
AllShort [] = Unit
AllShort (line ∷ lines) = (printable line ≡ true) × ((length line + 1 < max_line) × AllShort lines)

waiting-empty : waiting [] 0 (max_line - 1) ≡ true
unfolding waiting
waiting-empty = refl

waiting-printable :
    (s rest : List ℕ) (i room : ℕ)
    → printable s ≡ true
    → length s < room
    → waiting (s ++ 13 ∷ rest) i room ≡ false
unfolding waiting
waiting-printable [] rest i room h fits = let e : (room == 0) ≡ false = ground arith in rw e refl
waiting-printable (c ∷ s) rest i room h fits =
    let e1 : (room == 0) ≡ false = ground arith in
    let e2 : (c == 13 || c == 10) ≡ false = ground arith in
    let e3 : ((c == 127 || c == 8) && not (i == 0)) ≡ false = ground arith in
    let e4 : leb 32 c ≡ true = ground arith in
    rw (e1, e2, e3, e4) (waiting-printable s rest (i + 1) (room - 1) (ground arith) (omega arith))

module _ {W F D : Type 0} (fs : FatFs W F D) (atoi : List ℕ → ℤ)
    (video_core : List ℕ → List ℕ) where
  -- A prompt and the command of each line in turn, as long as no command halts the kernel, and a last
  -- prompt.
  unfoldable pub perform : ℕ → List (List ℕ) → Console W → Option (List Event × Console W)
  perform fuel [] k = let asked = ask fs atoi video_core k in some (asked.0 ∷ [], asked.1)
  perform fuel (line ∷ lines) k =
      let asked = ask fs atoi video_core k in
      let run = run_line line in
      after_command asked.0 (execute fs atoi video_core fuel run.0 run.1 asked.1)
        (λ k'. perform fuel lines k')

  session-typed :
      (rounds fuel : ℕ) (lines : List (List ℕ)) (k : Console W)
      → AllShort lines
      → length lines < rounds
      → session fs atoi video_core rounds fuel (typed lines) k ≡ perform fuel lines k
  unfolding session perform
  session-typed zero fuel lines k short enough = absurd (omega arith)
  session-typed (suc rounds) fuel [] k short enough = rw waiting-empty refl
  session-typed (suc rounds) fuel (line ∷ lines) k (shown, (fits, short)) enough =
      let asked = ask fs atoi video_core k in
      let run = run_line line in
      rw
        (
          waiting-printable line (typed lines) 0 (max_line - 1) shown (omega arith),
          read_line-printable max_line line (typed lines) shown fits,
        )
        (ap (after_command asked.0 (execute fs atoi video_core fuel run.0 run.1 asked.1))
          (fun_ext λ k'. session-typed rounds fuel lines k' short (omega arith)))

  -- When lines of printable bytes that fit the buffer are typed, each ended by a return, `shell_run`
  -- prints the banner, and then, line by line, it shows the prompt and runs the command that the line
  -- names on the state that the commands before it left, until a command halts the kernel or the lines
  -- are used up and the shell waits at a new prompt; it needs one round of its loop more than there are
  -- lines.
  pub shell_run-typed :
      (rounds fuel : ℕ) (lines : List (List ℕ)) (k : Console W)
      → AllShort lines
      → length lines < rounds
      → shell_run fs atoi video_core rounds fuel (typed lines) k
        ≡ (elim (perform fuel lines k) [ none ↦ none | some r ↦ some (banner ∷ r.0, r.1) ])
  unfolding shell_run
  shell_run-typed rounds fuel lines k short enough =
      ap (λ o. elim o [ none ↦ none | some r ↦ some (banner ∷ r.0, r.1) ])
        (session-typed rounds fuel lines k short enough)
