-- ===== src/Shell/Resolution.antt =====
-- `cmd_setres` of src/kernel/shell/shell.cpp, with `atoi` and VideoCore as arguments.
use raspberry_pi_gaming_cons.Common.{ℕ, List, [], ◌∷◌, ltb, ◌==◌, if◌then◌else◌, length, get_or}
use raspberry_pi_gaming_cons.Display.{Display, set_resolution}
use raspberry_pi_gaming_cons.Shell.Files.{Printed, usage, failed}

-- An `int`: `pos n` is n, `negsuc n` is - n - 1.
pub data ℤ : Type 0 where
  pos : ℕ → ℤ
  negsuc : ℕ → ℤ

module _ (atoi : List ℕ → ℤ) (video_core : List ℕ → List ℕ) where
  -- What follows the parsing; `failed` is the message that both numbers must be positive.
  unfoldable pub set_size : ℤ → ℤ → Display → List Printed × Display
  set_size (negsuc w) height d = (failed ∷ [], d)
  set_size (pos w) (negsuc h) d = (failed ∷ [], d)
  set_size (pos w) (pos h) d =
      if w == 0
      then (failed ∷ [], d)
      else if h == 0
      then (failed ∷ [], d)
      else ([], (set_resolution video_core w h d).1)

  unfoldable pub cmd_setres : List (List ℕ) → Display → List Printed × Display
  cmd_setres argv d =
      if ltb (length argv) 3
      then (usage ∷ [], d)
      else set_size (atoi (get_or argv 1 [])) (atoi (get_or argv 2 [])) d
