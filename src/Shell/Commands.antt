-- ===== src/Shell/Commands.antt =====
-- The commands of the shell by their names, and a session in which they are typed: `shell_run` of
-- src/kernel/shell/shell.cpp.
use raspberry_pi_gaming_cons.Common.{
  ℕ, ◌+◌, ◌<◌, ◌≤◌, ◌≡◌, List, [], ◌∷◌, ◌++◌, map, Option, none, some, true, false, ◌==◌,
  if◌then◌else◌, length,
}
use raspberry_pi_gaming_cons.Display as Display
use raspberry_pi_gaming_cons.Timer.{get_time}
use raspberry_pi_gaming_cons.Shell.{max_line, max_args, join_args}
use raspberry_pi_gaming_cons.Shell.Words.{words}
use raspberry_pi_gaming_cons.Shell.Lines.{printable}
use raspberry_pi_gaming_cons.Shell.Files.{FatFs, fr_ok, max_path}
use raspberry_pi_gaming_cons.Shell.Files as Files
use raspberry_pi_gaming_cons.Shell.Resolution.{ℤ}
use raspberry_pi_gaming_cons.Shell.Resolution as Resolution
use raspberry_pi_gaming_cons.Shell.Session.{
  Event, prompt, shows, help, banner, cleared, goodbye, uptime, memory_figures, crashing,
  resolution, Console, Left, says, on_volume, on_volume_if,
}

module _ {W F D : Type 0} (fs : FatFs W F D) (atoi : List ℕ → ℤ)
    (video_core : List ℕ → List ℕ) where
  -- What the command of a name does with its words and the state.
  pub data Runs (fuel : ℕ) : List ℕ → (List (List ℕ) → Console W → Left W) → Type 0 where
    runs_help : Runs fuel (b'h' ∷ b'e' ∷ b'l' ∷ b'p' ∷ []) (λ argv k. says help k)
    runs_ls :
        Runs fuel (b'l' ∷ b's' ∷ []) (λ argv k. on_volume_if k (Files.cmd_ls fs fuel argv k.volume))
    runs_pwd :
        Runs fuel (b'p' ∷ b'w' ∷ b'd' ∷ []) (λ argv k. on_volume k (Files.cmd_pwd fs k.volume))
    runs_cd : Runs fuel (b'c' ∷ b'd' ∷ []) (λ argv k. on_volume k (Files.cmd_cd fs argv k.volume))
    runs_mkdir :
        Runs fuel
          (b'm' ∷ b'k' ∷ b'd' ∷ b'i' ∷ b'r' ∷ [])
          (λ argv k. on_volume k (Files.cmd_mkdir fs argv k.volume))
    runs_touch :
        Runs fuel
          (b't' ∷ b'o' ∷ b'u' ∷ b'c' ∷ b'h' ∷ [])
          (λ argv k. on_volume k (Files.cmd_touch fs argv k.volume))
    runs_cat :
        Runs fuel
          (b'c' ∷ b'a' ∷ b't' ∷ [])
          (λ argv k. on_volume_if k (Files.cmd_cat fs fuel argv k.volume))
    runs_write :
        Runs fuel
          (b'w' ∷ b'r' ∷ b'i' ∷ b't' ∷ b'e' ∷ [])
          (λ argv k. on_volume k (Files.cmd_write fs argv k.volume))
    runs_rm : Runs fuel (b'r' ∷ b'm' ∷ []) (λ argv k. on_volume k (Files.cmd_rm fs argv k.volume))
    runs_clear : Runs fuel (b'c' ∷ b'l' ∷ b'e' ∷ b'a' ∷ b'r' ∷ []) (λ argv k. says cleared k)
    runs_kernel : Runs fuel (b'k' ∷ b'e' ∷ b'r' ∷ b'n' ∷ b'e' ∷ b'l' ∷ []) (λ argv k. says banner k)
    runs_shutdown :
        Runs fuel
          (b's' ∷ b'h' ∷ b'u' ∷ b't' ∷ b'd' ∷ b'o' ∷ b'w' ∷ b'n' ∷ [])
          (λ argv k. some (goodbye ∷ [], (false, k)))
    runs_uptime :
        Runs fuel
          (b'u' ∷ b'p' ∷ b't' ∷ b'i' ∷ b'm' ∷ b'e' ∷ [])
          (λ argv k. says (uptime (get_time k.timer)) k)
    runs_meminfo :
        Runs fuel
          (b'm' ∷ b'e' ∷ b'm' ∷ b'i' ∷ b'n' ∷ b'f' ∷ b'o' ∷ [])
          (λ argv k. says memory_figures k)
    runs_crash :
        Runs fuel
          (b'c' ∷ b'r' ∷ b'a' ∷ b's' ∷ b'h' ∷ [])
          (λ argv k. some (crashing ∷ [], (false, k)))
    runs_resolution :
        Runs fuel
          (b'r' ∷ b'e' ∷ b's' ∷ b'o' ∷ b'l' ∷ b'u' ∷ b't' ∷ b'i' ∷ b'o' ∷ b'n' ∷ [])
          (λ argv k. some (
            resolution (Display.get_resolution video_core k.display.dma).0 ∷ [],
            (
              true,
              record k {
                display = record (k.display) {
                  dma = (Display.get_resolution video_core k.display.dma).1;
                };
              },
            ),
          ))
    runs_setres : Runs fuel (b's' ∷ b'e' ∷ b't' ∷ b'r' ∷ b'e' ∷ b's' ∷ []) (λ argv k. some (
      map shows (Resolution.cmd_setres atoi video_core argv k.display).0,
      (true, record k { display = (Resolution.cmd_setres atoi video_core argv k.display).1 }),
    ))

  -- A command that is asked for: its name, the other words of its line, and what it does.
  pub record Asked (fuel : ℕ) : Type 0 where
    pub name : List ℕ
    pub args : List (List ℕ)
    pub effect : List (List ℕ) → Console W → Left W
    pub runs : Runs fuel name effect

  -- The lines that ask for some commands: the words with a space between.
  abbrev pub asking : {fuel : ℕ} → List (Asked fuel) → List (List ℕ)
  asking [] = []
  asking (x ∷ xs) = join_args (x.name ∷ x.args) ∷ asking xs

  -- The words are at most 16, have no space in them, and make a line of printable bytes that fits.
  abbrev pub AllPlain : {fuel : ℕ} → List (Asked fuel) → Type 0
  AllPlain [] = Unit
  AllPlain (x ∷ xs) =
      (words (x.name ∷ x.args) ≡ true)
      × ((length (x.name ∷ x.args) ≤ max_args)
          × ((printable (join_args (x.name ∷ x.args)) ≡ true)
              × ((length (join_args (x.name ∷ x.args)) + 1 < max_line) × AllPlain xs)))

  -- The prompt with the working directory, if `f_getcwd` gives it.
  abbrev pub prompted : Console W → Event
  prompted k = prompt (
      if (fs.f_getcwd max_path k.volume).0 == fr_ok
      then some (fs.f_getcwd max_path k.volume).1.0
      else none)

  abbrev pub after_prompt : Console W → Console W
  after_prompt k = record k { volume = (fs.f_getcwd max_path k.volume).1.1 }

  -- For each command in turn a prompt and what the command shows, on the state that the ones before it
  -- left, until one halts the kernel; and a last prompt where none does.
  unfoldable pub obey : {fuel : ℕ} → List (Asked fuel) → Console W → Option (List Event × Console W)
  obey [] k = some (prompted k ∷ [], after_prompt k)
  obey (x ∷ xs) k = elim (x.effect (x.name ∷ x.args) (after_prompt k)) [
    | none ↦ none
    | some l ↦ elim l.1.0 [
      | false ↦ some (prompted k ∷ l.0, l.1.1)
      | true ↦ elim (obey xs l.1.1) [ none ↦ none | some r ↦ some (prompted k ∷ (l.0 ++ r.0), r.1) ]
    ]
  ]
