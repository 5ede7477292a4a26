-- ===== src/Shell/Session.antt =====
-- `shell_run` of src/kernel/shell/shell.cpp: prompts, lines and commands, over FatFs, `atoi` and VideoCore
-- as arguments. The texts of the commands that only print are one event each.
use raspberry_pi_gaming_cons.Common.{
  ℕ, zero, suc, ◌+◌, ◌-◌, List, [], ◌∷◌, ◌++◌, map, Option, none, some, Bool, true, false, not, leb,
  ◌==◌, ◌&&◌, ◌||◌, if◌then◌else◌, get_or,
}
use raspberry_pi_gaming_cons.Display.{Display}
use raspberry_pi_gaming_cons.Display as Display
use raspberry_pi_gaming_cons.Timer.{Timer, get_time}
use raspberry_pi_gaming_cons.Shell.{Command, max_line, read_line, run_line}
use raspberry_pi_gaming_cons.Shell.Files.{FatFs, Printed, fr_ok, max_path}
use raspberry_pi_gaming_cons.Shell.Files as Files
use raspberry_pi_gaming_cons.Shell.Resolution.{ℤ}
use raspberry_pi_gaming_cons.Shell.Resolution as Resolution

-- What the user sees (Shell/Texts has the words of the fixed texts): a prompt with the working directory, if FatFs gives it, what a command prints, or
-- one of the fixed texts; `uptime` is the tick count, `resolution` what the display answers.
pub data Event : Type 0 where
  prompt : Option (List ℕ) → Event
  shows : Printed → Event
  help : Event
  banner : Event
  cleared : Event
  goodbye : Event
  uptime : ℕ → Event
  memory_figures : Event
  crashing : Event
  resolution : Option (ℕ × ℕ) → Event
  unknown_command : List ℕ → Event

-- The state that the commands change, and the timer.
pub record Console (W : Type 0) : Type 0 where
  pub volume : W
  pub display : Display
  pub timer : Timer

-- What a command leaves: its events, whether the shell goes on, and the state.
abbrev pub Left : Type 0 → Type 0
Left W = Option (List Event × (Bool × Console W))

abbrev pub says : {W : Type 0} → Event → Console W → Left W
says e k = some (e ∷ [], (true, k))

abbrev pub on_volume : {W : Type 0} → Console W → List Printed × W → Left W
on_volume k o = some (map shows o.0, (true, record k { volume = o.1 }))

abbrev pub on_volume_if : {W : Type 0} → Console W → Option (List Printed × W) → Left W
on_volume_if k none = none
on_volume_if k (some o) = on_volume k o

-- `read_line` has not seen the end of its line: `i` bytes are stored, with `room` left.
unfoldable pub waiting : List ℕ → ℕ → ℕ → Bool
waiting [] i room = not (room == 0)
waiting (c ∷ input) i room =
    let back = waiting input (i - 1) (room + 1) in
    let store = waiting input (i + 1) (room - 1) in
    let skip = waiting input i room in
    if room == 0
    then false
    else if c == 13 || c == 10
    then false
    else if (c == 127 || c == 8) && not (i == 0)
    then back
    else if leb 32 c
    then store
    else skip

-- The events `p`, then those of the command, and what follows unless it halts the kernel.
abbrev pub after_command :
    {W : Type 0}
    → Event
    → Left W
    → (Console W → Option (List Event × Console W))
    → Option (List Event × Console W)
after_command p none next = none
after_command p (some (out, (false, k))) next = some (p ∷ out, k)
after_command p (some (out, (true, k))) next = elim (next k) [
  | none ↦ none
  | some r ↦ some (p ∷ (out ++ r.0), r.1)
]

module _ {W F D : Type 0} (fs : FatFs W F D) (atoi : List ℕ → ℤ)
    (video_core : List ℕ → List ℕ) where
  -- `cmd_resolution` is `get_resolution` of the display.
  abbrev pub ask_resolution : Console W → Left W
  ask_resolution k =
      let r = Display.get_resolution video_core k.display.dma in
      says (resolution r.0) (record k { display = record (k.display) { dma = r.1 } })

  abbrev pub change_resolution : List (List ℕ) → Console W → Left W
  change_resolution argv k =
      let r = Resolution.cmd_setres atoi video_core argv k.display in
      some (map shows r.0, (true, record k { display = r.1 }))

  -- The command of a line. `shutdown` and `crash` do not return to the shell.
  unfoldable pub execute : ℕ → Command → List (List ℕ) → Console W → Left W
  execute fuel Command.next_prompt argv k = some ([], (true, k))
  execute fuel Command.cmd_help argv k = says help k
  execute fuel Command.cmd_ls argv k = on_volume_if k (Files.cmd_ls fs fuel argv k.volume)
  execute fuel Command.cmd_pwd argv k = on_volume k (Files.cmd_pwd fs k.volume)
  execute fuel Command.cmd_cd argv k = on_volume k (Files.cmd_cd fs argv k.volume)
  execute fuel Command.cmd_mkdir argv k = on_volume k (Files.cmd_mkdir fs argv k.volume)
  execute fuel Command.cmd_touch argv k = on_volume k (Files.cmd_touch fs argv k.volume)
  execute fuel Command.cmd_cat argv k = on_volume_if k (Files.cmd_cat fs fuel argv k.volume)
  execute fuel Command.cmd_write argv k = on_volume k (Files.cmd_write fs argv k.volume)
  execute fuel Command.cmd_rm argv k = on_volume k (Files.cmd_rm fs argv k.volume)
  execute fuel Command.cmd_clear argv k = says cleared k
  execute fuel Command.print_banner argv k = says banner k
  execute fuel Command.cmd_shutdown argv k = some (goodbye ∷ [], (false, k))
  execute fuel Command.cmd_timer argv k = says (uptime (get_time k.timer)) k
  execute fuel Command.cmd_meminfo argv k = says memory_figures k
  execute fuel Command.cmd_crash argv k = some (crashing ∷ [], (false, k))
  execute fuel Command.get_resolution argv k = ask_resolution k
  execute fuel Command.cmd_setres argv k = change_resolution argv k
  execute fuel Command.not_found argv k = says (unknown_command (get_or argv 0 [])) k

  -- The prompt, and the state after it.
  abbrev pub ask : Console W → Event × Console W
  ask k =
      let r = fs.f_getcwd max_path k.volume in
      (prompt (if r.0 == fr_ok then some r.1.0 else none), record k { volume = r.1.1 })

  -- The loop on the bytes that are typed, with at most `rounds` prompts; it ends where `read_line` waits
  -- for more, or a command halts the kernel. `none` is a loop that outlasts its fuel.
  unfoldable pub session : ℕ → ℕ → List ℕ → Console W → Option (List Event × Console W)
  session zero fuel input k = none
  session (suc rounds) fuel input k =
      let asked = ask k in
      let line = read_line max_line input in
      let run = run_line line.0 in
      if waiting input 0 (max_line - 1)
      then some (asked.0 ∷ [], asked.1)
      else after_command asked.0 (execute fuel run.0 run.1 asked.1)
          (λ k'. session rounds fuel line.1 k')

  -- `shell_run`: the banner, and the loop.
  unfoldable pub shell_run : ℕ → ℕ → List ℕ → Console W → Option (List Event × Console W)
  shell_run rounds fuel input k = elim (session rounds fuel input k) [
    | none ↦ none
    | some r ↦ some (banner ∷ r.0, r.1)
  ]
