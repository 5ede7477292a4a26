-- ===== src/Shell.antt =====
-- The line editor, the tokenizer and the dispatcher of src/kernel/shell/shell.cpp. Strings are lists of
-- bytes without the terminating zero.
pub mod Words
pub mod Lines
pub mod Bounds
pub mod Frames
pub mod Files
pub mod Resolution
pub mod Cat
pub mod Session
pub mod Typed
pub mod Commands
pub mod Texts
mod Tests
mod FileTests
use raspberry_pi_gaming_cons.Common.{
  ℕ, zero, suc, ◌+◌, ◌-◌, ◌*◌, ◌/◌, ◌%◌, List, [], ◌∷◌, ◌++◌, Bool, true, false, not, ltb, leb,
  ◌==◌, ◌&&◌, ◌||◌, if◌then◌else◌, length, get_or, take, drop,
}
use raspberry_pi_gaming_cons.Common.Words.{u64, sub64}
use raspberry_pi_gaming_cons.Pmm.{Pmm}
use mathlib.Core.List.{reverse}

abbrev pub max_line : ℕ
max_line = 256

abbrev pub max_args : ℕ
max_args = 16

unfoldable pub slen : List ℕ → ℕ
slen [] = 0
slen (c ∷ s) = 1 + slen s

-- Equality of two strings; the end of a string reads as a zero.
unfoldable pub seq : List ℕ → List ℕ → Bool
seq [] b = get_or b 0 0 == 0
seq (x ∷ a) [] = x == 0
seq (x ∷ a) (y ∷ b) = if x == y then seq a b else false

-- `join_args` from its second argument on, each with a space before it.
unfoldable pub join_rest : List (List ℕ) → List ℕ
join_rest [] = []
join_rest (s ∷ argv) = b' ' ∷ (s ++ join_rest argv)

-- The bytes written to `dst`, for the arguments from `start` on.
unfoldable pub join_args : List (List ℕ) → List ℕ
join_args [] = []
join_args (s ∷ argv) = s ++ join_rest argv

-- `read_line` on the bytes that `uart_getc` gives, with the `i` bytes stored so far in reverse and
-- `room` bytes left before `max - 1`: the line, in order, and the input left over. Input that ends
-- leaves the call waiting, with what it has; it is given back with no input left over.
-- A backspace with nothing stored falls through to the last test, as in the code.
unfoldable pub edit : List ℕ → List ℕ → ℕ → List ℕ × List ℕ
edit [] buf room = (buf, [])
edit (c ∷ input) [] room =
    let store = edit input (c ∷ []) (room - 1) in
    let skip = edit input [] room in
    if room == 0
    then ([], c ∷ input)
    else if c == 13 || c == 10
    then ([], input)
    else if leb 32 c
    then store
    else skip
edit (c ∷ input) (x ∷ kept) room =
    let back = edit input kept (room + 1) in
    let store = edit input (c ∷ x ∷ kept) (room - 1) in
    let skip = edit input (x ∷ kept) room in
    if room == 0
    then (x ∷ kept, c ∷ input)
    else if c == 13 || c == 10
    then (x ∷ kept, input)
    else if c == 127 || c == 8
    then back
    else if leb 32 c
    then store
    else skip

unfoldable pub read_line : ℕ → List ℕ → List ℕ × List ℕ
read_line max input = let r = edit input [] (max - 1) in (reverse r.0, r.1)

-- `while (*p == ' ') p++`
unfoldable pub skip_spaces : List ℕ → List ℕ
skip_spaces [] = []
skip_spaces (c ∷ p) = let rest = skip_spaces p in if c == b' ' then rest else c ∷ p

-- `while (*p && *p != ' ') p++`: the token, and what is at `p` after its separator is overwritten.
unfoldable pub token : List ℕ → List ℕ × List ℕ
token [] = ([], [])
token (c ∷ p) = let r = token p in if c == b' ' then ([], p) else (c ∷ r.0, r.1)

-- The tokens that `argv` points to, at most `max_argc`.
unfoldable pub parse_args : ℕ → List ℕ → List (List ℕ)
parse_args zero line = []
parse_args (suc max_argc) line =
    let p = skip_spaces line in
    let r = token p in
    let rest = parse_args max_argc r.1 in if length p == 0 then [] else r.0 ∷ rest

-- What `shell_run` does with a line.
pub data Command : Type 0 where
  next_prompt : Command
  cmd_help : Command
  cmd_ls : Command
  cmd_pwd : Command
  cmd_cd : Command
  cmd_mkdir : Command
  cmd_touch : Command
  cmd_cat : Command
  cmd_write : Command
  cmd_rm : Command
  cmd_clear : Command
  print_banner : Command
  cmd_shutdown : Command
  cmd_timer : Command
  cmd_meminfo : Command
  cmd_crash : Command
  get_resolution : Command
  cmd_setres : Command
  not_found : Command

-- The names in the order of the tests, with what they run.
abbrev pub commands : List (List ℕ × Command)
commands =
    (b'h' ∷ b'e' ∷ b'l' ∷ b'p' ∷ [], cmd_help)
    ∷ (b'l' ∷ b's' ∷ [], cmd_ls)
    ∷ (b'p' ∷ b'w' ∷ b'd' ∷ [], cmd_pwd)
    ∷ (b'c' ∷ b'd' ∷ [], cmd_cd)
    ∷ (b'm' ∷ b'k' ∷ b'd' ∷ b'i' ∷ b'r' ∷ [], cmd_mkdir)
    ∷ (b't' ∷ b'o' ∷ b'u' ∷ b'c' ∷ b'h' ∷ [], cmd_touch)
    ∷ (b'c' ∷ b'a' ∷ b't' ∷ [], cmd_cat)
    ∷ (b'w' ∷ b'r' ∷ b'i' ∷ b't' ∷ b'e' ∷ [], cmd_write)
    ∷ (b'r' ∷ b'm' ∷ [], cmd_rm)
    ∷ (b'c' ∷ b'l' ∷ b'e' ∷ b'a' ∷ b'r' ∷ [], cmd_clear)
    ∷ (b'k' ∷ b'e' ∷ b'r' ∷ b'n' ∷ b'e' ∷ b'l' ∷ [], print_banner)
    ∷ (b's' ∷ b'h' ∷ b'u' ∷ b't' ∷ b'd' ∷ b'o' ∷ b'w' ∷ b'n' ∷ [], cmd_shutdown)
    ∷ (b'u' ∷ b'p' ∷ b't' ∷ b'i' ∷ b'm' ∷ b'e' ∷ [], cmd_timer)
    ∷ (b'm' ∷ b'e' ∷ b'm' ∷ b'i' ∷ b'n' ∷ b'f' ∷ b'o' ∷ [], cmd_meminfo)
    ∷ (b'c' ∷ b'r' ∷ b'a' ∷ b's' ∷ b'h' ∷ [], cmd_crash)
    ∷ (b'r' ∷ b'e' ∷ b's' ∷ b'o' ∷ b'l' ∷ b'u' ∷ b't' ∷ b'i' ∷ b'o' ∷ b'n' ∷ [], get_resolution)
    ∷ (b's' ∷ b'e' ∷ b't' ∷ b'r' ∷ b'e' ∷ b's' ∷ [], cmd_setres)
    ∷ []

-- The chain of tests.
unfoldable pub dispatch : List (List ℕ × Command) → List ℕ → Command
dispatch [] name = not_found
dispatch (c ∷ table) name = let rest = dispatch table name in if seq name c.0 then c.1 else rest

-- One round of `shell_run`: the command that a line runs, and its arguments.
unfoldable pub run_line : List ℕ → Command × List (List ℕ)
run_line line =
    let argv = parse_args max_args line in
    if length line == 0
    then (next_prompt, [])
    else if length argv == 0
    then (next_prompt, [])
    else (dispatch commands (get_or argv 0 []), argv)

-- `__builtin_popcountll`, over `n` bits
unfoldable pub popcount : ℕ → ℕ → ℕ
popcount zero w = 0
popcount (suc n) w = w % 2 + popcount n (w / 2)

-- The loop of `cmd_meminfo` over the words of the bitmap, from word `i`.
unfoldable pub set_bits : ℕ → ℕ → List ℕ → ℕ
set_bits zero i words = 0
set_bits (suc n) i words = popcount 64 (get_or words i 0) + set_bits n (i + 1) words

-- `used_frames` of `cmd_meminfo`
unfoldable pub used_frames : Pmm → ℕ
used_frames p =
    let words = u64 (p.total_frames + 63) / 64 in
    let padding_bits = sub64 (u64 (words * 64)) p.total_frames in
    sub64 (u64 (set_bits words 0 p.bitmap)) padding_bits
