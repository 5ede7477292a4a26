-- ===== src/Shell/Files.antt =====
-- The commands on files of src/kernel/shell/shell.cpp, over FatFs as an argument.
use raspberry_pi_gaming_cons.Common.{
  ℕ, zero, suc, List, [], ◌∷◌, Option, none, some, Bool, true, false, not, ltb, ◌==◌, ◌||◌, bit_or,
  if◌then◌else◌, length, get_or, drop,
}
use raspberry_pi_gaming_cons.Shell.{slen, join_args}

abbrev pub fr_ok : ℕ
fr_ok = 0

abbrev pub fa_read : ℕ
fa_read = 0x01

abbrev pub fa_write : ℕ
fa_write = 0x02

abbrev pub fa_create_new : ℕ
fa_create_new = 0x04

-- The calls of FatFs that the shell makes, on a volume with state W, with files F and directories D:
-- each gives its FRESULT, what it stores through its pointers, and the new state.
pub record FatFs (W F D : Type 0) : Type 0 where
  pub f_getcwd : ℕ → W → ℕ × (List ℕ × W)
  pub f_opendir : List ℕ → W → ℕ × (D × W)
  pub f_readdir : D → W → ℕ × ((List ℕ × Bool) × (D × W))
  pub f_closedir : D → W → W
  pub f_chdir : List ℕ → W → ℕ × W
  pub f_mkdir : List ℕ → W → ℕ × W
  pub f_unlink : List ℕ → W → ℕ × W
  pub f_open : List ℕ → ℕ → W → ℕ × (F × W)
  pub f_read : F → ℕ → W → ℕ × (List ℕ × (F × W))
  pub f_write : F → List ℕ → W → ℕ × (ℕ × (F × W))
  pub f_close : F → W → W

-- What a command prints.
pub data Printed : Type 0 where
  usage : Printed
  failed : Printed
  nothing_found : Printed
  empty_directory : Printed
  read_error : Printed
  end_of_line : Printed
  text : List ℕ → Printed
  entry : List ℕ → Bool → Printed

abbrev pub max_path : ℕ
max_path = 512

-- The string in a buffer of bytes: what stands before its first zero.
unfoldable pub c_string : List ℕ → List ℕ
c_string [] = []
c_string (c ∷ s) = if c == 0 then [] else c ∷ c_string s

module _ {W F D : Type 0} (fs : FatFs W F D) where
  unfoldable pub cmd_pwd : W → List Printed × W
  cmd_pwd w =
      let r = fs.f_getcwd max_path w in
      if r.0 == fr_ok then (text r.1.0 ∷ [], r.1.1) else (failed ∷ [], r.1.1)

  -- The loop of `cmd_ls`, and what follows it; `any` says whether an entry was printed.
  unfoldable pub list_entries : ℕ → D → Bool → W → Option (List Printed × W)
  list_entries zero dir any w = none
  list_entries (suc fuel) dir any w =
      let r = fs.f_readdir dir w in
      let name = r.1.0.0 in
      let rest = list_entries fuel r.1.1.0 true r.1.1.1 in
      if not (r.0 == fr_ok) || length name == 0
      then some (if any then [] else (empty_directory ∷ []), fs.f_closedir r.1.1.0 r.1.1.1)
      else elim rest [ none ↦ none | some o ↦ some (entry name r.1.0.1 ∷ o.0, o.1) ]

  unfoldable pub cmd_ls : ℕ → List (List ℕ) → W → Option (List Printed × W)
  cmd_ls fuel argv w =
      let path = if ltb (length argv) 2 then b'.' ∷ [] else get_or argv 1 [] in
      let r = fs.f_opendir path w in
      if r.0 == fr_ok then list_entries fuel r.1.0 false r.1.1 else some (nothing_found ∷ [], r.1.1)

  unfoldable pub cmd_cd : List (List ℕ) → W → List Printed × W
  cmd_cd argv w =
      let r = fs.f_chdir (get_or argv 1 []) w in
      if ltb (length argv) 2
      then (usage ∷ [], w)
      else if r.0 == fr_ok
      then ([], r.1)
      else (nothing_found ∷ [], r.1)

  unfoldable pub cmd_mkdir : List (List ℕ) → W → List Printed × W
  cmd_mkdir argv w =
      let r = fs.f_mkdir (get_or argv 1 []) w in
      if ltb (length argv) 2
      then (usage ∷ [], w)
      else if r.0 == fr_ok
      then ([], r.1)
      else (failed ∷ [], r.1)

  unfoldable pub cmd_touch : List (List ℕ) → W → List Printed × W
  cmd_touch argv w =
      let r = fs.f_open (get_or argv 1 []) (bit_or fa_write fa_create_new) w in
      if ltb (length argv) 2
      then (usage ∷ [], w)
      else if r.0 == fr_ok
      then ([], fs.f_close r.1.0 r.1.1)
      else (failed ∷ [], r.1.1)

  -- The loop of `cmd_cat`, and what follows it.
  unfoldable pub stream : ℕ → F → W → Option (List Printed × W)
  stream zero fil w = none
  stream (suc fuel) fil w =
      let r = fs.f_read fil 127 w in
      let buf = r.1.0 in
      let rest = stream fuel r.1.1.0 r.1.1.1 in
      let closed = fs.f_close r.1.1.0 r.1.1.1 in
      if not (r.0 == fr_ok)
      then some (read_error ∷ [], closed)
      else if length buf == 0
      then some (end_of_line ∷ [], closed)
      else elim rest [ none ↦ none | some o ↦ some (text (c_string buf) ∷ o.0, o.1) ]

  unfoldable pub cmd_cat : ℕ → List (List ℕ) → W → Option (List Printed × W)
  cmd_cat fuel argv w =
      let r = fs.f_open (get_or argv 1 []) fa_read w in
      if ltb (length argv) 2
      then some (usage ∷ [], w)
      else if r.0 == fr_ok
      then stream fuel r.1.0 r.1.1
      else some (nothing_found ∷ [], r.1.1)

  unfoldable pub cmd_write : List (List ℕ) → W → List Printed × W
  cmd_write argv w =
      let r = fs.f_open (get_or argv 1 []) fa_write w in
      let line = join_args (drop 2 argv) in
      let done = fs.f_write r.1.0 line r.1.1 in
      let closed = fs.f_close done.1.1.0 done.1.1.1 in
      if ltb (length argv) 3
      then (usage ∷ [], w)
      else if not (r.0 == fr_ok)
      then (nothing_found ∷ [], r.1.1)
      else if not (done.0 == fr_ok) || not (done.1.0 == slen line)
      then (failed ∷ [], closed)
      else ([], closed)

  unfoldable pub cmd_rm : List (List ℕ) → W → List Printed × W
  cmd_rm argv w =
      let r = fs.f_unlink (get_or argv 1 []) w in
      if ltb (length argv) 2
      then (usage ∷ [], w)
      else if r.0 == fr_ok
      then ([], r.1)
      else (failed ∷ [], r.1)
