-- ===== src/Shell/FileTests.antt =====
-- `cat` on a file of two bytes, a session of the shell, and the frame count of `meminfo` after `pmm_init`.
use raspberry_pi_gaming_cons.Common.{
  ℕ, zero, suc, ◌<◌, ◌≡◌, ◌≢◌, refl, List, [], ◌∷◌, some, false, length, take, drop, get_or, arith,
}
use raspberry_pi_gaming_cons.Shell.{run_line, parse_args, skip_spaces, token, dispatch, seq}
use raspberry_pi_gaming_cons.Shell.Resolution.{ℤ, pos}
use raspberry_pi_gaming_cons.Shell.Session.{Console, prompt, shows, goodbye, execute}
use raspberry_pi_gaming_cons.Shell.Typed.{perform}
use raspberry_pi_gaming_cons.Shell.Commands.{Asked, runs_cat, runs_shutdown, runs_ls}
use raspberry_pi_gaming_cons.Shell.Files.{
  FatFs, Printed, text, end_of_line, c_string, stream, cmd_cat,
}
use raspberry_pi_gaming_cons.Shell.Cat.{IsReadable, shown, cmd_cat-shown}

-- The volume is what is left of one file; every call but a read does nothing and succeeds.
abbrev one_file : FatFs (List ℕ) ℕ ℕ
one_file = record {
  f_getcwd = λ n w. (0, ([], w));
  f_opendir = λ p w. (0, (0, w));
  f_readdir = λ d w. (0, (([], false), (0, w)));
  f_closedir = λ d w. w;
  f_chdir = λ p w. (0, w);
  f_mkdir = λ p w. (0, w);
  f_unlink = λ p w. (0, w);
  f_open = λ p mode w. (0, (0, w));
  f_read = λ f n w. (0, (take n w, (f, drop n w)));
  f_write = λ f s w. (0, (length s, (f, w)));
  f_close = λ f w. w;
}

abbrev one_file-IsReadable : IsReadable one_file
one_file-IsReadable = record {
  ahead = λ f w. w;
  reads = λ f n w. refl;
  gives = λ f n w. refl;
  moves = λ f n w. refl;
}

abbrev hi : List ℕ
hi = b'h' ∷ b'i' ∷ []

hi-bytes : (i : ℕ) → i < 2 → get_or hi i 0 ≢ 0
hi-bytes zero h e = omega (arith, e)
hi-bytes (suc zero) h e = omega (arith, e)
hi-bytes (suc (suc i)) h e = omega arith

cat_hi :
    cmd_cat one_file 3 ((b'c' ∷ []) ∷ (b'f' ∷ []) ∷ []) hi ≡ some (text hi ∷ end_of_line ∷ [], [])
unfolding cmd_cat stream c_string
cat_hi = refl

cmd_cat-shown_example :
    (out : List Printed) × (w' : List ℕ) × (cmd_cat one_file 3 ((b'c' ∷ []) ∷ (b'f' ∷ []) ∷ []) hi
      ≡ some (out, w'))
    × (shown out ≡ hi)
cmd_cat-shown_example =
    cmd_cat-shown one_file-IsReadable 3 ((b'c' ∷ []) ∷ (b'f' ∷ []) ∷ []) hi hi (omega arith) refl
      refl hi-bytes (omega arith)

abbrev console : Console (List ℕ)
console = record {
  volume = hi;
  display = record {
    fb = record { base = 0; size = 0; pitch = 0; width = 0; height = 0; mem = λ _. 0 };
    term_cols = 0;
    term_rows = 0;
    dma = record {
      dma_bump_ptr = 0x140000000;
      mmu = record {
        tables = λ _ _. 0;
        l1_table = 0x100000;
        pmm = record { bitmap = 1 ∷ []; phys_mem_start = 0x100000; total_frames = 64 };
      };
    };
  };
  timer = record { time = 0; freq = 0 };
}

abbrev no_number : List ℕ → ℤ
no_number s = pos 0

-- `cat f`, then `shutdown`, then a line that is not reached.
abbrev lines : List (List ℕ)
lines =
    (b'c' ∷ b'a' ∷ b't' ∷ b' ' ∷ b'f' ∷ [])
    ∷ (b's' ∷ b'h' ∷ b'u' ∷ b't' ∷ b'd' ∷ b'o' ∷ b'w' ∷ b'n' ∷ [])
    ∷ (b'l' ∷ b's' ∷ [])
    ∷ []

performed :
    perform one_file no_number (λ words. words) 3 lines console
    ≡ some (
      prompt (some []) ∷ shows (text hi) ∷ shows end_of_line ∷ prompt (some []) ∷ goodbye ∷ [],
      record console { volume = [] },
    )
unfolding perform execute run_line parse_args skip_spaces token dispatch seq cmd_cat stream c_string
performed = refl

abbrev asked : List (Asked one_file no_number (λ words. words) 3)
asked =
    record { name = b'c' ∷ b'a' ∷ b't' ∷ []; args = (b'f' ∷ []) ∷ []; effect = _; runs = runs_cat }
    ∷ record {
      name = b's' ∷ b'h' ∷ b'u' ∷ b't' ∷ b'd' ∷ b'o' ∷ b'w' ∷ b'n' ∷ [];
      args = [];
      effect = _;
      runs = runs_shutdown;
    }
    ∷ record { name = b'l' ∷ b's' ∷ []; args = []; effect = _; runs = runs_ls }
    ∷ []
