-- ===== src/Boot/Tests.antt =====
-- The start over a card that keeps one file, and devices that do nothing.
use raspberry_pi_gaming_cons.Common.{
  ℕ, ◌+◌, ◌≡◌, ◌↔◌, refl, List, [], ◌∷◌, some, true, false, length, bit_and, ◌==◌, if◌then◌else◌,
}
use raspberry_pi_gaming_cons.Heap.{Heap}
use raspberry_pi_gaming_cons.Shell.Files.{FatFs}
use raspberry_pi_gaming_cons.Boot.{
  Kernel, Outside, passed, payload, differ, read_back, sd_selftest, test_path, crt_init,
}
use raspberry_pi_gaming_cons.Boot.Selftest.{Verified, sd_selftest-Verified}

-- The state is the content of the file; the flag FA_CREATE_ALWAYS empties it.
abbrev toy_fs : FatFs (List ℕ) (Unit {0}) (Unit {0})
toy_fs = record {
  f_getcwd = λ n w. (0, ([], w));
  f_opendir = λ path w. (0, (tt, w));
  f_readdir = λ d w. (0, (([], false), (tt, w)));
  f_closedir = λ d w. w;
  f_chdir = λ path w. (0, w);
  f_mkdir = λ path w. (0, w);
  f_unlink = λ path w. (0, w);
  f_open = λ path mode w. (0, (tt, if bit_and mode 8 == 0 then w else []));
  f_read = λ f n w. (0, (w, (tt, w)));
  f_write = λ f buf w. (0, (length buf, (tt, buf)));
  f_close = λ f w. w;
}

passes : (sd_selftest toy_fs []).0 ≡ passed
unfolding sd_selftest read_back payload test_path differ
passes = refl

sd_selftest-Verified_example : ((sd_selftest toy_fs []).0 ≡ passed) ↔ Verified toy_fs []
sd_selftest-Verified_example = sd_selftest-Verified toy_fs []

-- A core that is turned on leaves the top of its stack.
abbrev toy_outside : Outside (List ℕ) (Unit {0}) (Unit {0})
toy_outside = record {
  fs = toy_fs;
  f_mount = λ w. some (0, w);
  psci_cpu_on = λ i entry top w. top ∷ w;
  video_core = λ words. words;
  answers = λ words. true;
  uart = record { mmio_read = λ p w. (0, w); mmio_write = λ p v w. w };
  gic = record { mmio_read = λ r w. (0, w); mmio_write = λ r v w. w };
  cntfrq = 54000000;
  start_timer = λ v w. w;
  secondary_entry = 0x80000;
}

abbrev cold : Kernel (List ℕ)
cold = record {
  heap = record {
    bump_ptr = 0;
    heap_end = 0;
    mmu = record {
      tables = λ _ _. 0;
      l1_table = 0;
      pmm = record { bitmap = []; phys_mem_start = 0; total_frames = 0 };
    };
  };
  dma_bump_ptr = 0x140000000;
  fb = record { base = 0; size = 0; pitch = 0; width = 0; height = 0; mem = λ _. 0 };
  term_cols = 0;
  term_rows = 0;
  timer = record { time = 0; freq = 0 };
  world = [];
}

constructed : crt_init ((λ n. n + 1) ∷ (λ n. n + n) ∷ []) 3 ≡ 8
unfolding crt_init
constructed = refl
