-- ===== src/Terminal/Tests.antt =====
-- Runs of the terminal on a screen of two rows and eight columns.
use raspberry_pi_gaming_cons.Common.{ℕ, ◌+◌, ◌≡◌, [], ◌∷◌, arith, replicate, length-replicate}
use raspberry_pi_gaming_cons.Terminal.{Term, term_puts, term_scroll}
use raspberry_pi_gaming_cons.Terminal.Moves.{IsValid, term_puts-IsValid}
use raspberry_pi_gaming_cons.Terminal.Cells.{cell, term_scroll-cell}

abbrev screen : Term
screen = record {
  term_buffer = replicate 32400 b' ';
  term_rows = 2;
  term_cols = 8;
  cursor_row = 0;
  cursor_col = 4;
  text_color = 0xFFFFFF;
  background_color = 0;
  fb = record { base = 0x1000; size = 4096; pitch = 256; width = 64; height = 16; mem = λ _. 0 };
}

screen-IsValid : IsValid screen
screen-IsValid = record {
  shape = record {
    size = length-replicate {A = ℕ} 32400 b' ';
    some_rows = omega arith;
    rows = omega arith;
    cols = omega arith;
  };
  row = omega arith;
  col = omega arith;
}

term_puts-IsValid_example : IsValid (term_puts (b'h' ∷ b'i' ∷ 10 ∷ 8 ∷ []) screen)
term_puts-IsValid_example =
    term_puts-IsValid {t = screen} (b'h' ∷ b'i' ∷ 10 ∷ 8 ∷ []) screen-IsValid

term_scroll-cell_example : cell (term_scroll screen) 0 5 ≡ cell screen (0 + 1) 5
term_scroll-cell_example =
    term_scroll-cell screen 0 5 screen-IsValid.shape (omega arith) (omega arith)
