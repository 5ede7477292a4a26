-- ===== src/Terminal.antt =====
-- The screen-side terminal of src/kernel/io/io.cpp, with its state from include/display/render.h.
pub mod Moves
pub mod Cells
mod Tests
use raspberry_pi_gaming_cons.Common.{
  ℕ, zero, suc, ◌+◌, ◌-◌, ◌*◌, ◌%◌, ◌≤◌, ◌<◌, ◌^◌, List, [], ◌∷◌, ◌++◌, Bool, ltb, leb, ◌==◌, ◌&&◌,
  ◌||◌, if◌then◌else◌, set, take, drop, replicate,
}
use raspberry_pi_gaming_cons.Common.Words.{u32}
use raspberry_pi_gaming_cons.Render.{Framebuffer, draw_char, draw_horizontal_line, fill_screen}

abbrev pub max_term_rows : ℕ
max_term_rows = 135

abbrev pub max_term_cols : ℕ
max_term_cols = 240

-- The globals of the terminal; the four counters are `uint8_t`.
pub record Term : Type 0 where
  pub term_buffer : List ℕ
  pub term_rows : ℕ
  pub term_cols : ℕ
  pub cursor_row : ℕ
  pub cursor_col : ℕ
  pub text_color : ℕ
  pub background_color : ℕ
  pub fb : Framebuffer

-- `memmove(buf, buf + from, n)` and `memset(buf + at, v, n)`
abbrev pub move_down : ℕ → ℕ → List ℕ → List ℕ
move_down from n buf = take n (drop from buf) ++ drop n buf

abbrev pub fill_at : ℕ → ℕ → ℕ → List ℕ → List ℕ
fill_at at v n buf = take at buf ++ (replicate n v ++ drop (at + n) buf)

-- The loop that blanks the eight scan lines of the last row, with `rounds` to go.
unfoldable pub blank_lines : ℕ → ℕ → ℕ → Framebuffer → Framebuffer
blank_lines zero y color fb = fb
blank_lines (suc rounds) y color fb =
    blank_lines rounds (y + 1) color (draw_horizontal_line y color fb)

-- `memmove` of the pixels up by eight scan lines; the addresses and the size are 32-bit.
abbrev pub scroll_pixels : ℕ → Framebuffer → Framebuffer
scroll_pixels rows fb =
    let n = u32 ((rows - 1) * 8 * fb.pitch) in
    let from = u32 (fb.base + 8 * fb.pitch) in
    record fb {
      mem = λ a.
          if leb fb.base a && ltb a (fb.base + n) then fb.mem (from + (a - fb.base)) else fb.mem a;
    }

-- `_term_scroll`; it is called with at least one row.
unfoldable pub term_scroll : Term → Term
unfolding blank_lines
term_scroll t =
    let last = t.term_rows - 1 in
    let moved = move_down max_term_cols (last * max_term_cols) t.term_buffer in
    record t {
      term_buffer = fill_at (last * max_term_cols) b' ' t.term_cols moved;
      fb = blank_lines 8 (last * 8) t.background_color (scroll_pixels t.term_rows t.fb);
    }

-- It also clears the screen at the far end of the UART, which is no part of this state.
unfoldable pub term_clear : Term → Term
term_clear t = record t {
  term_buffer = fill_at 0 b' ' (max_term_rows * max_term_cols) t.term_buffer;
  fb = fill_screen t.background_color t.fb;
  cursor_row = 0;
  cursor_col = 0;
}

-- `draw_char` at the cursor
abbrev pub draw : ℕ → ℕ → ℕ → Term → Term
draw c fg bg t = record t { fb = draw_char t.cursor_col t.cursor_row c fg bg t.fb }

-- The cursor is drawn as a space in swapped colours.
abbrev pub draw_cursor : Term → Term
draw_cursor t = draw b' ' t.background_color t.text_color t

-- `term_buffer[cursor_row * MAX_TERM_COLS + cursor_col] = c`
abbrev pub put_cell : ℕ → Term → Term
put_cell c t = record t {
  term_buffer = set t.term_buffer (t.cursor_row * max_term_cols + t.cursor_col) c;
}

-- The cursor goes to the start of the next row, and the screen scrolls below its last row.
unfoldable pub next_row : Term → Term
next_row t =
    let t' = record t { cursor_row = (t.cursor_row + 1) % 256; cursor_col = 0 } in
    if leb t'.term_rows t'.cursor_row
    then record (term_scroll t') { cursor_row = t'.term_rows - 1 }
    else t'

unfoldable pub backspace : Term → Term
backspace t = put_cell b' ' (record t { cursor_col = (t.cursor_col + 255) % 256 })

-- A character is stored and drawn, and the cursor goes on, at the end of a row to the next.
unfoldable pub put_char : ℕ → Term → Term
put_char c t =
    let drawn = draw c t.text_color t.background_color (put_cell c t) in
    let on = record drawn { cursor_col = (t.cursor_col + 1) % 256 } in
    if leb on.term_cols on.cursor_col then next_row on else on

unfoldable pub term_putc : ℕ → Term → Term
term_putc c t =
    let t' = draw b' ' t.text_color t.background_color t in
    if c == 13 || c == 10
    then draw_cursor (next_row t')
    else if (c == 127 || c == 8) && ltb 3 t'.cursor_col
    then draw_cursor (backspace t')
    else draw_cursor (put_char c t')

-- `str` up to its terminating zero
unfoldable pub term_puts : List ℕ → Term → Term
term_puts [] t = t
term_puts (c ∷ str) t = term_puts str (term_putc c t)
