-- ===== src/Terminal/Moves.antt =====
-- The cursor stays on the screen, and the buffer keeps its size.
use raspberry_pi_gaming_cons.Common.{
  ℕ, ◌+◌, ◌-◌, ◌*◌, ◌%◌, ◌≤◌, ◌<◌, ◌≡◌, refl, ◌∙◌, List, [], ◌∷◌, ◌++◌, length, length-set,
  length-append, length-replicate, take, drop, replicate, arith, Bool-cases, inl, inr, Bool, true,
  false, ltb, leb, ◌==◌, ◌&&◌, ◌||◌, length-take, length-drop,
}
use raspberry_pi_gaming_cons.Terminal.{
  Term, max_term_rows, max_term_cols, move_down, fill_at, term_scroll, next_row, backspace,
  put_char, term_putc, term_puts, put_cell, draw,
}

-- The buffer and the size of the screen.
pub record Shape (t : Term) : Type 0 where
  pub size : length t.term_buffer ≡ max_term_rows * max_term_cols
  pub some_rows : 0 < t.term_rows
  pub rows : t.term_rows ≤ max_term_rows
  pub cols : t.term_cols ≤ max_term_cols

-- The cursor is on the screen.
pub record IsValid (t : Term) : Type 0 where
  pub shape : Shape t
  pub row : t.cursor_row < t.term_rows
  pub col : t.cursor_col < t.term_cols

-- The cell under the cursor lies in the buffer.
pub cursor-in_bounds :
    {t : Term} → IsValid t → t.cursor_row * max_term_cols + t.cursor_col < length t.term_buffer
cursor-in_bounds v = omega arith

pub length-move_down :
    (from n : ℕ) (buf : List ℕ) → from + n ≤ length buf → length (move_down from n buf) ≡ length buf
length-move_down from n buf h = omega (
  arith,
  length-append (take n (drop from buf)) (drop n buf),
  length-take n (drop from buf),
  length-drop from buf,
  length-drop n buf,
)

pub length-fill_at :
    (at v n : ℕ) (buf : List ℕ) → at + n ≤ length buf → length (fill_at at v n buf) ≡ length buf
length-fill_at at v n buf h = omega (
  arith,
  length-append (take at buf) (replicate n v ++ drop (at + n) buf),
  length-append (replicate n v) (drop (at + n) buf),
  length-take at buf,
  length-replicate n v,
  length-drop (at + n) buf,
)

pub term_scroll-Shape : {t : Term} → Shape t → Shape (term_scroll t)
unfolding term_scroll
term_scroll-Shape {t} s = record {
  size = length-fill_at (last * max_term_cols) b' ' t.term_cols moved fits ∙ (moved-size ∙ s.size);
  some_rows = s.some_rows;
  rows = s.rows;
  cols = s.cols;
}
  where
    last : ℕ
    last = t.term_rows - 1

    moved : List ℕ
    moved = move_down max_term_cols (last * max_term_cols) t.term_buffer

    moved-size : length moved ≡ length t.term_buffer
    moved-size = length-move_down max_term_cols (last * max_term_cols) t.term_buffer (omega arith)

    fits : last * max_term_cols + t.term_cols ≤ length moved
    fits = omega (arith, moved-size)

next_row-IsValid_lem :
    {t : Term}
    → Shape t
    → (e : Bool) → leb t.term_rows ((t.cursor_row + 1) % 256) ≡ e
    → 0 < t.term_cols
    → IsValid (next_row t)
unfolding next_row
next_row-IsValid_lem {t} sh true e w =
    let s =
      term_scroll-Shape {t = moved}
        (record { size = sh.size; some_rows = sh.some_rows; rows = sh.rows; cols = sh.cols }) in
    rw e (
      unfold term_scroll in
      record {
        shape = record { size = s.size; some_rows = s.some_rows; rows = s.rows; cols = s.cols };
        row = omega (arith, sh.some_rows);
        col = w;
      })
  where
    moved : Term
    moved = record t { cursor_row = (t.cursor_row + 1) % 256; cursor_col = 0 }
next_row-IsValid_lem {t} sh false e w = rw e (record {
  shape = record { size = sh.size; some_rows = sh.some_rows; rows = sh.rows; cols = sh.cols };
  row = ground arith;
  col = w;
})

pub next_row-IsValid : {t : Term} → Shape t → 0 < t.term_cols → IsValid (next_row t)
next_row-IsValid {t} s w =
    next_row-IsValid_lem s (leb t.term_rows ((t.cursor_row + 1) % 256)) refl w

draw-IsValid : {t : Term} (c fg bg : ℕ) → IsValid t → IsValid (draw c fg bg t)
draw-IsValid {t} c fg bg v = record {
  shape = record {
    size = v.shape.size;
    some_rows = v.shape.some_rows;
    rows = v.shape.rows;
    cols = v.shape.cols;
  };
  row = v.row;
  col = v.col;
}

put_cell-Shape : {t : Term} (c : ℕ) → Shape t → Shape (put_cell c t)
put_cell-Shape {t} c s = record {
  size = length-set t.term_buffer _ c ∙ s.size;
  some_rows = s.some_rows;
  rows = s.rows;
  cols = s.cols;
}

backspace-IsValid : {t : Term} → 3 < t.cursor_col → IsValid t → IsValid (backspace t)
unfolding backspace
backspace-IsValid {t} behind v = record {
  shape = record {
    size = length-set t.term_buffer _ b' ' ∙ v.shape.size;
    some_rows = v.shape.some_rows;
    rows = v.shape.rows;
    cols = v.shape.cols;
  };
  row = v.row;
  col = omega (arith, v.col, v.shape.cols);
}

put_char-IsValid : {t : Term} (c : ℕ) → IsValid t → IsValid (put_char c t)
unfolding put_char
put_char-IsValid {t} c v = elim (Bool-cases (leb t.term_cols ((t.cursor_col + 1) % 256))) [
  | inl e ↦ rw e (next_row-IsValid {t = on} shape (omega (arith, v.col)))
  | inr e ↦ rw e (record { shape = shape; row = v.row; col = ground arith })
]
  where
    on : Term
    on = record (draw c t.text_color t.background_color (put_cell c t)) {
      cursor_col = (t.cursor_col + 1) % 256;
    }

    shape : Shape on
    shape = record {
      size = length-set t.term_buffer _ c ∙ v.shape.size;
      some_rows = v.shape.some_rows;
      rows = v.shape.rows;
      cols = v.shape.cols;
    }

-- Whatever the character, `term_putc` keeps the cursor on the screen and the buffer at its size.
pub term_putc-IsValid : {t : Term} (c : ℕ) → IsValid t → IsValid (term_putc c t)
unfolding term_putc
term_putc-IsValid {t} c v =
    let t' = draw b' ' t.text_color t.background_color t in
    let v' = draw-IsValid b' ' t.text_color t.background_color v in
    elim (Bool-cases (c == 13 || c == 10)) [
      | inl e ↦
          rw e (draw-IsValid b' ' _ _ (next_row-IsValid {t = t'} v'.shape (omega (arith, v'.col))))
      | inr e ↦ rw e (elim (Bool-cases ((c == 127 || c == 8) && ltb 3 t.cursor_col)) [
        | inl q ↦ rw q (draw-IsValid b' ' _ _ (backspace-IsValid (ground arith) v'))
        | inr q ↦ rw q (draw-IsValid b' ' _ _ (put_char-IsValid c v'))
      ])
    ]

-- With the cursor on the screen and a buffer of its size, any string leaves the cursor on the screen and
-- the buffer at its size.
pub term_puts-IsValid : {t : Term} (str : List ℕ) → IsValid t → IsValid (term_puts str t)
unfolding term_puts
term_puts-IsValid [] v = v
term_puts-IsValid {t = t} (c ∷ str) v =
    term_puts-IsValid {t = term_putc c t} str (term_putc-IsValid c v)
