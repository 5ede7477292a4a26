-- ===== src/Terminal/Cells.antt =====
-- What the cells of the buffer hold after a scroll and after a character.
use raspberry_pi_gaming_cons.Common.{
  ℕ, zero, suc, ◌+◌, ◌-◌, ◌*◌, ◌%◌, ◌≤◌, ◌<◌, ◌≡◌, refl, ap, ◌∙◌, ◌⊎◌, List, ◌++◌, length, get_or,
  length-replicate, length-take, length-drop, take, drop, replicate, arith, if◌then◌else◌, ltb, leb,
  ◌==◌, ◌&&◌, ◌||◌, get_or-append_left, get_or-append_right, get_or-take, get_or-drop,
  get_or-set_self, get_or-set_ne, inl, inr, true, false, Bool-cases,
}
use raspberry_pi_gaming_cons.Terminal.{
  Term, max_term_cols, move_down, fill_at, term_scroll, put_char, term_putc, next_row, put_cell,
}
use raspberry_pi_gaming_cons.Terminal.Moves.{Shape, IsValid, length-move_down, cursor-in_bounds}

get_or-move_down :
    (from n : ℕ) (buf : List ℕ) (i : ℕ)
    → i < n
    → n + from ≤ length buf
    → get_or (move_down from n buf) i 0 ≡ get_or buf (from + i) 0
get_or-move_down from n buf i h k =
    get_or-append_left (take n (drop from buf)) (drop n buf) i 0
      (omega (arith, length-take n (drop from buf), length-drop from buf))
    ∙ get_or-take n (drop from buf) i 0 h
    ∙ get_or-drop from buf i 0

get_or-fill_at_before :
    (at v n : ℕ) (buf : List ℕ) (i : ℕ)
    → i < at
    → at ≤ length buf
    → get_or (fill_at at v n buf) i 0 ≡ get_or buf i 0
get_or-fill_at_before at v n buf i h k =
    get_or-append_left (take at buf) (replicate n v ++ drop (at + n) buf) i 0
      (omega (arith, length-take at buf))
    ∙ get_or-take at buf i 0 h

get_or-fill_at_in :
    (at v n : ℕ) (buf : List ℕ) (i : ℕ)
    → i < n
    → at ≤ length buf
    → get_or (fill_at at v n buf) (at + i) 0 ≡ v
get_or-fill_at_in at v n buf i h k =
    let e : at ≡ length (take at buf) = omega (arith, length-take at buf) in
    ap (λ j. get_or (fill_at at v n buf) (j + i) 0) e
    ∙ get_or-append_right (take at buf) (replicate n v ++ drop (at + n) buf) i 0
    ∙ get_or-append_left (replicate n v) (drop (at + n) buf) i 0
        (omega (arith, length-replicate n v))
    ∙ replicated n i v h
  where
    replicated : (n i v : ℕ) → i < n → get_or (replicate n v) i 0 ≡ v
    replicated zero i v h = absurd (omega arith)
    replicated (suc n) zero v h = refl
    replicated (suc n) (suc i) v h = replicated n i v (omega arith)

-- The character in a cell of the screen.
abbrev pub cell : Term → ℕ → ℕ → ℕ
cell t r c = get_or t.term_buffer (r * max_term_cols + c) 0

-- With the buffer at its size, after a scroll every row of the screen but the last holds what the row
-- below it held.
pub term_scroll-cell :
    (t : Term) (r c : ℕ)
    → Shape t
    → r + 1 < t.term_rows
    → c < max_term_cols
    → cell (term_scroll t) r c ≡ cell t (r + 1) c
unfolding term_scroll
term_scroll-cell t r c s hr hc =
    get_or-fill_at_before (last * max_term_cols) b' ' t.term_cols moved (r * max_term_cols + c)
      (omega arith)
      (omega (
        arith,
        s.size,
        s.rows,
        length-move_down max_term_cols (last * max_term_cols) t.term_buffer
            (omega (arith, s.size, s.rows)),
      ))
    ∙ get_or-move_down max_term_cols (last * max_term_cols) t.term_buffer (r * max_term_cols + c)
        (omega arith) (omega (arith, s.size, s.rows))
    ∙ ap (λ i. get_or t.term_buffer i 0) (omega arith)
  where
    last : ℕ
    last = t.term_rows - 1

    moved : List ℕ
    moved = move_down max_term_cols (last * max_term_cols) t.term_buffer

-- With the buffer at its size, the last row of the screen is blank after a scroll.
pub term_scroll-last :
    (t : Term) (c : ℕ) → Shape t → c < t.term_cols → cell (term_scroll t) (t.term_rows - 1) c ≡ b' '
unfolding term_scroll
term_scroll-last t c s hc =
    get_or-fill_at_in ((t.term_rows - 1) * max_term_cols) b' ' t.term_cols
      (move_down max_term_cols ((t.term_rows - 1) * max_term_cols) t.term_buffer) c hc
      (omega (
        arith,
        s.size,
        s.rows,
        length-move_down max_term_cols ((t.term_rows - 1) * max_term_cols) t.term_buffer
            (omega (arith, s.size, s.rows, s.some_rows)),
      ))

put_cell-cell :
    {t : Term} (c r k : ℕ)
    → IsValid t
    → k < max_term_cols
    → cell (put_cell c t) r k ≡ (if r == t.cursor_row && k == t.cursor_col then c else cell t r k)
put_cell-cell {t} c r k v hk = elim (Bool-cases (r == t.cursor_row && k == t.cursor_col)) [
  | inl e ↦
      let er : r ≡ t.cursor_row = ground arith in
      let ek : k ≡ t.cursor_col = ground arith in
      let same : r * max_term_cols + k ≡ t.cursor_row * max_term_cols + t.cursor_col =
        omega arith in
      rw e (
        ap (λ i. get_or (put_cell c t).term_buffer i 0) same
        ∙ get_or-set_self t.term_buffer _ c 0 (cursor-in_bounds v))
  | inr e ↦ rw e (
      get_or-set_ne t.term_buffer (t.cursor_row * max_term_cols + t.cursor_col)
        (r * max_term_cols + k) c 0 (λ q. ground arith))
]

-- A printable character before the last column lands in the cell under the cursor, which moves one
-- column to the right; no other cell changes.
pub term_putc-printable :
    (t : Term) (c r k : ℕ)
    → IsValid t
    → 32 ≤ c
    → c < 127
    → t.cursor_col + 1 < t.term_cols
    → k < max_term_cols
    → (cell (term_putc c t) r k
        ≡ (if r == t.cursor_row && k == t.cursor_col then c else cell t r k))
      × ((term_putc c t).cursor_row ≡ t.cursor_row)
      × ((term_putc c t).cursor_col ≡ t.cursor_col + 1)
unfolding term_putc put_char
term_putc-printable t c r k v lo hi room hk =
    let shown : (c == 13 || c == 10) ≡ false = ground arith in
    let kept : ((c == 127 || c == 8) && ltb 3 t.cursor_col) ≡ false = ground arith in
    let inside : leb t.term_cols ((t.cursor_col + 1) % 256) ≡ false = ground arith in
    rw (shown, kept, inside) (put_cell-cell c r k v hk, refl, omega arith)

-- A newline or a carriage return above the last row goes to the start of the next row and changes no
-- cell.
pub term_putc-newline :
    (t : Term) (c r k : ℕ)
    → IsValid t
    → (c ≡ 10) ⊎ (c ≡ 13)
    → t.cursor_row + 1 < t.term_rows
    → (cell (term_putc c t) r k ≡ cell t r k)
      × ((term_putc c t).cursor_row ≡ t.cursor_row + 1)
      × ((term_putc c t).cursor_col ≡ 0)
unfolding term_putc next_row
term_putc-newline t c r k v nl room =
    let ends : (c == 13 || c == 10) ≡ true = ground arith in
    let above : leb t.term_rows ((t.cursor_row + 1) % 256) ≡ false = ground arith in
    rw (ends, above) (refl, omega arith, refl)
