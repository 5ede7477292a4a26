-- ===== src/Shell/Lines.antt =====
-- What `read_line` stores.
use raspberry_pi_gaming_cons.Common.{
  ℕ, ◌+◌, ◌-◌, ◌≤◌, ◌<◌, ◌≡◌, refl, ◌∙◌, sym, ap₂, List, [], ◌∷◌, ◌++◌, Bool, true, false, not, leb,
  ◌==◌, ◌&&◌, ◌||◌, length, length-append, arith,
}
use raspberry_pi_gaming_cons.Shell.{edit, read_line}
use mathlib.Core.List.{reverse, reverse-append, append_assoc, append-nil}

length-edit : (input buf : List ℕ) (room : ℕ) → length (edit input buf room).0 ≤ length buf + room
unfolding edit
length-edit [] buf room = omega arith
length-edit (c ∷ input) [] room =
    ground (arith, length-edit input (c ∷ []) (room - 1), length-edit input [] room)
length-edit (c ∷ input) (x ∷ kept) room = ground (
  arith,
  length-edit input kept (room + 1),
  length-edit input (c ∷ x ∷ kept) (room - 1),
  length-edit input (x ∷ kept) room,
)

length-reverse : (xs : List ℕ) → length (reverse xs) ≡ length xs
length-reverse [] = refl
length-reverse (x ∷ xs) =
    rw (reverse-append (x ∷ []) xs)
      (omega (arith, length-append (reverse xs) (x ∷ []), length-reverse xs))

-- Whatever is typed, `read_line` stores fewer bytes than its buffer holds, which leaves a place for the
-- terminating zero.
pub length-read_line :
    (max : ℕ) (input : List ℕ) → 0 < max → length (read_line max input).0 + 1 ≤ max
unfolding read_line
length-read_line max input h =
    omega (arith, length-reverse (edit input [] (max - 1)).0, length-edit input [] (max - 1))

-- Every byte is printable: 32 or more, and not the delete.
abbrev pub printable : List ℕ → Bool
printable [] = true
printable (c ∷ s) = (leb 32 c && not (c == 127)) && printable s

edit-store :
    (c : ℕ) (input buf : List ℕ) (room : ℕ)
    → 32 ≤ c
    → (c == 127) ≡ false
    → 0 < room
    → edit (c ∷ input) buf room ≡ edit input (c ∷ buf) (room - 1)
unfolding edit
edit-store c input [] room h k r =
    let e1 : (room == 0) ≡ false = ground arith in
    let e2 : (c == 13 || c == 10) ≡ false = ground arith in
    let e3 : leb 32 c ≡ true = ground arith in rw (e1, e2, e3) refl
edit-store c input (x ∷ kept) room h k r =
    let e1 : (room == 0) ≡ false = ground arith in
    let e2 : (c == 13 || c == 10) ≡ false = ground arith in
    let e3 : leb 32 c ≡ true = ground arith in
    let e4 : (c == 127 || c == 8) ≡ false = ground arith in rw (e1, e2, e4, e3) refl

edit-return : (rest buf : List ℕ) (room : ℕ) → 0 < room → edit (13 ∷ rest) buf room ≡ (buf, rest)
unfolding edit
edit-return rest [] room r = let e : (room == 0) ≡ false = ground arith in rw e refl
edit-return rest (x ∷ kept) room r = let e : (room == 0) ≡ false = ground arith in rw e refl

edit-printable :
    (s rest buf : List ℕ) (room : ℕ)
    → printable s ≡ true
    → length s < room
    → (reverse (edit (s ++ 13 ∷ rest) buf room).0 ≡ reverse buf ++ s)
      × ((edit (s ++ 13 ∷ rest) buf room).1 ≡ rest)
edit-printable [] rest buf room h k =
    rw (edit-return rest buf room k) (sym (append-nil (reverse buf)), refl)
edit-printable (c ∷ s) rest buf room h k =
    let (kept, left) = edit-printable s rest (c ∷ buf) (room - 1) (ground arith) (omega arith) in
    rw (edit-store c (s ++ 13 ∷ rest) buf room (ground arith) (ground arith) (omega arith))
      (kept ∙ rw (reverse-append (c ∷ []) buf, append_assoc (reverse buf) (c ∷ []) s) refl, left)

-- A line of printable bytes that fits, ended by a return, is stored as typed, and the input after the
-- return is left for the next call.
pub read_line-printable :
    (max : ℕ) (s rest : List ℕ)
    → printable s ≡ true
    → length s + 1 < max
    → read_line max (s ++ 13 ∷ rest) ≡ (s, rest)
unfolding read_line
read_line-printable max s rest h k =
    let (kept, left) = edit-printable s rest [] (max - 1) h (omega arith) in
    ap₂ (λ (a b : List ℕ). (a, b)) kept left
