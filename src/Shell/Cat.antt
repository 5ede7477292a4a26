-- ===== src/Shell/Cat.antt =====
-- What `cat` prints, and what `write` writes.
use raspberry_pi_gaming_cons.Common.{
  ℕ, zero, suc, ◌≤◌, ◌<◌, ◌≡◌, ◌≢◌, refl, inl, inr, List, [], ◌∷◌, ◌++◌, some, true, false, ltb,
  ◌==◌, Bool-cases, length, take, drop, get_or, length-take, length-drop, arith, ap, sym, ◌∙◌,
  ne→==, ==→eq, ==→ne,
}
use raspberry_pi_gaming_cons.Shell.Files.{
  FatFs, Printed, text, end_of_line, fa_read, c_string, stream, cmd_cat,
}

-- The bytes that commands print as text.
abbrev pub shown : List Printed → List ℕ
shown [] = []
shown (text s ∷ out) = s ++ shown out
shown (_ ∷ out) = shown out

-- An open file, of which `ahead` is what is left to read: a read gives as much of that as it is asked
-- for, and moves on behind it.
pub record IsReadable {W F D : Type 0} (fs : FatFs W F D) : Type 0 where
  pub ahead : F → W → List ℕ
  pub reads : (fil : F) (n : ℕ) (w : W) → (fs.f_read fil n w).0 ≡ 0
  pub gives : (fil : F) (n : ℕ) (w : W) → (fs.f_read fil n w).1.0 ≡ take n (ahead fil w)
  pub moves :
      (fil : F) (n : ℕ) (w : W)
      → ahead (fs.f_read fil n w).1.1.0 (fs.f_read fil n w).1.1.1 ≡ drop n (ahead fil w)

abbrev NoZero : List ℕ → Type 0
NoZero s = (i : ℕ) → i < length s → get_or s i 0 ≢ 0

c_string-whole : (s : List ℕ) → NoZero s → c_string s ≡ s
unfolding c_string
c_string-whole [] all = refl
c_string-whole (c ∷ s) all =
    rw (ne→== c 0 (all 0 (omega arith)))
      (ap (λ xs. c ∷ xs) (c_string-whole s (λ i h. all (suc i) (omega arith))))

take-drop : (n : ℕ) (s : List ℕ) → take n s ++ drop n s ≡ s
take-drop zero s = refl
take-drop (suc n) [] = refl
take-drop (suc n) (c ∷ s) = ap (λ xs. c ∷ xs) (take-drop n s)

take-NoZero : (n : ℕ) (s : List ℕ) → NoZero s → NoZero (take n s)
take-NoZero zero s all i h = absurd (omega arith)
take-NoZero (suc n) [] all i h = absurd (omega arith)
take-NoZero (suc n) (c ∷ s) all zero h = all 0 (omega arith)
take-NoZero (suc n) (c ∷ s) all (suc i) h =
    take-NoZero n s (λ j k. all (suc j) (omega arith)) i (omega arith)

drop-NoZero : (n : ℕ) (s : List ℕ) → NoZero s → NoZero (drop n s)
drop-NoZero zero s all = all
drop-NoZero (suc n) [] all = all
drop-NoZero (suc n) (c ∷ s) all = drop-NoZero n s (λ j k. all (suc j) (omega arith))

chunk-end : (s : List ℕ) → (length (take 127 s) == 0) ≡ true → length s ≡ 0
chunk-end s e = omega (arith, ==→eq _ _ e, length-take 127 s)

chunk-more : (s : List ℕ) → (length (take 127 s) == 0) ≡ false → length (drop 127 s) < length s
chunk-more s e = omega (arith, ==→ne _ _ e, length-take 127 s, length-drop 127 s)

module _ {W F D : Type 0} {fs : FatFs W F D} (ok : IsReadable fs) where
  stream-shown :
      (fuel : ℕ) (content : List ℕ) (fil : F) (w : W)
      → ok.ahead fil w ≡ content
      → NoZero content
      → length content < fuel
      → (out : List Printed) × (w' : W) × (stream fs fuel fil w ≡ some (out, w'))
        × (shown out ≡ content)
  unfolding stream
  stream-shown zero content fil w at all h = absurd (omega arith)
  stream-shown (suc fuel) content fil w at all h =
      let r = fs.f_read fil 127 w in
      let closed = fs.f_close r.1.1.0 r.1.1.1 in
      let chunk : r.1.0 ≡ take 127 content = ok.gives fil 127 w ∙ ap (take 127) at in
      let next : ok.ahead r.1.1.0 r.1.1.1 ≡ drop 127 content =
        ok.moves fil 127 w ∙ ap (drop 127) at in
      elim (Bool-cases (length (take 127 content) == 0)) [
        | inl end ↦
            let none_left : content ≡ [] = empty content (chunk-end content end) in
            (
              end_of_line ∷ [],
              closed,
              rw (stream, ok.reads fil 127 w, chunk, end) refl,
              sym none_left,
            )
        | inr more ↦
            let (out, w', result, same) =
              stream-shown fuel (drop 127 content) r.1.1.0 r.1.1.1 next
                (drop-NoZero 127 content all) (omega (arith, chunk-more content more)) in
            let going : (length r.1.0 == 0) ≡ false = ap (λ xs. length xs == 0) chunk ∙ more in
            (
              text (c_string r.1.0) ∷ out,
              w',
              rw (stream, ok.reads fil 127 w, going, result) refl,
              ap (λ xs. c_string xs ++ shown out) chunk
                  ∙ ap (λ xs. xs ++ shown out)
                      (c_string-whole (take 127 content) (take-NoZero 127 content all))
                  ∙ ap (λ xs. take 127 content ++ xs) same
                  ∙ take-drop 127 content,
            )
      ]
    where
      empty : (s : List ℕ) → length s ≡ 0 → s ≡ []
      empty [] e = refl
      empty (c ∷ s) e = absurd (omega arith)

  -- With a FatFs that opens the file and reads it in order: `cat` ends, within as many rounds as the file
  -- has bytes and one more, and the text that it prints is the content of the file, in which no byte is
  -- zero.
  pub cmd_cat-shown :
      (fuel : ℕ) (argv : List (List ℕ)) (content : List ℕ) (w : W)
      → 2 ≤ length argv
      → (fs.f_open (get_or argv 1 []) fa_read w).0 ≡ 0
      → ok.ahead
          (fs.f_open (get_or argv 1 []) fa_read w).1.0
          (fs.f_open (get_or argv 1 []) fa_read w).1.1
        ≡ content
      → ((i : ℕ) → i < length content → get_or content i 0 ≢ 0)
      → length content < fuel
      → (out : List Printed) × (w' : W) × (cmd_cat fs fuel argv w ≡ some (out, w'))
        × (shown out ≡ content)
  unfolding cmd_cat
  cmd_cat-shown fuel argv content w enough opens at all h =
      let named : ltb (length argv) 2 ≡ false = ground arith in
      let r = fs.f_open (get_or argv 1 []) fa_read w in
      let (out, w', result, same) = stream-shown fuel content r.1.0 r.1.1 at all h in
      (out, w', rw (cmd_cat, named, opens, result) refl, same)
