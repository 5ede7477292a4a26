-- ===== src/Cache/Lines.antt =====
-- The lines that the loop of `cache_clean` and `cache_invalidate` visits.
use raspberry_pi_gaming_cons.Common.{
  ℕ, zero, suc, ◌+◌, ◌-◌, ◌*◌, ◌/◌, ◌%◌, ◌^◌, ◌≤◌, ◌<◌, ◌≡◌, refl, List, [], ◌∷◌, Option, some,
  true, false, ltb, bit_and, arith, ap, subst, sym, ◌∙◌,
}
use raspberry_pi_gaming_cons.Common.Words.{u64, sub64, not64, pow-lt, pow-pos}
use raspberry_pi_gaming_cons.Common.Fields.{bit_and_mask, bit_and_align}
use raspberry_pi_gaming_cons.Cache.{cache_line_size, line_start, line_end, visit, maintained}
use native.Mathlib.Nat.{
  pow-suc, pow-le-pow_right, add-mul, suc-mul, zero-mul, div-mul-le_self, lt-div-mul-add,
  le_of_mul-le-mul_right, mod-eq-sub-div-mul, mul-div_left,
}

-- `n` addresses from `va` on, a line apart.
abbrev pub lines : ℕ → ℕ → ℕ → List ℕ
lines zero line va = []
lines (suc n) line va = va ∷ lines n line (va + line)

visit-lines :
    (n fuel line va end : ℕ)
    → 0 < line
    → end ≡ va + n * line
    → end < 2 ^ 64
    → n < fuel
    → visit fuel line va end ≡ some (lines n line va)
unfolding visit
visit-lines n zero line va end pos at small h = absurd (omega arith)
visit-lines zero (suc fuel) line va end pos at small h =
    let last : ltb va end ≡ false = ground (arith, zero-mul line) in rw last refl
visit-lines (suc n) (suc fuel) line va end pos at small h =
    let first : ltb va end ≡ true = ground (arith, suc-mul n line) in
    let next : u64 (va + line) ≡ va + line = omega (arith, suc-mul n line) in
    rw
      (
        first,
        next,
        visit-lines n fuel line (va + line) end pos (omega (arith, suc-mul n line)) small
            (omega arith),
      )
      refl

-- The line size is a power of two.
shift : ℕ → ℕ
shift ctr = bit_and (ctr / 2 ^ 16) 0xF + 2

shift-lt : (ctr : ℕ) → ctr < 2 ^ 64 → shift ctr < 18
unfolding shift
shift-lt ctr h = omega (arith, bit_and_mask 4 64 (ctr / 2 ^ 16) (omega arith))

line_size_lem : (ctr : ℕ) → ctr < 2 ^ 64 → cache_line_size ctr ≡ 2 ^ shift ctr
unfolding cache_line_size shift
line_size_lem ctr h =
    let d = bit_and (ctr / 2 ^ 16) 0xF in
    omega (arith, pow-suc 2 d, pow-suc 2 (d + 1), shift_low, pow-lt (d + 2) (omega (arith, small)))
  where
    small : bit_and (ctr / 2 ^ 16) 0xF < 16
    small = omega (arith, bit_and_mask 4 64 (ctr / 2 ^ 16) (omega arith))

    shift_low : 2 ^ (bit_and (ctr / 2 ^ 16) 0xF + 2) ≡ 4 * 2 ^ bit_and (ctr / 2 ^ 16) 0xF
    shift_low =
        let d = bit_and (ctr / 2 ^ 16) 0xF in
        let two : d + 2 ≡ suc (suc d) = omega arith in
        ap (λ k. 2 ^ k) two ∙ omega (arith, pow-suc 2 (suc d), pow-suc 2 d)

aligned :
    (k addr : ℕ)
    → k < 18
    → addr < 2 ^ 64
    → bit_and addr (not64 (sub64 (2 ^ k) 1)) ≡ addr / 2 ^ k * 2 ^ k
aligned k addr h small =
    let mask : not64 (sub64 (2 ^ k) 1) ≡ 2 ^ 64 - 2 ^ k =
      omega (arith, pow-pos k, pow-lt k (omega arith)) in
    rw mask (bit_and_align k 64 addr small (omega arith))

-- The lines that cover a range.
pub record Cover (line addr size : ℕ) (result : Option (List ℕ)) : Type 0 where
  pub start : ℕ
  pub count : ℕ
  pub visited : result ≡ some (lines count line start)
  pub whole : start % line ≡ 0
  pub from : start ≤ addr
  pub from_first : addr < start + line
  pub to : addr + size ≤ start + count * line
  pub to_last : start + count * line < addr + size + line

module _ (k fuel addr size : ℕ) (small : k < 18) (room : addr + size + 2 ^ 18 < 2 ^ 64) where
  abbrev line : ℕ
  line = 2 ^ k

  abbrev first : ℕ
  first = addr / line

  abbrev last : ℕ
  last = (addr + size + line - 1) / line

  line-le : line ≤ 2 ^ 17
  line-le = pow-le-pow_right {n = 2} (omega arith) {i = k} {j = 17} (omega arith)

  start-eq : line_start line addr ≡ first * line
  start-eq = aligned k addr small (omega arith)

  end-eq : line_end line addr size ≡ last * line
  end-eq =
      let sum : sub64 (u64 (u64 (addr + size) + line)) 1 ≡ addr + size + line - 1 =
        omega (arith, pow-pos k, line-le) in
      rw sum (aligned k (addr + size + line - 1) small (omega (arith, line-le)))

  first-le : first ≤ last
  first-le =
      le_of_mul-le-mul_right {m = first} {n = last} {k = line}
        (omega (
          arith,
          pow-pos k,
          div-mul-le_self addr line,
          lt-div-mul-add {a = addr + size + line - 1} {b = line} (pow-pos k),
        ))
        (pow-pos k)

  span : last * line ≡ first * line + (last - first) * line
  span =
      let parts : last ≡ first + (last - first) = omega (arith, first-le) in
      ap (λ q. q * line) parts ∙ add-mul first (last - first) line

  enough : size + 3 * line ≤ fuel * line → last - first < fuel
  enough h =
      le_of_mul-le-mul_right {m = suc (last - first)} {n = fuel} {k = line}
        (omega (
          arith,
          suc-mul (last - first) line,
          span,
          pow-pos k,
          div-mul-le_self (addr + size + line - 1) line,
          lt-div-mul-add {a = addr} {b = line} (pow-pos k),
        ))
        (pow-pos k)

  covers :
      size + 3 * line ≤ fuel * line
      → Cover line addr size (visit fuel line (line_start line addr) (line_end line addr size))
  covers h = record {
    start = first * line;
    count = last - first;
    visited =
        rw (start-eq, end-eq)
          (visit-lines (last - first) fuel line (first * line) (last * line) (pow-pos k) span
            (omega (arith, pow-pos k, line-le, div-mul-le_self (addr + size + line - 1) line))
            (enough h));
    whole =
        mod-eq-sub-div-mul (first * line) line
        ∙ omega (arith, ap (λ q. q * line) (mul-div_left first {n = line} (pow-pos k)));
    from = div-mul-le_self addr line;
    from_first = lt-div-mul-add {a = addr} {b = line} (pow-pos k);
    to = omega (
      arith,
      span,
      pow-pos k,
      lt-div-mul-add {a = addr + size + line - 1} {b = line} (pow-pos k),
    );
    to_last = omega (arith, span, pow-pos k, div-mul-le_self (addr + size + line - 1) line);
  }

-- For a range that ends well below 2^64, and for every value of CTR_EL0: the loop of `cache_clean` and of
-- `cache_invalidate` ends, within three rounds more than the lines of its size, and it visits consecutive
-- whole lines, from the one that holds the first byte to the one that holds the last, and no other.
pub maintained-Cover :
    (fuel ctr addr size : ℕ)
    → ctr < 2 ^ 64
    → addr + size + 2 ^ 18 < 2 ^ 64
    → size + 3 * cache_line_size ctr ≤ fuel * cache_line_size ctr
    → Cover (cache_line_size ctr) addr size (maintained fuel ctr addr size)
unfolding maintained
maintained-Cover fuel ctr addr size h room enough_fuel =
    let power = line_size_lem ctr h in
    subst
      (λ l.
        size + 3 * l ≤ fuel * l
        → Cover l addr size (visit fuel l (line_start l addr) (line_end l addr size)))
      (sym power) (covers (shift ctr) fuel addr size (shift-lt ctr h) room) enough_fuel
