-- ===== src/Io/Digits.antt =====
-- What is printed reads back as the number, and the buffer of 20 digits is never overrun.
use raspberry_pi_gaming_cons.Common.{
  ℕ, zero, suc, ◌+◌, ◌-◌, ◌*◌, ◌/◌, ◌%◌, ◌^◌, ◌≤◌, ◌<◌, ◌≡◌, refl, ◌∙◌, List, [], ◌∷◌, ◌++◌, some,
  Bool-cases, inl, inr, leb, ◌==◌, if◌then◌else◌, arith, ==→eq,
}
use mathlib.Core.List.{reverse-append, map-append}
use native.Mathlib.Nat.{pow-zero, pow-suc, div-lt_iff_lt-mul, div-add-mod, mod-lt, mul_comm}
use raspberry_pi_gaming_cons.Io.{print_helper, collect, emit, uart_put_uint, uart_put_hex}

-- The value of a digit, as a reader of the output takes it.
abbrev pub digit_value : ℕ → ℕ
digit_value c = if leb c b'9' then c - b'0' else c - b'A' + 10

-- The number that a text of digits stands for, most significant first.
abbrev pub parse : ℕ → ℕ → List ℕ → ℕ
parse base acc [] = acc
parse base acc (c ∷ cs) = parse base (acc * base + digit_value c) cs

-- The number of digits, least significant first.
abbrev value : ℕ → List ℕ → ℕ
value base [] = 0
value base (d ∷ ds) = value base ds * base + d

abbrev Below : ℕ → List ℕ → Type 0
Below base [] = Unit
Below base (d ∷ ds) = (d < base) × Below base ds

digit_value-print_helper : (d : ℕ) → d < 16 → digit_value (print_helper d) ≡ d
unfolding print_helper
digit_value-print_helper d h = ground arith

parse-append :
    (base acc : ℕ) (xs ys : List ℕ) → parse base acc (xs ++ ys) ≡ parse base (parse base acc xs) ys
parse-append base acc [] ys = refl
parse-append base acc (x ∷ xs) ys = parse-append base (acc * base + digit_value x) xs ys

emit-cons : (d : ℕ) (ds : List ℕ) → emit (d ∷ ds) ≡ emit ds ++ print_helper d ∷ []
emit-cons d ds = rw (reverse-append (d ∷ []) ds, map-append) refl

parse-emit :
    (base : ℕ) (ds : List ℕ) → base ≤ 16 → Below base ds → parse base 0 (emit ds) ≡ value base ds
parse-emit base [] h b = refl
parse-emit base (d ∷ ds) h b = rw (
  emit-cons,
  parse-append base 0 (emit ds) (print_helper d ∷ []),
  digit_value-print_helper d (omega (arith, b.0)),
  parse-emit base ds h b.1,
)

-- The loop's digits: they are below the base, they make up the number, and there is room for them.
record Digits (base val : ℕ) (ds : List ℕ) : Type 0 where
  below : Below base ds
  total : value base ds ≡ val

collect-Digits :
    (room base val : ℕ)
    → 1 < base
    → val < base ^ room
    → (ds : List ℕ) × (collect room base val ≡ some ds) × Digits base val ds
unfolding collect
collect-Digits zero base val h k =
    let e : val ≡ 0 = omega (arith, pow-zero base) in
    rw e ([], refl, record { below = tt; total = refl })
collect-Digits (suc room) base val h k = elim (Bool-cases (val == 0)) [
  | inl e ↦ rw (==→eq _ _ e) ([], refl, record { below = tt; total = refl })
  | inr ne ↦
      let (ds, e, c) =
        collect-Digits room base (val / base) h
          ((div-lt_iff_lt-mul (omega arith)).1 (rw (← pow-suc base room) k)) in
      rw (ne, e)
        (
          val % base ∷ ds,
          refl,
          record {
            below = (mod-lt val (omega arith), c.below);
            total = rw c.total (omega (arith, div-add-mod val base, mul_comm base (val / base)));
          },
        )
]

-- Every 64-bit number is printed in decimal without overrunning the buffer, and the text reads back as
-- that number.
pub uart_put_uint-parse :
    (val : ℕ)
    → val < 2 ^ 64
    → (text : List ℕ) × (uart_put_uint val ≡ some text) × (parse 10 0 text ≡ val)
unfolding uart_put_uint
uart_put_uint-parse val h = elim (Bool-cases (val == 0)) [
  | inl e ↦ rw (e, ==→eq _ _ e) (b'0' ∷ [], refl, refl)
  | inr ne ↦
      let (ds, e, d) = collect-Digits 20 10 val (omega arith) (omega arith) in
      rw (ne, e) (emit ds, refl, parse-emit 10 ds (omega arith) d.below ∙ d.total)
]

-- Every 64-bit number is printed in hexadecimal without overrunning the buffer: as `0` if it is 0, and
-- otherwise as `0x` and digits that read back as that number.
pub uart_put_hex-parse :
    (val : ℕ)
    → val < 2 ^ 64
    → (digits : List ℕ) × (uart_put_hex val
        ≡ some (if val == 0 then b'0' ∷ [] else b'0' ∷ b'x' ∷ digits))
      × (parse 16 0 digits ≡ val)
unfolding uart_put_hex
uart_put_hex-parse val h = elim (Bool-cases (val == 0)) [
  | inl e ↦ rw (e, ==→eq _ _ e) (b'0' ∷ [], refl, refl)
  | inr ne ↦
      let (ds, e, d) = collect-Digits 20 16 val (omega arith) (omega arith) in
      rw (ne, e) (emit ds, refl, parse-emit 16 ds (omega arith) d.below ∙ d.total)
]
