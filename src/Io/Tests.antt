-- ===== src/Io/Tests.antt =====
-- Printing at concrete inputs.
use raspberry_pi_gaming_cons.Common.{ℕ, ◌≡◌, refl, List, [], ◌∷◌, some, arith, if◌then◌else◌, ◌==◌}
use raspberry_pi_gaming_cons.Io.{uart_put_uint, uart_put_hex, collect, print_helper}
use raspberry_pi_gaming_cons.Io.Digits.{parse, uart_put_uint-parse, uart_put_hex-parse}

put_uint_runs : uart_put_uint 4096 ≡ some (b'4' ∷ b'0' ∷ b'9' ∷ b'6' ∷ [])
unfolding uart_put_uint collect print_helper
put_uint_runs = refl

put_hex_runs : uart_put_hex 0xBEEF ≡ some (b'0' ∷ b'x' ∷ b'B' ∷ b'E' ∷ b'E' ∷ b'F' ∷ [])
unfolding uart_put_hex collect print_helper
put_hex_runs = refl

uart_put_uint-parse_example :
    (text : List ℕ) × (uart_put_uint 4096 ≡ some text) × (parse 10 0 text ≡ 4096)
uart_put_uint-parse_example = uart_put_uint-parse 4096 (omega arith)

uart_put_hex-parse_example :
    (digits : List ℕ) × (uart_put_hex 0xBEEF
      ≡ some (if 0xBEEF == 0 then b'0' ∷ [] else b'0' ∷ b'x' ∷ digits))
    × (parse 16 0 digits ≡ 0xBEEF)
uart_put_hex-parse_example = uart_put_hex-parse 0xBEEF (omega arith)
