-- ===== src/Io.antt =====
-- The number printing of src/kernel/io/io.cpp. Output is the list of bytes handed to `uart_putc`.
pub mod Digits
mod Tests
use raspberry_pi_gaming_cons.Common.{
  ℕ, zero, suc, ◌+◌, ◌-◌, ◌/◌, ◌%◌, List, [], ◌∷◌, map, Option, none, some, ltb, ◌==◌,
  if◌then◌else◌,
}
use mathlib.Core.List.{reverse}
use mathlib.Core.Option

-- `val < 10 ? '0' + val : 'A' + val - 10`, as an `unsigned char`
unfoldable pub print_helper : ℕ → ℕ
print_helper val = (if ltb val 10 then b'0' + val else b'A' + val - 10) % 256

-- The first loop of `uart_put_uint` and `uart_put_hex`: the digits, least significant first, that go
-- into `value_buffer` with `room` places left. `none` is a write past the end of the buffer.
unfoldable pub collect : ℕ → ℕ → ℕ → Option (List ℕ)
collect zero base val = if val == 0 then some [] else none
collect (suc room) base val =
    let rest = collect room base (val / base) in
    if val == 0 then some [] else Option.map (λ ds. val % base ∷ ds) rest

-- The second loop: from the last place filled down to the first.
abbrev pub emit : List ℕ → List ℕ
emit buffer = map print_helper (reverse buffer)

unfoldable pub uart_put_uint : ℕ → Option (List ℕ)
uart_put_uint val = if val == 0 then some (b'0' ∷ []) else Option.map emit (collect 20 10 val)

unfoldable pub uart_put_hex : ℕ → Option (List ℕ)
uart_put_hex val =
    if val == 0
    then some (b'0' ∷ [])
    else Option.map (λ ds. b'0' ∷ b'x' ∷ emit ds) (collect 20 16 val)
