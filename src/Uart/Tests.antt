-- ===== src/Uart/Tests.antt =====
-- A device that is always free, and the interrupt handler on characters.
use raspberry_pi_gaming_cons.Common.{ℕ, ◌≡◌, refl, inl, List, [], ◌∷◌, ◌++◌, some, arith}
use raspberry_pi_gaming_cons.Uart.{
  Port, uart0_dr, Device, wait_flag, uart_putc, uart_handle_irq, uart_init,
}
use raspberry_pi_gaming_cons.Uart.Sends.{IsDraining}

abbrev toy_read : List ℕ → Port → List ℕ → ℕ × List ℕ
toy_read (c ∷ _) uart0_dr w = (c, w)
toy_read _ _ w = (0, w)

abbrev toy_write : Port → ℕ → List ℕ → List ℕ
toy_write uart0_dr c w = w ++ c ∷ []
toy_write _ c w = w

-- It gives the same character to every read, and keeps what was sent.
abbrev typed : List ℕ → Device (List ℕ)
typed cs = record { mmio_read = toy_read cs; mmio_write = toy_write }

abbrev typed-IsDraining : IsDraining (typed [])
typed-IsDraining = record {
  sent = λ w. w;
  polls = λ _. 0;
  latency = 0;
  bounded = λ w. omega arith;
  drains = λ w. inl refl;
  flags_keep = λ w. refl;
  sends = λ c w. refl;
}

-- `p`, 112, has none of the low four bits set, and is echoed; `a`, 97, is dropped.
echoed : uart_handle_irq (typed (112 ∷ [])) 1 [] ≡ some (112 ∷ [])
unfolding uart_handle_irq uart_putc wait_flag
echoed = refl

dropped : uart_handle_irq (typed (97 ∷ [])) 1 [] ≡ some []
unfolding uart_handle_irq uart_putc wait_flag
dropped = refl

-- The last write of `uart_init` turns the UART on, for both directions.
turned_on : uart_init (record { mmio_read = λ r w. (0, w); mmio_write = λ r v w. v }) 0 ≡ 0x301
unfolding uart_init
turned_on = refl
