-- ===== src/Interrupts/Tests.antt =====
-- A chain of two frames, a cycle, and a decoded class.
use raspberry_pi_gaming_cons.Common.{
  ℕ, ◌≡◌, refl, [], ◌∷◌, ◌++◌, ◌==◌, if◌then◌else◌, ◌+◌, ◌*◌, ◌^◌, arith,
}
use raspberry_pi_gaming_cons.Interrupts.{backtrace, decode, data_abort_same}
use raspberry_pi_gaming_cons.Interrupts.Print.{handle_synchronous_interrupts}
use raspberry_pi_gaming_cons.Interrupts.Dump.{
  numbers, values, numbers-handle_synchronous_interrupts,
}
use raspberry_pi_gaming_cons.Interrupts.Report.{Chain, chain_end, chain_link, backtrace-Chain}

-- A record at 0x1000 that links to one at 0x2000, which links to 0.
abbrev stack : ℕ → ℕ
stack a = if a == 0x1000 then 0x2000 else if a == 0x1008 then 77 else if a == 0x2008 then 88 else 0

stack-Chain : Chain stack 0x1000 (77 ∷ 88 ∷ [])
stack-Chain =
    chain_link 0x1000 (88 ∷ []) (λ e. omega arith) refl (omega arith)
      (chain_link 0x2000 [] (λ e. omega arith) refl (omega arith) chain_end)

decoded : decode (0x25 * 2 ^ 26) ≡ data_abort_same
unfolding decode
decoded = refl

backtrace-Chain_example : backtrace stack 0x1000 ≡ 77 ∷ 88 ∷ []
backtrace-Chain_example = backtrace-Chain stack 0x1000 (77 ∷ 88 ∷ []) stack-Chain (omega arith)

-- x29 is 0x1000.
abbrev saved : ℕ → ℕ
saved i = if i == 29 then 0x1000 else i

numbers-handle_synchronous_interrupts_example :
    numbers (handle_synchronous_interrupts (0x25 * 2 ^ 26 + 5) 64 32 saved stack)
    ≡ (0x25 * 2 ^ 26 + 5) ∷ 32 ∷ 30 ∷ 64 ∷ 5 ∷ (values 30 0 saved ++ 77 ∷ 88 ∷ [])
numbers-handle_synchronous_interrupts_example =
    numbers-handle_synchronous_interrupts (0x25 * 2 ^ 26 + 5) 64 32 saved stack (77 ∷ 88 ∷ [])
      (omega arith) stack-Chain (omega arith)
