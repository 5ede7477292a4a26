-- ===== src/Interrupts/Dump.antt =====
-- The numbers that an exception report shows.
use raspberry_pi_gaming_cons.Common.{
  ℕ, zero, suc, ◌+◌, ◌≡◌, refl, List, [], ◌∷◌, ◌++◌, ap, ap₂, ◌∙◌, ◌<◌, ◌≤◌, ◌/◌, ◌%◌, ◌^◌, ◌==◌,
  ◌||◌, Bool, Bool-cases, inl, inr, bit_and, if◌then◌else◌, length, arith,
}
use raspberry_pi_gaming_cons.Interrupts.{
  Class, instruction_abort_lower, instruction_abort_same, data_abort_lower, data_abort_same,
  illegal_state, system_call, breakpoint, unexpected, decode, fault_status, backtrace,
  exception_class,
}
use raspberry_pi_gaming_cons.Common.Fields.{bit_and_mask}
use raspberry_pi_gaming_cons.Interrupts.Report.{Chain, backtrace-Chain}
use raspberry_pi_gaming_cons.Interrupts.Print.{
  Piece, puts, put_hex, put_uint, dump_registers, print_returns, print_state, print_class,
  handle_unexpected, handle_synchronous_interrupts,
}

-- The numbers printed in hexadecimal, in their order.
unfoldable pub numbers : List Piece → List ℕ
numbers [] = []
numbers (puts s ∷ rest) = numbers rest
numbers (put_uint n ∷ rest) = numbers rest
numbers (put_hex n ∷ rest) = n ∷ numbers rest

-- The values at `n` indices from `i` on.
abbrev pub values : ℕ → ℕ → (ℕ → ℕ) → List ℕ
values zero i frame = []
values (suc n) i frame = frame i ∷ values n (i + 1) frame

numbers-append : (xs ys : List Piece) → numbers (xs ++ ys) ≡ numbers xs ++ numbers ys
unfolding numbers
numbers-append [] ys = refl
numbers-append (puts s ∷ xs) ys = numbers-append xs ys
numbers-append (put_uint n ∷ xs) ys = numbers-append xs ys
numbers-append (put_hex n ∷ xs) ys = ap (λ l. n ∷ l) (numbers-append xs ys)

numbers-dump_registers :
    (rounds i : ℕ) (frame : ℕ → ℕ) → numbers (dump_registers rounds i frame) ≡ values rounds i frame
unfolding numbers dump_registers
numbers-dump_registers zero i frame = refl
numbers-dump_registers (suc rounds) i frame =
    ap (λ l. frame i ∷ l) (numbers-dump_registers rounds (i + 1) frame)

numbers-print_returns : (returns : List ℕ) → numbers (print_returns returns) ≡ returns
unfolding numbers print_returns
numbers-print_returns [] = refl
numbers-print_returns (r ∷ returns) = ap (λ l. r ∷ l) (numbers-print_returns returns)

-- The exception classes with a case of their own: aborts of instructions and of data from a lower or the
-- same level, illegal state, SVC and BRK.
abbrev pub is_known : ℕ → Bool
is_known ec =
    ec == 0x20
    || (ec == 0x21 || (ec == 0x24 || (ec == 0x25 || (ec == 0x0E || (ec == 0x15 || ec == 0x3C)))))

numbers-print_state :
    (esr far elr : ℕ) (frame mem : ℕ → ℕ)
    → numbers (print_state esr far elr frame mem)
      ≡ esr
        ∷ elr
        ∷ frame 30
        ∷ far
        ∷ fault_status esr
        ∷ (values 30 0 frame ++ backtrace mem (frame 29))
unfolding numbers print_state
numbers-print_state esr far elr frame mem =
    ap (λ l. esr ∷ elr ∷ frame 30 ∷ far ∷ fault_status esr ∷ l)
      (numbers-append (dump_registers 30 0 frame) _
        ∙ ap (λ l. l ++ numbers (print_returns (backtrace mem (frame 29))))
            (numbers-dump_registers 30 0 frame)
        ∙ ap (λ l. values 30 0 frame ++ l) (numbers-print_returns (backtrace mem (frame 29))))

-- The numbers of a report, by the class.
abbrev shown_for : Class → ℕ → ℕ → List ℕ → List ℕ
shown_for (unexpected ec) far elr state = ec ∷ far ∷ elr ∷ []
shown_for _ far elr state = state

numbers-print_class :
    (c : Class) (far elr : ℕ) (rest : List Piece)
    → numbers (print_class c far elr rest) ≡ shown_for c far elr (numbers rest)
unfolding numbers handle_unexpected
numbers-print_class instruction_abort_lower far elr rest = refl
numbers-print_class instruction_abort_same far elr rest = refl
numbers-print_class data_abort_lower far elr rest = refl
numbers-print_class data_abort_same far elr rest = refl
numbers-print_class illegal_state far elr rest = refl
numbers-print_class system_call far elr rest = refl
numbers-print_class breakpoint far elr rest = refl
numbers-print_class (unexpected ec) far elr rest = refl

shown_for-decode :
    (esr far elr : ℕ) (state : List ℕ)
    → shown_for (decode esr) far elr state
      ≡ (if is_known (exception_class esr) then state else exception_class esr ∷ far ∷ elr ∷ [])
unfolding decode
shown_for-decode esr far elr state =
    let ec = exception_class esr in
    elim (Bool-cases (ec == 0x20)) [
      | inl e ↦ rw e refl
      | inr n0 ↦ elim (Bool-cases (ec == 0x21)) [
        | inl e ↦ rw (n0, e) refl
        | inr n1 ↦ elim (Bool-cases (ec == 0x24)) [
          | inl e ↦ rw (n0, n1, e) refl
          | inr n2 ↦ elim (Bool-cases (ec == 0x25)) [
            | inl e ↦ rw (n0, n1, n2, e) refl
            | inr n3 ↦ elim (Bool-cases (ec == 0x0E)) [
              | inl e ↦ rw (n0, n1, n2, n3, e) refl
              | inr n4 ↦ elim (Bool-cases (ec == 0x15)) [
                | inl e ↦ rw (n0, n1, n2, n3, n4, e) refl
                | inr n5 ↦ elim (Bool-cases (ec == 0x3C)) [
                  | inl e ↦ rw (n0, n1, n2, n3, n4, n5, e) refl
                  | inr n6 ↦ rw (n0, n1, n2, n3, n4, n5, n6) refl
                ]
              ]
            ]
          ]
        ]
      ]
    ]

exception_class_lem : (esr : ℕ) → esr < 2 ^ 64 → exception_class esr ≡ esr / 2 ^ 26 % 64
exception_class_lem esr h = bit_and_mask 6 64 (esr / 2 ^ 26) (omega arith)

fault_status_lem : (esr : ℕ) → esr < 2 ^ 64 → fault_status esr ≡ esr % 64
fault_status_lem esr h =
    let low : bit_and esr 0x1FFFFFF ≡ esr % 2 ^ 25 = bit_and_mask 25 64 esr h in
    bit_and_mask 6 64 (bit_and esr 0x1FFFFFF) (omega arith) ∙ omega (arith, low)

-- For a syndrome of 64 bits whose exception class, its bits 26 to 31, is an abort, illegal state, SVC or
-- BRK, and a saved x29 from which a well-formed chain of at most 32 frame records goes, the numbers of the
-- report are, in this order: the syndrome, the address of the exception, the saved link register, the fault
-- address, the low six bits of the syndrome, the registers x0 to x29 as saved, and the return addresses of
-- the chain; for any other class they are the class, the fault address and the address of the exception.
pub numbers-handle_synchronous_interrupts :
    (esr far elr : ℕ) (frame mem : ℕ → ℕ) (returns : List ℕ)
    → esr < 2 ^ 64
    → Chain mem (frame 29) returns
    → length returns ≤ 32
    → numbers (handle_synchronous_interrupts esr far elr frame mem) ≡ (
        if is_known (esr / 2 ^ 26 % 64)
        then esr ∷ elr ∷ frame 30 ∷ far ∷ esr % 64 ∷ (values 30 0 frame ++ returns)
        else esr / 2 ^ 26 % 64 ∷ far ∷ elr ∷ [])
unfolding handle_synchronous_interrupts
numbers-handle_synchronous_interrupts esr far elr frame mem returns h chain short =
    numbers-print_class (decode esr) far elr (print_state esr far elr frame mem)
    ∙ shown_for-decode esr far elr (numbers (print_state esr far elr frame mem))
    ∙ ap₂ (λ l ec. if is_known ec then l else ec ∷ far ∷ elr ∷ [])
        (numbers-print_state esr far elr frame mem
          ∙ ap₂ (λ n l. esr ∷ elr ∷ frame 30 ∷ far ∷ n ∷ (values 30 0 frame ++ l))
              (fault_status_lem esr h) (backtrace-Chain mem (frame 29) returns chain short))
        (exception_class_lem esr h)
