-- ===== src/Interrupts/Print.antt =====
-- What the handlers of exceptions of src/kernel/interrupts/interrupts.cpp print, before they halt.
use Prim.Native.String.{String}
use raspberry_pi_gaming_cons.Common.{ℕ, zero, suc, ◌+◌, List, [], ◌∷◌, ◌++◌}
use raspberry_pi_gaming_cons.Interrupts.{
  Class, instruction_abort_lower, instruction_abort_same, data_abort_lower, data_abort_same,
  illegal_state, system_call, breakpoint, unexpected, decode, fault_status, backtrace,
}

-- A call of `uart_puts`, `uart_put_hex` or `uart_put_uint`.
pub data Piece : Type 0 where
  puts : String → Piece
  put_hex : ℕ → Piece
  put_uint : ℕ → Piece

-- A name, a number in hexadecimal, and the end of the line.
abbrev pub field : String → ℕ → List Piece
field name value = puts name ∷ put_hex value ∷ puts "\r\n" ∷ []

abbrev pub class_text : Class → List Piece
class_text instruction_abort_lower = puts "Instruction Abort from a lower EL.\r\n" ∷ []
class_text instruction_abort_same =
    puts "Instruction Abort from the same EL.\r\n"
    ∷ puts "There is likely no VA to PA mapping, or you did it wrong.\r\n"
    ∷ []
class_text data_abort_lower = puts "Data Abort from a lower EL \r\n" ∷ []
class_text data_abort_same =
    puts "Data Abort from the same EL \r\n"
    ∷ puts "Kernel did a load/store to an unmapped or wrong-perm VA.\r\n"
    ∷ []
class_text illegal_state = puts "Illegal execution state \n" ∷ []
class_text system_call = puts "SVC from AArch64: System call. \n" ∷ []
class_text breakpoint = puts "BRK instruction (debug breakpoint).\r\n" ∷ []
class_text (unexpected ec) = []

unfoldable pub handle_unexpected : ℕ → ℕ → ℕ → List Piece
handle_unexpected ec far elr =
    puts "An unexpected error has occurred: \r\n"
    ∷ (field "EC: " ec ++ (field " FAR: " far ++ field " ELR: " elr))

-- The loop of the register dump, from register `i` on with `rounds` to go.
unfoldable pub dump_registers : ℕ → ℕ → (ℕ → ℕ) → List Piece
dump_registers zero i frame = []
dump_registers (suc rounds) i frame =
    puts "x"
    ∷ put_uint i
    ∷ puts ": "
    ∷ put_hex (frame i)
    ∷ puts "\r\n"
    ∷ dump_registers rounds (i + 1) frame

-- The lines of the backtrace.
unfoldable pub print_returns : List ℕ → List Piece
print_returns [] = []
print_returns (ret_addr ∷ returns) = put_hex ret_addr ∷ puts "\r\n" ∷ print_returns returns

-- What follows the switch: `esr`, `far` and `elr` are the registers of the exception, `frame` is the saved
-- words, and `mem` is the memory that the frame records are in.
unfoldable pub print_state : ℕ → ℕ → ℕ → (ℕ → ℕ) → (ℕ → ℕ) → List Piece
print_state esr far elr frame mem =
    field "ESR_EL1: " esr
    ++ (field "ELR_EL1: " elr
        ++ (field "LR (x30): " (frame 30)
            ++ (field "FAR_EL1: " far
                ++ (field "DFSC: " (fault_status esr)
                    ++ ((puts "Full GPR Dump: \r\n" ∷ dump_registers 30 0 frame)
                        ++ (puts "Backtrace:\r\n" ∷ print_returns (backtrace mem (frame 29))))))))

-- The switch; `handle_unexpected` does not return.
abbrev pub print_class : Class → ℕ → ℕ → List Piece → List Piece
print_class (unexpected ec) far elr rest = handle_unexpected ec far elr
print_class instruction_abort_lower far elr rest = class_text instruction_abort_lower ++ rest
print_class instruction_abort_same far elr rest = class_text instruction_abort_same ++ rest
print_class data_abort_lower far elr rest = class_text data_abort_lower ++ rest
print_class data_abort_same far elr rest = class_text data_abort_same ++ rest
print_class illegal_state far elr rest = class_text illegal_state ++ rest
print_class system_call far elr rest = class_text system_call ++ rest
print_class breakpoint far elr rest = class_text breakpoint ++ rest

unfoldable pub handle_synchronous_interrupts : ℕ → ℕ → ℕ → (ℕ → ℕ) → (ℕ → ℕ) → List Piece
handle_synchronous_interrupts esr far elr frame mem =
    print_class (decode esr) far elr (print_state esr far elr frame mem)

unfoldable pub handle_serror : ℕ → ℕ → List Piece
handle_serror esr elr =
    puts "An SError (asynchronous abort) has occurred.\r\n"
    ∷ (field "ESR_EL1: " esr ++ field "ELR_EL1: " elr)

unfoldable pub handle_unexpected_fiq : ℕ → List Piece
handle_unexpected_fiq elr =
    puts "Unexpected FIQ: the GIC delivered a Group 0 interrupt but none are configured.\r\n"
    ∷ field "ELR_EL1: " elr
