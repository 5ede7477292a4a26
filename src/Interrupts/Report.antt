-- ===== src/Interrupts/Report.antt =====
-- What the report and the handler show.
use raspberry_pi_gaming_cons.Common.{
  ℕ, zero, suc, ◌+◌, ◌%◌, ◌^◌, ◌≤◌, ◌<◌, ◌≡◌, refl, ◌≢◌, ap, List, [], ◌∷◌, false, bit_and, ◌==◌,
  ◌||◌, not, length, arith,
}
use raspberry_pi_gaming_cons.Common.Fields.{bit_and_mask}
use raspberry_pi_gaming_cons.Common.Words.{u64}
use raspberry_pi_gaming_cons.Interrupts.{frames_from, backtrace, max_backtrace_depth}

-- A chain of frame records from `fp` on, that ends in 0, with the return addresses in them.
pub data Chain (mem : ℕ → ℕ) : ℕ → List ℕ → Type 0 where
  chain_end : Chain mem 0 []
  chain_link :
      (fp : ℕ) (rest : List ℕ)
      → fp ≢ 0
      → fp % 16 ≡ 0
      → fp < 2 ^ 64
      → Chain mem (mem fp) rest
      → Chain mem fp (mem (u64 (fp + 8)) ∷ rest)

frames_from-Chain :
    (rounds : ℕ) (mem : ℕ → ℕ) (fp : ℕ) (returns : List ℕ)
    → Chain mem fp returns
    → length returns ≤ rounds
    → frames_from rounds mem fp ≡ returns
unfolding frames_from
frames_from-Chain zero mem fp returns chain_end h = refl
frames_from-Chain (suc rounds) mem fp returns chain_end h = refl
frames_from-Chain zero mem fp returns (chain_link fp' rest ne al lt c) h = absurd (omega arith)
frames_from-Chain (suc rounds) mem fp returns (chain_link fp' rest ne al lt c) h =
    let masked : bit_and fp 0xF ≡ fp % 2 ^ 4 = bit_and_mask 4 64 fp lt in
    let goes_on : (fp == 0 || not (bit_and fp 0xF == 0)) ≡ false = ground arith in
    rw goes_on (
      ap (λ l. mem (u64 (fp + 8)) ∷ l) (frames_from-Chain rounds mem (mem fp) rest c (omega arith)))

-- The backtrace of a well-formed chain of at most 32 frame records is the list of the return addresses
-- in it, the innermost first.
pub backtrace-Chain :
    (mem : ℕ → ℕ) (fp : ℕ) (returns : List ℕ)
    → Chain mem fp returns
    → length returns ≤ 32
    → backtrace mem fp ≡ returns
unfolding backtrace
backtrace-Chain mem fp returns c h = frames_from-Chain max_backtrace_depth mem fp returns c h

length-frames_from :
    (rounds : ℕ) (mem : ℕ → ℕ) (fp : ℕ) → length (frames_from rounds mem fp) ≤ rounds
unfolding frames_from
length-frames_from zero mem fp = omega arith
length-frames_from (suc rounds) mem fp = ground (arith, length-frames_from rounds mem (mem fp))

-- Whatever is in memory, a corrupt or cyclic chain included, the backtrace prints at most 32 addresses.
pub length-backtrace : (mem : ℕ → ℕ) (fp : ℕ) → length (backtrace mem fp) ≤ 32
unfolding backtrace
length-backtrace mem fp = length-frames_from max_backtrace_depth mem fp
