-- ===== src/Cache.antt =====
-- Cache maintenance by address: src/kernel/cache/cache.cpp. The barrier at the end is left out.
pub mod Lines
mod Tests
use raspberry_pi_gaming_cons.Common.{
  ℕ, zero, suc, ◌+◌, ◌-◌, ◌*◌, ◌/◌, ◌^◌, bit_and, List, [], ◌∷◌, Option, none, some, ltb,
  if◌then◌else◌,
}
use raspberry_pi_gaming_cons.Common.Words.{u64, sub64, not64}

-- `cache_line_size`, for a value of CTR_EL0
unfoldable pub cache_line_size : ℕ → ℕ
cache_line_size ctr = u64 (4 * 2 ^ bit_and (ctr / 2 ^ 16) 0xF)

abbrev pub line_start : ℕ → ℕ → ℕ
line_start line addr = bit_and addr (not64 (sub64 line 1))

abbrev pub line_end : ℕ → ℕ → ℕ → ℕ
line_end line addr size = bit_and (sub64 (u64 (u64 (addr + size) + line)) 1) (not64 (sub64 line 1))

-- The loop of `cache_clean` and of `cache_invalidate`: the addresses that the instruction runs on, or
-- `none` when there are more than `fuel`.
pub visit : ℕ → ℕ → ℕ → ℕ → Option (List ℕ)
visit zero line va end = none
visit (suc fuel) line va end =
    let rest = visit fuel line (u64 (va + line)) end in
    if ltb va end then (elim rest [ none ↦ none | some vas ↦ some (va ∷ vas) ]) else some []

-- `cache_clean` by DC CVAC, `cache_invalidate` by DC IVAC
unfoldable pub maintained : ℕ → ℕ → ℕ → ℕ → Option (List ℕ)
unfolding visit
maintained fuel ctr addr size =
    let line = cache_line_size ctr in
    visit fuel line (line_start line addr) (line_end line addr size)
