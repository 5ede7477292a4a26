-- ===== src/Spinlock/Exclusion.antt =====
-- Mutual exclusion, the masks of a core inside the lock, and the wake-up of a parked core.
use raspberry_pi_gaming_cons.Common.{ℕ, ◌≡◌, ◌≢◌, inl, inr, false, bit_or, arith}
use raspberry_pi_gaming_cons.Spinlock.{Place, System, all_masked}
use raspberry_pi_gaming_cons.Spinlock.Steps.{IsReachable}
use raspberry_pi_gaming_cons.Spinlock.Invariant.{reachable-IsSound}

-- In every state that an interleaving of the cores' instructions gets to with the MMU on, from a free
-- lock, at most one core is between `spin_lock` and `spin_unlock`.
pub spin_lock-exclusive :
    {t : System} (i j : ℕ)
    → IsReachable t
    → t.place i ≡ Place.holding
    → t.place j ≡ Place.holding
    → i ≡ j
spin_lock-exclusive i j r e e' = (reachable-IsSound r).unique i j e e'

-- In every state that an interleaving gets to with the MMU on, from a free lock, a core that has
-- entered `spin_lock` and has not left `spin_unlock` has every exception masked, beside what the
-- DAIF of its caller masks.
pub spin_lock-masked :
    {t : System} (i : ℕ)
    → IsReachable t
    → t.place i ≢ Place.outside
    → t.daif i ≡ bit_or (t.flags i) all_masked
spin_lock-masked i r inside = elim ((reachable-IsSound r).masked i) [
  | inl e ↦ absurd (inside e)
  | inr e ↦ e
]

-- No wake-up is lost: in every state that an interleaving gets to with the MMU on, from a free
-- lock, where a core is parked at WFE and no event is set for it, another core holds the lock,
-- whose `spin_unlock` will set one.
pub parked-waits :
    {t : System} (i : ℕ)
    → IsReachable t
    → t.place i ≡ Place.parked
    → t.event i ≡ false
    → (j : ℕ) × (t.place j ≡ Place.holding) × (j ≢ i)
parked-waits {t} i r at quiet =
    let v = reachable-IsSound r in
    elim v.owned [
      | inl free ↦ let held = v.waiting i at quiet in absurd (omega arith)
      | inr (held, (j, holds)) ↦ (j, holds, λ e. cc)
    ]
