-- ===== src/Spinlock/Progress.antt =====
-- A core can always get the lock.
use raspberry_pi_gaming_cons.Common.{
  ℕ, ◌≡◌, ◌≢◌, refl, inl, inr, true, Bool-cases, arith, eq→==, ne→==,
}
use raspberry_pi_gaming_cons.Spinlock.{Place, System, put, enter, load_exclusive, claim, release}
use raspberry_pi_gaming_cons.Spinlock.Steps.{
  Step, enters, loads, wakes, claims, retries, releases, Run, stay, then_step, IsReachable,
  IsInstruction,
}
use raspberry_pi_gaming_cons.Spinlock.Invariant.{IsSound, Step-IsSound, reachable-IsSound}

-- Every step of the run is an instruction of a core.
unfoldable pub IsOfCores : {s t : System} → Run s t → Type 0
IsOfCores stay = Unit
IsOfCores (then_step run last) = IsOfCores run × IsInstruction last

-- A run of the cores alone to a state in which the core has the lock.
abbrev pub CanHold : ℕ → System → Type 0
CanHold i s = (u : System) × (run : Run s u) × IsOfCores run × (u.place i ≡ Place.holding)

put_self {ℓ} : {A : Type ℓ} (f : ℕ → A) (i : ℕ) (x : A) → put f i x i ≡ x
put_self f i x = rw (eq→== i i refl) refl

unfoldable Run-Step : {s t u : System} → Step s t → Run t u → Run s u
Run-Step step stay = then_step stay step
Run-Step step (then_step run last) = then_step (Run-Step step run) last

Run-Step-IsOfCores :
    {s t u : System} (step : Step s t) (run : Run t u)
    → IsInstruction step
    → IsOfCores run
    → IsOfCores (Run-Step step run)
unfolding IsOfCores Run-Step
Run-Step-IsOfCores step stay h all = (tt, h)
Run-Step-IsOfCores step (then_step run last) h (all, h') = (Run-Step-IsOfCores step run h all, h')

after : {i : ℕ} {s t : System} (step : Step s t) → IsInstruction step → CanHold i t → CanHold i s
after step h (u, run, all, holds) = (u, Run-Step step run, Run-Step-IsOfCores step run h all, holds)

-- The lock is free, and the core is before LDAXR.
from_free : (i : ℕ) (s : System) → s.place i ≡ Place.loading → s.word ≡ 0 → CanHold i s
from_free i s at free =
    let claiming : (load_exclusive i s).place i ≡ Place.claiming = rw (eq→== i i refl, free) refl in
    let armed : (load_exclusive i s).monitor i ≡ true = put_self s.monitor i true in
    (
      claim i (load_exclusive i s),
      then_step (then_step stay (loads i at)) (claims i claiming armed),
      unfold IsOfCores in ((tt, tt), tt),
      put_self (load_exclusive i s).place i Place.holding,
    )

-- Another core holds it, and lets it go.
from_loading : {i : ℕ} {s : System} → IsSound s → s.place i ≡ Place.loading → CanHold i s
from_loading {i} {s} v at = elim v.owned [
  | inl free ↦ from_free i s at free
  | inr (held, (j, holds)) ↦
      let other : i ≢ j = λ e. cc in
      let still : (release j s).place i ≡ Place.loading = rw (ne→== i j other) at in
      let free : (release j s).word ≡ 0 = rw v.active refl in
      after (releases j holds) tt (from_free i (release j s) still free)
]

from_parked : {i : ℕ} {s : System} → IsSound s → s.place i ≡ Place.parked → CanHold i s
from_parked {i} {s} v at = elim (Bool-cases (s.event i)) [
  | inl e ↦
      let step = wakes i at e in
      after step tt (from_loading (Step-IsSound v step) (put_self s.place i Place.loading))
  | inr quiet ↦ elim v.owned [
    | inl free ↦ let held = v.waiting i at quiet in absurd (omega arith)
    | inr (held, (j, holds)) ↦
        let other : i ≢ j = λ e. cc in
        let v' = Step-IsSound v (releases j holds) in
        let still : (release j s).place i ≡ Place.parked = rw (ne→== i j other) at in
        let event : (release j s).event i ≡ true = rw v.active refl in
        let step = wakes i still event in
        after (releases j holds) tt (
          after step tt
            (from_loading (Step-IsSound v' step) (put_self (release j s).place i Place.loading)))
  ]
]

from_place : (i : ℕ) (s : System) (p : Place) → s.place i ≡ p → IsSound s → CanHold i s
from_place i s Place.outside at v =
    let step = enters i at in
    let next : (enter i s).place i ≡ Place.loading = rw (eq→== i i refl, v.active) refl in
    after step tt (from_loading (Step-IsSound v step) next)
from_place i s Place.loading at v = from_loading v at
from_place i s Place.parked at v = from_parked v at
from_place i s Place.claiming at v =
    let step = retries i at in
    after step tt (from_loading (Step-IsSound v step) (put_self s.place i Place.loading))
from_place i s Place.holding at v = (s, stay, unfold IsOfCores in tt, at)

-- There is no deadlock: from every state that an interleaving gets to with the MMU on, from a free
-- lock, and for every core, wherever it is, some run leads to a state in which that core holds the
-- lock, by instructions of the cores alone: no monitor is disarmed and no event register set by the
-- hardware of its own accord.
pub spin_lock-progress : {t : System} (i : ℕ) → IsReachable t → CanHold i t
spin_lock-progress {t} i r = from_place i t (t.place i) refl (reachable-IsSound r)
