-- ===== src/Spinlock/Invariant.antt =====
-- What holds of the lock in every interleaving.
use raspberry_pi_gaming_cons.Common.{
  ℕ, ◌≡◌, refl, ◌⊎◌, inl, inr, true, false, bit_or, Bool-cases, arith, eq→==,
}
use raspberry_pi_gaming_cons.Spinlock.{
  Place, System, all_masked, put, enter, load_exclusive, wake, claim, retry, release,
}
use raspberry_pi_gaming_cons.Spinlock.Steps.{
  Step, enters, loads, wakes, claims, retries, releases, disarms, signals, Run, stay, then_step,
  IsInitial, IsReachable,
}

-- The word says whether a core holds the lock; an armed claim has seen it free; a core that is parked
-- without an event waits for a holder; and inside, exceptions are masked.
pub record IsSound (s : System) : Type 0 where
  pub active : s.mmu_active ≡ true
  pub owner : (i : ℕ) → s.place i ≡ Place.holding → s.word ≡ 1
  pub unique : (i j : ℕ) → s.place i ≡ Place.holding → s.place j ≡ Place.holding → i ≡ j
  pub owned : (s.word ≡ 0) ⊎ ((s.word ≡ 1) × ((i : ℕ) × (s.place i ≡ Place.holding)))
  pub armed : (i : ℕ) → s.place i ≡ Place.claiming → s.monitor i ≡ true → s.word ≡ 0
  pub waiting : (i : ℕ) → s.place i ≡ Place.parked → s.event i ≡ false → s.word ≡ 1
  pub masked : (i : ℕ) → (s.place i ≡ Place.outside) ⊎ (s.daif i ≡ bit_or (s.flags i) all_masked)

initial-IsSound : {s : System} → IsInitial s → IsSound s
initial-IsSound {s} h = record {
  active = h.active;
  owner = λ i e. absurd (cc (h.idle i));
  unique = λ i j e e'. absurd (cc (h.idle i));
  owned = inl h.free;
  armed = λ i e e'. h.free;
  waiting = λ i e e'. absurd (cc (h.idle i));
  masked = λ i. inl (h.idle i);
}

module _ {s : System} (v : IsSound s) (i : ℕ) where
  enter-IsSound : s.place i ≡ Place.outside → IsSound (enter i s)
  enter-IsSound at = grind (arith, Bool-cases)

  load-IsSound : s.place i ≡ Place.loading → IsSound (load_exclusive i s)
  load-IsSound at = grind (arith, Bool-cases)

  wake-IsSound : s.place i ≡ Place.parked → IsSound (wake i s)
  wake-IsSound at = grind (arith, Bool-cases)

  claim-IsSound : s.place i ≡ Place.claiming → s.monitor i ≡ true → IsSound (claim i s)
  claim-IsSound at arm =
      let free : s.word ≡ 0 = v.armed i at arm in
      record {
        active = v.active;
        owner = λ j e. refl;
        unique = grind (arith, Bool-cases);
        owned = inr (refl, (i, rw (eq→== i i refl) refl));
        armed = λ j e e'. absurd (ground (arith, e'));
        waiting = λ j e e'. refl;
        masked = grind (arith, Bool-cases);
      }

  retry-IsSound : s.place i ≡ Place.claiming → IsSound (retry i s)
  retry-IsSound at = grind (arith, Bool-cases)

  release-IsSound : s.place i ≡ Place.holding → IsSound (release i s)
  release-IsSound at = grind (arith, Bool-cases)

  disarm-IsSound : IsSound (record s { monitor = put s.monitor i false })
  disarm-IsSound = grind (arith, Bool-cases)

  signal-IsSound : IsSound (record s { event = put s.event i true })
  signal-IsSound = grind (arith, Bool-cases)

pub Step-IsSound : {s t : System} → IsSound s → Step s t → IsSound t
Step-IsSound v (enters i at) = enter-IsSound v i at
Step-IsSound v (loads i at) = load-IsSound v i at
Step-IsSound v (wakes i at e) = wake-IsSound v i at
Step-IsSound v (claims i at e) = claim-IsSound v i at e
Step-IsSound v (retries i at) = retry-IsSound v i at
Step-IsSound v (releases i at) = release-IsSound v i at
Step-IsSound v (disarms i) = disarm-IsSound v i
Step-IsSound v (signals i) = signal-IsSound v i

pub Run-IsSound : {s t : System} → IsSound s → Run s t → IsSound t
Run-IsSound v stay = v
Run-IsSound v (then_step run step) = Step-IsSound (Run-IsSound v run) step

pub reachable-IsSound : {t : System} → IsReachable t → IsSound t
reachable-IsSound (s, initial, run) = Run-IsSound (initial-IsSound initial) run
