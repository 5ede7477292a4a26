-- ===== src/Spinlock/Tests.antt =====
-- Two cores at one lock.
use raspberry_pi_gaming_cons.Common.{ℕ, ◌≡◌, ◌≢◌, refl, true, false}
use raspberry_pi_gaming_cons.Spinlock.{Place, System, enter, load_exclusive, claim}
use raspberry_pi_gaming_cons.Spinlock.Steps.{enters, loads, claims, stay, then_step, IsReachable}
use raspberry_pi_gaming_cons.Spinlock.Exclusion.{spin_lock-exclusive, parked-waits}
use raspberry_pi_gaming_cons.Spinlock.Progress.{CanHold, spin_lock-progress}

abbrev idle : System
idle = record {
  word = 0;
  mmu_active = true;
  place = λ _. Place.outside;
  daif = λ _. 0;
  flags = λ _. 0;
  monitor = λ _. false;
  event = λ _. false;
}

-- Core 0 takes the lock, and core 1 comes to wait for it.
abbrev one_waits : System
one_waits = load_exclusive 1 (enter 1 (claim 0 (load_exclusive 0 (enter 0 idle))))

one_waits-IsReachable : IsReachable one_waits
one_waits-IsReachable = (
  idle,
  record { free = refl; active = refl; idle = λ i. refl },
  then_step
      (then_step
        (then_step (then_step (then_step stay (enters 0 refl)) (loads 0 refl)) (claims 0 refl refl))
        (enters 1 refl))
      (loads 1 refl),
)

spin_lock-exclusive_example : ◌≡◌ {A = ℕ} 0 0
spin_lock-exclusive_example = spin_lock-exclusive 0 0 one_waits-IsReachable refl refl

parked-waits_example : (j : ℕ) × (one_waits.place j ≡ Place.holding) × (j ≢ 1)
parked-waits_example = parked-waits 1 one_waits-IsReachable refl refl

spin_lock-progress_example : CanHold 1 one_waits
spin_lock-progress_example = spin_lock-progress 1 one_waits-IsReachable
