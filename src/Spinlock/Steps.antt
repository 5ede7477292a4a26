-- ===== src/Spinlock/Steps.antt =====
-- The steps of a system of cores that use one lock, in any interleaving.
use raspberry_pi_gaming_cons.Common.{ℕ, ◌≡◌, true, false}
use raspberry_pi_gaming_cons.Spinlock.{
  Place, System, put, enter, load_exclusive, wake, claim, retry, release,
}

-- One core executes one instruction, or the hardware disarms a monitor or sets an event register for a
-- reason of its own.
pub data Step (s : System) : System → Type 0 where
  enters : (i : ℕ) → s.place i ≡ Place.outside → Step s (enter i s)
  loads : (i : ℕ) → s.place i ≡ Place.loading → Step s (load_exclusive i s)
  wakes : (i : ℕ) → s.place i ≡ Place.parked → s.event i ≡ true → Step s (wake i s)
  claims : (i : ℕ) → s.place i ≡ Place.claiming → s.monitor i ≡ true → Step s (claim i s)
  retries : (i : ℕ) → s.place i ≡ Place.claiming → Step s (retry i s)
  releases : (i : ℕ) → s.place i ≡ Place.holding → Step s (release i s)
  disarms : (i : ℕ) → Step s (record s { monitor = put s.monitor i false })
  signals : (i : ℕ) → Step s (record s { event = put s.event i true })

-- The step is an instruction of a core, not the hardware's own.
abbrev pub IsInstruction : {s t : System} → Step s t → Type 0
IsInstruction (enters i h) = Unit
IsInstruction (loads i h) = Unit
IsInstruction (wakes i h e) = Unit
IsInstruction (claims i h m) = Unit
IsInstruction (retries i h) = Unit
IsInstruction (releases i h) = Unit
IsInstruction (disarms i) = ⊥
IsInstruction (signals i) = ⊥

pub data Run (s : System) : System → Type 0 where
  stay : Run s s
  then_step : {t u : System} → Run s t → Step t u → Run s u

-- The lock is free and every core is outside it.
pub record IsInitial (s : System) : Type 0 where
  pub free : s.word ≡ 0
  pub active : s.mmu_active ≡ true
  pub idle : (i : ℕ) → s.place i ≡ Place.outside

-- A state that a run from an initial one gets to.
abbrev pub IsReachable : System → Type 0
IsReachable t = (s : System) × IsInitial s × Run s t
