-- ===== src/Spinlock.antt =====
-- The spinlock of src/kernel/spinlock/spinlock.cpp, as the instructions of `spin_lock` and `spin_unlock`
-- on any number of cores.
pub mod Steps
pub mod Invariant
pub mod Exclusion
pub mod Progress
mod Tests
use raspberry_pi_gaming_cons.Common.{ℕ, ◌*◌, ◌^◌, bit_or, Bool, true, false, ◌==◌, if◌then◌else◌}

-- Where a core is: outside the lock, before LDAXR, at WFE, before STLXR, or between `spin_lock` and
-- `spin_unlock`.
pub data Place : Type 0 where
  outside : Place
  loading : Place
  parked : Place
  claiming : Place
  holding : Place

-- The lock word, `MMU_ACTIVE`, and of each core: its place, DAIF, the caller's `flags`, the local
-- exclusive monitor and the event register that WFE waits for.
pub record System : Type 0 where
  pub word : ℕ
  pub mmu_active : Bool
  pub place : ℕ → Place
  pub daif : ℕ → ℕ
  pub flags : ℕ → ℕ
  pub monitor : ℕ → Bool
  pub event : ℕ → Bool

-- The D, A, I and F bits that `msr DAIFSet, #0xf` sets.
abbrev pub all_masked : ℕ
all_masked = 0xf * 2 ^ 6

-- `f[i] = x`
abbrev pub put {ℓ} : {A : Type ℓ} → (ℕ → A) → ℕ → A → ℕ → A
put f i x j = if j == i then x else f j

-- A core saves DAIF and masks all exceptions; before the MMU is on it has the lock at once.
abbrev pub enter : ℕ → System → System
enter i s = record s {
  flags = put s.flags i (s.daif i);
  daif = put s.daif i (bit_or (s.daif i) all_masked);
  place = put s.place i (if s.mmu_active then Place.loading else Place.holding);
}

-- LDAXR arms the monitor; a lock that is held parks the core.
abbrev pub load_exclusive : ℕ → System → System
load_exclusive i s = record s {
  monitor = put s.monitor i true;
  place = put s.place i (if s.word == 0 then Place.claiming else Place.parked);
}

-- WFE goes on when the event register is set, and clears it.
abbrev pub wake : ℕ → System → System
wake i s = record s { event = put s.event i false; place = put s.place i Place.loading }

-- STLXR with the monitor armed writes 1, and disarms every core's monitor.
abbrev pub claim : ℕ → System → System
claim i s = record s { word = 1; monitor = λ _. false; place = put s.place i Place.holding }

-- STLXR without it writes nothing, and the core tries again.
abbrev pub retry : ℕ → System → System
retry i s = record s { monitor = put s.monitor i false; place = put s.place i Place.loading }

-- `spin_unlock`: with the MMU on, STLR frees the word and so disarms every monitor, and SEV sets every
-- event register; DAIF is what the caller saved.
abbrev pub release : ℕ → System → System
release i s = record s {
  word = if s.mmu_active then 0 else s.word;
  monitor = λ j. if s.mmu_active then false else s.monitor j;
  event = λ j. if s.mmu_active then true else s.event j;
  daif = put s.daif i (s.flags i);
  place = put s.place i Place.outside;
}
