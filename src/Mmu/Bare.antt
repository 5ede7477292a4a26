-- ===== src/Mmu/Bare.antt =====
-- Page tables that map nothing, for tests of src/kernel/mmu/mmu.cpp and of what uses it.
use raspberry_pi_gaming_cons.Common.{
  ℕ, zero, suc, ◌+◌, ◌-◌, ◌^◌, ◌<◌, ◌≤◌, ◌≡◌, inl, refl, ◌==◌, if◌then◌else◌, [], ◌∷◌, arith, true,
  all_below, all_below_sound, ltb, ◌||◌,
}
use raspberry_pi_gaming_cons.Pmm.{Pmm}
use raspberry_pi_gaming_cons.Pmm.Valid.{IsValid, used}
use raspberry_pi_gaming_cons.Pmm.Bitmap.{Fit}
use raspberry_pi_gaming_cons.Mmu.{Mmu}
use raspberry_pi_gaming_cons.Mmu.Map.{Implements}

abbrev pub bare : Mmu
bare = record {
  tables = λ _ _. 0;
  l1_table = 0x100000;
  pmm = record { bitmap = (2 ^ 64 - 2 ^ 5 + 1) ∷ []; phys_mem_start = 0x100000; total_frames = 5 };
}

bare-Fit : Fit bare.pmm.bitmap
bare-Fit zero = omega arith
bare-Fit (suc i) = omega arith

bare-table : all_below 64 (λ i. ltb i 5 || used bare.pmm i) ≡ true
unfolding all_below
bare-table = refl

bare-padded : (j : ℕ) → 5 ≤ j → j < 64 → used bare.pmm j ≡ true
bare-padded j h k =
    ground (arith, all_below_sound 64 (λ i. ltb i 5 || used bare.pmm i) j bare-table k)

pub bare-IsValid : IsValid bare.pmm
bare-IsValid = record {
  fit = bare-Fit;
  covered = omega arith;
  padded = bare-padded;
  aligned = refl;
  positive = omega arith;
  in_memory = omega arith;
}

-- Tables in which only the top-level table is in use, and maps nothing.
pub root_only :
    (p : Pmm)
    → p.phys_mem_start ≡ 0x100000
    → 0 < p.total_frames
    → used p 0 ≡ true
    → IsValid p
    → Implements (record bare { pmm = p }) (λ _ _ _. 0)
root_only p start some_frame root v = record {
  plan = record { level = λ t. if t == 0x100000 then 1 else 0; parent = λ _. 0; place = λ _. 0 };
  tree = record {
    valid = v;
    root = refl;
    entry = λ t i lo hi small. inl refl;
    owned = λ t h. (0, some_frame, ground (arith, start), root);
  };
  agree = λ a b c ha hb hc. refl;
}

pub bare-Implements : Implements bare (λ _ _ _. 0)
bare-Implements = root_only bare.pmm refl (omega arith) bare-root bare-IsValid
  where
    bare-root : used bare.pmm 0 ≡ true
    bare-root = refl
