-- ===== src/Mmu/Installed.antt =====
-- The identity map that `mmu_init` installs.
use raspberry_pi_gaming_cons.Common.{
  ℕ, ◌-◌, ◌%◌, ◌^◌, ◌≤◌, ◌<◌, ◌≡◌, refl, ◌⊎◌, inl, inr, true, false, some, ◌==◌, ltb, if◌then◌else◌,
  Bool-cases, arith, ne→==, eq→==, ==→eq,
}
use raspberry_pi_gaming_cons.Pmm.{Pmm, phys_mem_end, alloc_frame, pmm_init}
use raspberry_pi_gaming_cons.Pmm.Valid.{Fits, pmm_init-IsValid, pmm_init-frames, round_up_lem}
use raspberry_pi_gaming_cons.Pmm.Alloc.{Taken, alloc_frame_lem}
use raspberry_pi_gaming_cons.Mmu.{translate}
use raspberry_pi_gaming_cons.Mmu.Tree.{Plan, IsTree}
use raspberry_pi_gaming_cons.Mmu.Setup.{Boot, regions, with_root, booted, mmu_init}
use raspberry_pi_gaming_cons.Mmu.Identity.{HasIdentity, AllInside, map_all-HasIdentity, translated}

-- A plan with the top-level table only.
abbrev root_plan : ℕ → Plan
root_plan root = record { level = λ x. if x == root then 1 else 0; parent = λ _. 0; place = λ _. 0 }

module _ (kernel_end : ℕ) (fits : Fits kernel_end) (memory : ℕ → ℕ → ℕ) where
  abbrev p : Pmm
  p = pmm_init kernel_end

  module _ {idx : ℕ} (taken : Taken p idx (alloc_frame p)) where
    is_root : (t : ℕ) → 0 < (root_plan (alloc_frame p).0).level t → t ≡ (alloc_frame p).0
    is_root t h = elim (Bool-cases (t == (alloc_frame p).0)) [
      | inl e ↦ ==→eq _ _ e
      | inr e ↦ absurd (ground arith)
    ]

    -- The cleared table is a tree that maps nothing.
    root-IsTree : IsTree (with_root kernel_end memory) (root_plan (alloc_frame p).0)
    root-IsTree = record {
      valid = taken.valid;
      root = rw (eq→== (alloc_frame p).0 _ refl) refl;
      entry = λ t i lo hi small.
          let inside : ltb i 512 ≡ true = ground arith in
          inl (rw (eq→== t _ (is_root t lo), inside) refl);
      owned = λ t h. (
        idx,
        omega (arith, taken.in_range, taken.total),
        omega (arith, taken.result, taken.start, is_root t h),
        rw (taken.marks idx, eq→== idx idx refl) (ground arith),
      );
    }

    root-HasIdentity : HasIdentity (with_root kernel_end memory)
    root-HasIdentity = (
      λ _ _ _. 0,
      record {
        plan = root_plan (alloc_frame p).0;
        tree = root-IsTree;
        agree = λ a b c ha hb hc.
            let inside : ltb a 512 ≡ true = ground arith in
            rw (eq→== (alloc_frame p).0 _ refl, inside) refl;
      },
      λ a b c. inl refl,
    )

  regions-AllInside : 0x80000 ≤ kernel_end → AllInside (regions p.phys_mem_start)
  regions-AllInside high =
      let (valid, free, below) = pmm_init-IsValid kernel_end fits in
      let up = round_up_lem kernel_end (omega arith) in
      let least : 0x80000 ≤ p.phys_mem_start = omega arith in
      let most : p.phys_mem_start ≤ phys_mem_end = omega (arith, valid.in_memory) in
      let al : p.phys_mem_start % 4096 ≡ 0 = valid.aligned in
      (
        omega arith,
        omega arith,
        omega arith,
        (
          omega arith,
          omega arith,
          omega arith,
          (
            omega arith,
            omega arith,
            omega arith,
            (
              omega arith,
              omega arith,
              omega arith,
              (
                omega arith,
                omega arith,
                omega arith,
                (
                  omega arith,
                  omega arith,
                  omega arith,
                  (
                    omega arith,
                    omega arith,
                    omega arith,
                    (omega arith, omega arith, omega arith, 0),
                  ),
                ),
              ),
            ),
          ),
        ),
      )

  frame-Taken : (idx : ℕ) × Taken p idx (alloc_frame p)
  frame-Taken =
      let (valid, free, below) = pmm_init-IsValid kernel_end fits in
      elim (alloc_frame_lem p valid) [
        | inl taken ↦ taken
        | inr none_left ↦
            let some_frame = pmm_init-frames kernel_end fits in
            let full = none_left.full 0 some_frame in
            let empty = free 0 some_frame in absurd (ground arith)
      ]

-- The same start, for any address.
pub mmu_init-HasIdentity :
    (kernel_end sctlr : ℕ) (memory : ℕ → ℕ → ℕ)
    → Fits kernel_end
    → 0x80000 ≤ kernel_end
    → (boot : Boot) × (mmu_init kernel_end sctlr memory ≡ some boot) × HasIdentity boot.mmu
unfolding mmu_init
mmu_init-HasIdentity kernel_end sctlr memory fits high =
    let (idx, taken) = frame-Taken kernel_end fits memory in
    let (valid, free, below) = pmm_init-IsValid kernel_end fits in
    let root : ((alloc_frame (pmm_init kernel_end)).0 == 0) ≡ false =
      ne→== _ _ (λ e. omega (arith, taken.result, valid.positive)) in
    (
      booted kernel_end sctlr memory,
      rw root refl,
      map_all-HasIdentity (regions (pmm_init kernel_end).phys_mem_start)
          (regions-AllInside kernel_end fits memory high)
          (root-HasIdentity kernel_end fits memory taken),
    )

-- When the kernel image is loaded at 0x80000 or higher and leaves room for the bitmap, `mmu_init` ends,
-- whatever is in memory, in a state in which a virtual address of the 512 GiB translates to itself or
-- to nothing.
pub mmu_init-identity :
    (kernel_end sctlr : ℕ) (memory : ℕ → ℕ → ℕ) (va : ℕ)
    → Fits kernel_end
    → 0x80000 ≤ kernel_end
    → va < 2 ^ 39
    → (boot : Boot) × (mmu_init kernel_end sctlr memory ≡ some boot)
      × ((translate va boot.mmu ≡ va) ⊎ (translate va boot.mmu ≡ 2 ^ 64 - 1))
mmu_init-identity kernel_end sctlr memory va fits high lo =
    let (boot, ends, (view, imp, id)) = mmu_init-HasIdentity kernel_end sctlr memory fits high in
    (boot, ends, translated va lo imp id)
