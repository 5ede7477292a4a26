-- ===== src/Dma/Arena.antt =====
-- How the arena's reservation pointer moves.
use raspberry_pi_gaming_cons.Common.{
  ℕ, ◌+◌, ◌*◌, ◌/◌, ◌%◌, ◌^◌, ◌≤◌, ◌<◌, ◌≡◌, refl, ◌⊎◌, inl, inr, Bool, true, false, Bool-cases,
  ltb, ◌==◌, arith, eq→==, ltb→lt, ap, ◌∙◌, sym, subst,
}
use raspberry_pi_gaming_cons.Common.Words.{u64}
use raspberry_pi_gaming_cons.Pmm.{Pmm, page_size, alloc_frames}
use raspberry_pi_gaming_cons.Pmm.Valid as Valid
use raspberry_pi_gaming_cons.Pmm.Runs.{RunTaken, NoRun, alloc_frames_lem}
use raspberry_pi_gaming_cons.Mmu.{Mmu, map_range}
use raspberry_pi_gaming_cons.Mmu.Map.{View, Implements}
use raspberry_pi_gaming_cons.Mmu.Spans.{written}
use raspberry_pi_gaming_cons.Mmu.Ranges.{Ends_success}
use raspberry_pi_gaming_cons.Mmu.Contract.{map_range-Effect}
use raspberry_pi_gaming_cons.Mmu.Frames.{Implements-Keeps, RunTaken-Keeps}
use raspberry_pi_gaming_cons.Dma.{
  Dma, dma_base, dma_max_size, pte_normal_nc_rw, page_count, aligned_size, dma_alloc,
  dma_reclaim_va,
}

pub record IsValid (d : Dma) : Type 0 where
  pub low : dma_base ≤ d.dma_bump_ptr
  pub high : d.dma_bump_ptr ≤ dma_base + dma_max_size
  pub whole_pages : d.dma_bump_ptr % page_size ≡ 0

-- The pages of a buffer.
abbrev pub pages_for : ℕ → ℕ
pages_for size = (size + 4095) / 4096

-- The frame allocator after the frames of the buffer were asked for.
abbrev pub asked : ℕ → Dma → ℕ × Pmm
asked size d = alloc_frames (page_count size) d.mmu.pmm

abbrev pub framed : ℕ → Dma → Mmu
framed size d = record (d.mmu) { pmm = (asked size d).1 }

-- The buffer lies in the arena after the buffers before it, has room for the bytes asked for, and the
-- next one starts after it. It has the first free run of frames that is long enough, and its pages are
-- mapped to them in order, uncached, in the place of what the map had there.
pub record Buffer (size : ℕ) (view : View) (d : Dma) (r : ℕ × Dma) : Type 0 where
  pub start : r.0 ≡ d.dma_bump_ptr
  pub room : r.0 + size ≤ r.1.dma_bump_ptr
  pub valid : IsValid (r.1)
  pub run : ℕ
  pub taken : RunTaken d.mmu.pmm (pages_for size) run (asked size d)
  pub mapped : Implements r.1.mmu (
      written
        (pages_for size)
        d.dma_bump_ptr
        (d.mmu.pmm.phys_mem_start + run * page_size)
        pte_normal_nc_rw
        0
        view)

-- The call returns 0 and the arena is as before, for want of room, of a run of frames, or of page tables.
pub record Refused (size : ℕ) (d : Dma) (r : ℕ × Dma) : Type 0 where
  pub null : r.0 ≡ 0
  pub same : r.1.dma_bump_ptr ≡ d.dma_bump_ptr
  pub cause :
      (dma_base + dma_max_size < d.dma_bump_ptr + pages_for size * page_size)
      ⊎ (NoRun d.mmu.pmm (pages_for size) (asked size d)
          ⊎ ((map_range d.dma_bump_ptr
                (asked size d).0
                (pages_for size * page_size)
                pte_normal_nc_rw
                (framed size d)).0
              ≡ false))

pub aligned_size_lem : (size : ℕ) → size < 2 ^ 63 → aligned_size size ≡ (size + 4095) / 4096 * 4096
aligned_size_lem size h = omega arith

reclaim :
    (size : ℕ) (d d' : Dma)
    → d'.dma_bump_ptr ≡ u64 (d.dma_bump_ptr + aligned_size size)
    → (dma_reclaim_va d.dma_bump_ptr size d').dma_bump_ptr ≡ d.dma_bump_ptr
unfolding dma_reclaim_va
reclaim size d d' e =
    let same : (d'.dma_bump_ptr == u64 (d.dma_bump_ptr + aligned_size size)) ≡ true = eq→== _ _ e in
    rw same refl

page_count_lem : (size : ℕ) → size < 2 ^ 63 → page_count size ≡ pages_for size
page_count_lem size h = omega arith

-- The frames of the buffer, where `alloc_frames` does not give 0.
run_taken :
    (size : ℕ) (d : Dma)
    → 0 < size
    → size < 2 ^ 63
    → Valid.IsValid d.mmu.pmm
    → ((asked size d).0 == 0) ≡ false
    → (run : ℕ) × RunTaken d.mmu.pmm (pages_for size) run (asked size d)
run_taken size d some_byte small valid got =
    let count = page_count_lem size small in
    elim (alloc_frames_lem (page_count size) d.mmu.pmm (omega (arith, count)) valid) [
      | inl (run, t) ↦ (run, subst (λ c. RunTaken d.mmu.pmm c run (asked size d)) count t)
      | inr none ↦
          let zeroed : (asked size d).0 ≡ 0 = ap (λ x. x.0) none.result in absurd (ground arith)
    ]

no_run :
    (size : ℕ) (d : Dma)
    → 0 < size
    → size < 2 ^ 63
    → Valid.IsValid d.mmu.pmm
    → ((asked size d).0 == 0) ≡ true
    → NoRun d.mmu.pmm (pages_for size) (asked size d)
no_run size d some_byte small valid lacking =
    let count = page_count_lem size small in
    elim (alloc_frames_lem (page_count size) d.mmu.pmm (omega (arith, count)) valid) [
      | inr none ↦ subst (λ c. NoRun d.mmu.pmm c (asked size d)) count none
      | inl (run, t) ↦ let low = valid.positive in absurd (ground (arith, t.result))
    ]

-- From a valid arena over page tables that implement an abstract map, for a size above 0 and below 2^63,
-- `dma_alloc` returns the next part of the arena, of at least `size` bytes, mapped uncached to the first
-- free run of frames that is long enough; or it returns 0 and gives the addresses back that it had
-- reserved, and then the arena has no room for the pages, no such run is free, or `map` failed.
pub dma_alloc-Reserved :
    (size : ℕ) (d : Dma) {view : View}
    → IsValid d
    → Implements d.mmu view
    → 0 < size
    → size < 2 ^ 63
    → Buffer size view d (dma_alloc size d) ⊎ Refused size d (dma_alloc size d)
unfolding dma_alloc
dma_alloc-Reserved size d {view} v imp some_byte small =
    elim (Bool-cases (ltb (dma_base + dma_max_size) (u64 (d.dma_bump_ptr + aligned_size size)))) [
      | inl over ↦ rw over (
          inr (record {
            null = refl;
            same = refl;
            cause = inl (omega (arith, ltb→lt _ _ over, fit, v.high));
          }))
      | inr fits ↦ rw fits (elim (Bool-cases ((asked size d).0 == 0)) [
        | inl lacking ↦ rw lacking (
            inr (record {
              null = refl;
              same = reclaim size d _ refl;
              cause = inr (inl (no_run size d some_byte small imp.tree.valid lacking));
            }))
        | inr got ↦ rw got (elim (Bool-cases mapped.0) [
          | inr bad ↦ rw bad (
              inr (record {
                null = refl;
                same = reclaim size d _ refl;
                cause = inr (
                    inr (
                      ap
                        (λ s.
                          (map_range d.dma_bump_ptr (asked size d).0 s pte_normal_nc_rw
                            (framed size d)).0)
                        (sym fit)
                      ∙ bad));
              }))
          | inl ok ↦
              let (run, taken) = run_taken size d some_byte small imp.tree.valid got in
              rw ok (
                inl (record {
                  start = refl;
                  room = ground (arith, fit, v.high);
                  valid = valid fits;
                  run = run;
                  taken = taken;
                  mapped =
                      subst
                        (λ p.
                          Implements mapped.1
                            (written (pages_for size) d.dma_bump_ptr p pte_normal_nc_rw 0 view))
                        taken.result
                        (subst
                          (λ n.
                            Implements mapped.1
                              (written n d.dma_bump_ptr (asked size d).0 pte_normal_nc_rw 0 view))
                          pages
                          (Ends_success _ _ _ view mapped ok (
                            map_range-Effect d.dma_bump_ptr (asked size d).0 (aligned_size size)
                              pte_normal_nc_rw (ground (arith, fit, v.low))
                              (Implements-Keeps (asked size d).1 (RunTaken-Keeps taken) imp))));
                }))
        ])
      ])
    ]
  where
    mapped : Bool × Mmu
    mapped =
        map_range d.dma_bump_ptr (asked size d).0 (aligned_size size) pte_normal_nc_rw
          (framed size d)

    fit : aligned_size size ≡ pages_for size * page_size
    fit = aligned_size_lem size small

    pages : aligned_size size / page_size ≡ pages_for size
    pages = omega (arith, fit)

    valid :
        ltb (dma_base + dma_max_size) (u64 (d.dma_bump_ptr + aligned_size size)) ≡ false
        → IsValid
            (record { dma_bump_ptr = u64 (d.dma_bump_ptr + aligned_size size); mmu = mapped.1 })
    valid fits = record {
      low = omega (arith, fit, v.low, v.high);
      high = ground arith;
      whole_pages = omega (arith, fit, v.whole_pages);
    }
