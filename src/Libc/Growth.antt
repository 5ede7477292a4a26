-- ===== src/Libc/Growth.antt =====
-- `_sbrk` keeps the memory behind the break in order.
use raspberry_pi_gaming_cons.Common.{
  ℕ, zero, suc, ◌+◌, ◌*◌, ◌/◌, ◌%◌, ◌^◌, ◌≤◌, ◌<◌, ◌≡◌, ◌≢◌, inl, inr, some, Bool, true, false, ltb,
  ◌==◌, bit_and, bit_or, Bool-cases, arith, ap, sym, ◌∙◌, subst, ltb→lt, eq→==, ==→ne,
}
use raspberry_pi_gaming_cons.Common.Fields.{bit_and_mask, bit_and_align, bit_or_fields}
use raspberry_pi_gaming_cons.Common.Words.{u64}
use raspberry_pi_gaming_cons.Pmm.{page_size, alloc_frame}
use raspberry_pi_gaming_cons.Pmm.Alloc.{alloc_frame_lem}
use raspberry_pi_gaming_cons.Mmu.{Mmu, addr_mask, pte_normal_rw, map_range, translate}
use raspberry_pi_gaming_cons.Mmu.Map.{update, Implements}
use raspberry_pi_gaming_cons.Mmu.Ranges.{Ends_success}
use raspberry_pi_gaming_cons.Mmu.Contract.{map_range-Effect, translate-Implements}
use raspberry_pi_gaming_cons.Mmu.Identity.{page_entry}
use raspberry_pi_gaming_cons.Pmm.Valid.{Fits}
use raspberry_pi_gaming_cons.Mmu.Setup.{Boot, mmu_init}
use raspberry_pi_gaming_cons.Mmu.Installed.{mmu_init-HasIdentity}
use raspberry_pi_gaming_cons.Mmu.Frames.{Taken-Keeps, map_range-Keeps, Implements-Keeps}
use raspberry_pi_gaming_cons.Libc.{
  initial, Sys, value, up, sbrk, extend_to, newlib_heap_base, newlib_heap_max_size,
}
use raspberry_pi_gaming_cons.Libc.Break.{IsValid}
use raspberry_pi_gaming_cons.Libc.Backed.{Framed, Backed, with_frame, new-Framed}

module _ (s : Sys) (v : IsValid s) (b : Backed s) where
  abbrev pub framed : Mmu
  framed = record s.mmu { pmm = (alloc_frame s.mmu.pmm).1 }

  abbrev pub mapped : Bool × Mmu
  mapped = map_range s.heap_end (alloc_frame s.mmu.pmm).0 page_size pte_normal_rw framed

  -- One round of the loop that succeeds.
  pub round-Backed :
      s.heap_end < newlib_heap_base + newlib_heap_max_size
      → ((alloc_frame s.mmu.pmm).0 == 0) ≡ false
      → mapped.0 ≡ true
      → Backed (record s { heap_end = u64 (s.heap_end + page_size); mmu = mapped.1 })
  round-Backed below some_frame ok = elim (alloc_frame_lem s.mmu.pmm b.implements.tree.valid) [
    | inr full ↦ absurd (==→ne _ _ some_frame (ap (λ r. r.0) full.result))
    | inl (idx, taken) ↦
        let valid = b.implements.tree.valid in
        let phys = (alloc_frame s.mmu.pmm).0 in
        let end_low : newlib_heap_base ≤ s.heap_end = omega (arith, v.low, v.covered) in
        let place : u64 (s.heap_end + 0) ≡ s.heap_end = omega (arith, v.high) in
        let no_wrap : u64 (s.heap_end + page_size) ≡ s.heap_end + 4096 = omega arith in
        let addr : u64 (phys + 0) ≡ phys =
          omega (arith, taken.result, taken.in_range, valid.in_memory) in
        let entry : bit_or (bit_or (u64 (phys + 0)) pte_normal_rw) 3
            ≡ s.mmu.pmm.phys_mem_start + idx * page_size + pte_normal_rw =
          ap (λ x. bit_or (bit_or x pte_normal_rw) 3) addr
          ∙ page_entry phys pte_normal_rw (omega (arith, taken.result, valid.aligned))
              (omega (arith, taken.result, taken.in_range, valid.in_memory))
              (omega arith, omega arith)
          ∙ omega (arith, taken.result) in
        let imp = Implements-Keeps (alloc_frame s.mmu.pmm).1 (Taken-Keeps taken) b.implements in
        let mapped_imp =
          Ends_success s.heap_end 1 _ b.view mapped ok
            (map_range-Effect s.heap_end phys page_size pte_normal_rw (omega arith) imp) in
        let keeps = map_range-Keeps s.heap_end phys pte_normal_rw framed taken.valid ok in
        let desc = s.mmu.pmm.phys_mem_start + idx * page_size + pte_normal_rw in
        let now = update s.heap_end desc b.view in
        let frames = with_frame s.heap_end idx b.frame in
        record {
          view = now;
          frame = frames;
          implements =
              subst (λ x. Implements mapped.1 (update x desc b.view)) place
                (subst (λ x. Implements mapped.1 (update (u64 (s.heap_end + 0)) x b.view)) entry
                  mapped_imp);
          framed =
              subst (λ x. Framed mapped.1 x now frames) (sym no_wrap)
                (new-Framed b.framed taken end_low v.whole_pages (omega (arith, v.high)) mapped.1
                  keeps);
        }
  ]

-- The loop of `_sbrk`, when it gets to its end.
extend_to-Backed :
    (fuel required_end : ℕ) (s : Sys)
    → IsValid s
    → required_end ≤ newlib_heap_base + newlib_heap_max_size
    → Backed s
    → (extend_to fuel required_end s).0 ≡ true
    → Backed (extend_to fuel required_end s).1
unfolding extend_to
extend_to-Backed zero required_end s v room b = λ e. b
extend_to-Backed (suc fuel) required_end s v room b =
    elim (Bool-cases (ltb s.heap_end required_end)) [
      | inr ge ↦ rw ge (λ e. b)
      | inl lt ↦ rw lt (elim (Bool-cases ((alloc_frame s.mmu.pmm).0 == 0)) [
        | inl none_left ↦ rw none_left (λ e. cc)
        | inr one ↦ rw one (elim (Bool-cases (mapped s v b).0) [
          | inr bad ↦ rw bad (λ e. cc)
          | inl ok ↦ rw ok (
              let below = ltb→lt s.heap_end required_end lt in
              extend_to-Backed fuel required_end
                (record s { heap_end = u64 (s.heap_end + page_size); mmu = (mapped s v b).1 })
                (record {
                  low = v.low;
                  covered = omega (arith, v.covered);
                  high = omega (arith, v.whole_pages);
                  whole_pages = omega (arith, v.whole_pages);
                })
                room (round-Backed s v b (omega arith) one ok))
        ])
      ])
    ]

Backed-break : {s : Sys} (brk : ℕ) → Backed s → Backed (record s { curr_brk = brk })
Backed-break brk b = record {
  view = b.view;
  frame = b.frame;
  implements = b.implements;
  framed = b.framed;
}

-- In a valid heap whose pages have frames of their own, when `_sbrk` of a number of bytes that is not
-- negative returns an address, the same holds of the new heap: the page tables are in order, and each page
-- up to the end of the heap is mapped to a frame that is in use and that no other page of the heap has.
pub sbrk-Backed :
    (incr old : ℕ) (s : Sys)
    → IsValid s
    → incr < 2 ^ 63
    → Backed s
    → (sbrk (up incr) s).0 ≡ value old
    → Backed (sbrk (up incr) s).1
unfolding sbrk
sbrk-Backed incr old s v small b = elim (Bool-cases (incr == 0)) [
  | inl z ↦ rw z (λ e. b)
  | inr nz ↦ rw nz (
      rw sum
        (elim (Bool-cases (ltb (newlib_heap_base + newlib_heap_max_size) (s.curr_brk + incr))) [
          | inl over ↦ rw over (λ e. cc)
          | inr fine ↦
              rw fine
                (elim (Bool-cases
                  (extend_to (newlib_heap_max_size / page_size) (s.curr_brk + incr) s).0) [
                    | inr bad ↦ rw bad (λ e. cc)
                    | inl ok ↦ rw ok (λ e. Backed-break _ (
                        extend_to-Backed (newlib_heap_max_size / page_size) (s.curr_brk + incr) s v
                          (ground arith) b ok))
                  ])
        ]))
]
  where
    sum : u64 (s.curr_brk + incr) ≡ s.curr_brk + incr
    sum = omega (arith, v.covered, v.high)

-- Where an address of the heap translates to.
translate-frame :
    (s : Sys) (va : ℕ)
    → IsValid s
    → (b : Backed s) → newlib_heap_base ≤ va
    → va < s.heap_end
    → translate va s.mmu ≡ s.mmu.pmm.phys_mem_start + b.frame (va / 4096) * page_size + va % 4096
translate-frame s va v b lo hi =
    let valid = b.implements.tree.valid in
    let (inside, is_used) = b.framed.inside (va / 4096) (omega arith) (omega arith) in
    let phys : ℕ = s.mmu.pmm.phys_mem_start + b.frame (va / 4096) * page_size in
    let below : phys + 4096 < 2 ^ 39 = omega (arith, valid.in_memory) in
    let whole : phys % 4096 ≡ 0 = omega (arith, valid.aligned) in
    let low_bits : bit_and (phys + pte_normal_rw) 3 ≡ (phys + pte_normal_rw) % 2 ^ 2 =
      bit_and_mask 2 48 (phys + pte_normal_rw) (omega arith) in
    let page_bits : (bit_and (phys + pte_normal_rw) 3 == 3) ≡ true = eq→== _ _ (omega arith) in
    let address : bit_and (phys + pte_normal_rw) addr_mask ≡ phys =
      bit_and_align 12 48 (phys + pte_normal_rw) (omega arith) (omega arith) ∙ omega arith in
    rw
      (
        translate-Implements va (omega (arith, v.high)) b.implements,
        b.framed.mapped va lo hi,
        page_bits,
        address,
        bit_and_mask 12 64 va (omega (arith, v.high)),
      )
      (ap (λ x. bit_or x (va % 2 ^ 12)) (omega arith)
        ∙ bit_or_fields 48 12 (phys / 2 ^ 12) (va % 2 ^ 12) (omega arith) (omega arith)
        ∙ omega arith)

-- In a valid heap whose pages have frames of their own, an address up to the end of the heap translates to
-- a byte of the memory that the allocator manages, and no other address of the heap does to the same byte.
pub translate-Backed :
    (s : Sys) (va va' : ℕ)
    → IsValid s
    → Backed s
    → newlib_heap_base ≤ va
    → va < s.heap_end
    → newlib_heap_base ≤ va'
    → va' < s.heap_end
    → va ≢ va'
    → (s.mmu.pmm.phys_mem_start ≤ translate va s.mmu)
      × ((translate va s.mmu < s.mmu.pmm.phys_mem_start + s.mmu.pmm.total_frames * page_size)
          × (translate va s.mmu ≢ translate va' s.mmu))
translate-Backed s va va' v b lo hi lo' hi' other =
    let e = translate-frame s va v b lo hi in
    let e' = translate-frame s va' v b lo' hi' in
    let (inside, is_used) = b.framed.inside (va / 4096) (omega arith) (omega arith) in
    (
      omega arith,
      (
        omega arith,
        λ same.
            let frames : b.frame (va / 4096) ≡ b.frame (va' / 4096) = omega arith in
            let pages =
              b.framed.own (va / 4096) (va' / 4096) (omega arith) (omega arith) (omega arith)
                (omega arith) frames in
            omega arith,
      ),
    )

-- When the kernel image is loaded at 0x80000 or higher and leaves room for the bitmap, `mmu_init` ends in
-- a state over which the heap of newlib, as its globals are initialised, is valid and without pages, with
-- the page tables in order.
pub mmu_init-Backed :
    (kernel_end sctlr : ℕ) (memory : ℕ → ℕ → ℕ)
    → Fits kernel_end
    → 0x80000 ≤ kernel_end
    → (boot : Boot) × (mmu_init kernel_end sctlr memory ≡ some boot)
      × IsValid (initial boot.mmu)
      × Backed (initial boot.mmu)
mmu_init-Backed kernel_end sctlr memory fits high =
    let (boot, ends, (view, imp, id)) = mmu_init-HasIdentity kernel_end sctlr memory fits high in
    (
      boot,
      ends,
      record {
        low = omega arith;
        covered = omega arith;
        high = omega arith;
        whole_pages = omega arith;
      },
      record {
        view = view;
        frame = λ _. 0;
        implements = imp;
        framed = record {
          mapped = λ va lo hi. absurd (omega arith);
          inside = λ n lo hi. absurd (omega arith);
          own = λ n k lo lo' hi hi' e. absurd (omega arith);
        };
      },
    )
