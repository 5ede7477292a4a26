-- ===== src/Libc/Backed.antt =====
-- The memory behind the break of src/kernel/libc_retarget/libc_retarget.cpp.
use raspberry_pi_gaming_cons.Common.{
  ℕ, ◌+◌, ◌*◌, ◌/◌, ◌%◌, ◌^◌, ◌≤◌, ◌<◌, ◌≡◌, ◌≢◌, ◌⊎◌, refl, inl, inr, Bool, true, false, ltb, ◌==◌,
  ◌&&◌, if◌then◌else◌, bit_and, Bool-cases, arith, ap, sym, ◌∙◌, ltb→lt, ne→==, eq→==,
}
use raspberry_pi_gaming_cons.Pmm.{page_size, alloc_frame}
use raspberry_pi_gaming_cons.Pmm.Valid.{used}
use raspberry_pi_gaming_cons.Pmm.Alloc.{Taken}
use raspberry_pi_gaming_cons.Mmu.{Mmu, l1_index, l2_index, l3_index, pte_normal_rw}
use raspberry_pi_gaming_cons.Mmu.Map.{View, update, Implements}
use raspberry_pi_gaming_cons.Mmu.Unmap.{at}
use raspberry_pi_gaming_cons.Mmu.Spans.{page_number}
use raspberry_pi_gaming_cons.Mmu.Frames.{Keeps}
use raspberry_pi_gaming_cons.Libc.{Sys, newlib_heap_base}

-- The pages from the base up to the end `top` have frames of their own: `frame` gives them, by the number
-- of the page, and each is in use.
pub record Framed (m : Mmu) (top : ℕ) (view : View) (frame : ℕ → ℕ) : Type 0 where
  pub mapped :
      (va : ℕ)
      → newlib_heap_base ≤ va
      → va < top
      → at view va ≡ m.pmm.phys_mem_start + frame (va / 4096) * page_size + pte_normal_rw
  pub inside :
      (n : ℕ)
      → newlib_heap_base ≤ n * 4096
      → n * 4096 < top
      → (frame n < m.pmm.total_frames) × (used m.pmm (frame n) ≡ true)
  pub own :
      (n k : ℕ)
      → newlib_heap_base ≤ n * 4096
      → newlib_heap_base ≤ k * 4096
      → n * 4096 < top
      → k * 4096 < top
      → frame n ≡ frame k
      → n ≡ k

-- The page tables are in order, and every page of the heap has a frame of its own.
pub record Backed (s : Sys) : Type 0 where
  pub view : View
  pub frame : ℕ → ℕ
  pub implements : Implements s.mmu view
  pub framed : Framed s.mmu s.heap_end view frame

-- The two addresses have the same indices.
abbrev same_page : ℕ → ℕ → Bool
same_page va va' =
    (l1_index va == l1_index va' && l2_index va == l2_index va') && l3_index va == l3_index va'

same_page-eq :
    (va va' : ℕ) → va < 2 ^ 39 → va' < 2 ^ 39 → same_page va va' ≡ true → va / 4096 ≡ va' / 4096
same_page-eq va va' small small' e =
    let e1 : l1_index va ≡ l1_index va' = ground arith in
    let e2 : l2_index va ≡ l2_index va' = ground arith in
    let e3 : l3_index va ≡ l3_index va' = ground arith in
    let n = page_number va (omega arith) in let k = page_number va' (omega arith) in omega arith

eq-same_page : (va va' : ℕ) → va / 4096 ≡ va' / 4096 → same_page va va' ≡ true
eq-same_page va va' e =
    let e1 : va / 2 ^ 30 ≡ va' / 2 ^ 30 = omega arith in
    let e2 : va / 2 ^ 21 ≡ va' / 2 ^ 21 = omega arith in
    let e3 : va / 2 ^ 12 ≡ va' / 2 ^ 12 = omega arith in
    rw
      (
        eq→== (l1_index va) (l1_index va') (ap (λ x. bit_and x 0x1FF) e1),
        eq→== (l2_index va) (l2_index va') (ap (λ x. bit_and x 0x1FF) e2),
        eq→== (l3_index va) (l3_index va') (ap (λ x. bit_and x 0x1FF) e3),
      )
      refl

-- The frame of the new page, and of the others.
abbrev pub with_frame : ℕ → ℕ → (ℕ → ℕ) → ℕ → ℕ
with_frame top idx frame n = if n == top / 4096 then idx else frame n

module _ {m : Mmu} {top idx : ℕ} {view : View} {frame : ℕ → ℕ} (f : Framed m top view frame)
    (taken : Taken m.pmm idx (alloc_frame m.pmm)) (low : newlib_heap_base ≤ top)
    (whole : top % 4096 ≡ 0) (high : top + 4096 ≤ 2 ^ 39) where
  abbrev pub desc : ℕ
  desc = m.pmm.phys_mem_start + idx * page_size + pte_normal_rw

  abbrev pub frame' : ℕ → ℕ
  frame' = with_frame top idx frame

  frame-old : (n : ℕ) → n * 4096 < top → frame' n ≡ frame n
  frame-old n h = let e = ne→== n (top / 4096) (λ q. omega arith) in rw e refl

  frame-new : (n : ℕ) → n ≡ top / 4096 → frame' n ≡ idx
  frame-new n h = let e = eq→== n (top / 4096) h in rw e refl

  -- Page `n` is an old one, or the new one.
  which : (n : ℕ) → n * 4096 < top + 4096 → (n * 4096 < top) ⊎ (n ≡ top / 4096)
  which n h = elim (Bool-cases (ltb (n * 4096) top)) [
    | inl lt ↦ inl (ltb→lt _ _ lt)
    | inr ge ↦ inr (ground arith)
  ]

  fresh : (n : ℕ) → newlib_heap_base ≤ n * 4096 → n * 4096 < top → frame n ≢ idx
  fresh n lo hi e =
      let (inside, is_used) = f.inside n lo hi in
      let free : used m.pmm (frame n) ≡ false = ap (used m.pmm) e ∙ taken.was_free in
      absurd (ground arith)

  new-mapped :
      (va : ℕ)
      → newlib_heap_base ≤ va
      → va < top + 4096
      → at (update top desc view) va
        ≡ m.pmm.phys_mem_start + frame' (va / 4096) * page_size + pte_normal_rw
  new-mapped va lo hi = elim (Bool-cases (same_page top va)) [
    | inl e ↦
        let n : va / 4096 ≡ top / 4096 = sym (same_page-eq top va (omega arith) (omega arith) e) in
        rw (e, frame-new (va / 4096) n) refl
    | inr e ↦
        let old : va < top = elim (which (va / 4096) (omega arith)) [
          | inl lt ↦ omega arith
          | inr same ↦ let hit = eq-same_page top va (sym same) in absurd (ground arith)
        ] in
        rw (e, frame-old (va / 4096) (omega arith)) (f.mapped va lo old)
  ]

  new-inside :
      (n : ℕ)
      → newlib_heap_base ≤ n * 4096
      → n * 4096 < top + 4096
      → (frame' n < m.pmm.total_frames) × (used (alloc_frame m.pmm).1 (frame' n) ≡ true)
  new-inside n lo hi = elim (which n hi) [
    | inl old ↦
        let (inside, is_used) = f.inside n lo old in
        rw (frame-old n old) (inside, rw (taken.marks (frame n), is_used) refl)
    | inr new ↦
        let here : (idx == idx) ≡ true = eq→== idx idx refl in
        rw (frame-new n new) (taken.in_range, rw (taken.marks idx, here) (ground arith))
  ]

  new-own :
      (n k : ℕ)
      → newlib_heap_base ≤ n * 4096
      → newlib_heap_base ≤ k * 4096
      → n * 4096 < top + 4096
      → k * 4096 < top + 4096
      → frame' n ≡ frame' k
      → n ≡ k
  new-own n k lo lo' hi hi' e = elim (which n hi) [
    | inl old ↦ elim (which k hi') [
      | inl old' ↦ f.own n k lo lo' old old' (sym (frame-old n old) ∙ e ∙ frame-old k old')
      | inr new' ↦ absurd (fresh n lo old (sym (frame-old n old) ∙ e ∙ frame-new k new'))
    ]
    | inr new ↦ elim (which k hi') [
      | inl old' ↦ absurd (fresh k lo' old' (sym (frame-old k old') ∙ sym e ∙ frame-new n new))
      | inr new' ↦ new ∙ sym new'
    ]
  ]

  -- The heap with one more page.
  pub new-Framed :
      (m' : Mmu)
      → Keeps (alloc_frame m.pmm).1 m'.pmm
      → Framed m' (top + 4096) (update top desc view) frame'
  new-Framed m' k =
      let start : m'.pmm.phys_mem_start ≡ m.pmm.phys_mem_start = k.start ∙ taken.start in
      let total : m'.pmm.total_frames ≡ m.pmm.total_frames = k.total ∙ taken.total in
      record {
        mapped = λ va lo hi. rw start (new-mapped va lo hi);
        inside = λ n lo hi.
            let (inside, is_used) = new-inside n lo hi in
            (rw total inside, k.held (frame' n) is_used);
        own = new-own;
      }
