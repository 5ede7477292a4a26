-- ===== src/Mmu/Frames.antt =====
-- The frame allocator behind the page tables: what `alloc_frame` and `map` leave in use.
use raspberry_pi_gaming_cons.Common.{
  ℕ, ◌+◌, ◌≡◌, refl, inl, inr, true, ◌==◌, bit_and, Bool-cases, arith, ◌∙◌,
}
use raspberry_pi_gaming_cons.Common.Words.{u64}
use raspberry_pi_gaming_cons.Pmm.{Pmm, page_size, alloc_frame}
use raspberry_pi_gaming_cons.Pmm.Valid.{used, IsValid}
use raspberry_pi_gaming_cons.Pmm.Alloc.{Taken, alloc_frame_lem}
use raspberry_pi_gaming_cons.Pmm.Runs.{RunTaken}
use raspberry_pi_gaming_cons.Mmu.{
  Mmu, l1_index, l2_index, get_or_alloc_table, map_page, map_from, map_range,
}
use raspberry_pi_gaming_cons.Mmu.Tree.{Plan, Child}
use raspberry_pi_gaming_cons.Mmu.Map.{View, Implements}

-- The same memory is managed, and what was in use still is.
pub record Keeps (p p' : Pmm) : Type 0 where
  pub valid : IsValid p'
  pub start : p'.phys_mem_start ≡ p.phys_mem_start
  pub total : p'.total_frames ≡ p.total_frames
  pub held : (j : ℕ) → used p j ≡ true → used p' j ≡ true

pub Keeps-refl : {p : Pmm} → IsValid p → Keeps p p
Keeps-refl v = record { valid = v; start = refl; total = refl; held = λ j h. h }

pub Keeps-trans : {a b c : Pmm} → Keeps a b → Keeps b c → Keeps a c
Keeps-trans x y = record {
  valid = y.valid;
  start = y.start ∙ x.start;
  total = y.total ∙ x.total;
  held = λ j h. y.held j (x.held j h);
}

pub RunTaken-Keeps : {p : Pmm} {count s : ℕ} {r : ℕ × Pmm} → RunTaken p count s r → Keeps p r.1
RunTaken-Keeps t = record {
  valid = t.valid;
  start = t.start;
  total = t.total;
  held = λ j h. rw (t.marks j, h) refl;
}

pub Taken-Keeps : {p : Pmm} {idx : ℕ} {r : ℕ × Pmm} → Taken p idx r → Keeps p r.1
Taken-Keeps t = record {
  valid = t.valid;
  start = t.start;
  total = t.total;
  held = λ j h. rw (t.marks j, h) refl;
}

alloc_frame-Keeps : (p : Pmm) → IsValid p → Keeps p (alloc_frame p).1
alloc_frame-Keeps p v = elim (alloc_frame_lem p v) [
  | inl (idx, taken) ↦ Taken-Keeps taken
  | inr full ↦ rw full.result (Keeps-refl v)
]

get_or_alloc_table-Keeps :
    (table index : ℕ) (m : Mmu)
    → IsValid m.pmm
    → Keeps m.pmm (get_or_alloc_table table index m).1.pmm
unfolding get_or_alloc_table
get_or_alloc_table-Keeps table index m v =
    elim (Bool-cases (bit_and (m.tables table index) 1 == 0)) [
      | inr there ↦ rw there (Keeps-refl v)
      | inl missing ↦ rw missing (elim (Bool-cases ((alloc_frame m.pmm).0 == 0)) [
        | inl none_left ↦ rw none_left (alloc_frame-Keeps m.pmm v)
        | inr one ↦ rw one (alloc_frame-Keeps m.pmm v)
      ])
    ]

map_page-Keeps :
    (va phys flags : ℕ) (m : Mmu) → IsValid m.pmm → Keeps m.pmm (map_page va phys flags m).1.pmm
unfolding map_page
map_page-Keeps va phys flags m v =
    let r2 = get_or_alloc_table m.l1_table (l1_index va) m in
    let k2 = get_or_alloc_table-Keeps m.l1_table (l1_index va) m v in
    let k3 = get_or_alloc_table-Keeps r2.0 (l2_index va) r2.1 k2.valid in
    elim (Bool-cases (r2.0 == 0)) [
      | inl no_table ↦ rw no_table k2
      | inr table ↦
          rw table (elim (Bool-cases ((get_or_alloc_table r2.0 (l2_index va) r2.1).0 == 0)) [
            | inl no_table ↦ rw no_table (Keeps-trans k2 k3)
            | inr table' ↦ rw table' (Keeps-trans k2 k3)
          ])
    ]

-- A page that is mapped, by `map` of one page, takes frames for tables only.
pub map_range-Keeps :
    (va phys flags : ℕ) (m : Mmu)
    → IsValid m.pmm
    → (map_range va phys page_size flags m).0 ≡ true
    → Keeps m.pmm (map_range va phys page_size flags m).1.pmm
unfolding map_range map_from
map_range-Keeps va phys flags m v =
    let keeps = map_page-Keeps (u64 (va + 0)) (u64 (phys + 0)) flags m v in
    elim (Bool-cases (map_page (u64 (va + 0)) (u64 (phys + 0)) flags m).0) [
      | inl mapped ↦ rw mapped (λ e. keeps)
      | inr failed ↦ rw failed (λ e. cc)
    ]

Child-pmm :
    {m : Mmu} {g : Plan} {t i c : ℕ} (p : Pmm)
    → Child m g t i c
    → Child (record m { pmm = p }) g t i c
Child-pmm p k = record {
  desc = k.desc;
  aligned = k.aligned;
  low = k.low;
  below = k.below;
  parent = k.parent;
  place = k.place;
}

-- With more frames in use, the tables are the same map.
pub Implements-Keeps :
    {m : Mmu} {view : View} (p : Pmm)
    → Keeps m.pmm p
    → Implements m view
    → Implements (record m { pmm = p }) view
Implements-Keeps {m} p k imp = record {
  plan = imp.plan;
  tree = record {
    valid = k.valid;
    root = imp.tree.root;
    entry = λ t i up low small. elim (imp.tree.entry t i up low small) [
      | inl e ↦ inl e
      | inr (c, child) ↦ inr (c, Child-pmm p child)
    ];
    owned = λ t up.
        let (idx, inside, at, is_used) = imp.tree.owned t up in
        (idx, omega (arith, k.total), omega (arith, k.start), k.held idx is_used);
  };
  agree = imp.agree;
}
