-- ===== src/Mmu/Unmap.antt =====
-- `unmap` as a run of clearing updates of the abstract map, one for each page it gets to.
use raspberry_pi_gaming_cons.Common.{
  ℕ, zero, suc, ◌+◌, ◌*◌, ◌^◌, ◌≤◌, ◌<◌, ◌≡◌, ◌≢◌, refl, ◌⊎◌, inl, inr, arith, ap, subst, sym, ◌∙◌,
}
use raspberry_pi_gaming_cons.Common.Words.{u64}
use raspberry_pi_gaming_cons.Pmm.{page_size}
use raspberry_pi_gaming_cons.Mmu.{
  Mmu, l1_index, l2_index, l3_index, store, drop_if_empty, unmap_from,
}
use raspberry_pi_gaming_cons.Mmu.Tree.{
  Plan, Walk, Stops, leaf-Stops, Walk-or-Stops, Walk-level, Child-valid, Child-next,
}
use raspberry_pi_gaming_cons.Mmu.Pages.{store-IsTree, store-Child, leaf-store}
use raspberry_pi_gaming_cons.Mmu.Dropped.{Kept, drop_if_empty-Kept}
use raspberry_pi_gaming_cons.Mmu.Map.{
  View, update, Implements, l1_index-lt, l2_index-lt, l3_index-lt,
}

-- Page `i` of the range from `va`.
abbrev pub page : ℕ → ℕ → ℕ
page va i = u64 (va + u64 (i * page_size))

-- The descriptor of the page of an address.
abbrev pub at : View → ℕ → ℕ
at view va = view (l1_index va) (l2_index va) (l3_index va)

-- The map without the `k` pages from page `i` of a range.
abbrev pub cleared : ℕ → ℕ → ℕ → View → View
cleared zero va i view = view
cleared (suc k) va i view = cleared k va (i + 1) (update (page va i) 0 view)

module _ {m : Mmu} {view : View} (va : ℕ) (h : va < 2 ^ 64) (imp : Implements m view) {x : ℕ}
    (w : Walk m imp.plan (l1_index va) (l2_index va) x) where
  abbrev m3 : Mmu
  m3 = store x (l3_index va) 0 m

  abbrev m2 : Mmu
  m2 = drop_if_empty x w.mid (l2_index va) m3

  abbrev m1 : Mmu
  m1 = drop_if_empty w.mid m.l1_table (l1_index va) m2

  level2 : imp.plan.level w.mid ≡ 2
  level2 = omega (arith, w.up.below, imp.tree.root)

  after3 : Kept m3 imp.plan x m2
  after3 =
      drop_if_empty-Kept (store-IsTree imp.tree x (l3_index va) 0 (Walk-level imp.tree w))
        (omega (arith, level2)) (omega (arith, level2))
        (store-Child imp.tree x (l3_index va) 0 (Walk-level imp.tree w) (omega (arith, level2))
          w.down)

  root : after3.plan.level m.l1_table ≡ 1
  root = let same = ap after3.plan.level after3.same_root in omega (arith, after3.tree.root)

  after2 : Kept m2 after3.plan w.mid m1
  after2 = drop_if_empty-Kept after3.tree (omega (arith, root)) (omega (arith, root)) (
      after3.kept m.l1_table (l1_index va) w.mid (omega (arith, imp.tree.root)) root-ne mid-ne (
        store-Child imp.tree x (l3_index va) 0 (Walk-level imp.tree w)
          (omega (arith, imp.tree.root)) w.up))
    where
      root-ne : m.l1_table ≢ x
      root-ne e =
          let same = ap imp.plan.level e in omega (arith, imp.tree.root, Walk-level imp.tree w)

      mid-ne : w.mid ≢ x
      mid-ne e = let same = ap imp.plan.level e in omega (arith, level2, w.down.below)

  -- The body of the loop, at a page that has a table.
  unmap_page-Implements : Implements m1 (update va 0 view)
  unmap_page-Implements = record {
    plan = after2.plan;
    tree = after2.tree;
    agree = λ a b c ha hb hc.
        rw
          (
            after2.same_leaf a b c ha hb hc,
            after3.same_leaf a b c ha hb hc,
            leaf-store imp.tree x (l3_index va) 0 (Walk-level imp.tree w) a b c w ha hb,
            imp.agree a b c ha hb hc,
          )
          refl;
  }

-- How far `_unmap_locked` gets in `rounds` pages from page `i`: it clears the first `count` of them,
-- and stops early only at a page that maps to nothing.
pub record Clears (rounds va i : ℕ) (view : View) (m' : Mmu) : Type 0 where
  pub count : ℕ
  pub within : count ≤ rounds
  pub result : Implements m' (cleared count va i view)
  pub stop : (count ≡ rounds) ⊎ (at (cleared count va i view) (page va (i + count)) ≡ 0)

Clears-suc :
    {rounds va i : ℕ} {view : View} {m' : Mmu}
    → Clears rounds va (i + 1) (update (page va i) 0 view) m'
    → Clears (suc rounds) va i view m'
Clears-suc {rounds} {va} {i} {view} rest = record {
  count = suc rest.count;
  within = omega (arith, rest.within);
  result = rest.result;
  stop = elim rest.stop [
    | inl e ↦ inl (ap suc e)
    | inr e ↦
        let next : i + 1 + rest.count ≡ i + suc rest.count = omega arith in
        inr (
          subst
            (λ j. at (cleared rest.count va (i + 1) (update (page va i) 0 view)) (page va j) ≡ 0)
            next e)
  ];
}

pub +-zero : (i : ℕ) → i + 0 ≡ i
+-zero i = omega arith

-- A page without a table maps to nothing, and the loop ends there.
stopped :
    {m : Mmu} {view : View} (va : ℕ)
    → va < 2 ^ 64
    → (imp : Implements m view) → Stops m imp.plan (l1_index va) (l2_index va)
    → at view va ≡ 0
stopped va h imp stops =
    sym (
      imp.agree (l1_index va) (l2_index va) (l3_index va) (l1_index-lt va h) (l2_index-lt va h)
        (l3_index-lt va h))
    ∙ leaf-Stops (l1_index va) (l2_index va) (l3_index va) stops

unmap_from-Stops :
    {m : Mmu} {g : Plan} (rounds va i : ℕ)
    → Stops m g (l1_index (page va i)) (l2_index (page va i))
    → unmap_from (suc rounds) va i m ≡ m
unfolding unmap_from
unmap_from-Stops rounds va i (inl e) = rw e refl
unmap_from-Stops rounds va i (inr (mid, k, e)) = rw (Child-valid k, Child-next k, e) refl

unmap_from-Walk :
    {m : Mmu} {g : Plan} {x : ℕ} (rounds va i : ℕ)
    → (w : Walk m g (l1_index (page va i)) (l2_index (page va i)) x)
    → unmap_from (suc rounds) va i m
      ≡ unmap_from rounds va (i + 1) (
          drop_if_empty w.mid m.l1_table
            (l1_index (page va i))
            (drop_if_empty x w.mid (l2_index (page va i)) (store x (l3_index (page va i)) 0 m)))
unfolding unmap_from
unmap_from-Walk rounds va i w =
    rw (Child-valid w.up, Child-next w.up, Child-valid w.down, Child-next w.down) refl

unmap_from-zero : {m : Mmu} (va i : ℕ) → unmap_from 0 va i m ≡ m
unfolding unmap_from
unmap_from-zero va i = refl

pub unmap_from-Clears :
    (rounds va i : ℕ) {m : Mmu} {view : View}
    → Implements m view
    → Clears rounds va i view (unmap_from rounds va i m)
unmap_from-Clears zero va i imp =
    rw (unmap_from-zero va i)
      (record { count = 0; within = omega arith; result = imp; stop = inl refl })
unmap_from-Clears (suc rounds) va i {m} {view} imp =
    elim (Walk-or-Stops imp.tree (l1_index (page va i)) (l2_index (page va i))
      (l1_index-lt (page va i) (omega arith)) (l2_index-lt (page va i) (omega arith))) [
        | inr stops ↦ rw (unmap_from-Stops rounds va i stops) (record {
          count = 0;
          within = omega arith;
          result = imp;
          stop = inr (rw (+-zero i) (stopped (page va i) (omega arith) imp stops));
        })
        | inl (x, w) ↦ rw (unmap_from-Walk rounds va i w) (
            Clears-suc (
              unmap_from-Clears rounds va (i + 1)
                (unmap_page-Implements (page va i) (omega arith) imp w)))
      ]
