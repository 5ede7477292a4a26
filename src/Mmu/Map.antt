-- ===== src/Mmu/Map.antt =====
-- `map` as an update of an abstract map from pages to descriptors.
use raspberry_pi_gaming_cons.Common.{
  ℕ, ◌/◌, ◌^◌, ◌<◌, ◌≡◌, refl, ◌≢◌, inl, inr, Bool, true, false, ◌==◌, ◌&&◌, if◌then◌else◌, arith,
  ne→==, ap, sym, ◌∙◌, subst, bit_or,
}
use raspberry_pi_gaming_cons.Common.Fields.{bit_and_mask}
use raspberry_pi_gaming_cons.Mmu.{
  Mmu, l1_index, l2_index, l3_index, store, get_or_alloc_table, map_page,
}
use raspberry_pi_gaming_cons.Mmu.Tree.{Plan, Child, IsTree, Walk, leaf, Walk-level}
use raspberry_pi_gaming_cons.Mmu.Pages.{store-IsTree, leaf-store}
use raspberry_pi_gaming_cons.Mmu.Fresh.{Got, get_or_alloc_table-Got}

-- An abstract map gives each page, by its three indices, its descriptor, or 0.
abbrev pub View : Type 0
View = ℕ → ℕ → ℕ → ℕ

-- The page of a virtual address gets a descriptor.
abbrev pub update : ℕ → ℕ → View → View
update va desc view a b c =
    if (l1_index va == a && l2_index va == b) && l3_index va == c then desc else view a b c

-- Both give every page the same descriptor.
abbrev pub Agree : View → View → Type 0
Agree v w = (a b c : ℕ) → a < 512 → b < 512 → c < 512 → v a b c ≡ w a b c

-- The state of the page tables implements an abstract map.
pub record Implements (m : Mmu) (view : View) : Type 0 where
  pub plan : Plan
  pub tree : IsTree m plan
  pub agree : Agree (leaf m) view

pub l1_index-lt : (va : ℕ) → va < 2 ^ 64 → l1_index va < 512
l1_index-lt va h = omega (arith, bit_and_mask 9 64 (va / 2 ^ 30) (omega arith))

pub l2_index-lt : (va : ℕ) → va < 2 ^ 64 → l2_index va < 512
l2_index-lt va h = omega (arith, bit_and_mask 9 64 (va / 2 ^ 21) (omega arith))

pub l3_index-lt : (va : ℕ) → va < 2 ^ 64 → l3_index va < 512
l3_index-lt va h = omega (arith, bit_and_mask 9 64 (va / 2 ^ 12) (omega arith))

-- A page is mapped, or the state implements what it did.
abbrev pub Mapped : ℕ → ℕ → View → Bool × Mmu → Type 0
Mapped va desc view (true, m) = Implements m (update va desc view)
Mapped va desc view (false, m) = Implements m view

-- No table is at address 0.
pub table-ne_zero : {m : Mmu} {g : Plan} → IsTree m g → (t : ℕ) → 0 < g.level t → t ≢ 0
table-ne_zero tree t h e =
    let (idx, inside, at, in_use) = tree.owned t h in omega (arith, tree.valid.positive)

module _ {m : Mmu} {view : View} (va phys flags : ℕ) (h : va < 2 ^ 64)
    (imp : Implements m view) where
  abbrev r2 : ℕ × Mmu
  r2 = get_or_alloc_table m.l1_table (l1_index va) m

  abbrev r3 : ℕ × Mmu
  r3 = get_or_alloc_table (r2.0) (l2_index va) (r2.1)

  abbrev desc : ℕ
  desc = bit_or (bit_or phys flags) 3

  module _ (got : Got m imp.plan m.l1_table (l1_index va) r2) where
    mid-level : got.plan.level (r2.0) ≡ 2
    mid-level =
        let same = ap got.plan.level got.same_root in
        omega (arith, got.child.below, got.tree.root, same)

    mid-ne_zero : r2.0 ≢ 0
    mid-ne_zero = table-ne_zero got.tree (r2.0) (omega (arith, mid-level))

    stopped : Implements (r2.1) view
    stopped = record {
      plan = got.plan;
      tree = got.tree;
      agree = λ a b c ha hb hc. got.same_leaf a b c ha hb hc ∙ imp.agree a b c ha hb hc;
    }

    module _ (last : Got (r2.1) got.plan (r2.0) (l2_index va) r3) where
      root_same : r3.1.l1_table ≡ m.l1_table
      root_same = last.same_root ∙ got.same_root

      last-ne_zero : r3.0 ≢ 0
      last-ne_zero = table-ne_zero last.tree (r3.0) (omega (arith, last.child.below))

      walk : Walk (r3.1) last.plan (l1_index va) (l2_index va) (r3.0)
      walk = record {
        mid = r2.0;
        up =
            subst (λ t. Child (r3.1) last.plan t (l1_index va) (r2.0)) (sym root_same)
              (last.kept m.l1_table (l1_index va) (r2.0) (omega (arith, got.child.below, mid-level))
                got.child);
        down = last.child;
      }

      stored : Implements (store (r3.0) (l3_index va) desc (r3.1)) (update va desc view)
      stored = record {
        plan = last.plan;
        tree = store-IsTree last.tree (r3.0) (l3_index va) desc (Walk-level last.tree walk);
        agree = λ a b c ha hb hc.
            rw
              (
                leaf-store last.tree (r3.0) (l3_index va) desc (Walk-level last.tree walk) a b c
                    walk ha hb,
                last.same_leaf a b c ha hb hc,
                stopped.agree a b c ha hb hc,
              )
              refl;
      }

pub map_page-Mapped :
    {m : Mmu} {view : View} (va phys flags : ℕ)
    → va < 2 ^ 64
    → Implements m view
    → Mapped va (bit_or (bit_or phys flags) 3) view (map_page va phys flags m)
unfolding map_page
map_page-Mapped {m} {view} va phys flags h imp =
    elim (get_or_alloc_table-Got m.l1_table (l1_index va) imp.tree (omega (arith, imp.tree.root))
      (omega (arith, imp.tree.root)) (l1_index-lt va h)) [
        | inl none_left ↦ rw none_left imp
        | inr got ↦
            let level = mid-level va phys flags h imp got in
            rw (ne→== _ 0 (mid-ne_zero va phys flags h imp got))
              (elim (get_or_alloc_table-Got (get_or_alloc_table m.l1_table (l1_index va) m).0
                (l2_index va) got.tree (omega (arith, level)) (omega (arith, level))
                (l2_index-lt va h)) [
                  | inl none_left ↦ rw none_left (stopped va phys flags h imp got)
                  | inr last ↦
                      rw (ne→== _ 0 (last-ne_zero va phys flags h imp got last))
                        (stored va phys flags h imp got last)
                ])
      ]
