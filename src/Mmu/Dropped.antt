-- ===== src/Mmu/Dropped.antt =====
-- A table that `_unmap_locked` found empty leaves the tree.
use raspberry_pi_gaming_cons.Common.{
  ℕ, ◌<◌, ◌≡◌, refl, ◌≢◌, inl, inr, true, false, ◌==◌, ◌&&◌, if◌then◌else◌, Bool-cases, arith,
  ne→==, ==→eq, ==→ne, ap, ap₂, subst, sym, ◌∙◌, all_below_sound, bit_and,
}
use raspberry_pi_gaming_cons.Pmm.{free_frame}
use raspberry_pi_gaming_cons.Pmm.Free.{
  IsFrame, index_of, used-free_frame, free_frame-IsValid, free_frame-range,
}
use raspberry_pi_gaming_cons.Mmu.{Mmu, addr_mask, store, table_is_empty, drop_if_empty}
use raspberry_pi_gaming_cons.Mmu.Tree.{
  Plan, Owned, Child, Entry, IsTree, leaf, leaf-Walk, leaf-Stops, Walk-or-Stops, Walk-level,
  Child-ne_zero, Child-next,
}

-- The plan without table `c`.
abbrev pub drop_table : Plan → ℕ → Plan
drop_table g c = record g { level = λ x. if x == c then 0 else g.level x }

module _ {m : Mmu} {g : Plan} (tree : IsTree m g) {t i c : ℕ} (up : 0 < g.level t)
    (not_last : g.level t < 3) (link : Child m g t i c) (empty : table_is_empty c m ≡ true) where
  abbrev plan : Plan
  plan = drop_table g c

  abbrev freed : Mmu
  freed = record (store t i 0 m) { pmm = free_frame c m.pmm }

  empty-tables : (j : ℕ) → j < 512 → m.tables c j ≡ 0
  empty-tables j h = ==→eq _ _ (all_below_sound 512 (λ k. m.tables c k == 0) j empty h)

  c-IsFrame : IsFrame m.pmm c
  c-IsFrame =
      let (idx, inside, at, in_use) = tree.owned c (omega (arith, link.below)) in
      omega (arith, tree.valid.aligned)

  level-kept : (x : ℕ) → x ≢ c → plan.level x ≡ g.level x
  level-kept x ne = rw (ne→== x c ne) refl

  level-old : (x : ℕ) → 0 < plan.level x → (x ≢ c) × (g.level x ≡ plan.level x)
  level-old x h = elim (Bool-cases (x == c)) [
    | inl e ↦ absurd (ground arith)
    | inr ne ↦ (==→ne x c ne, rw ne refl)
  ]

  upper-ne : (x : ℕ) → g.level x ≡ g.level t → x ≢ c
  upper-ne x h e = let same = ap g.level e in omega (arith, link.below)

  tables-kept : (x j : ℕ) → (x == t && j == i) ≡ false → freed.tables x j ≡ m.tables x j
  tables-kept x j off = rw off refl

  tables-zero : (x j : ℕ) → m.tables x j ≡ 0 → freed.tables x j ≡ 0
  tables-zero x j e = elim (Bool-cases (x == t && j == i)) [ inl q ↦ rw q refl | inr q ↦ rw q e ]

  -- A link to a table that is still there.
  Child-freed :
      {x j y : ℕ} → 0 < g.level x → x ≢ c → y ≢ c → Child m g x j y → Child freed plan x j y
  Child-freed {x} {j} {y} h nx ny k = record {
    desc = tables-kept x j off ∙ k.desc;
    aligned = k.aligned;
    low = k.low;
    below = rw (level-kept x nx, level-kept y ny) k.below;
    parent = k.parent;
    place = k.place;
  }
    where
      off : (x == t && j == i) ≡ false
      off = elim (Bool-cases (x == t && j == i)) [
        | inr q ↦ q
        | inl q ↦
            let ex : x ≡ t = ground arith in
            let ej : j ≡ i = ground arith in
            absurd (
              ny (
                sym (Child-next k)
                ∙ ap₂ (λ a b. bit_and (m.tables a b) addr_mask) ex ej
                ∙ Child-next link))
      ]

  -- The table that a link leads to is the empty one only for the link that goes.
  link_unique : {x j : ℕ} → Child m g x j c → (x == t && j == i) ≡ true
  link_unique {x} {j} k =
      let ex : x ≡ t = sym k.parent ∙ link.parent in
      let ej : j ≡ i = sym k.place ∙ link.place in ground arith

  Entry-freed : (x j : ℕ) → 0 < plan.level x → plan.level x < 3 → j < 512 → Entry freed plan x j
  Entry-freed x j lo hi small =
      let (nx, same) = level-old x lo in
      elim (Bool-cases (x == t && j == i)) [
        | inl q ↦ inl (rw q refl)
        | inr off ↦ elim (tree.entry x j (omega (arith, same)) (omega (arith, same)) small) [
          | inl z ↦ inl (tables-zero x j z)
          | inr (y, k) ↦
              let ny : y ≢ c = λ e.
                let at = link_unique (subst (λ z. Child m g x j z) e k) in absurd (ground arith) in
              inr (y, Child-freed (omega (arith, same)) nx ny k)
        ]
      ]

  Owned-freed : (x : ℕ) → 0 < plan.level x → Owned freed.pmm x
  Owned-freed x h =
      let (nx, same) = level-old x h in
      let (j, inside, at, in_use) = tree.owned x (omega (arith, same)) in
      let (start, total) = free_frame-range c m.pmm in
      let other : (index_of m.pmm c == j) ≡ false = elim (Bool-cases (index_of m.pmm c == j)) [
        | inr q ↦ q
        | inl q ↦
            let (idx, inside', at', in_use') = tree.owned c (omega (arith, link.below)) in
            absurd (nx (ground arith))
      ] in
      (
        j,
        omega (arith, total),
        omega (arith, start),
        rw (used-free_frame c j tree.valid c-IsFrame, in_use, other) refl,
      )

  root-ne : m.l1_table ≢ c
  root-ne e = let same = ap g.level e in omega (arith, tree.root, link.below)

  freed-IsTree : IsTree freed plan
  freed-IsTree = record {
    valid = free_frame-IsValid c (omega (arith, link.low)) tree.valid;
    root = rw (level-kept m.l1_table root-ne) tree.root;
    entry = Entry-freed;
    owned = Owned-freed;
  }

  -- A walk that does not end at the empty table gets to the same table; any other page maps nothing,
  -- before and after.
  leaf-freed : (a b k : ℕ) → a < 512 → b < 512 → k < 512 → leaf freed a b k ≡ leaf m a b k
  leaf-freed a b k ha hb hk = elim (Walk-or-Stops tree a b ha hb) [
    | inr (inl e) ↦
        leaf-Stops {m = freed} {g = plan} a b k (inl (tables-zero m.l1_table a e))
        ∙ sym (leaf-Stops {m = m} {g = g} a b k (inl e))
    | inr (inr (mid, first, e)) ↦
        leaf-freed-mid a b k mid first (leaf-Stops a b k (inr (mid, first, e)))
          (tables-zero mid b e)
    | inl (x, w) ↦ elim (Bool-cases (x == c)) [
      | inl q ↦
          let ex : x ≡ c = ==→eq _ _ q in
          let last = link_unique (subst (λ z. Child m g w.mid b z) ex w.down) in
          leaf-freed-mid a b k w.mid w.up
            (leaf-Walk k w ∙ ap (λ z. m.tables z k) ex ∙ empty-tables k hk) (rw last refl)
      | inr q ↦ elim (Bool-cases (w.mid == c)) [
        | inl q2 ↦
            let em : w.mid ≡ c = ==→eq _ _ q2 in
            absurd (Child-ne_zero w.down (ap (λ z. m.tables z b) em ∙ empty-tables b hb))
        | inr q2 ↦
            let first = Child-freed (omega (arith, tree.root)) root-ne (==→ne _ _ q2) w.up in
            let second =
              Child-freed (omega (arith, w.up.below)) (==→ne _ _ q2) (==→ne _ _ q) w.down in
            let off : (x == t && k == i) ≡ false = elim (Bool-cases (x == t && k == i)) [
              | inr z ↦ z
              | inl z ↦
                  let same : x ≡ t = ground arith in
                  let level = ap g.level same in absurd (omega (arith, Walk-level tree w))
            ] in
            leaf-Walk {m = freed} {g = plan} k (record { mid = w.mid; up = first; down = second })
            ∙ tables-kept x k off
            ∙ sym (leaf-Walk k w)
      ]
    ]
  ]
    where
      leaf-freed-mid :
          (a b k mid : ℕ)
          → Child m g m.l1_table a mid
          → leaf m a b k ≡ 0
          → freed.tables mid b ≡ 0
          → leaf freed a b k ≡ leaf m a b k
      leaf-freed-mid a b k mid first before after = elim (Bool-cases (mid == c)) [
        | inl q ↦
            let em : mid ≡ c = ==→eq _ _ q in
            let gone = link_unique (subst (λ z. Child m g m.l1_table a z) em first) in
            leaf-Stops {m = freed} {g = plan} a b k (inl (rw gone refl)) ∙ sym before
        | inr q ↦
            let up' = Child-freed (omega (arith, tree.root)) root-ne (==→ne _ _ q) first in
            leaf-Stops {m = freed} {g = plan} a b k (inr (mid, up', after)) ∙ sym before
      ]

-- What `_unmap_locked` does to the tree when it looks at table `c`: another link stays, and each page
-- maps to what it did.
pub record Kept (m : Mmu) (g : Plan) (c : ℕ) (m' : Mmu) : Type 0 where
  pub plan : Plan
  pub tree : IsTree m' plan
  pub kept : (x j y : ℕ) → 0 < g.level x → x ≢ c → y ≢ c → Child m g x j y → Child m' plan x j y
  pub same_root : m'.l1_table ≡ m.l1_table
  pub same_leaf : (a b k : ℕ) → a < 512 → b < 512 → k < 512 → leaf m' a b k ≡ leaf m a b k

pub drop_if_empty-Kept :
    {m : Mmu} {g : Plan} {t i c : ℕ}
    → IsTree m g
    → 0 < g.level t
    → g.level t < 3
    → Child m g t i c
    → Kept m g c (drop_if_empty c t i m)
drop_if_empty-Kept {m} {g} {t} {i} {c} tree up not_last link =
    elim (Bool-cases (table_is_empty c m)) [
      | inl e ↦ rw e (record {
        plan = drop_table g c;
        tree = freed-IsTree tree up not_last link e;
        kept = λ x j y h nx ny k. Child-freed tree up not_last link e h nx ny k;
        same_root = refl;
        same_leaf = leaf-freed tree up not_last link e;
      })
      | inr e ↦ rw e (record {
        plan = g;
        tree = tree;
        kept = λ x j y h nx ny k. k;
        same_root = refl;
        same_leaf = λ a b k ha hb hk. refl;
      })
    ]
