-- ===== src/Mmu/Fresh.antt =====
-- A table that `_get_or_alloc_table` allocates joins the tree and maps nothing yet.
use raspberry_pi_gaming_cons.Common.{
  ℕ, ◌+◌, ◌<◌, ◌≡◌, refl, ◌≢◌, ◌⊎◌, inl, inr, true, false, ◌==◌, ◌&&◌, ltb, if◌then◌else◌,
  Bool-cases, arith, ne→==, eq→==, ==→eq, ap, ap₂, subst, sym, ◌∙◌, bit_and, bit_or,
}
use raspberry_pi_gaming_cons.Pmm.{alloc_frame}
use raspberry_pi_gaming_cons.Pmm.Valid.{used}
use raspberry_pi_gaming_cons.Pmm.Alloc.{Taken, alloc_frame_lem}
use raspberry_pi_gaming_cons.Mmu.{Mmu, store, clear_table, get_or_alloc_table}
use raspberry_pi_gaming_cons.Mmu.Descriptors.{alloc_frame-page, descriptor-valid}
use raspberry_pi_gaming_cons.Mmu.Tree.{
  Plan, Owned, Child, Entry, IsTree, Walk, Stops, leaf, leaf-Walk, leaf-Stops, Walk-or-Stops,
  Walk-level, Child-ne_zero, Child-next,
}

-- The plan with table `c` added at entry `i` of table `t`.
abbrev pub add_table : Plan → ℕ → ℕ → ℕ → Plan
add_table g t i c = record {
  level = λ x. if x == c then g.level t + 1 else g.level x;
  parent = λ x. if x == c then t else g.parent x;
  place = λ x. if x == c then i else g.place x;
}

module _ {m : Mmu} {g : Plan} (tree : IsTree m g) {t i idx : ℕ} (up : 0 < g.level t)
    (not_last : g.level t < 3) (small : i < 512) (missing : m.tables t i ≡ 0)
    (taken : Taken m.pmm idx (alloc_frame m.pmm)) where
  abbrev c : ℕ
  c = (alloc_frame m.pmm).0

  abbrev plan : Plan
  plan = add_table g t i c

  abbrev grown : Mmu
  grown = store t i (bit_or c 3) (clear_table c (record m { pmm = (alloc_frame m.pmm).1 }))

  -- The new table was no table before.
  c-new : g.level c ≡ 0
  c-new = elim (Bool-cases (g.level c == 0)) [
    | inl e ↦ ==→eq _ _ e
    | inr ne ↦
        let (j, inside, at, is_used) = tree.owned c (ground arith) in
        let same : j ≡ idx = omega (arith, taken.result) in
        let free : used m.pmm j ≡ false = ap (used m.pmm) same ∙ taken.was_free in
        absurd (ground arith)
  ]

  table-ne : (x : ℕ) → 0 < g.level x → x ≢ c
  table-ne x h e = let same = ap g.level e in omega (arith, c-new)

  level-old : (x : ℕ) → 0 < g.level x → plan.level x ≡ g.level x
  level-old x h = let e = ne→== x c (table-ne x h) in rw e refl

  -- A descriptor that is not the new one, in a table of the tree, is as before.
  tables-old :
      (x j : ℕ) → 0 < g.level x → (x == t && j == i) ≡ false → grown.tables x j ≡ m.tables x j
  tables-old x j h off = let e = ne→== x c (table-ne x h) in rw (off, e) refl

  tables-new : (j : ℕ) → j < 512 → grown.tables c j ≡ 0
  tables-new j h =
      let e : (c == t) ≡ false = ne→== c t (λ q. table-ne t up (sym q)) in
      let inside : ltb j 512 ≡ true = ground arith in rw (e, eq→== c c refl, inside) refl

  added : Child grown plan t i c
  added =
      let (al, lo) = alloc_frame-page m.pmm tree.valid in
      record {
        desc = rw (eq→== t t refl, eq→== i i refl) refl;
        aligned = al;
        low = lo;
        below = rw (level-old t up, eq→== c c refl) refl;
        parent = rw (eq→== c c refl) refl;
        place = rw (eq→== c c refl) refl;
      }

  Child-grown : {x j y : ℕ} → 0 < g.level x → Child m g x j y → Child grown plan x j y
  Child-grown {x} {j} {y} h k = record {
    desc = tables-old x j h off ∙ k.desc;
    aligned = k.aligned;
    low = k.low;
    below = rw (level-old x h, level-old y (omega (arith, k.below))) k.below;
    parent = rw other k.parent;
    place = rw other k.place;
  }
    where
      other : (y == c) ≡ false
      other = ne→== y c (table-ne y (omega (arith, k.below)))

      off : (x == t && j == i) ≡ false
      off = elim (Bool-cases (x == t && j == i)) [
        | inr q ↦ q
        | inl q ↦
            let ex : x ≡ t = ground arith in
            let ej : j ≡ i = ground arith in
            absurd (Child-ne_zero k (ap₂ (λ a b. m.tables a b) ex ej ∙ missing))
      ]

  Entry-grown : (x j : ℕ) → 0 < plan.level x → plan.level x < 3 → j < 512 → Entry grown plan x j
  Entry-grown x j lo hi small_j = elim (Bool-cases (x == c)) [
    | inl e ↦
        let q : x ≡ c = ==→eq _ _ e in inl (ap (λ a. grown.tables a j) q ∙ tables-new j small_j)
    | inr ne ↦
        let same : plan.level x ≡ g.level x = rw ne refl in
        let lo' : 0 < g.level x = omega (arith, same) in
        elim (Bool-cases (x == t && j == i)) [
          | inl e ↦
              let ex : t ≡ x = ground arith in
              let ej : i ≡ j = ground arith in
              inr (
                c,
                subst (λ a. Child grown plan a j c) ex
                    (subst (λ b. Child grown plan t b c) ej added),
              )
          | inr off ↦ elim (tree.entry x j lo' (omega (arith, same)) small_j) [
            | inl z ↦ inl (tables-old x j lo' off ∙ z)
            | inr (y, k) ↦ inr (y, Child-grown lo' k)
          ]
        ]
  ]

  Owned-grown : (x : ℕ) → 0 < plan.level x → Owned grown.pmm x
  Owned-grown x h = elim (Bool-cases (x == c)) [
    | inl e ↦ (
      idx,
      omega (arith, taken.in_range, taken.total),
      omega (arith, taken.result, taken.start, ==→eq _ _ e),
      rw (taken.marks idx, eq→== idx idx refl) (ground arith),
    )
    | inr ne ↦
        let same : plan.level x ≡ g.level x = rw ne refl in
        let (j, inside, at, is_used) = tree.owned x (omega (arith, same)) in
        (
          j,
          omega (arith, taken.total),
          omega (arith, taken.start),
          rw (taken.marks j, is_used) refl,
        )
  ]

  pub grown-IsTree : IsTree grown plan
  grown-IsTree = record {
    valid = taken.valid;
    root = level-old m.l1_table (omega (arith, tree.root)) ∙ tree.root;
    entry = Entry-grown;
    owned = Owned-grown;
  }

  Walk-grown : {a b x : ℕ} → Walk m g a b x → Walk grown plan a b x
  Walk-grown w = record {
    mid = w.mid;
    up = Child-grown (omega (arith, tree.root)) w.up;
    down = Child-grown (omega (arith, w.up.below)) w.down;
  }

  -- Where a walk stopped, it now stops at the same descriptor or finds the new table, which is empty.
  leaf-grown-Stops : (a b k : ℕ) → b < 512 → k < 512 → Stops m g a b → leaf grown a b k ≡ 0
  leaf-grown-Stops a b k hb hk (inl e) = elim (Bool-cases (m.l1_table == t && a == i)) [
    | inl q ↦
        let et : t ≡ m.l1_table = ground arith in
        let ei : i ≡ a = ground arith in
        let first : Child grown plan m.l1_table a c =
          subst (λ x. Child grown plan x a c) et (subst (λ j. Child grown plan t j c) ei added) in
        leaf-Stops {m = grown} {g = plan} a b k (inr (c, first, tables-new b hb))
    | inr off ↦
        leaf-Stops {m = grown} {g = plan} a b k
          (inl (tables-old m.l1_table a (omega (arith, tree.root)) off ∙ e))
  ]
  leaf-grown-Stops a b k hb hk (inr (mid, up1, e)) =
      let first = Child-grown (omega (arith, tree.root)) up1 in
      elim (Bool-cases (mid == t && b == i)) [
        | inl q ↦
            let et : t ≡ mid = ground arith in
            let ei : i ≡ b = ground arith in
            let second : Child grown plan mid b c =
              subst (λ x. Child grown plan x b c) et
                (subst (λ j. Child grown plan t j c) ei added) in
            leaf-Walk k (record { mid = mid; up = first; down = second }) ∙ tables-new k hk
        | inr off ↦
            leaf-Stops {m = grown} {g = plan} a b k
              (inr (mid, first, tables-old mid b (omega (arith, up1.below)) off ∙ e))
      ]

  -- No page maps to anything else than before.
  pub leaf-grown : (a b k : ℕ) → a < 512 → b < 512 → k < 512 → leaf grown a b k ≡ leaf m a b k
  leaf-grown a b k ha hb hk = elim (Walk-or-Stops tree a b ha hb) [
    | inr s ↦ leaf-grown-Stops a b k hb hk s ∙ sym (leaf-Stops a b k s)
    | inl (x, w) ↦
        let last = Walk-level tree w in
        let off : (x == t && k == i) ≡ false = elim (Bool-cases (x == t && k == i)) [
          | inr q ↦ q
          | inl q ↦
              let same : x ≡ t = ground arith in let level = ap g.level same in absurd (omega arith)
        ] in
        leaf-Walk k (Walk-grown w) ∙ tables-old x k (omega (arith, last)) off ∙ sym (leaf-Walk k w)
  ]

-- What `_get_or_alloc_table` does to the tree: it fails and changes nothing, or it gives the table that
-- the entry leads to, in a tree that holds the old one and maps the same pages.
pub record Got (m : Mmu) (g : Plan) (t i : ℕ) (r : ℕ × Mmu) : Type 0 where
  pub plan : Plan
  pub tree : IsTree (r.1) plan
  pub child : Child (r.1) plan t i (r.0)
  pub kept : (x j y : ℕ) → 0 < g.level x → Child m g x j y → Child (r.1) plan x j y
  pub same_root : r.1.l1_table ≡ m.l1_table
  pub same_leaf : (a b k : ℕ) → a < 512 → b < 512 → k < 512 → leaf (r.1) a b k ≡ leaf m a b k

pub get_or_alloc_table-Got :
    {m : Mmu} {g : Plan} (t i : ℕ)
    → IsTree m g
    → 0 < g.level t
    → g.level t < 3
    → i < 512
    → (get_or_alloc_table t i m ≡ (0, m)) ⊎ Got m g t i (get_or_alloc_table t i m)
unfolding get_or_alloc_table
get_or_alloc_table-Got {m} {g} t i tree up not_last small =
    elim (tree.entry t i up not_last small) [
      | inr (x, k) ↦
          let set : (bit_and (m.tables t i) 1 == 0) ≡ false =
            rw k.desc (descriptor-valid x k.aligned k.low) in
          rw set (
            inr (record {
              plan = g;
              tree = tree;
              child = rw (Child-next k) k;
              kept = λ x j y h q. q;
              same_root = refl;
              same_leaf = λ a b k ha hb hk. refl;
            }))
      | inl z ↦
          let clear : (bit_and (m.tables t i) 1 == 0) ≡ true = rw z refl in
          rw clear (elim (alloc_frame_lem m.pmm tree.valid) [
            | inr none_left ↦ rw none_left.result (inl refl)
            | inl (idx, taken) ↦
                let one : ((alloc_frame m.pmm).0 == 0) ≡ false =
                  ne→== _ _ (λ q. omega (arith, taken.result, tree.valid.positive)) in
                rw one (
                  inr (record {
                    plan = plan tree up not_last small z taken;
                    tree = grown-IsTree tree up not_last small z taken;
                    child = added tree up not_last small z taken;
                    kept = λ x j y h k. Child-grown tree up not_last small z taken h k;
                    same_root = refl;
                    same_leaf = leaf-grown tree up not_last small z taken;
                  }))
          ])
    ]
