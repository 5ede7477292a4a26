-- ===== src/Mmu/Pages.antt =====
-- A write of a page descriptor changes what one page maps to, and nothing else.
use raspberry_pi_gaming_cons.Common.{
  ℕ, ◌<◌, ◌≡◌, refl, ◌≢◌, inl, inr, false, ◌==◌, ◌&&◌, if◌then◌else◌, Bool-cases, arith, ne→==, ap,
  subst, ◌∙◌,
}
use raspberry_pi_gaming_cons.Mmu.{Mmu, store}
use raspberry_pi_gaming_cons.Mmu.Tree.{
  Plan, Child, IsTree, Walk, Stops, leaf, leaf-Walk, leaf-Stops, Walk-or-Stops, Walk-unique,
  Walk-not-Stops,
}

-- A store to a table of another level leaves a descriptor alone.
pub store-other :
    (m : Mmu) (t i t' i' v : ℕ) → t' ≢ t → (store t i v m).tables t' i' ≡ m.tables t' i'
store-other m t i t' i' v ne = let e = ne→== t' t ne in rw e refl

module _ {m : Mmu} {g : Plan} (tree : IsTree m g) (t3 c v : ℕ) (last : g.level t3 ≡ 3) where
  pub store-Child : {t i x : ℕ} → g.level t < 3 → Child m g t i x → Child (store t3 c v m) g t i x
  store-Child {t} {i} up k = record {
    desc = store-other m t3 c t i v (λ e. ne e) ∙ k.desc;
    aligned = k.aligned;
    low = k.low;
    below = k.below;
    parent = k.parent;
    place = k.place;
  }
    where
      ne : t ≢ t3
      ne e = let same = ap g.level e in omega (arith, same)

  store-zero : (t i : ℕ) → g.level t < 3 → m.tables t i ≡ 0 → (store t3 c v m).tables t i ≡ 0
  store-zero t i up e =
      store-other m t3 c t i v (λ q. let same = ap g.level q in omega (arith, same)) ∙ e

  -- The tree is as before.
  pub store-IsTree : IsTree (store t3 c v m) g
  store-IsTree = record {
    valid = tree.valid;
    root = tree.root;
    entry = λ t i lo hi hi2. elim (tree.entry t i lo hi hi2) [
      | inl e ↦ inl (store-zero t i hi e)
      | inr (x, k) ↦ inr (x, store-Child hi k)
    ];
    owned = tree.owned;
  }

  store-Walk : {a b x : ℕ} → Walk m g a b x → Walk (store t3 c v m) g a b x
  store-Walk w = record {
    mid = w.mid;
    up = store-Child (omega (arith, tree.root)) w.up;
    down = store-Child (omega (arith, tree.root, w.up.below)) w.down;
  }

  store-Stops : (a b : ℕ) → Stops m g a b → Stops (store t3 c v m) g a b
  store-Stops a b (inl e) = inl (store-zero m.l1_table a (omega (arith, tree.root)) e)
  store-Stops a b (inr (mid, k, e)) = inr (
    mid,
    store-Child (omega (arith, tree.root)) k,
    store-zero mid b (omega (arith, tree.root, k.below)) e,
  )

  -- Of the page whose table this is, the descriptor is the new one; of every other it is as before.
  pub leaf-store :
      {a b : ℕ} (a' b' c' : ℕ)
      → Walk m g a b t3
      → a' < 512
      → b' < 512
      → leaf (store t3 c v m) a' b' c'
        ≡ (if (a == a' && b == b') && c == c' then v else leaf m a' b' c')
  leaf-store {a} {b} a' b' c' w ha hb = elim (Walk-or-Stops tree a' b' ha hb) [
    | inl (x, w') ↦
        rw (leaf-Walk c' (store-Walk w'), leaf-Walk c' w', ← Walk-unique w w') (ground arith)
    | inr s ↦
        let off : (a == a' && b == b') ≡ false = elim (Bool-cases (a == a' && b == b')) [
          | inr other ↦ other
          | inl e ↦
              let ea : a ≡ a' = ground arith in
              let eb : b' ≡ b = ground arith in
              absurd (
                Walk-not-Stops (subst (λ i. Walk m g i b t3) ea w)
                  (subst (λ j. Stops m g a' j) eb s))
        ] in
        rw (leaf-Stops a' b' c' (store-Stops a' b' s), leaf-Stops a' b' c' s, off) refl
  ]
