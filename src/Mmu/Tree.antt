-- ===== src/Mmu/Tree.antt =====
-- The tables as a tree of three levels, and the descriptor that a walk of it ends at.
use raspberry_pi_gaming_cons.Common.{
  ℕ, ◌+◌, ◌*◌, ◌%◌, ◌^◌, ◌<◌, ◌≡◌, refl, ◌≢◌, ◌⊎◌, inl, inr, ap, ap₂, ◌∙◌, sym, bit_and, bit_or,
  true, ◌==◌, ◌&&◌, if◌then◌else◌, Bool-cases, arith, ==→eq, ==→ne,
}
use raspberry_pi_gaming_cons.Pmm.{Pmm, page_size}
use raspberry_pi_gaming_cons.Pmm.Valid.{used, IsValid}
use raspberry_pi_gaming_cons.Mmu.{Mmu, addr_mask, is_valid}
use raspberry_pi_gaming_cons.Mmu.Descriptors.{descriptor, descriptor-child, is_valid-descriptor}

-- What the addresses stand for: the level of the table at an address, 0 for none, and the table and the
-- index of the descriptor that leads to it.
pub record Plan : Type 0 where
  pub level : ℕ → ℕ
  pub parent : ℕ → ℕ
  pub place : ℕ → ℕ

-- The table is a frame that is in use.
abbrev pub Owned : Pmm → ℕ → Type 0
Owned p t =
    (idx : ℕ) × (idx < p.total_frames)
    × (t ≡ p.phys_mem_start + idx * page_size)
    × (used p idx ≡ true)

-- Descriptor `i` of table `t` leads to table `c`.
pub record Child (m : Mmu) (g : Plan) (t i c : ℕ) : Type 0 where
  pub desc : m.tables t i ≡ bit_or c 3
  pub aligned : c % 4096 ≡ 0
  pub low : c < 2 ^ 47
  pub below : g.level c ≡ g.level t + 1
  pub parent : g.parent c ≡ t
  pub place : g.place c ≡ i

abbrev pub Entry : Mmu → Plan → ℕ → ℕ → Type 0
Entry m g t i = (m.tables t i ≡ 0) ⊎ ((c : ℕ) × Child m g t i c)

-- Every descriptor of the upper two levels is 0 or leads to a table of the next level, that no other
-- descriptor leads to; and every table is a frame that the allocator will not hand out.
pub record IsTree (m : Mmu) (g : Plan) : Type 0 where
  pub valid : IsValid m.pmm
  pub root : g.level m.l1_table ≡ 1
  pub entry : (t i : ℕ) → 0 < g.level t → g.level t < 3 → i < 512 → Entry m g t i
  pub owned : (t : ℕ) → 0 < g.level t → Owned m.pmm t

-- The table that a descriptor leads to.
abbrev pub next_table : Mmu → ℕ → ℕ → ℕ
next_table m t i = bit_and (m.tables t i) addr_mask

-- The last descriptor of a walk by the indices `a`, `b` and `c`, or 0 where the walk has no table.
abbrev pub leaf : Mmu → ℕ → ℕ → ℕ → ℕ
leaf m a b c =
    let t2 = next_table m m.l1_table a in
    if is_valid (m.tables m.l1_table a)
    then (if is_valid (m.tables t2 b) then m.tables (next_table m t2 b) c else 0)
    else 0

-- A walk by `a` and `b` gets to table `x`.
pub record Walk (m : Mmu) (g : Plan) (a b x : ℕ) : Type 0 where
  pub mid : ℕ
  pub up : Child m g m.l1_table a mid
  pub down : Child m g mid b x

-- It stops at the first or at the second descriptor.
abbrev pub Stops : Mmu → Plan → ℕ → ℕ → Type 0
Stops m g a b =
    (m.tables m.l1_table a ≡ 0) ⊎ ((mid : ℕ) × Child m g m.l1_table a mid × (m.tables mid b ≡ 0))

pub Child-valid :
    {m : Mmu} {g : Plan} {t i c : ℕ} → Child m g t i c → is_valid (m.tables t i) ≡ true
Child-valid {c} k = rw k.desc (is_valid-descriptor c k.aligned k.low)

pub Child-next : {m : Mmu} {g : Plan} {t i c : ℕ} → Child m g t i c → next_table m t i ≡ c
Child-next {c} k = rw k.desc (descriptor-child c k.aligned k.low)

pub Child-ne_zero : {m : Mmu} {g : Plan} {t i c : ℕ} → Child m g t i c → m.tables t i ≢ 0
Child-ne_zero {c} k e = omega (arith, k.desc, e, descriptor c k.aligned k.low)

pub leaf-Walk :
    {m : Mmu} {g : Plan} {a b x : ℕ} (c : ℕ) → Walk m g a b x → leaf m a b c ≡ m.tables x c
leaf-Walk c w = rw (Child-valid w.up, Child-next w.up, Child-valid w.down, Child-next w.down) refl

pub leaf-Stops : {m : Mmu} {g : Plan} (a b c : ℕ) → Stops m g a b → leaf m a b c ≡ 0
leaf-Stops a b c (inl e) = rw e refl
leaf-Stops a b c (inr (mid, k, e)) = rw (Child-valid k, Child-next k, e) refl

module _ {m : Mmu} {g : Plan} (tree : IsTree m g) where
  pub Walk-or-Stops : (a b : ℕ) → a < 512 → b < 512 → ((x : ℕ) × Walk m g a b x) ⊎ Stops m g a b
  Walk-or-Stops a b ha hb =
      elim (tree.entry m.l1_table a (omega (arith, tree.root)) (omega (arith, tree.root)) ha) [
        | inl e ↦ inr (inl e)
        | inr (mid, up) ↦
            elim (tree.entry mid b (omega (arith, up.below)) (omega (arith, up.below, tree.root))
              hb) [
                | inl e ↦ inr (inr (mid, up, e))
                | inr (x, down) ↦ inl (x, record { mid = mid; up = up; down = down })
              ]
      ]

  pub Walk-level : {a b x : ℕ} → Walk m g a b x → g.level x ≡ 3
  Walk-level w = omega (arith, w.up.below, w.down.below, tree.root)

-- A walk that gets to a table does not stop.
pub Walk-not-Stops : {m : Mmu} {g : Plan} {a b x : ℕ} → Walk m g a b x → ¬ Stops m g a b
Walk-not-Stops w (inl e) = Child-ne_zero w.up e
Walk-not-Stops {m} {b = b} w (inr (mid, k, e)) =
    let same : w.mid ≡ mid = sym (Child-next w.up) ∙ Child-next k in
    Child-ne_zero w.down (ap (λ t. m.tables t b) same ∙ e)

-- Two walks get to the same table just when they go by the same indices.
pub Walk-unique :
    {m : Mmu} {g : Plan} {a b x a' b' x' : ℕ}
    → Walk m g a b x
    → Walk m g a' b' x'
    → (x' == x) ≡ (a == a' && b == b')
Walk-unique {m} {g} {a} {b} {x} {a'} {b'} {x'} w w' = elim (Bool-cases (x' == x)) [
  | inl e ↦
      let same : x' ≡ x = ==→eq _ _ e in
      let eb : b ≡ b' = sym w.down.place ∙ ap g.place (sym same) ∙ w'.down.place in
      let em : w.mid ≡ w'.mid = sym w.down.parent ∙ ap g.parent (sym same) ∙ w'.down.parent in
      let ea : a ≡ a' = sym w.up.place ∙ ap g.place em ∙ w'.up.place in rw e (ground arith)
  | inr ne ↦ elim (Bool-cases (a == a' && b == b')) [
    | inr other ↦ rw (ne, other) refl
    | inl e ↦
        let ea : a ≡ a' = ground arith in
        let eb : b ≡ b' = ground arith in
        let em : w.mid ≡ w'.mid =
          sym (Child-next w.up) ∙ ap (λ i. next_table m m.l1_table i) ea ∙ Child-next w'.up in
        let ex : x ≡ x' =
          sym (Child-next w.down) ∙ ap₂ (λ t i. next_table m t i) em eb ∙ Child-next w'.down in
        absurd (==→ne x' x ne (sym ex))
  ]
]
