-- ===== src/Mmu/Ranges.antt =====
-- `map`, `unmap` and `translate` as operations on an abstract map.
use raspberry_pi_gaming_cons.Common.{
  ℕ, zero, suc, ◌+◌, ◌*◌, ◌/◌, ◌^◌, ◌≤◌, ◌<◌, ◌≡◌, ◌≢◌, refl, inl, inr, Bool, true, false, ◌==◌,
  ◌||◌, if◌then◌else◌, Bool-cases, arith, ==→eq, ==→ne, subst, sym, ◌∙◌, bit_or,
}
use raspberry_pi_gaming_cons.Common.Words.{u64}
use raspberry_pi_gaming_cons.Common.Bits.{bit_or_step}
use raspberry_pi_gaming_cons.Pmm.{page_size}
use raspberry_pi_gaming_cons.Mmu.{
  Mmu, l1_index, l2_index, l3_index, map_page, map_from, unmap_locked,
}
use raspberry_pi_gaming_cons.Mmu.Map.{View, update, Agree, Implements, Mapped, map_page-Mapped}
use raspberry_pi_gaming_cons.Mmu.Unmap.{page, at, cleared, Clears, unmap_from-Clears}
use raspberry_pi_gaming_cons.Mmu.Spans.{
  hits, covered, page_desc, written, cleared-eq, not-covered, covered_self, covered-last,
}

-- A state that implements a map implements every map that agrees with it.
pub Implements-Agree :
    {m : Mmu} {view view' : View} → Implements m view → Agree view view' → Implements m view'
Implements-Agree imp same = record {
  plan = imp.plan;
  tree = imp.tree;
  agree = λ a b c ha hb hc. imp.agree a b c ha hb hc ∙ same a b c ha hb hc;
}

-- The map with `i` pages of a range written: those have a descriptor, and the others are as in `view`.
pub record Partial (i va : ℕ) (view now : View) : Type 0 where
  pub inside : (a b c : ℕ) → covered i va 0 a b c ≡ true → now a b c ≢ 0
  pub outside : (a b c : ℕ) → covered i va 0 a b c ≡ false → now a b c ≡ view a b c

page_desc-ne_zero : (phys flags i : ℕ) → page_desc phys flags i ≢ 0
page_desc-ne_zero phys flags i e =
    omega (arith, e, bit_or_step (bit_or (u64 (phys + u64 (i * page_size))) flags) 3)

or_left : (x y : Bool) {z : Bool} → y ≡ false → (x || y) ≡ z → x ≡ z
or_left x y {z} off e = let same : x ≡ (x || y) = ground arith in same ∙ e

Partial-suc :
    {i va : ℕ} {view now : View} (desc : ℕ)
    → desc ≢ 0
    → Partial i va view now
    → Partial (suc i) va view (update (page va i) desc now)
Partial-suc {i} {va} {view} {now} desc some p = record {
  inside = λ a b c e. elim (Bool-cases (hits (page va i) a b c)) [
    | inl f ↦ rw f some
    | inr f ↦ rw f (p.inside a b c (or_left _ _ f (sym (covered-last i va a b c) ∙ e)))
  ];
  outside = λ a b c e. elim (Bool-cases (hits (page va i) a b c)) [
    | inl f ↦ absurd (ground (arith, covered-last i va a b c))
    | inr f ↦ rw f (p.outside a b c (or_left _ _ f (sym (covered-last i va a b c) ∙ e)))
  ];
}

-- `_unmap_locked` on pages that all map to something clears them all.
pub Clears-all :
    {i va : ℕ} {view : View} {m : Mmu}
    → i ≤ 2 ^ 27
    → ((j : ℕ) → j < i → at view (page va j) ≢ 0)
    → Clears i va 0 view m
    → Implements m (cleared i va 0 view)
Clears-all {i} {va} {view} {m} le mapped run = elim run.stop [
  | inl all ↦ subst (λ k. Implements m (cleared k va 0 view)) all run.result
  | inr stop ↦ elim (Bool-cases (run.count == i)) [
    | inl e ↦ subst (λ k. Implements m (cleared k va 0 view)) (==→eq _ _ e) run.result
    | inr e ↦
        let n = run.count in
        let inside : n < i = omega (arith, run.within, ==→ne _ _ e) in
        let same : 0 + n ≡ n = omega arith in
        let now : at (cleared n va 0 view) (page va n) ≡ 0 =
          subst (λ j. at (cleared n va 0 view) (page va j) ≡ 0) same stop in
        let kept : at (cleared n va 0 view) (page va n) ≡ at view (page va n) =
          rw
            (
              cleared-eq n va 0 view (l1_index (page va n)) (l2_index (page va n))
                  (l3_index (page va n)),
              not-covered n n va (omega arith) (omega arith),
            )
            refl in
        absurd (mapped n inside (sym kept ∙ now))
  ]
]

-- What `map` does to the abstract map: success writes the descriptors of the whole range, and a failure
-- leaves the pages that it had written, the first `count` of the range, without a mapping.
abbrev pub Ends : ℕ → ℕ → View → View → Bool × Mmu → Type 0
Ends va limit full view (true, m) = Implements m full
Ends va limit full view (false, m) =
    (count : ℕ) × (count < limit) × Implements m (cleared count va 0 view)

pub Ends_success :
    (va limit : ℕ) (full view : View) (r : Bool × Mmu)
    → r.0 ≡ true
    → Ends va limit full view r
    → Implements r.1 full
Ends_success va limit full view (true, m) e ends = ends
Ends_success va limit full view (false, m) e ends = absurd (ground arith)

abbrev pub Effect : ℕ → ℕ → ℕ → ℕ → View → Bool × Mmu → Type 0
Effect va phys rounds flags view r = Ends va rounds (written rounds va phys flags 0 view) view r

undone :
    {i va : ℕ} {view now : View} {m : Mmu}
    → i ≤ 2 ^ 27
    → Partial i va view now
    → Implements m now
    → Implements (unmap_locked va (u64 (i * page_size)) m) (cleared i va 0 view)
unfolding unmap_locked
undone {i} {va} {view} {now} {m} le part imp =
    let pages : u64 (i * page_size) / page_size ≡ i = omega arith in
    rw pages (
      Implements-Agree
        (Clears-all le (λ j h. part.inside _ _ _ (covered_self i va j h))
          (unmap_from-Clears i va 0 imp))
        (λ a b c ha hb hc.
          rw (cleared-eq i va 0 now a b c, cleared-eq i va 0 view a b c)
            (elim (Bool-cases (covered i va 0 a b c)) [
              | inl e ↦ rw e refl
              | inr e ↦ rw e (part.outside a b c e)
            ])))

-- One round: `rest` is what the other rounds do.
map_from-suc :
    (rounds va phys flags i limit : ℕ) (full : View) {view now : View} (r : Bool × Mmu)
    → i < limit
    → limit ≤ 2 ^ 27
    → Partial i va view now
    → Mapped (page va i) (page_desc phys flags i) now r
    → (Implements r.1 (update (page va i) (page_desc phys flags i) now)
        → Ends va limit full view (map_from rounds va phys flags (i + 1) r.1))
    → Ends va limit full view (
        if r.0
        then map_from rounds va phys flags (i + 1) r.1
        else (false, unmap_locked va (u64 (i * page_size)) r.1))
map_from-suc rounds va phys flags i limit full (true, m1) h le part mapped rest = rest mapped
map_from-suc rounds va phys flags i limit full (false, m1) h le part mapped rest =
    (i, h, undone (omega arith) part mapped)

suc-eq : (i : ℕ) → suc i ≡ i + 1
suc-eq i = omega arith

pub map_from-Ends :
    (rounds va phys flags i limit : ℕ) {view now : View} {m : Mmu}
    → i + rounds ≡ limit
    → limit ≤ 2 ^ 27
    → Partial i va view now
    → Implements m now
    → Ends va limit (written rounds va phys flags i now) view (map_from rounds va phys flags i m)
unfolding map_from
map_from-Ends zero va phys flags i limit at_end le part imp = imp
map_from-Ends (suc rounds) va phys flags i limit {view} {now} {m} at_end le part imp =
    map_from-suc rounds va phys flags i limit (written (suc rounds) va phys flags i now)
      (map_page (page va i) (u64 (phys + u64 (i * page_size))) flags m) (omega arith) le part
      (map_page-Mapped (page va i) (u64 (phys + u64 (i * page_size))) flags (omega arith) imp)
      (λ imp'.
        map_from-Ends rounds va phys flags (i + 1) limit (omega arith) le
          (subst (λ j. Partial j va view (update (page va i) (page_desc phys flags i) now))
            (suc-eq i) (Partial-suc (page_desc phys flags i) (page_desc-ne_zero phys flags i) part))
          imp')

covered-prefix :
    (k n va a b c : ℕ) → k ≤ n → covered k va 0 a b c ≡ true → covered n va 0 a b c ≡ true
covered-prefix k zero va a b c le e =
    let none : k ≡ 0 = omega arith in subst (λ j. covered j va 0 a b c ≡ true) none e
covered-prefix k (suc n) va a b c le e = elim (Bool-cases (k == suc n)) [
  | inl q ↦ subst (λ j. covered j va 0 a b c ≡ true) (==→eq _ _ q) e
  | inr q ↦
      rw (covered-last n va a b c, covered-prefix k n va a b c (omega (arith, ==→ne _ _ q)) e) refl
]
