-- ===== src/Mmu/Spans.antt =====
-- The pages of a range of virtual addresses, and the maps that are built from them.
use raspberry_pi_gaming_cons.Common.{
  ℕ, zero, suc, ◌+◌, ◌*◌, ◌/◌, ◌%◌, ◌^◌, ◌≤◌, ◌<◌, ◌≡◌, refl, inl, inr, Bool, true, false, ◌==◌,
  ◌&&◌, ◌||◌, if◌then◌else◌, Bool-cases, arith, eq→==, ==→eq, ==→ne, ap, ◌∙◌, bit_or,
}
use raspberry_pi_gaming_cons.Common.Fields.{bit_and_mask}
use raspberry_pi_gaming_cons.Common.Words.{u64}
use raspberry_pi_gaming_cons.Pmm.{page_size}
use raspberry_pi_gaming_cons.Mmu.{l1_index, l2_index, l3_index}
use raspberry_pi_gaming_cons.Mmu.Map.{View, update}
use raspberry_pi_gaming_cons.Mmu.Unmap.{page, cleared, +-zero}

-- The address has these three indices.
abbrev pub hits : ℕ → ℕ → ℕ → ℕ → Bool
hits va a b c = (l1_index va == a && l2_index va == b) && l3_index va == c

-- One of the `k` pages from page `i` of a range has these indices.
abbrev pub covered : ℕ → ℕ → ℕ → ℕ → ℕ → ℕ → Bool
covered zero va i a b c = false
covered (suc k) va i a b c = hits (page va i) a b c || covered k va (i + 1) a b c

-- The descriptor of page `i` of a range.
abbrev pub page_desc : ℕ → ℕ → ℕ → ℕ
page_desc phys flags i = bit_or (bit_or (u64 (phys + u64 (i * page_size))) flags) 3

-- The map with the `k` pages from page `i` of a range.
abbrev pub written : ℕ → ℕ → ℕ → ℕ → ℕ → View → View
written zero va phys flags i view = view
written (suc k) va phys flags i view =
    written k va phys flags (i + 1) (update (page va i) (page_desc phys flags i) view)

pub cleared-eq :
    (k va i : ℕ) (view : View) (a b c : ℕ)
    → cleared k va i view a b c ≡ (if covered k va i a b c then 0 else view a b c)
cleared-eq zero va i view a b c = refl
cleared-eq (suc k) va i view a b c =
    rw (cleared-eq k va (i + 1) (update (page va i) 0 view) a b c)
      (elim (Bool-cases (hits (page va i) a b c)) [
        | inl e ↦ rw e (elim (Bool-cases (covered k va (i + 1) a b c)) [
          | inl f ↦ rw f refl
          | inr f ↦ rw f refl
        ])
        | inr e ↦ rw e refl
      ])

+-suc : (i k : ℕ) → i + 1 + k ≡ i + suc k
+-suc i k = omega arith

covered-suc :
    (k va i a b c : ℕ)
    → covered (suc k) va i a b c ≡ (covered k va i a b c || hits (page va (i + k)) a b c)
covered-suc zero va i a b c = ground (arith, ap (λ j. hits (page va j) a b c) (+-zero i))
covered-suc (suc k) va i a b c =
    rw (covered-suc k va (i + 1) a b c)
      (ground (arith, ap (λ j. hits (page va j) a b c) (+-suc i k)))

pub covered-last :
    (k va a b c : ℕ) → covered (suc k) va 0 a b c ≡ (covered k va 0 a b c || hits (page va k) a b c)
covered-last k va a b c =
    let same : 0 + k ≡ k = omega arith in
    covered-suc k va 0 a b c ∙ ap (λ j. covered k va 0 a b c || hits (page va j) a b c) same

-- The three indices of an address, as fields of its page number.
l1-eq : (va : ℕ) → va < 2 ^ 64 → l1_index va ≡ va / 2 ^ 30 % 512
l1-eq va h = bit_and_mask 9 64 (va / 2 ^ 30) (omega arith)

l2-eq : (va : ℕ) → va < 2 ^ 64 → l2_index va ≡ va / 2 ^ 21 % 512
l2-eq va h = bit_and_mask 9 64 (va / 2 ^ 21) (omega arith)

l3-eq : (va : ℕ) → va < 2 ^ 64 → l3_index va ≡ va / 2 ^ 12 % 512
l3-eq va h = bit_and_mask 9 64 (va / 2 ^ 12) (omega arith)

pub page_number :
    (va : ℕ)
    → va < 2 ^ 64
    → va / 4096 % 2 ^ 27 ≡ l1_index va * 2 ^ 18 + l2_index va * 512 + l3_index va
page_number va h = rw (l1-eq va h, l2-eq va h, l3-eq va h) (omega arith)

page-number : (va i : ℕ) → i < 2 ^ 27 → page va i / 4096 % 2 ^ 27 ≡ (va / 4096 + i) % 2 ^ 27
page-number va i h = omega arith

-- Two pages of a range of at most 2^27 pages have not the same indices.
pub pages-differ :
    (va i j : ℕ)
    → i < j
    → j < 2 ^ 27
    → hits (page va i) (l1_index (page va j)) (l2_index (page va j)) (l3_index (page va j)) ≡ false
pages-differ va i j h k =
    elim (Bool-cases
      (hits (page va i) (l1_index (page va j)) (l2_index (page va j)) (l3_index (page va j)))) [
        | inr e ↦ e
        | inl e ↦
            let e1 : l1_index (page va i) ≡ l1_index (page va j) = ground arith in
            let e2 : l2_index (page va i) ≡ l2_index (page va j) = ground arith in
            let e3 : l3_index (page va i) ≡ l3_index (page va j) = ground arith in
            let n1 = page_number (page va i) (omega arith) in
            let n2 = page_number (page va j) (omega arith) in
            let m1 = page-number va i (omega arith) in
            let m2 = page-number va j k in absurd (omega arith)
      ]

-- So a page is not among those before it.
pub not-covered :
    (k count va : ℕ)
    → k ≤ count
    → count < 2 ^ 27
    → covered k va 0
        (l1_index (page va count))
        (l2_index (page va count))
        (l3_index (page va count))
      ≡ false
not-covered zero count va h le = refl
not-covered (suc k) count va h le =
    rw
      (
        covered-last k va (l1_index (page va count)) (l2_index (page va count))
            (l3_index (page va count)),
        not-covered k count va (omega arith) le,
        pages-differ va k count (omega arith) le,
      )
      refl

pub covered_self :
    (i va j : ℕ)
    → j < i
    → covered i va 0 (l1_index (page va j)) (l2_index (page va j)) (l3_index (page va j)) ≡ true
covered_self zero va j h = absurd (omega arith)
covered_self (suc i) va j h =
    rw (covered-last i va (l1_index (page va j)) (l2_index (page va j)) (l3_index (page va j)))
      (elim (Bool-cases (j == i)) [
        | inl e ↦
            let same : j ≡ i = ==→eq _ _ e in
            rw same (
              ground (
                arith,
                eq→== (l1_index (page va i)) _ refl,
                eq→== (l2_index (page va i)) _ refl,
                eq→== (l3_index (page va i)) _ refl,
              ))
        | inr ne ↦ rw (covered_self i va j (ground (arith, ==→ne _ _ ne))) refl
      ])
