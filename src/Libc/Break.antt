-- ===== src/Libc/Break.antt =====
-- The break that `_sbrk` moves.
use raspberry_pi_gaming_cons.Common.{
  ℕ, zero, suc, ◌+◌, ◌-◌, ◌*◌, ◌/◌, ◌%◌, ◌^◌, ◌≤◌, ◌<◌, ◌≡◌, refl, Bool, true, false, Bool-cases,
  inl, inr, ltb, ◌==◌, arith, ltb→lt,
}
use raspberry_pi_gaming_cons.Common.Words.{u64, sub64}
use raspberry_pi_gaming_cons.Pmm.{page_size, round_up, alloc_frame, free_frame}
use raspberry_pi_gaming_cons.Pmm.Valid.{round_up_lem}
use raspberry_pi_gaming_cons.Mmu.{Mmu, pte_normal_rw, map_range}
use raspberry_pi_gaming_cons.Libc.{
  Sys, Answer, value, failed, enomem, up, down, sbrk, extend_to, shrink_to, free_sbrk,
  newlib_heap_base, newlib_heap_max_size,
}

pub record IsValid (s : Sys) : Type 0 where
  pub low : newlib_heap_base ≤ s.curr_brk
  pub covered : s.curr_brk ≤ s.heap_end
  pub high : s.heap_end ≤ newlib_heap_base + newlib_heap_max_size
  pub whole_pages : s.heap_end % page_size ≡ 0

-- The loop of `_sbrk` leaves the break alone, and covers `required_end` or reports ENOMEM.
record Extended (required_end : ℕ) (s : Sys) (r : Bool × Sys) : Type 0 where
  valid : IsValid (r.1)
  same : r.1.curr_brk ≡ s.curr_brk
  enough : r.0 ≡ true → required_end ≤ r.1.heap_end
  lacking : r.0 ≡ false → r.1.errno ≡ enomem

extend_to-Extended :
    (fuel required_end : ℕ) (s : Sys)
    → IsValid s
    → required_end ≤ newlib_heap_base + newlib_heap_max_size
    → required_end ≤ s.heap_end + fuel * page_size
    → Extended required_end s (extend_to fuel required_end s)
unfolding extend_to
extend_to-Extended zero required_end s v room fits = record {
  valid = v;
  same = refl;
  enough = λ _. omega arith;
  lacking = λ e. ground arith;
}
extend_to-Extended (suc fuel) required_end s v room fits =
    elim (Bool-cases (ltb s.heap_end required_end)) [
      | inr ge ↦ rw ge (record {
        valid = v;
        same = refl;
        enough = λ _. ground arith;
        lacking = λ e. ground arith;
      })
      | inl lt ↦ rw lt (elim (Bool-cases ((alloc_frame s.mmu.pmm).0 == 0)) [
        | inl none ↦ rw none (stopped framed)
        | inr one ↦ rw one (elim (Bool-cases mapped.0) [
          | inl ok ↦ rw ok (
              let below = ltb→lt s.heap_end required_end lt in
              let rec =
                extend_to-Extended fuel required_end
                  (record s { heap_end = u64 (s.heap_end + page_size); mmu = mapped.1 })
                  (record {
                    low = v.low;
                    covered = omega (arith, v.covered);
                    high = omega (arith, v.whole_pages);
                    whole_pages = omega (arith, v.whole_pages);
                  })
                  room (omega (arith, v.high)) in
              record {
                valid = rec.valid;
                same = rec.same;
                enough = rec.enough;
                lacking = rec.lacking;
              })
          | inr bad ↦ rw bad (
              stopped
                (record (mapped.1) { pmm = free_frame (alloc_frame s.mmu.pmm).0 mapped.1.pmm }))
        ])
      ])
    ]
  where
    framed : Mmu
    framed = record s.mmu { pmm = (alloc_frame s.mmu.pmm).1 }

    mapped : Bool × Mmu
    mapped = map_range s.heap_end (alloc_frame s.mmu.pmm).0 page_size pte_normal_rw framed

    stopped : (m : Mmu) → Extended required_end s (false, record s { errno = enomem; mmu = m })
    stopped m = record {
      valid = record {
        low = v.low;
        covered = v.covered;
        high = v.high;
        whole_pages = v.whole_pages;
      };
      same = refl;
      enough = λ e. ground arith;
      lacking = λ _. refl;
    }

-- A request for more bytes: it returns the old break and moves the break by just that many, or it fails
-- with ENOMEM and leaves the break where it was. The heap is valid on every branch.
pub Grown : ℕ → Sys → Answer × Sys → Type 0
Grown incr s (value old, s') = (old ≡ s.curr_brk) × ((s'.curr_brk ≡ s.curr_brk + incr) × IsValid s')
Grown incr s (failed, s') = (s'.errno ≡ enomem) × ((s'.curr_brk ≡ s.curr_brk) × IsValid s')

extended :
    (incr : ℕ) (s : Sys) {r : Bool × Sys}
    → incr < 2 ^ 63
    → IsValid s
    → Extended (s.curr_brk + incr) s r
    → r.0 ≡ true
    → Grown incr s (value (r.1.curr_brk), record (r.1) { curr_brk = u64 (r.1.curr_brk + incr) })
unfolding Grown
extended incr s small v x ok = (
  x.same,
  (
    omega (arith, x.same, v.covered, v.high),
    record {
      low = omega (arith, x.same, v.low, v.covered, v.high);
      covered = omega (arith, x.same, x.enough ok, v.covered, v.high);
      high = x.valid.high;
      whole_pages = x.valid.whole_pages;
    },
  ),
)

-- In a valid heap, `_sbrk` of a number of bytes that is not negative moves the break up by just that
-- many and returns the old one, and the new break is not above `heap_end`; or it fails with ENOMEM and
-- leaves the break where it was.
pub sbrk-up : (incr : ℕ) (s : Sys) → IsValid s → incr < 2 ^ 63 → Grown incr s (sbrk (up incr) s)
unfolding sbrk Grown
sbrk-up incr s v small = elim (Bool-cases (incr == 0)) [
  | inl z ↦ rw z (refl, (ground arith, v))
  | inr nz ↦ rw nz (
      rw sum
        (elim (Bool-cases (ltb (newlib_heap_base + newlib_heap_max_size) (s.curr_brk + incr))) [
          | inl over ↦ rw over (
            refl,
            (
              refl,
              record {
                low = v.low;
                covered = v.covered;
                high = v.high;
                whole_pages = v.whole_pages;
              },
            ),
          )
          | inr fine ↦ rw fine (
              let x =
                extend_to-Extended (newlib_heap_max_size / page_size) (s.curr_brk + incr) s v
                  (ground arith) (ground (arith, v.low, v.covered)) in
              elim (Bool-cases
                (extend_to (newlib_heap_max_size / page_size) (s.curr_brk + incr) s).0) [
                  | inl ok ↦ rw ok (extended incr s small v x ok)
                  | inr bad ↦ rw bad (x.lacking bad, (x.same, x.valid))
                ])
        ]))
]
  where
    sum : u64 (s.curr_brk + incr) ≡ s.curr_brk + incr
    sum = omega (arith, v.covered, v.high)

shrink_to_lem :
    (fuel bound : ℕ) (s : Sys)
    → s.heap_end % page_size ≡ 0
    → bound % page_size ≡ 0
    → bound ≤ s.heap_end
    → s.heap_end < 2 ^ 64
    → s.heap_end ≤ bound + fuel * page_size
    → (shrink_to fuel bound s).heap_end ≡ bound
unfolding shrink_to
shrink_to_lem zero bound s pages whole le big fits = omega arith
shrink_to_lem (suc fuel) bound s pages whole le big fits =
    elim (Bool-cases (ltb bound s.heap_end)) [
      | inr ge ↦ rw ge (ground arith)
      | inl lt ↦
          let below = ltb→lt bound s.heap_end lt in
          rw lt (
            shrink_to_lem fuel bound _ (omega arith) whole (omega arith) (omega arith)
              (omega arith))
    ]

-- In a valid heap, `_sbrk` of a negative number that leaves the break at or above the base moves the
-- break down by just that many bytes, returns the old break, and leaves `heap_end` at the end of the last
-- page that the new break needs.
pub sbrk-down :
    (decr : ℕ) (s : Sys)
    → IsValid s
    → 0 < decr
    → newlib_heap_base + decr ≤ s.curr_brk
    → ((sbrk (down decr) s).0 ≡ value s.curr_brk)
      × (((sbrk (down decr) s).1.curr_brk + decr ≡ s.curr_brk)
          × (((sbrk (down decr) s).1.heap_end
                ≡ ((sbrk (down decr) s).1.curr_brk + 4095) / 4096 * 4096)
              × IsValid (sbrk (down decr) s).1))
unfolding sbrk free_sbrk
sbrk-down decr s v pos room =
    let nz : (decr == 0) ≡ false = ground arith in
    let diff : sub64 s.curr_brk decr ≡ s.curr_brk - decr = omega (arith, v.covered, v.high) in
    let inside : ltb (s.curr_brk - decr) newlib_heap_base ≡ false = ground arith in
    let up : round_up (s.curr_brk - decr) page_size ≡ (s.curr_brk - decr + 4095) / 4096 * 4096 =
      round_up_lem (s.curr_brk - decr) (omega (arith, v.covered, v.high)) in
    let e : (shrink_to (newlib_heap_max_size / page_size) ((s.curr_brk - decr + 4095) / 4096 * 4096)
          s).heap_end
        ≡ (s.curr_brk - decr + 4095) / 4096 * 4096 =
      shrink_to_lem (newlib_heap_max_size / page_size) _ s v.whole_pages (omega arith)
        (omega (arith, v.covered, v.whole_pages)) (omega (arith, v.high)) (omega (arith, v.high)) in
    rw (nz, diff, inside, up)
      (
        refl,
        (
          omega arith,
          (
            e,
            record {
              low = omega arith;
              covered = omega (arith, e);
              high = omega (arith, e, v.covered, v.high, v.whole_pages);
              whole_pages = omega (arith, e);
            },
          ),
        ),
      )
