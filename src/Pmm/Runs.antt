-- ===== src/Pmm/Runs.antt =====
-- `alloc_frames` hands out the first run of free frames that is long enough.
use raspberry_pi_gaming_cons.Common.{
  ℕ, zero, suc, ◌+◌, ◌*◌, ◌/◌, ◌%◌, ◌≤◌, ◌<◌, ◌≡◌, refl, ◌≢◌, ◌⊎◌, inl, inr, List, true, false,
  ◌&&◌, ◌||◌, Option, none, some, ltb, leb, ◌==◌, if◌then◌else◌, Bool-cases, length, arith, ltb→lt,
  length-set, ◌∙◌, ==→eq, ==→ne,
}
use raspberry_pi_gaming_cons.Common.Words.{shl_one}
use raspberry_pi_gaming_cons.Pmm.{
  Pmm, page_size, address, or_word, find_run, mark_run, alloc_frames,
}
use raspberry_pi_gaming_cons.Pmm.Bitmap.{
  Fit, or_word-Fit, frame_used, frame_used-or_word, test_bit-eq-frame_used,
}
use raspberry_pi_gaming_cons.Pmm.Valid.{used, IsValid, address-eq}

-- The frames [s, s + n) are free.
abbrev pub FreeRun : List ℕ → ℕ → ℕ → Type 0
FreeRun words s n = (k : ℕ) → s ≤ k → k < s + n → frame_used words k ≡ false

-- Some frame of [t, t + n) is used.
abbrev pub Blocked : List ℕ → ℕ → ℕ → Type 0
Blocked words t n = (k : ℕ) × (t ≤ k) × (k < t + n) × (frame_used words k ≡ true)

-- What the scan says of the first `total` frames.
abbrev pub FirstRun : List ℕ → ℕ → ℕ → Option ℕ → Type 0
FirstRun words total count (some s) =
    (s + count ≤ total) × FreeRun words s count × ((t : ℕ) → t < s → Blocked words t count)
FirstRun words total count none = (t : ℕ) → t + count ≤ total → Blocked words t count

FreeRun-zero : (words : List ℕ) (s : ℕ) → FreeRun words s 0
FreeRun-zero words s k a b = absurd (omega arith)

-- What the scan knows when it comes to frame `idx`: the free run before it begins at `base`.
record Scan (words : List ℕ) (count base run_len run_start idx : ℕ) : Type 0 where
  at : idx ≡ base + run_len
  short : run_len < count
  begun : run_len ≢ 0 → run_start ≡ base
  free : FreeRun words base run_len
  blocked : (t : ℕ) → t < base → Blocked words t count

module _ {words : List ℕ} (fit : Fit words) (count : ℕ) where
  -- A used frame ends the run, and blocks every run that would contain it.
  Scan-skip :
      {base run_len run_start idx : ℕ}
      → Scan words count base run_len run_start idx
      → frame_used words idx ≡ true
      → Scan words count (idx + 1) 0 run_start (idx + 1)
  Scan-skip {base} {idx} c u = record {
    at = omega arith;
    short = omega arith;
    begun = λ ne. absurd (ne refl);
    free = FreeRun-zero _ _;
    blocked = λ t h. elim (Bool-cases (ltb t base)) [
      | inl lt ↦ c.blocked t (ltb→lt _ _ lt)
      | inr ge ↦ (idx, omega arith, ground arith, u)
    ];
  }

  -- A free frame makes the run longer.
  longer :
      {base run_len run_start idx : ℕ}
      → Scan words count base run_len run_start idx
      → frame_used words idx ≡ false
      → FreeRun words base (run_len + 1)
  longer {idx} c f k a b = elim (Bool-cases (k == idx)) [
    | inl e ↦ rw (==→eq _ _ e) f
    | inr ne ↦ c.free k a (omega (arith, ==→ne _ _ ne))
  ]

  Scan-start :
      {base run_len run_start idx : ℕ}
      → Scan words count base run_len run_start idx
      → (if run_len == 0 then idx else run_start) ≡ base
  Scan-start c = ground (arith, c.begun)

  find_run-FirstRun :
      (total rounds base run_len run_start idx : ℕ)
      → Scan words count base run_len run_start idx
      → idx + rounds ≡ total
      → FirstRun words total count (find_run rounds words count idx run_start run_len)
  unfolding find_run
  find_run-FirstRun total zero base run_len run_start idx c end = λ t h. c.blocked t (omega arith)
  find_run-FirstRun total (suc rounds) base run_len run_start idx c end =
      rw (test_bit-eq-frame_used words idx fit, Scan-start c)
        (elim (Bool-cases (frame_used words idx)) [
          | inl u ↦ rw u (
              find_run-FirstRun total rounds (idx + 1) 0 run_start (idx + 1) (Scan-skip c u)
                (omega arith))
          | inr f ↦ rw f (elim (Bool-cases (run_len + 1 == count)) [
            | inl e ↦
                let full : run_len + 1 ≡ count = ==→eq _ _ e in
                rw e (omega arith, λ k a b. longer c f k a (omega arith), c.blocked)
            | inr e ↦
                let short : run_len + 1 ≢ count = ==→ne _ _ e in
                rw e (
                  find_run-FirstRun total rounds base (run_len + 1) base (idx + 1)
                    (record {
                      at = omega arith;
                      short = omega arith;
                      begun = λ _. refl;
                      free = longer c f;
                      blocked = c.blocked;
                    })
                    (omega arith))
          ])
        ])

-- The marking loop adds exactly the frames of the run.
length-mark_run : (n i : ℕ) (words : List ℕ) → length (mark_run n i words) ≡ length words
unfolding mark_run
length-mark_run zero i words = refl
length-mark_run (suc n) i words = length-mark_run n (i + 1) _ ∙ length-set words (i / 64) _

mark_run-Fit : (n i : ℕ) (words : List ℕ) → Fit words → Fit (mark_run n i words)
unfolding mark_run
mark_run-Fit zero i words fit = fit
mark_run-Fit (suc n) i words fit =
    mark_run-Fit n (i + 1) _ (or_word-Fit words (i / 64) _ fit (omega arith))

pub frame_used-mark_run :
    (n i : ℕ) (words : List ℕ) (j : ℕ)
    → i + n ≤ 64 * length words
    → frame_used (mark_run n i words) j ≡ (frame_used words j || leb i j && ltb j (i + n))
unfolding mark_run
frame_used-mark_run zero i words j h = ground arith
frame_used-mark_run (suc n) i words j h =
    rw
      (
        frame_used-mark_run n (i + 1) (or_word words (i / 64) (shl_one (i % 64))) j
            (omega (arith, length-set words (i / 64) _)),
        frame_used-or_word words i j (omega arith),
      )
      (ground arith)

-- The first free run of `count` frames is handed out: it starts at frame `s`, its frames and no others
-- become used.
pub record RunTaken (p : Pmm) (count s : ℕ) (r : ℕ × Pmm) : Type 0 where
  pub in_range : s + count ≤ p.total_frames
  pub was_free : FreeRun p.bitmap s count
  pub first : (t : ℕ) → t < s → Blocked p.bitmap t count
  pub result : r.0 ≡ p.phys_mem_start + s * page_size
  pub marks : (j : ℕ) → used (r.1) j ≡ (used p j || leb s j && ltb j (s + count))
  pub valid : IsValid (r.1)
  pub start : r.1.phys_mem_start ≡ p.phys_mem_start
  pub total : r.1.total_frames ≡ p.total_frames

-- No run of `count` frames is free, the result is 0, and nothing changes.
pub record NoRun (p : Pmm) (count : ℕ) (r : ℕ × Pmm) : Type 0 where
  pub blocked : (t : ℕ) → t + count ≤ p.total_frames → Blocked p.bitmap t count
  pub result : r ≡ (0, p)

marked-IsValid :
    {p : Pmm} (count s : ℕ)
    → IsValid p
    → s + count ≤ p.total_frames
    → IsValid (record p { bitmap = mark_run count s p.bitmap })
marked-IsValid {p} count s v h = record {
  fit = mark_run-Fit count s p.bitmap v.fit;
  covered = omega (arith, v.covered, length-mark_run count s p.bitmap);
  padded = λ j a b.
      rw (frame_used-mark_run count s p.bitmap j (omega (arith, v.covered)), v.padded j a b) refl;
  aligned = v.aligned;
  positive = v.positive;
  in_memory = v.in_memory;
}

-- The two ways out of `alloc_frames`, for a positive count.
alloc_frames-none :
    (count : ℕ) (p : Pmm)
    → 0 < count
    → find_run p.total_frames p.bitmap count 0 0 0 ≡ none
    → alloc_frames count p ≡ (0, p)
unfolding alloc_frames
alloc_frames-none count p h e = ground arith

alloc_frames-some :
    (count : ℕ) (p : Pmm) (s : ℕ)
    → 0 < count
    → find_run p.total_frames p.bitmap count 0 0 0 ≡ some s
    → alloc_frames count p ≡ (address p s, record p { bitmap = mark_run count s p.bitmap })
unfolding alloc_frames
alloc_frames-some count p s h e = ground arith

-- For a positive count, `alloc_frames` in a valid state either hands out the first run of that many free
-- frames, marks those frames and no others, and keeps the invariant; or no run of that length is free,
-- it returns 0, and nothing changes.
pub alloc_frames_lem :
    (count : ℕ) (p : Pmm)
    → 0 < count
    → IsValid p
    → ((s : ℕ) × RunTaken p count s (alloc_frames count p)) ⊎ NoRun p count (alloc_frames count p)
alloc_frames_lem count p h v = go _ refl found
  where
    found : FirstRun p.bitmap p.total_frames count (find_run p.total_frames p.bitmap count 0 0 0)
    found =
        find_run-FirstRun v.fit count p.total_frames p.total_frames 0 0 0 0
          (record {
            at = refl;
            short = omega arith;
            begun = λ ne. absurd (ne refl);
            free = FreeRun-zero _ _;
            blocked = λ t b. elim b [ ];
          })
          (omega arith)

    go :
        (o : Option ℕ)
        → find_run p.total_frames p.bitmap count 0 0 0 ≡ o
        → FirstRun p.bitmap p.total_frames count o
        → ((s : ℕ) × RunTaken p count s (alloc_frames count p))
          ⊎ NoRun p count (alloc_frames count p)
    go none e f = rw (alloc_frames-none count p h e) (inr (record { blocked = f; result = refl }))
    go (some s) e f = rw (alloc_frames-some count p s h e) (
        inl (
          s,
          record {
            in_range = f.0;
            was_free = f.1;
            first = f.2;
            result = address-eq s v (omega (arith, f.0));
            marks = λ j. frame_used-mark_run count s p.bitmap j (omega (arith, f.0, v.covered));
            valid = marked-IsValid count s v f.0;
            start = refl;
            total = refl;
          },
        ))

-- `alloc_frames` keeps the invariant for every count, and gives 0 for the count 0.
pub alloc_frames-IsValid : {p : Pmm} (count : ℕ) → IsValid p → IsValid (alloc_frames count p).1
alloc_frames-IsValid {p} count v = elim (Bool-cases (count == 0)) [
  | inl e ↦ rw (==→eq _ _ e, zero-frames) v
  | inr e ↦ elim (alloc_frames_lem count p (omega (arith, ==→ne _ _ e)) v) [
    | inl (s, t) ↦ t.valid
    | inr x ↦ rw x.result v
  ]
]
  where
    zero-frames : alloc_frames 0 p ≡ (0, p)
    zero-frames = unfold alloc_frames in refl
