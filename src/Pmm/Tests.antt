-- ===== src/Pmm/Tests.antt =====
-- Runs of the frame allocator at concrete inputs.
use raspberry_pi_gaming_cons.Common.{
  ℕ, ◌≤◌, zero, suc, ◌+◌, ◌-◌, ◌*◌, ◌^◌, ◌<◌, ◌≡◌, refl, ◌⊎◌, [], ◌∷◌, true, false, arith, length,
  all_below, all_below_sound, ltb, ◌||◌,
}
use raspberry_pi_gaming_cons.Common.Fields.{ctz}
use raspberry_pi_gaming_cons.Pmm.{
  Pmm, page_size, round_up, pmm_init, alloc_frame, alloc_frames, free_frame,
}
use raspberry_pi_gaming_cons.Pmm.Bitmap.{Fit}
use raspberry_pi_gaming_cons.Pmm.Valid.{used, IsValid, pmm_init-IsValid}
use raspberry_pi_gaming_cons.Pmm.Alloc.{Taken, Exhausted, alloc_frame_lem}
use raspberry_pi_gaming_cons.Pmm.Runs.{RunTaken, NoRun, alloc_frames_lem}
use raspberry_pi_gaming_cons.Pmm.Free.{free_frame-ignored, free_frame-alloc_frame}

-- Five frames, of which 0 and 2 are used.
abbrev small : Pmm
small = record { bitmap = (2 ^ 64 - 2 ^ 5 + 5) ∷ []; phys_mem_start = 0x100000; total_frames = 5 }

small-Fit : Fit small.bitmap
small-Fit zero = omega arith
small-Fit (suc i) = omega arith

small-table : all_below 64 (λ i. ltb i 5 || used small i) ≡ true
unfolding all_below
small-table = refl

small-padded : (j : ℕ) → 5 ≤ j → j < 64 → used small j ≡ true
small-padded j h k =
    ground (arith, all_below_sound 64 (λ i. ltb i 5 || used small i) j small-table k)

small-IsValid : IsValid small
small-IsValid = record {
  fit = small-Fit;
  covered = omega arith;
  padded = small-padded;
  aligned = refl;
  positive = omega arith;
  in_memory = omega arith;
}

alloc_frame_lowest : (alloc_frame small).0 ≡ 0x101000
unfolding alloc_frame ctz
alloc_frame_lowest = refl

alloc_frames_first : (alloc_frames 2 small).0 ≡ 0x103000
unfolding alloc_frames
alloc_frames_first = refl

alloc_frames_none : (alloc_frames 3 small).0 ≡ 0
unfolding alloc_frames
alloc_frames_none = refl

init_start : (pmm_init 0x200000).phys_mem_start ≡ 0x208000
unfolding pmm_init round_up
init_start = refl

pmm_init-IsValid_example :
    IsValid (pmm_init 0x200000)
    × ((j : ℕ) → j < (pmm_init 0x200000).total_frames → used (pmm_init 0x200000) j ≡ false)
    × (round_up 0x200000 page_size + 8 * length (pmm_init 0x200000).bitmap
        ≤ (pmm_init 0x200000).phys_mem_start)
pmm_init-IsValid_example = pmm_init-IsValid 0x200000 (omega arith)

alloc_frame_lem_example :
    ((idx : ℕ) × Taken small idx (alloc_frame small)) ⊎ Exhausted small (alloc_frame small)
alloc_frame_lem_example = alloc_frame_lem small small-IsValid

alloc_frames_lem_example :
    ((s : ℕ) × RunTaken small 2 s (alloc_frames 2 small)) ⊎ NoRun small 2 (alloc_frames 2 small)
alloc_frames_lem_example = alloc_frames_lem 2 small (omega arith) small-IsValid

free_frame-ignored_example : free_frame 0x102001 small ≡ small
free_frame-ignored_example =
    free_frame-ignored 0x102001 small-IsValid (omega arith) (λ f. absurd (omega (arith, f.2)))

free_frame-alloc_frame_example :
    used (free_frame (alloc_frame small).0 (alloc_frame small).1) 1 ≡ used small 1
free_frame-alloc_frame_example =
    free_frame-alloc_frame small-IsValid (omega (arith, alloc_frame_lowest)) 1
