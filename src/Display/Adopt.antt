-- ===== src/Display/Adopt.antt =====
-- What the program takes over from a response of VideoCore.
use raspberry_pi_gaming_cons.Common.{
  ℕ, ◌+◌, ◌*◌, ◌/◌, if◌then◌else◌, ◌≤◌, ◌≡◌, refl, List, false, not, ◌==◌, get_or, Bool-cases, inl,
  inr, arith,
}
use raspberry_pi_gaming_cons.Display.{
  Display, set_resolution, resolution_request, mbox_response_success,
}
use raspberry_pi_gaming_cons.Mmu.{Mmu, map_range, unmap}
use raspberry_pi_gaming_cons.Dma.{dma_alloc, dma_free, pte_normal_nc_rw}
use raspberry_pi_gaming_cons.Render.{Framebuffer}
use raspberry_pi_gaming_cons.Terminal.{max_term_rows, max_term_cols}

-- Word `i` of the response to a request of `width` by `height` pixels.
abbrev pub answer : (List ℕ → List ℕ) → ℕ → ℕ → ℕ → ℕ
answer video_core width height i = get_or (video_core (resolution_request width height)) i 0

-- The page tables in which the pages of the old framebuffer, if there is one, are unmapped, and those of
-- the new one mapped to the same addresses, uncached.
abbrev pub moved_to : (base size : ℕ) (old : Framebuffer) → Mmu → Mmu
moved_to base size old m =
    (map_range base base ((size + 4095) / 4096 * 4096) pte_normal_nc_rw
      (if old.base == 0 then m else unmap old.base ((old.size + 4095) / 4096 * 4096) m)).1

-- The framebuffer and the terminal are those of the response, the framebuffer is mapped, the request's
-- buffer given back, and every character cell is in `term_buffer` and on the screen.
pub record Adopted (video_core : List ℕ → List ℕ) (width height : ℕ) (d d' : Display) : Type 0 where
  pub base : d'.fb.base ≡ answer video_core width height 31
  pub size : d'.fb.size ≡ answer video_core width height 32
  pub pitch : d'.fb.pitch ≡ answer video_core width height 36
  pub screen_width : d'.fb.width ≡ answer video_core width height 17
  pub screen_height : d'.fb.height ≡ answer video_core width height 18
  pub tables :
      d'.dma
      ≡ dma_free (dma_alloc 152 d.dma).0 152 (record ((dma_alloc 152 d.dma).1) {
        mmu =
            moved_to
              (answer video_core width height 31)
              (answer video_core width height 32)
              d.fb
              (dma_alloc 152 d.dma).1.mmu;
      })
  pub cols : d'.term_cols ≤ max_term_cols
  pub rows : d'.term_rows ≤ max_term_rows
  pub cols_visible : d'.term_cols ≡ answer video_core width height 17 / 8
  pub rows_visible : d'.term_rows ≡ answer video_core width height 18 / 8

module _ (video_core : List ℕ → List ℕ) where
  -- When it reports no change, the framebuffer and the size of the terminal are as before.
  pub set_resolution-refused :
      (width height : ℕ) (d : Display)
      → (set_resolution video_core width height d).0 ≡ false
      → ((set_resolution video_core width height d).1.fb ≡ d.fb)
        × (((set_resolution video_core width height d).1.term_cols ≡ d.term_cols)
            × ((set_resolution video_core width height d).1.term_rows ≡ d.term_rows))
  unfolding set_resolution
  set_resolution-refused width height d = elim (Bool-cases ((dma_alloc 152 d.dma).0 == 0)) [
    | inl none_left ↦ rw none_left (λ bad. (refl, (refl, refl)))
    | inr got ↦
        rw got
          (elim (Bool-cases (
            not (
              get_or (video_core (resolution_request width height)) 1 0
              == mbox_response_success))) [
                | inl refused ↦ rw refused (λ bad. (refl, (refl, refl)))
                | inr done ↦ rw done (λ bad. absurd (ground arith))
              ])
  ]
