-- ===== src/Display.antt =====
-- The mailbox requests of src/display/display.cpp. VideoCore is a parameter: a function from the words
-- of a request buffer to the words it leaves there. What is printed for diagnosis is left out.
pub mod Tags
pub mod Adopt
pub mod Mailbox
mod Tests
use raspberry_pi_gaming_cons.Common.{
  ℕ, zero, suc, ◌+◌, ◌-◌, ◌*◌, ◌/◌, ◌%◌, ◌^◌, bit_or, List, [], ◌∷◌, Option, none, some, Bool, true,
  false, not, ◌==◌, if◌then◌else◌, get_or,
}
use raspberry_pi_gaming_cons.Common.Words.{u64, sub64, u32}
use raspberry_pi_gaming_cons.Pmm.{page_size}
use raspberry_pi_gaming_cons.Mmu.{Mmu, map_range, unmap, translate}
use raspberry_pi_gaming_cons.Dma.{Dma, dma_alloc, dma_free, pte_normal_nc_rw}
use raspberry_pi_gaming_cons.Render.{Framebuffer}

abbrev pub mbox_response_success : ℕ
mbox_response_success = 0x80000000

abbrev pub mbox_channel_property : ℕ
mbox_channel_property = 8

-- The globals that a change of resolution sets; the last two are `uint8_t`.
pub record Display : Type 0 where
  pub fb : Framebuffer
  pub term_cols : ℕ
  pub term_rows : ℕ
  pub dma : Dma

-- The word that `_send_command` writes to the mailbox, for a buffer at `words`.
unfoldable pub mailbox_word : ℕ → Mmu → ℕ
mailbox_word words m = u32 (bit_or (translate words m) mbox_channel_property)

abbrev pub revision_request : List ℕ
revision_request = 28 ∷ 0 ∷ 0x00000001 ∷ 4 ∷ 0 ∷ 0 ∷ 0 ∷ []

abbrev pub size_request : List ℕ
size_request = 32 ∷ 0 ∷ 0x00040003 ∷ 8 ∷ 0 ∷ 0 ∷ 0 ∷ 0 ∷ []

unfoldable pub resolution_request : ℕ → ℕ → List ℕ
resolution_request width height =
    152 ∷ 0 ∷ 0x00048001 ∷ 0 ∷ 0 ∷ 0x00048003 ∷ 8 ∷ 8 ∷ width ∷ height ∷ 0x00048005 ∷ 4 ∷ 4 ∷ 32
    ∷ 0x00048004 ∷ 8 ∷ 8 ∷ width ∷ height ∷ 0x00048006 ∷ 4 ∷ 4 ∷ 1 ∷ 0x00048009 ∷ 8 ∷ 8 ∷ 0 ∷ 0
    ∷ 0x00040001 ∷ 8 ∷ 4 ∷ page_size ∷ 0 ∷ 0x00040008 ∷ 4 ∷ 0 ∷ 0 ∷ 0 ∷ []

-- `(framebuffer_size + PAGE_SIZE - 1) / PAGE_SIZE * PAGE_SIZE`
abbrev pub whole_pages : ℕ → ℕ
whole_pages size = u64 (sub64 (u64 (size + page_size)) 1 / page_size * page_size)

-- What `set_resolution` does with a successful response.
unfoldable pub adopt : List ℕ → Display → Display
adopt words d =
    let m = d.dma.mmu in
    let m1 = if d.fb.base == 0 then m else unmap d.fb.base (whole_pages d.fb.size) m in
    let base = get_or words 31 0 in
    let size = get_or words 32 0 in
    let width = get_or words 17 0 in
    let height = get_or words 18 0 in
    let m2 = (map_range base base (whole_pages size) pte_normal_nc_rw m1).1 in
    record {
      fb = record {
        base = base;
        size = size;
        pitch = get_or words 36 0;
        width = width;
        height = height;
        mem = d.fb.mem;
      };
      term_cols = width / 8 % 256;
      term_rows = height / 8 % 256;
      dma = record d.dma { mmu = m2 };
    }

module _ (video_core : List ℕ → List ℕ) where
  -- The firmware revision, if there is one.
  unfoldable pub display_init : Dma → Option ℕ × Dma
  display_init d =
      let r = dma_alloc 32 d in
      let words = video_core revision_request in
      if r.0 == 0
      then (none, r.1)
      else if not (get_or words 1 0 == mbox_response_success)
      then (none, r.1)
      else (some (get_or words 5 0), dma_free r.0 32 r.1)

  -- The width and height, if there is an answer.
  unfoldable pub get_resolution : Dma → Option (ℕ × ℕ) × Dma
  get_resolution d =
      let r = dma_alloc 32 d in
      let words = video_core size_request in
      if r.0 == 0
      then (none, r.1)
      else if not (get_or words 1 0 == mbox_response_success)
      then (none, r.1)
      else (some (get_or words 5 0, get_or words 6 0), dma_free r.0 32 r.1)

  -- Whether the resolution was changed, and the new state.
  unfoldable pub set_resolution : ℕ → ℕ → Display → Bool × Display
  set_resolution width height d =
      let r = dma_alloc 152 d.dma in
      let words = video_core (resolution_request width height) in
      let adopted = adopt words (record d { dma = r.1 }) in
      if r.0 == 0
      then (false, record d { dma = r.1 })
      else if not (get_or words 1 0 == mbox_response_success)
      then (false, record d { dma = r.1 })
      else (true, record adopted { dma = dma_free r.0 152 adopted.dma })
