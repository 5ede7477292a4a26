-- ===== src/Render.antt =====
-- The pixel primitives of src/display/render.cpp over the framebuffer of include/display/display.h.
pub mod Font
pub mod Pixels
pub mod Glyphs
mod Tests
use raspberry_pi_gaming_cons.Common.{
  ℕ, zero, suc, ◌+◌, ◌-◌, ◌*◌, ◌^◌, bit_and, bit_or, List, [], ◌∷◌, ltb, ◌==◌, ◌||◌, if◌then◌else◌,
  get_or,
}
use raspberry_pi_gaming_cons.Common.Words.{u32}
use Font.{font8x8_fallback, font8x8_basic}

-- The `framebuffer_*` globals, and the pixel words in memory by byte address. The globals are 32-bit.
pub record Framebuffer : Type 0 where
  pub base : ℕ
  pub size : ℕ
  pub pitch : ℕ
  pub width : ℕ
  pub height : ℕ
  pub mem : ℕ → ℕ

-- `framebuffer_base + y * framebuffer_pitch + x * 4`: the products are 32-bit, the sum is a pointer.
abbrev pub pixel_addr : Framebuffer → ℕ → ℕ → ℕ
pixel_addr fb x y = fb.base + u32 (y * fb.pitch) + u32 (x * 4)

unfoldable pub put_pixel : ℕ → ℕ → ℕ → Framebuffer → Framebuffer
put_pixel x y color fb =
    let at = pixel_addr fb x y in record fb { mem = λ a. if a == at then color else fb.mem a }

unfoldable pub pack_color : ℕ → ℕ → ℕ → ℕ
pack_color r g b = bit_or (bit_or b (g * 2 ^ 8)) (r * 2 ^ 16)

-- The loop over x, with `rounds` pixels to go.
unfoldable pub line_from : ℕ → ℕ → ℕ → ℕ → Framebuffer → Framebuffer
line_from zero x y color fb = fb
line_from (suc rounds) x y color fb = line_from rounds (x + 1) y color (put_pixel x y color fb)

unfoldable pub draw_horizontal_line : ℕ → ℕ → Framebuffer → Framebuffer
draw_horizontal_line y color fb = line_from fb.width 0 y color fb

-- The loop over y of `fill_screen`, with `rounds` lines to go.
unfoldable pub fill_from : ℕ → ℕ → ℕ → Framebuffer → Framebuffer
fill_from zero y color fb = fb
fill_from (suc rounds) y color fb = fill_from rounds (y + 1) color (line_from fb.width 0 y color fb)

unfoldable pub fill_screen : ℕ → Framebuffer → Framebuffer
fill_screen color fb = fill_from fb.height 0 color fb

-- The rows of a character's bitmap; a character with no glyph has the hollow box.
unfoldable pub glyph : ℕ → List ℕ
unfolding font8x8_basic
glyph c = if ltb c 32 || ltb 126 c then font8x8_fallback else get_or font8x8_basic (c - 32) []

-- One row of a glyph: the loop over `bit`, with `rounds` bits to go.
unfoldable pub draw_bits : ℕ → ℕ → ℕ → ℕ → ℕ → ℕ → ℕ → Framebuffer → Framebuffer
draw_bits zero bit byte x0 y fg bg fb = fb
draw_bits (suc rounds) bit byte x0 y fg bg fb =
    draw_bits rounds (bit + 1) byte x0 y fg bg
      (put_pixel (u32 (x0 + bit)) y (if bit_and byte (2 ^ bit) == 0 then bg else fg) fb)

-- The loop over the rows of the glyph.
unfoldable pub draw_rows : List ℕ → ℕ → ℕ → ℕ → ℕ → ℕ → Framebuffer → Framebuffer
draw_rows [] i x0 y0 fg bg fb = fb
draw_rows (byte ∷ bytes) i x0 y0 fg bg fb =
    draw_rows bytes (i + 1) x0 y0 fg bg (draw_bits 8 0 byte x0 (u32 (y0 + i)) fg bg fb)

unfoldable pub draw_char : ℕ → ℕ → ℕ → ℕ → ℕ → Framebuffer → Framebuffer
draw_char col row c fg bg fb = draw_rows (glyph c) 0 (u32 (col * 8)) (u32 (row * 8)) fg bg fb
