-- ===== src/Render/Glyphs.antt =====
-- `draw_char` paints the glyph of a character into its 8x8 cell and nothing else.
use raspberry_pi_gaming_cons.Common.{ℕ, ◌^◌, bit_and, ◌==◌, if◌then◌else◌}

-- What a set or clear bit of a glyph row is painted with.
abbrev pub paint : ℕ → ℕ → ℕ → ℕ → ℕ
paint byte bit fg bg = if bit_and byte (2 ^ bit) == 0 then bg else fg
