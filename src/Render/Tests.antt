-- ===== src/Render/Tests.antt =====
-- Runs of the pixel primitives on a small framebuffer.
use raspberry_pi_gaming_cons.Common.{◌≡◌, refl}
use raspberry_pi_gaming_cons.Render.{Framebuffer, pack_color}

abbrev screen : Framebuffer
screen = record { base = 0x1000; size = 1024; pitch = 64; width = 16; height = 16; mem = λ _. 0 }

white : pack_color 255 255 255 ≡ 0xFFFFFF
unfolding pack_color
white = refl
