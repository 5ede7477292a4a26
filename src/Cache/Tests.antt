-- ===== src/Cache/Tests.antt =====
-- A range of 100 bytes on lines of 64.
use raspberry_pi_gaming_cons.Common.{◌≡◌, refl, [], ◌∷◌, some, arith}
use raspberry_pi_gaming_cons.Cache.{cache_line_size, maintained}
use raspberry_pi_gaming_cons.Cache.Lines.{Cover, maintained-Cover}

-- DminLine is 4.
line_of_64 : cache_line_size 0x40000 ≡ 64
unfolding cache_line_size
line_of_64 = refl

two_lines : maintained 5 0x40000 0x1010 100 ≡ some (0x1000 ∷ 0x1040 ∷ [])
unfolding maintained cache_line_size
two_lines = refl

maintained-Cover_example :
    Cover (cache_line_size 0x40000) 0x1010 100 (maintained 5 0x40000 0x1010 100)
maintained-Cover_example =
    maintained-Cover 5 0x40000 0x1010 100 (omega arith) (omega arith) (omega (arith, line_of_64))
