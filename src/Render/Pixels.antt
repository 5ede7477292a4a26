-- ===== src/Render/Pixels.antt =====
-- Pixels of a framebuffer do not interfere, and filling reaches each of them.
use raspberry_pi_gaming_cons.Common.{
  ℕ, zero, suc, ◌+◌, ◌*◌, ◌/◌, ◌%◌, ◌^◌, ◌≤◌, ◌<◌, ◌≡◌, refl, ap, ltb→lt, eq→==, ◌∙◌, ◌&&◌, ltb,
  leb, ◌==◌, if◌then◌else◌, Bool-cases, inl, inr, arith, ==→eq, ne→==,
}
use raspberry_pi_gaming_cons.Common.Words.{u32}
use raspberry_pi_gaming_cons.Common.Fields.{bit_or_fields, bit_or_comm}
use raspberry_pi_gaming_cons.Render.{
  Framebuffer, pixel_addr, put_pixel, pack_color, line_from, draw_horizontal_line, fill_from,
  fill_screen,
}

-- Lines do not overlap, and no 32-bit product wraps.
pub record Geometry (fb : Framebuffer) : Type 0 where
  pub wide : fb.width * 4 ≤ fb.pitch
  pub small : fb.height * fb.pitch < 2 ^ 32
  pub narrow : fb.width * 4 < 2 ^ 32

abbrev pub pixel : Framebuffer → ℕ → ℕ → ℕ
pixel fb x y = fb.mem (pixel_addr fb x y)

-- Offsets into rows of p are told apart.
next_row : (p y y' : ℕ) → y < y' → y * p + p ≤ y' * p
next_row p y y' h = grind arith

rows-injective : (p y y' o o' : ℕ) → o < p → o' < p → y * p + o ≡ y' * p + o' → (y ≡ y') × (o ≡ o')
rows-injective p y y' o o' h h' e = elim (Bool-cases (y == y')) [
  | inl q ↦
      let same : y * p ≡ y' * p = ap (λ (t : ℕ). t * p) (==→eq _ _ q) in (==→eq _ _ q, omega arith)
  | inr q ↦ elim (Bool-cases (ltb y y')) [
    | inl lt ↦ absurd (omega (arith, next_row p y y' (ltb→lt _ _ lt)))
    | inr ge ↦ absurd (ground (arith, next_row p y' y))
  ]
]

row_start : (y h p : ℕ) → y < h → h * p < 2 ^ 32 → u32 (y * p) ≡ y * p
row_start y h p a b = let c : y * p ≤ h * p = grind arith in omega arith

module _ {fb : Framebuffer} (g : Geometry fb) where
  -- Distinct pixels of the screen have distinct addresses.
  pub pixel_addr-injective :
      (x y x' y' : ℕ)
      → x < fb.width
      → x' < fb.width
      → y < fb.height
      → y' < fb.height
      → pixel_addr fb x y ≡ pixel_addr fb x' y'
      → (x ≡ x') × (y ≡ y')
  pixel_addr-injective x y x' y' hx hx' hy hy' e =
      let (q, r) =
        rows-injective fb.pitch y y' (x * 4) (x' * 4) (omega (arith, g.wide))
          (omega (arith, g.wide))
          (omega (
            arith,
            row_start y fb.height fb.pitch hy g.small,
            row_start y' fb.height fb.pitch hy' g.small,
            g.narrow,
          )) in
      (omega arith, q)

  -- The test of `put_pixel` on addresses is a test on coordinates.
  pub same-pixel :
      (x y x' y' : ℕ)
      → x < fb.width
      → x' < fb.width
      → y < fb.height
      → y' < fb.height
      → (pixel_addr fb x' y' == pixel_addr fb x y) ≡ (y == y' && x == x')
  same-pixel x y x' y' hx hx' hy hy' = elim (Bool-cases (y == y' && x == x')) [
    | inl e ↦
        let ex : x ≡ x' = ground arith in
        let ey : y ≡ y' = ground arith in
        rw (ex, ey, eq→== y' y' refl, eq→== x' x' refl) (eq→== _ _ refl)
    | inr ne ↦ rw ne (
        ne→== _ _
          (λ e. let (ex, ey) = pixel_addr-injective x' y' x y hx' hx hy' hy e in ground arith))
  ]

  pub put_pixel-pixel :
      (x y x' y' color : ℕ)
      → x < fb.width
      → x' < fb.width
      → y < fb.height
      → y' < fb.height
      → (put_pixel x y color fb).mem (pixel_addr fb x' y')
        ≡ (if y == y' && x == x' then color else fb.mem (pixel_addr fb x' y'))
  unfolding put_pixel
  put_pixel-pixel x y x' y' color hx hx' hy hy' = rw (same-pixel x y x' y' hx hx' hy hy') refl

-- The first `rounds` pixels from (x, y) to the right have the colour, and the others of the screen are
-- as before.
pub line_from-pixel :
    (rounds x y x' y' color : ℕ) {fb : Framebuffer}
    → Geometry fb
    → x + rounds ≤ fb.width
    → x' < fb.width
    → y < fb.height
    → y' < fb.height
    → (line_from rounds x y color fb).mem (pixel_addr fb x' y') ≡ (
        if y == y' && (leb x x' && ltb x' (x + rounds))
        then color
        else fb.mem (pixel_addr fb x' y'))
unfolding line_from put_pixel
line_from-pixel zero x y x' y' color g h hx hy hy' = ground arith
line_from-pixel (suc rounds) x y x' y' color {fb} g h hx hy hy' =
    line_from-pixel rounds (x + 1) y x' y' color {fb = put_pixel x y color fb}
      (record { wide = g.wide; small = g.small; narrow = g.narrow }) (omega arith) hx hy hy'
    ∙ rw (same-pixel g x y x' y' (omega arith) hx hy hy') (ground arith)

-- Drawing changes the pixel words only.
pub line_from-mem :
    (rounds x y color : ℕ) (fb : Framebuffer)
    → line_from rounds x y color fb ≡ record fb { mem = (line_from rounds x y color fb).mem }
unfolding line_from put_pixel
line_from-mem zero x y color fb = refl
line_from-mem (suc rounds) x y color fb =
    line_from-mem rounds (x + 1) y color (put_pixel x y color fb)

fill_from-pixel :
    (rounds y x' y' color : ℕ) {fb : Framebuffer}
    → Geometry fb
    → y + rounds ≤ fb.height
    → x' < fb.width
    → y' < fb.height
    → (fill_from rounds y color fb).mem (pixel_addr fb x' y')
      ≡ (if leb y y' && ltb y' (y + rounds) then color else fb.mem (pixel_addr fb x' y'))
unfolding fill_from
fill_from-pixel zero y x' y' color g h hx hy = ground arith
fill_from-pixel (suc rounds) y x' y' color {fb} g h hx hy =
    ap (λ gb. (fill_from rounds (y + 1) color gb).mem (pixel_addr fb x' y'))
      (line_from-mem fb.width 0 y color fb)
    ∙ fill_from-pixel rounds (y + 1) x' y' color
        {fb = record fb { mem = (line_from fb.width 0 y color fb).mem }}
        (record { wide = g.wide; small = g.small; narrow = g.narrow }) (omega arith) hx hy
    ∙ rw (line_from-pixel fb.width 0 y x' y' color g (omega arith) hx (omega arith) hy)
        (ground arith)

-- On a framebuffer whose lines do not overlap, `fill_screen` gives every pixel of the screen the colour.
pub fill_screen-pixel :
    {fb : Framebuffer} (x y color : ℕ)
    → Geometry fb
    → x < fb.width
    → y < fb.height
    → (fill_screen color fb).mem (pixel_addr fb x y) ≡ color
unfolding fill_screen
fill_screen-pixel {fb} x y color g hx hy =
    fill_from-pixel fb.height 0 x y color g (omega arith) hx hy ∙ ground arith

-- A horizontal line colours its row and leaves every other row of the screen alone.
pub draw_horizontal_line-pixel :
    {fb : Framebuffer} (x y row color : ℕ)
    → Geometry fb
    → x < fb.width
    → y < fb.height
    → row < fb.height
    → (draw_horizontal_line row color fb).mem (pixel_addr fb x y)
      ≡ (if row == y then color else pixel fb x y)
unfolding draw_horizontal_line
draw_horizontal_line-pixel {fb} x y row color g hx hy hr =
    line_from-pixel fb.width 0 row x y color g (omega arith) hx hr hy ∙ ground arith

-- The three channels of a packed colour are the bytes that went in.
pub pack_color-channels :
    (r g b : ℕ)
    → r < 256
    → g < 256
    → b < 256
    → (pack_color r g b / 2 ^ 16 ≡ r)
      × (pack_color r g b / 2 ^ 8 % 256 ≡ g)
      × (pack_color r g b % 256 ≡ b)
unfolding pack_color
pack_color-channels r g b hr hg hb =
    rw
      (
        bit_or_comm 16 b (g * 2 ^ 8) (omega arith) (omega arith),
        bit_or_fields 8 8 g b (omega arith) (omega arith),
        bit_or_comm 24 (g * 2 ^ 8 + b) (r * 2 ^ 16) (omega arith) (omega arith),
        bit_or_fields 8 16 r (g * 2 ^ 8 + b) (omega arith) (omega arith),
      )
      (omega arith)
