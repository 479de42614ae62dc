-- ===== src/Screen/Bounds.antt =====
-- screen/capture_geometry.go and screen/rect.go: no size and no scaled coordinate overflows.
use perfuncted.Prelude.{
  ℕ, zero, suc, ◌+◌, ◌-◌, ◌*◌, ◌/◌, ◌^◌, ◌≤◌, ◌<◌, ◌≡◌, refl, sym, subst, ◌↔◌, if◌then◌else◌, false,
  leb, arith,
}
use perfuncted.Prelude.Int.{ℤ, pos, negsuc, ◌≤ℤ◌, ◌*ℤ◌, ltb_ℤ}
use perfuncted.Screen.Geometry.{
  sized, max_int, capture_buffer_size, wrap_int, minus, scale_coord, min_ℤ, max_ℤ, Rectangle,
  logical_rect_to_physical,
}
use perfuncted.Prelude.Product.{*_le, row_mono, row_fits, /_le, /_lt}

-- The buffer is accepted exactly when it is not empty, its rows hold their pixels and its size is
-- less than 2 ^ 31; the size is that of all the rows, which never overflows.
pub capture_buffer_size_iff :
    (width height stride n : ℕ)
    → width < 2 ^ 32
    → height < 2 ^ 32
    → stride < 2 ^ 32
    → (capture_buffer_size width height stride ≡ sized n) ↔ (
        (1 ≤ width)
        × (1 ≤ height)
        × (width * 4 ≤ stride)
        × (stride * height < 2 ^ 31)
        × (n ≡ stride * height))
unfolding capture_buffer_size
capture_buffer_size_iff w h s n p q r =
    ground (arith, *_le s h (2 ^ 32 - 1) (2 ^ 32 - 1) (omega arith) (omega arith))

-- In a buffer that is accepted, every pixel of every row lies within.
pub pixel_fits :
    (width height stride n row col : ℕ)
    → width < 2 ^ 32
    → height < 2 ^ 32
    → stride < 2 ^ 32
    → capture_buffer_size width height stride ≡ sized n
    → row < height
    → col < width
    → (row * stride + (col * 4 + 4) ≤ n) × (n < 2 ^ 31)
pixel_fits w h s n row col p q r e rh cw =
    let (a, b, c, d, f) = (capture_buffer_size_iff w h s n p q r).0 e in
    let g = row_fits row h s (col * 4 + 4) rh (omega (arith, c, cw)) in
    (omega (arith, g, f), omega (arith, d, f))

-- A number between the smallest and the greatest 64-bit integer, in absolute value.
abbrev pub saturate : ℤ → ℤ
saturate z = max_ℤ (minus max_int) (min_ℤ (pos max_int) z)

mul-pos : (v s : ℕ) → pos v *ℤ pos s ≡ pos (v * s)
mul-pos v s = ground arith

mul-negsuc : (v s : ℕ) → negsuc v *ℤ pos s ≡ minus (suc v * s)
mul-negsuc v s = ground arith

abbrev scaled : ℤ → ℕ → ℤ → ℤ
scaled value limit product =
    if ltb_ℤ (pos limit) value
    then pos max_int
    else if ltb_ℤ value (minus limit)
    then minus max_int
    else wrap_int product

scaled-pos :
    (v limit m : ℕ)
    → (v ≤ limit → m ≤ max_int)
    → (limit < v → max_int < m)
    → scaled (pos v) limit (pos m) ≡ saturate (pos m)
scaled-pos v zero m p q = ground arith
scaled-pos v (suc limit) m p q = ground arith

scaled-negsuc :
    (v limit m : ℕ)
    → (suc v ≤ limit → m ≤ max_int)
    → (limit < suc v → max_int < m)
    → scaled (negsuc v) limit (minus m) ≡ saturate (minus m)
scaled-negsuc v zero zero p q = ground arith
scaled-negsuc v zero (suc m) p q = ground arith
scaled-negsuc v (suc limit) zero p q = ground arith
scaled-negsuc v (suc limit) (suc m) p q = ground arith

-- A scaled coordinate is the exact product, held at the bounds of the 64-bit integers: it never
-- wraps.
pub scale_coord-saturate :
    (value : ℤ) (scale : ℕ) → 1 ≤ scale → scale_coord value scale ≡ saturate (value *ℤ pos scale)
unfolding scale_coord
scale_coord-saturate (pos v) scale p =
    subst (λ z. scaled (pos v) (max_int / scale) z ≡ saturate z) (sym (mul-pos v scale))
      (scaled-pos v (max_int / scale) (v * scale) (/_le v max_int scale p) (/_lt v max_int scale p))
scale_coord-saturate (negsuc v) scale p =
    subst (λ z. scaled (negsuc v) (max_int / scale) z ≡ saturate z) (sym (mul-negsuc v scale))
      (scaled-negsuc v (max_int / scale) (suc v * scale) (/_le (suc v) max_int scale p)
        (/_lt (suc v) max_int scale p))

saturate-mono : (a b : ℤ) → a ≤ℤ b → saturate a ≤ℤ saturate b
saturate-mono a b p = ground arith

mul-mono : (a b : ℤ) (s : ℕ) → a ≤ℤ b → a *ℤ pos s ≤ℤ b *ℤ pos s
mul-mono (pos a) (pos b) s p =
    rw (mul-pos a s, mul-pos b s) (omega (arith, row_mono a b s (omega (arith, p))))
mul-mono (pos a) (negsuc b) s p = ground arith
mul-mono (negsuc a) (pos b) s p = rw (mul-negsuc a s, mul-pos b s) (ground arith)
mul-mono (negsuc a) (negsuc b) s p =
    rw (mul-negsuc a s, mul-negsuc b s)
      (ground (arith, row_mono (suc b) (suc a) s (omega (arith, p))))

min_left : (a b : ℤ) → a ≤ℤ b → min_ℤ a b ≡ a
min_left a b p = ground arith

max_right : (a b : ℤ) → a ≤ℤ b → max_ℤ a b ≡ b
max_right a b p = ground arith

scaled_min :
    (a b : ℤ) (s : ℕ)
    → 1 ≤ s
    → a ≤ℤ b
    → min_ℤ (scale_coord a s) (scale_coord b s) ≡ saturate (a *ℤ pos s)
scaled_min a b s o p =
    rw (scale_coord-saturate a s o, scale_coord-saturate b s o)
      (min_left (saturate (a *ℤ pos s)) (saturate (b *ℤ pos s))
        (saturate-mono (a *ℤ pos s) (b *ℤ pos s) (mul-mono a b s p)))

scaled_max :
    (a b : ℤ) (s : ℕ)
    → 1 ≤ s
    → a ≤ℤ b
    → max_ℤ (scale_coord a s) (scale_coord b s) ≡ saturate (b *ℤ pos s)
scaled_max a b s o p =
    rw (scale_coord-saturate a s o, scale_coord-saturate b s o)
      (max_right (saturate (a *ℤ pos s)) (saturate (b *ℤ pos s))
        (saturate-mono (a *ℤ pos s) (b *ℤ pos s) (mul-mono a b s p)))

-- Each coordinate times the scale, held at the bounds of the integers.
abbrev pub exact_rect : Rectangle → ℕ → Rectangle
exact_rect r scale = record {
  min_x = saturate (r.min_x *ℤ pos scale);
  min_y = saturate (r.min_y *ℤ pos scale);
  max_x = saturate (r.max_x *ℤ pos scale);
  max_y = saturate (r.max_y *ℤ pos scale);
}

scaled_many : (scale : ℕ) → 2 ≤ scale → leb scale 1 ≡ false
scaled_many scale t = ground arith

-- A scale of two or more multiplies every coordinate of a rectangle whose minima are at most its
-- maxima; the products are held between -(2 ^ 63 - 1) and 2 ^ 63 - 1, so that no coordinate wraps,
-- and none changes its place with another.
pub logical_rect_to_physical-exact_rect :
    (r : Rectangle) (scale : ℕ)
    → 2 ≤ scale
    → r.min_x ≤ℤ r.max_x
    → r.min_y ≤ℤ r.max_y
    → logical_rect_to_physical r (pos scale) ≡ exact_rect r scale
unfolding logical_rect_to_physical
logical_rect_to_physical-exact_rect r scale t p q =
    let o : 1 ≤ scale = omega (arith, t) in
    rw
      (
        scaled_many scale t,
        scaled_min r.min_x r.max_x scale o p,
        scaled_min r.min_y r.max_y scale o q,
        scaled_max r.min_x r.max_x scale o p,
        scaled_max r.min_y r.max_y scale o q,
      )
      refl
