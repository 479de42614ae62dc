-- ===== src/Screen/Geometry.antt =====
-- screen/capture_geometry.go and screen/rect.go.
use perfuncted.Prelude.{
  ℕ, zero, suc, ◌-◌, ◌*◌, ◌/◌, ◌%◌, ◌^◌, Bool, ◌||◌, ltb, leb, ◌==◌, if◌then◌else◌,
}
use perfuncted.Prelude.Int.{ℤ, pos, negsuc, ◌*ℤ◌, ltb_ℤ, leb_ℤ}

pub data Sized : Type 0 where
  sized : ℕ → Sized
  zero_dimensions short_stride too_large : Sized

abbrev pub max_int : ℕ
max_int = 2 ^ 63 - 1

abbrev checked_size : ℕ → Sized
checked_size size = if ltb max_int size || ltb (2 ^ 31 - 1) size then too_large else sized size

-- The arguments are 32-bit; the products are 64-bit.
unfoldable pub capture_buffer_size : ℕ → ℕ → ℕ → Sized
capture_buffer_size width height stride =
    if (width == 0) || (height == 0)
    then zero_dimensions
    else if ltb stride (width * 4 % 2 ^ 64)
    then short_stride
    else checked_size (stride * height % 2 ^ 64)

-- The 64-bit integer that an exact result is stored as.
abbrev pub wrap_int : ℤ → ℤ
wrap_int (pos n) =
    if leb (n % 2 ^ 64) max_int then pos (n % 2 ^ 64) else negsuc (2 ^ 64 - 1 - n % 2 ^ 64)
wrap_int (negsuc n) =
    if leb (n % 2 ^ 64) max_int then negsuc (n % 2 ^ 64) else pos (2 ^ 64 - 1 - n % 2 ^ 64)

abbrev pub minus : ℕ → ℤ
minus zero = pos zero
minus (suc n) = negsuc n

-- The scale is two or more.
unfoldable pub scale_coord : ℤ → ℕ → ℤ
scale_coord value scale =
    let limit = max_int / scale in
    if ltb_ℤ (pos limit) value
    then pos max_int
    else if ltb_ℤ value (minus limit)
    then minus max_int
    else wrap_int (value *ℤ pos scale)

pub record Rectangle : Type 0 where
  pub min_x : ℤ
  pub min_y : ℤ
  pub max_x : ℤ
  pub max_y : ℤ

-- `Rectangle.Empty`
abbrev pub is_empty_rect : Rectangle → Bool
is_empty_rect r = leb_ℤ r.max_x r.min_x || leb_ℤ r.max_y r.min_y

abbrev pub min_ℤ : ℤ → ℤ → ℤ
min_ℤ a b = if ltb_ℤ b a then b else a

abbrev pub max_ℤ : ℤ → ℤ → ℤ
max_ℤ a b = if ltb_ℤ b a then a else b

-- `image.Rect` puts the smaller coordinate first.
abbrev pub rect : ℤ → ℤ → ℤ → ℤ → Rectangle
rect x0 y0 x1 y1 = record {
  min_x = min_ℤ x0 x1;
  min_y = min_ℤ y0 y1;
  max_x = max_ℤ x0 x1;
  max_y = max_ℤ y0 y1;
}

abbrev pub scale_rect : Rectangle → ℕ → Rectangle
scale_rect r scale =
    rect (scale_coord r.min_x scale) (scale_coord r.min_y scale) (scale_coord r.max_x scale)
      (scale_coord r.max_y scale)

unfoldable pub logical_rect_to_physical : Rectangle → ℤ → Rectangle
unfolding scale_coord
logical_rect_to_physical r (pos scale) = if leb scale 1 then r else scale_rect r scale
logical_rect_to_physical r (negsuc n) = r
