-- ===== src/Find/Image.antt =====
-- find/find.go: images with their pixels in a buffer of bytes, the checks of their layout, and
-- `matchAt`. Positions are counted from the corner of the image.
pub mod Match
pub mod Layout
use perfuncted.Prelude.{
  ℕ, zero, suc, ◌+◌, ◌-◌, ◌*◌, ◌/◌, Bool, true, false, ◌&&◌, ◌||◌, Option, none, some, List, length,
  slice, ltb, leb, is_some, ◌==◌, if◌then◌else◌,
}
use perfuncted.Prelude.Text.{text_eq}
use perfuncted.Screen.Geometry.{max_int}

-- `*image.RGBA`
pub record Rgba : Type 0 where
  pub width : ℕ
  pub height : ℕ
  pub stride : ℕ
  pub pix : List ℕ

abbrev pub packed_row_bytes : ℕ → Option ℕ
packed_row_bytes width = if (width == 0) || ltb (max_int / 4) width then none else some (width * 4)

buffer_size : ℕ → ℕ → Option ℕ → Option ℕ
buffer_size rows stride none = none
buffer_size rows stride (some row_bytes) =
    if ltb stride row_bytes
    then none
    else if ltb ((max_int - row_bytes) / stride) (rows - 1)
    then none
    else some ((rows - 1) * stride + row_bytes)

-- The stride is not negative.
unfoldable pub packed_buffer_size : Rgba → Option ℕ
unfolding buffer_size
packed_buffer_size img =
    if (img.width == 0) || (img.height == 0)
    then none
    else buffer_size img.height img.stride (packed_row_bytes img.width)

abbrev pub holds_size : Rgba → Option ℕ → Bool
holds_size img none = false
holds_size img (some size) = leb size (length img.pix)

unfoldable pub valid_packed_image_layout : Rgba → Bool
unfolding packed_buffer_size
valid_packed_image_layout img = holds_size img (packed_buffer_size img)

-- The loop of `matchAt`, from row y on, for so many rows.
unfoldable pub rows_match : ℕ → ℕ → ℕ → ℕ → ℕ → Rgba → Rgba → Bool
rows_match zero y w4 ox oy src ref = true
rows_match (suc n) y w4 ox oy src ref =
    let rest = rows_match n (suc y) w4 ox oy src ref in
    let src_off = (oy + y) * src.stride + ox * 4 in
    let ref_off = y * ref.stride in
    if ltb (length src.pix) (src_off + w4) || ltb (length ref.pix) (ref_off + w4)
    then false
    else if text_eq (slice src_off w4 src.pix) (slice ref_off w4 ref.pix)
    then rest
    else false

match_rows : ℕ → ℕ → Rgba → Rgba → Option ℕ → Bool
match_rows ox oy src ref none = false
match_rows ox oy src ref (some w4) =
    is_some (packed_buffer_size src)
    && (is_some (packed_buffer_size ref) && rows_match ref.height 0 w4 ox oy src ref)

unfoldable pub match_at : Rgba → Rgba → ℕ → ℕ → Bool
unfolding match_rows
match_at src ref ox oy = match_rows ox oy src ref (packed_row_bytes ref.width)
