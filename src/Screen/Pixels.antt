-- ===== src/Screen/Pixels.antt =====
-- screen/pixels.go: decoding BGRA frames. Bytes are numbers; an image has its bytes in rows. The
-- image is empty where the source makes one of no size.
use perfuncted.Prelude.{
  slice, ℕ, zero, suc, ◌+◌, ◌-◌, ◌*◌, ◌/◌, ◌%◌, Bool, ◌||◌, Option, none, some, List, [], ◌∷◌, ◌++◌,
  length, is_empty, zeros, take, drop, ltb, leb, ◌==◌, if◌then◌else◌,
}
use perfuncted.Prelude.Int.{ℤ, pos, pos_part, leb_ℤ}
use perfuncted.Screen.Geometry.{max_int, Rectangle, min_ℤ, max_ℤ}

pub record Image : Type 0 where
  pub width : ℕ
  pub height : ℕ
  pub pix : List ℕ

abbrev pub no_image : Image
no_image = record { width = 0; height = 0; pix = [] }

abbrev pub new_rgba : ℕ → ℕ → Image
new_rgba w h = record { width = w; height = h; pix = zeros (h * (w * 4)) }

abbrev pub safe_pixel_row_bytes : ℕ → Option ℕ
safe_pixel_row_bytes width =
    if (width == 0) || ltb (max_int / 4) width then none else some (width * 4)

-- The loop of `copyBGRA`: so many pixels swap their first and third byte, and become opaque.
unfoldable pub swap_pixels : ℕ → List ℕ → List ℕ
swap_pixels zero xs = xs
swap_pixels (suc n) (b ∷ (g ∷ (r ∷ (a ∷ xs)))) = r ∷ (g ∷ (b ∷ (255 ∷ swap_pixels n xs)))
swap_pixels (suc n) (b ∷ (g ∷ (r ∷ []))) = b ∷ g ∷ r ∷ []
swap_pixels (suc n) (b ∷ (g ∷ [])) = b ∷ g ∷ []
swap_pixels (suc n) (b ∷ []) = b ∷ []
swap_pixels (suc n) [] = []

abbrev min : ℕ → ℕ → ℕ
min a b = if ltb b a then b else a

abbrev pub whole_pixels : List ℕ → List ℕ → ℕ
whole_pixels dst src = min (length src) (length dst) - min (length src) (length dst) % 4

unfoldable pub copy_bgra : List ℕ → List ℕ → List ℕ
unfolding swap_pixels
copy_bgra dst src = let n = whole_pixels dst src in swap_pixels (n / 4) (take n src ++ drop n dst)

-- The bytes with another slice in its place.
abbrev pub splice : List ℕ → ℕ → List ℕ → List ℕ
splice xs start ys = take start xs ++ (ys ++ drop (start + length ys) xs)

-- The body of the loops of `decodeBGRA` and `decodeBGRARect`, for a row that begins in the bytes.
unfoldable pub decode_row : List ℕ → ℕ → ℕ → ℕ → List ℕ → List ℕ
unfolding copy_bgra
decode_row frame src_start row_bytes dst_off pix =
    let rest = length frame - src_start in
    let n = if leb row_bytes rest then row_bytes else rest in
    splice pix dst_off (copy_bgra (slice dst_off row_bytes pix) (slice src_start n frame))

-- The loops: n rows are left, row y of the image is row `first_row + y` of the frame.
unfoldable pub decode_rows : List ℕ → ℕ → ℕ → ℕ → ℕ → ℕ → ℕ → List ℕ → List ℕ
unfolding decode_row
decode_rows frame stride x_offset row_bytes first_row zero y pix = pix
decode_rows frame stride x_offset row_bytes first_row (suc n) y pix =
    let row = first_row + y in
    let src_start = row * stride + x_offset in
    let rest =
      decode_rows frame stride x_offset row_bytes first_row n (suc y)
        (decode_row frame src_start row_bytes (y * row_bytes) pix) in
    if ltb ((max_int - x_offset) / stride) row
    then pix
    else if leb (length frame) src_start
    then pix
    else rest

abbrev not_positive : ℤ → Bool
not_positive z = leb_ℤ z (pos 0)

abbrev pub bad_frame : List ℕ → ℤ → ℤ → ℤ → Bool
bad_frame frame w h stride =
    is_empty frame || (not_positive w || (not_positive h || not_positive stride))

decode_frame : List ℕ → ℕ → ℕ → ℕ → Option ℕ → Image
decode_frame frame w h stride none = no_image
decode_frame frame w h stride (some row_bytes) =
    if ltb stride row_bytes || ltb (max_int / row_bytes) h
    then no_image
    else let img = new_rgba w h in
      record img { pix = decode_rows frame stride 0 row_bytes 0 h 0 img.pix }

unfoldable pub decode_bgra : List ℕ → ℤ → ℤ → ℤ → Image
unfolding decode_frame decode_rows
decode_bgra frame w h stride =
    if bad_frame frame w h stride
    then no_image
    else decode_frame frame (pos_part w) (pos_part h) (pos_part stride)
        (safe_pixel_row_bytes (pos_part w))

-- The part of a region that is on the frame, which has no negative coordinates.
pub record Region : Type 0 where
  pub left : ℕ
  pub top : ℕ
  pub dx : ℕ
  pub dy : ℕ

abbrev pub clip : Rectangle → ℤ → ℤ → Region
clip r w h =
    let x0 = pos_part (max_ℤ r.min_x (pos 0)) in
    let y0 = pos_part (max_ℤ r.min_y (pos 0)) in
    record {
      left = x0;
      top = y0;
      dx = pos_part (min_ℤ r.max_x w) - x0;
      dy = pos_part (min_ℤ r.max_y h) - y0;
    }

decode_region : List ℕ → ℕ → Region → Option ℕ → Image
decode_region frame stride r none = no_image
decode_region frame stride r (some row_bytes) =
    if ltb (max_int / row_bytes) r.dy
    then no_image
    else let img = new_rgba r.dx r.dy in
      record img { pix = decode_rows frame stride (r.left * 4) row_bytes r.top r.dy 0 img.pix }

unfoldable pub decode_part : List ℕ → ℕ → Region → Option ℕ → Image
unfolding decode_region
decode_part frame stride r none = no_image
decode_part frame stride r (some full_row_bytes) =
    if ltb stride full_row_bytes || ((r.dx == 0) || (r.dy == 0))
    then no_image
    else decode_region frame stride r (safe_pixel_row_bytes r.dx)

unfoldable pub decode_bgra_rect : List ℕ → ℤ → ℤ → ℤ → Rectangle → Image
unfolding decode_part decode_rows
decode_bgra_rect frame w h stride rect =
    if bad_frame frame w h stride
    then no_image
    else decode_part frame (pos_part stride) (clip rect w h) (safe_pixel_row_bytes (pos_part w))
