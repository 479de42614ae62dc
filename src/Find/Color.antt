-- ===== src/Find/Color.antt =====
-- find/find.go: `FindColor` and `PixelFound`, which look for a colour in a capture, on the path for
-- RGBA and NRGBA images. A capture has the place of its first pixel on the screen; the scan counts
-- from there.
pub mod Places
pub mod Point
mod Answered
mod Examples
use perfuncted.Prelude.{
  ℕ, zero, suc, ◌+◌, ◌-◌, ◌*◌, ◌/◌, Bool, true, false, not, ◌&&◌, ◌||◌, List, length, ltb, leb,
  ◌==◌, if◌then◌else◌,
}
use perfuncted.Prelude.Int.{ℤ, pos, pos_part, ◌+ℤ◌, ◌-ℤ◌, leb_ℤ, ltb_ℤ}
use perfuncted.Screen.Geometry.{Rectangle, is_empty_rect}
use perfuncted.Find.Image.{Rgba, packed_buffer_size, holds_size}
use perfuncted.Find.Locate.Choice.{byte_at, contrast}

-- An NRGBA image has its colours not multiplied by alpha.
pub record Capture : Type 0 where
  pub min_x : ℤ
  pub min_y : ℤ
  pub image : Rgba
  pub straight_alpha : Bool

pub record Color : Type 0 where
  pub red : ℕ
  pub green : ℕ
  pub blue : ℕ

-- The part of a capture to scan, and the point of the screen to count from.
pub record Area : Type 0 where
  pub left : ℕ
  pub top : ℕ
  pub columns : ℕ
  pub rows : ℕ
  pub origin_x : ℤ
  pub origin_y : ℤ

abbrev pub covers : Capture → Rectangle → Bool
covers c r =
    leb_ℤ c.min_x r.min_x
    && (leb_ℤ r.max_x (c.min_x +ℤ pos c.image.width)
        && (leb_ℤ c.min_y r.min_y && leb_ℤ r.max_y (c.min_y +ℤ pos c.image.height)))

abbrev pub span : ℤ → ℤ → ℕ
span low high = pos_part (high -ℤ low)

abbrev pub no_more_than : ℕ → ℕ → ℕ
no_more_than limit n = if ltb limit n then limit else n

unfoldable pub scan_area : Capture → Rectangle → Area
scan_area c r =
    if is_empty_rect r
    then record {
      left = 0;
      top = 0;
      columns = c.image.width;
      rows = c.image.height;
      origin_x = c.min_x;
      origin_y = c.min_y;
    }
    else if covers c r
    then record {
      left = span c.min_x r.min_x;
      top = span c.min_y r.min_y;
      columns = span r.min_x r.max_x;
      rows = span r.min_y r.max_y;
      origin_x = c.min_x;
      origin_y = c.min_y;
    }
    else record {
      left = 0;
      top = 0;
      columns = no_more_than (span r.min_x r.max_x) c.image.width;
      rows = no_more_than (span r.min_y r.max_y) c.image.height;
      origin_x = r.min_x;
      origin_y = r.min_y;
    }

-- The high byte of the 16-bit channel that `color.NRGBA.RGBA` computes.
abbrev premultiplied : ℕ → ℕ → ℕ
premultiplied channel alpha = channel * 257 * alpha / 255 / 256

-- What a scan sees: a pixel, none, or a read out of the range of the buffer.
pub data Seen : Type 0 where
  seen : ℕ → ℕ → Seen
  unseen out_of_range : Seen

abbrev pub or_later : Seen → Seen → Seen
or_later (seen x y) later = seen x y
or_later unseen later = later
or_later out_of_range later = out_of_range

-- The colour at an offset; a read out of range is met before it in the scan.
unfoldable pub color_at : Rgba → Bool → ℕ → Color
color_at img straight_alpha off =
    let alpha = byte_at img.pix (off + 3) in
    let r = byte_at img.pix off in
    let g = byte_at img.pix (off + 1) in
    let b = byte_at img.pix (off + 2) in
    if straight_alpha && not (alpha == 255)
    then record {
      red = premultiplied r alpha;
      green = premultiplied g alpha;
      blue = premultiplied b alpha;
    }
    else record { red = r; green = g; blue = b }

-- The tolerance is not negative.
unfoldable pub is_close : Color → ℕ → Color → Bool
is_close target tolerance c =
    ((tolerance == 0)
      && ((c.red == target.red) && ((c.green == target.green) && (c.blue == target.blue))))
    || (not (tolerance == 0)
        && (leb (contrast c.red target.red) tolerance
            && (leb (contrast c.green target.green) tolerance
                && leb (contrast c.blue target.blue) tolerance)))

module _ (img : Rgba) (straight_alpha : Bool) (target : Color) (tolerance : ℕ) where
  -- The loop over a row: so many columns are left, and the next pixel is at an offset.
  unfoldable pub scan_columns : ℕ → ℕ → ℕ → ℕ → Seen
  scan_columns zero x y off = unseen
  scan_columns (suc n) x y off =
      let rest = scan_columns n (suc x) y (off + 4) in
      if leb (length img.pix) (off + 3)
      then out_of_range
      else if is_close target tolerance (color_at img straight_alpha off)
      then seen x y
      else rest

  unfoldable pub scan_lines : ℕ → ℕ → ℕ → ℕ → Seen
  scan_lines zero y left columns = unseen
  scan_lines (suc n) y left columns =
      or_later (scan_columns columns left y (y * img.stride + left * 4))
        (scan_lines n (suc y) left columns)

  unfoldable pub scan_packed_pixels : Area → Seen
  scan_packed_pixels a =
      if holds_size img (packed_buffer_size img)
      then scan_lines a.rows a.top a.left a.columns
      else unseen

pub data Found : Type 0 where
  point : ℤ → ℤ → Found
  no_pixel index_panic : Found

abbrev pub at_point : Area → Seen → Found
at_point a (seen x y) = point (a.origin_x +ℤ pos x) (a.origin_y +ℤ pos y)
at_point a unseen = no_pixel
at_point a out_of_range = index_panic

unfoldable pub pixel_found : Capture → Rectangle → Color → ℕ → Found
pixel_found c r target tolerance =
    at_point (scan_area c r)
      (scan_packed_pixels c.image c.straight_alpha target tolerance (scan_area c r))

pub data Grabbed : Type 0 where
  grabbed : Capture → Grabbed
  grab_failed nil_image : Grabbed

pub data Answer : Type 0 where
  color_at_point : ℤ → ℤ → Answer
  unavailable cancelled invalid_tolerance grab_error nil_error color_not_found color_panic : Answer

abbrev pub answer : Found → Answer
answer (point x y) = color_at_point x y
answer no_pixel = color_not_found
answer index_panic = color_panic

-- The rest of `FindColor` after the grab; the flags say that the context is done at each check.
unfoldable pub grabbed_color : Bool → Bool → Grabbed → Rectangle → Color → ℕ → Answer
grabbed_color done_after done_last (grabbed c) r target tolerance =
    if done_after
    then cancelled
    else if done_last
    then cancelled
    else answer (pixel_found c r target tolerance)
grabbed_color done_after done_last grab_failed r target tolerance = grab_error
grabbed_color done_after done_last nil_image r target tolerance = nil_error

-- `FindColor`: the flags say that there is a screen, and that the context is done at each check.
unfoldable pub find_color : Bool → Bool → Bool → Bool → Grabbed → Rectangle → Color → ℤ → Answer
unfolding grabbed_color
find_color available done_first done_after done_last grab r target tolerance =
    if not available
    then unavailable
    else if done_first
    then cancelled
    else if ltb_ℤ tolerance (pos 0) || ltb_ℤ (pos 255) tolerance
    then invalid_tolerance
    else grabbed_color done_after done_last grab r target (pos_part tolerance)
