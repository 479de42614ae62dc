-- ===== src/Find/Color/Examples.antt =====
-- Runs of `PixelFound` on a small capture, of the screen and of a part of it.
use perfuncted.Prelude.{◌≡◌, refl, Bool, true, false, [], ◌∷◌, if◌then◌else◌}
use perfuncted.Prelude.Int.{pos, negsuc}
use perfuncted.Screen.Geometry.{Rectangle}
use perfuncted.Find.Image.{packed_buffer_size, valid_packed_image_layout}
use perfuncted.Find.Color.{
  grabbed, find_color, Capture, Color, scan_area, color_at, is_close, scan_columns, scan_lines,
  scan_packed_pixels, point, no_pixel, at_point, pixel_found,
}
use perfuncted.Find.Color.Places.{close_at, first_place, area_places, pixel_found-first_place}
use perfuncted.Find.Color.Answered.{IsAnswer, find_color-IsAnswer}
use perfuncted.Find.Color.Point.{IsIn, pixel_found-IsIn}

-- Two rows of three pixels at the left of the origin; the middle of the second row is orange.
abbrev wall : Bool → Capture
wall straight = record {
  min_x = negsuc 1;
  min_y = pos 0;
  image = record {
    width = 3;
    height = 2;
    stride = 12;
    pix =
        10 ∷ 10 ∷ 10 ∷ 255 ∷ 10 ∷ 10 ∷ 10 ∷ 255 ∷ 10 ∷ 10 ∷ 10 ∷ 255 ∷ 10 ∷ 10 ∷ 10 ∷ 255 ∷ 250
        ∷ 120 ∷ 4 ∷ 255 ∷ 200 ∷ 100 ∷ 0 ∷ 128 ∷ [];
  };
  straight_alpha = straight;
}

abbrev orange : Color
orange = record { red = 252; green = 120; blue = 0 }

abbrev brown : Color
brown = record { red = 100; green = 50; blue = 0 }

abbrev lower_row : Rectangle
lower_row = record { min_x = negsuc 1; min_y = pos 1; max_x = pos 1; max_y = pos 2 }

-- A capture of a region of the screen that begins at (7, 8).
abbrev region : Rectangle
region = record { min_x = pos 7; min_y = pos 8; max_x = pos 10; max_y = pos 10 }

find_orange_test : pixel_found (wall false) lower_row orange 4 ≡ point (negsuc 0) (pos 1)
unfolding pixel_found scan_area scan_packed_pixels scan_lines scan_columns is_close color_at
    packed_buffer_size
find_orange_test = refl

exact_orange_test : pixel_found (wall false) lower_row orange 0 ≡ no_pixel
unfolding pixel_found scan_area scan_packed_pixels scan_lines scan_columns is_close color_at
    packed_buffer_size
exact_orange_test = refl

find_orange_there_test : pixel_found (wall false) region orange 4 ≡ point (pos 8) (pos 9)
unfolding pixel_found scan_area scan_packed_pixels scan_lines scan_columns is_close color_at
    packed_buffer_size
find_orange_there_test = refl

-- A brown pixel shows where the colours are multiplied by alpha.
find_brown_test : pixel_found (wall true) region brown 0 ≡ point (pos 9) (pos 9)
unfolding pixel_found scan_area scan_packed_pixels scan_lines scan_columns is_close color_at
    packed_buffer_size
find_brown_test = refl

pixel_found-first_place_example : pixel_found (wall true) region brown 0 ≡ (
    if valid_packed_image_layout (wall true).image
    then at_point (scan_area (wall true) region) (
        first_place (close_at (wall true).image true brown 0) (
          area_places
            (scan_area (wall true) region).rows
            (scan_area (wall true) region).top
            (scan_area (wall true) region).left
            (scan_area (wall true) region).columns))
    else no_pixel)
pixel_found-first_place_example = pixel_found-first_place (wall true) region brown 0

pixel_found-IsIn_test : IsIn region (pos 8) (pos 9)
pixel_found-IsIn_test =
    pixel_found-IsIn (wall false) region orange 4 (pos 8) (pos 9) refl find_orange_there_test

find_color-IsAnswer_example :
    IsAnswer region (find_color true false false false (grabbed (wall false)) region orange (pos 4))
find_color-IsAnswer_example =
    find_color-IsAnswer true false false false (grabbed (wall false)) region orange (pos 4) refl
