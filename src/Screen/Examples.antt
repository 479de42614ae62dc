-- ===== src/Screen/Examples.antt =====
-- Tests and examples for screen/capture_geometry.go, screen/rect.go and screen/pixels.go.
use perfuncted.Screen.Pixels.{
  decode_bgra, decode_bgra_rect, decode_part, decode_rows, decode_row, copy_bgra, swap_pixels,
}
use perfuncted.Screen.Swapped.{byte}
use perfuncted.Screen.Rows.{frame_byte}
use perfuncted.Screen.Decoded.{IsFrame, decode_bgra-byte, decode_bgra_rect-crop}
use perfuncted.Prelude.{List, [], ◌∷◌, get_elem?, ℕ, ◌+◌, ◌*◌, ◌-◌, ◌^◌, ◌≤◌, ◌<◌, ◌≡◌, refl, arith}
use perfuncted.Prelude.Int.{pos, negsuc}
use perfuncted.Screen.Geometry.{
  sized, too_large, capture_buffer_size, scale_coord, Rectangle, logical_rect_to_physical,
}
use perfuncted.Screen.Bounds.{exact_rect, logical_rect_to_physical-exact_rect, pixel_fits}

accepted : capture_buffer_size 1920 1080 7680 ≡ sized 8294400
unfolding capture_buffer_size
accepted = refl

-- 2 ^ 16 rows of 2 ^ 18 bytes each.
refused : capture_buffer_size 65535 65536 262144 ≡ too_large
unfolding capture_buffer_size
refused = refl

whole_screen : scale_coord (pos (2 ^ 63 - 1)) 2 ≡ pos (2 ^ 63 - 1)
unfolding scale_coord
whole_screen = refl

pixel_fits_example : (1079 * 7680 + (1919 * 4 + 4) ≤ 8294400) × (8294400 < 2 ^ 31)
pixel_fits_example =
    pixel_fits 1920 1080 7680 8294400 1079 1919 (omega arith) (omega arith) (omega arith) accepted
      (omega arith) (omega arith)

abbrev logical : Rectangle
logical = record { min_x = negsuc 9; min_y = pos 0; max_x = pos (2 ^ 63 - 1); max_y = pos 700 }

logical_rect_to_physical-exact_rect_example :
    logical_rect_to_physical logical (pos 2) ≡ exact_rect logical 2
logical_rect_to_physical-exact_rect_example =
    logical_rect_to_physical-exact_rect logical 2 (omega arith) (omega arith) (omega arith)

-- Two rows of two pixels, with a byte of padding; the last pixel is not whole.
abbrev cut_frame : List ℕ
cut_frame = 10 ∷ 20 ∷ 30 ∷ 40 ∷ 11 ∷ 21 ∷ 31 ∷ 41 ∷ 0 ∷ 12 ∷ 22 ∷ 32 ∷ 42 ∷ 13 ∷ 23 ∷ []

decoded :
    (decode_bgra cut_frame (pos 2) (pos 2) (pos 9)).pix
    ≡ 30 ∷ 20 ∷ 10 ∷ 255 ∷ 31 ∷ 21 ∷ 11 ∷ 255 ∷ 32 ∷ 22 ∷ 12 ∷ 255 ∷ 0 ∷ 0 ∷ 0 ∷ 0 ∷ []
unfolding decode_bgra decode_rows decode_row copy_bgra swap_pixels
decoded = refl

-- A region that begins left of the frame, and has its second row.
abbrev second_row : Rectangle
second_row = record { min_x = negsuc 2; min_y = pos 1; max_x = pos 2; max_y = pos 5 }

decoded_row :
    (decode_bgra_rect cut_frame (pos 2) (pos 2) (pos 9) second_row).pix
    ≡ 32 ∷ 22 ∷ 12 ∷ 255 ∷ 0 ∷ 0 ∷ 0 ∷ 0 ∷ []
unfolding decode_bgra_rect decode_part decode_rows decode_row copy_bgra swap_pixels
decoded_row = refl

cut_frame-IsFrame : IsFrame cut_frame 2 2 9
cut_frame-IsFrame = record {
  some_bytes = omega arith;
  bytes_fit = omega arith;
  some_columns = omega arith;
  some_rows = omega arith;
  rows_fit = omega arith;
  image_fits = omega arith;
}

decode_bgra-byte_example :
    get_elem? (decode_bgra cut_frame (pos 2) (pos 2) (pos 9)).pix (1 * (2 * 4) + byte 0 2)
    ≡ frame_byte cut_frame (1 * 9 + byte 0 0) 2
decode_bgra-byte_example =
    decode_bgra-byte cut_frame 2 2 9 0 1 2 cut_frame-IsFrame (omega arith) (omega arith)
      (omega arith)

decode_bgra_rect-crop_example :
    get_elem?
      (decode_bgra_rect cut_frame (pos 2) (pos 2) (pos 9) second_row).pix
      (0 * (2 * 4) + byte 0 1)
    ≡ get_elem? (decode_bgra cut_frame (pos 2) (pos 2) (pos 9)).pix (1 * (2 * 4) + byte 0 1)
decode_bgra_rect-crop_example =
    decode_bgra_rect-crop cut_frame 2 2 9 0 0 1 second_row cut_frame-IsFrame (omega arith)
      (omega arith) (omega arith)
