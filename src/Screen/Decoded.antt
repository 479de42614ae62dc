-- ===== src/Screen/Decoded.antt =====
-- screen/pixels.go: what the decoders give for each byte of each pixel.
use perfuncted.Prelude.{
  zeros, length-zeros, ℕ, ◌+◌, ◌*◌, ◌/◌, ◌≤◌, ◌<◌, ◌≡◌, refl, sym, subst, ◌∙◌, false, ◌||◌, some,
  List, [], ◌∷◌, length, get_elem?, ltb, ◌==◌, arith,
}
use perfuncted.Prelude.Int.{pos}
use perfuncted.Screen.Geometry.{max_int, Rectangle}
use perfuncted.Screen.Pixels.{
  safe_pixel_row_bytes, bad_frame, decode_rows, decode_bgra, Region, clip, decode_part,
  decode_bgra_rect,
}
use perfuncted.Prelude.Product.{*_le, le_/, row_fits}
use perfuncted.Screen.Slices.{get_elem?-zeros}
use perfuncted.Screen.Swapped.{byte}
use perfuncted.Screen.Rows.{frame_byte, rows-byte}

-- A frame whose rows hold their pixels, and whose image is not too large.
pub record IsFrame (frame : List ℕ) (w h stride : ℕ) : Type 0 where
  pub some_bytes : 1 ≤ length frame
  pub bytes_fit : length frame ≤ max_int
  pub some_columns : 1 ≤ w
  pub some_rows : 1 ≤ h
  pub rows_fit : w * 4 ≤ stride
  pub image_fits : h * (w * 4) ≤ max_int

zeros-byte :
    (w h x y c : ℕ)
    → x < w
    → y < h
    → c < 4
    → get_elem? (zeros (h * (w * 4))) (y * (w * 4) + byte x c) ≡ some 0
zeros-byte w h x y c p q k =
    get_elem?-zeros (h * (w * 4)) (y * (w * 4) + byte x c)
      (omega (arith, row_fits y h (w * 4) (w * 4) q (omega arith), p, k))

good-frame :
    (frame : List ℕ) (w h stride : ℕ)
    → IsFrame frame w h stride
    → bad_frame frame (pos w) (pos h) (pos stride) ≡ false
good-frame [] w h stride f = ground (arith, f.some_bytes)
good-frame (b ∷ bs) w h stride f = ground (arith, f.some_columns, f.some_rows, f.rows_fit)

row_bytes-some : (w : ℕ) → 1 ≤ w → w * 4 ≤ max_int → safe_pixel_row_bytes w ≡ some (w * 4)
row_bytes-some w p q = ground arith

row_in_int : (w h n : ℕ) → 1 ≤ h → h * n ≤ max_int → n ≤ max_int
row_in_int w h n p q = omega (arith, *_le 1 n h n p (omega arith), q)

size-good :
    (n stride h : ℕ)
    → 1 ≤ n
    → n ≤ stride
    → h * n ≤ max_int
    → (ltb stride n || ltb (max_int / n) h) ≡ false
size-good n stride h o p q = ground (arith, le_/ h n max_int o q)

decode_bgra-pix :
    (frame : List ℕ) (w h stride : ℕ)
    → IsFrame frame w h stride
    → (decode_bgra frame (pos w) (pos h) (pos stride)).pix
      ≡ decode_rows frame stride 0 (w * 4) 0 h 0 (zeros (h * (w * 4)))
unfolding decode_bgra
decode_bgra-pix frame w h stride f =
    rw
      (
        good-frame frame w h stride f,
        row_bytes-some w f.some_columns (row_in_int w h (w * 4) f.some_rows f.image_fits),
        size-good (w * 4) stride h (omega (arith, f.some_columns)) f.rows_fit f.image_fits,
      )
      refl

from_top : (y stride : ℕ) → (0 + y) * stride + 0 ≡ y * stride
from_top y stride = omega arith

whole_image : (w h : ℕ) → w * 4 * h ≤ length (zeros (h * (w * 4)))
whole_image w h = rw (length-zeros (h * (w * 4))) (grind arith)

-- Every pixel of the decoded image is the pixel of the frame in its place, with red and blue in
-- their places and opaque, or transparent black where the frame ends before it does.
pub decode_bgra-byte :
    (frame : List ℕ) (w h stride x y c : ℕ)
    → IsFrame frame w h stride
    → x < w
    → y < h
    → c < 4
    → get_elem? (decode_bgra frame (pos w) (pos h) (pos stride)).pix (y * (w * 4) + byte x c)
      ≡ frame_byte frame (y * stride + byte x 0) c
unfolding decode_bgra
decode_bgra-byte frame w h stride x y c f p q k =
    subst (λ b. get_elem? b (y * (w * 4) + byte x c) ≡ frame_byte frame (y * stride + byte x 0) c)
      (sym (decode_bgra-pix frame w h stride f))
      (subst
        (λ b.
          get_elem? (decode_rows frame stride 0 (w * 4) 0 h 0 (zeros (h * (w * 4))))
            (y * (w * 4) + byte x c)
          ≡ frame_byte frame (b + byte x 0) c)
        (from_top y stride)
        (rows-byte frame stride 0 (w * 4) 0 h (omega (arith, f.some_columns, f.rows_fit))
          f.bytes_fit h 0 y x c (zeros (h * (w * 4))) (whole_image w h) (omega arith) (omega arith)
          (omega (arith, q)) (omega (arith, p)) k (zeros-byte w h x y c p q k)))

clip-in :
    (r : Rectangle) (w h x y : ℕ)
    → x < (clip r (pos w) (pos h)).dx
    → y < (clip r (pos w) (pos h)).dy
    → ((clip r (pos w) (pos h)).left + (clip r (pos w) (pos h)).dx ≤ w)
      × ((clip r (pos w) (pos h)).top + (clip r (pos w) (pos h)).dy ≤ h)
clip-in r w h x y p q = (ground (arith, p), ground (arith, q))

-- The part of a region on a frame, where it has a pixel.
module _ (frame : List ℕ) (w h stride : ℕ) (f : IsFrame frame w h stride) (g : Region)
    (some_dx : 1 ≤ g.dx) (some_dy : 1 ≤ g.dy) (left : g.left + g.dx ≤ w)
    (top : g.top + g.dy ≤ h) where
  part_in_int : g.dy * (g.dx * 4) ≤ max_int
  part_in_int = omega (
    arith,
    *_le g.dy (g.dx * 4) h (w * 4) (omega (arith, top)) (omega (arith, left)),
    f.image_fits,
  )

  no_gap : ((g.dx == 0) || (g.dy == 0)) ≡ false
  no_gap = ground (arith, some_dx, some_dy)

  narrow : ltb stride (w * 4) ≡ false
  narrow = ground (arith, f.rows_fit)

  low : ltb (max_int / (g.dx * 4)) g.dy ≡ false
  low = ground (arith, le_/ g.dy (g.dx * 4) max_int (omega (arith, some_dx)) part_in_int)

  pub part-pix : decode_part frame stride g (some (w * 4)) ≡ record {
    width = g.dx;
    height = g.dy;
    pix = decode_rows frame stride (g.left * 4) (g.dx * 4) g.top g.dy 0 (zeros (g.dy * (g.dx * 4)));
  }
  unfolding decode_part
  part-pix =
      rw
        (
          narrow,
          no_gap,
          row_bytes-some g.dx some_dx (row_in_int g.dx g.dy (g.dx * 4) some_dy part_in_int),
          low,
        )
        refl

  pub part-byte :
      (x y c : ℕ)
      → x < g.dx
      → y < g.dy
      → c < 4
      → get_elem? (decode_part frame stride g (some (w * 4))).pix (y * (g.dx * 4) + byte x c)
        ≡ frame_byte frame ((g.top + y) * stride + byte (g.left + x) 0) c
  part-byte x y c p q k =
      subst
        (λ i.
          get_elem? i.pix (y * (g.dx * 4) + byte x c)
          ≡ frame_byte frame ((g.top + y) * stride + byte (g.left + x) 0) c)
        (sym part-pix)
        (subst
          (λ b.
            get_elem?
              (decode_rows frame stride (g.left * 4) (g.dx * 4) g.top g.dy 0
                (zeros (g.dy * (g.dx * 4))))
              (y * (g.dx * 4) + byte x c)
            ≡ frame_byte frame b c)
          (omega arith)
          (rows-byte frame stride (g.left * 4) (g.dx * 4) g.top g.dy
            (omega (arith, f.some_columns, f.rows_fit)) f.bytes_fit g.dy 0 y x c
            (zeros (g.dy * (g.dx * 4))) (whole_image g.dx g.dy) (omega arith) (omega arith)
            (omega (arith, q)) (omega (arith, p)) k (zeros-byte g.dx g.dy x y c p q k)))

decode_bgra_rect-part :
    (frame : List ℕ) (w h stride : ℕ) (r : Rectangle)
    → IsFrame frame w h stride
    → decode_bgra_rect frame (pos w) (pos h) (pos stride) r
      ≡ decode_part frame stride (clip r (pos w) (pos h)) (some (w * 4))
unfolding decode_bgra_rect
decode_bgra_rect-part frame w h stride r f =
    rw
      (
        good-frame frame w h stride f,
        row_bytes-some w f.some_columns (row_in_int w h (w * 4) f.some_rows f.image_fits),
      )
      refl

-- Decoding a region gives the very pixels that it has in the whole decoded image.
pub decode_bgra_rect-crop :
    (frame : List ℕ) (w h stride x y c : ℕ) (r : Rectangle)
    → IsFrame frame w h stride
    → x < (clip r (pos w) (pos h)).dx
    → y < (clip r (pos w) (pos h)).dy
    → c < 4
    → get_elem?
        (decode_bgra_rect frame (pos w) (pos h) (pos stride) r).pix
        (y * ((clip r (pos w) (pos h)).dx * 4) + byte x c)
      ≡ get_elem? (decode_bgra frame (pos w) (pos h) (pos stride)).pix (
          ((clip r (pos w) (pos h)).top + y) * (w * 4) + byte ((clip r (pos w) (pos h)).left + x) c)
decode_bgra_rect-crop frame w h stride x y c r f p q k =
    let g = clip r (pos w) (pos h) in
    let (left, top) = clip-in r w h x y p q in
    subst
      (λ i.
        get_elem? i.pix (y * (g.dx * 4) + byte x c)
        ≡ get_elem? (decode_bgra frame (pos w) (pos h) (pos stride)).pix
            ((g.top + y) * (w * 4) + byte (g.left + x) c))
      (sym (decode_bgra_rect-part frame w h stride r f))
      (part-byte frame w h stride f g (omega (arith, p)) (omega (arith, q)) left top x y c p q k
        ∙ sym (
            decode_bgra-byte frame w h stride (g.left + x) (g.top + y) c f (omega (arith, p, left))
              (omega (arith, q, top)) k))
