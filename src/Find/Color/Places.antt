-- ===== src/Find/Color/Places.antt =====
-- find/find.go: `PixelFound` reports the first close pixel of the places that it is to look at.
use perfuncted.Prelude.{
  ℕ, zero, suc, ◌+◌, ◌-◌, ◌*◌, ◌≤◌, ◌<◌, ◌≡◌, refl, sym, ap, Bool, true, false, List, [], ◌∷◌, ◌++◌,
  length, leb, if◌then◌else◌, arith, Bool-cases, inl, inr,
}
use perfuncted.Prelude.Int.{ℤ, pos, leb_ℤ, ◌+ℤ◌}
use perfuncted.Prelude.Product.{row_mono}
use perfuncted.Screen.Geometry.{Rectangle, is_empty_rect}
use perfuncted.Find.Image.{Rgba, valid_packed_image_layout}
use perfuncted.Find.Image.Match.{IsImage}
use perfuncted.Find.Image.Layout.{valid_packed_image_layout-IsValid}
use perfuncted.Find.Color.{
  Capture, Color, Area, covers, span, scan_area, Seen, seen, unseen, or_later, color_at, is_close,
  scan_columns, scan_lines, scan_packed_pixels, no_pixel, at_point, pixel_found,
}

-- A place counts from the corner of the image.
pub record Place : Type 0 where
  pub column : ℕ
  pub line : ℕ

unfoldable pub row_places : ℕ → ℕ → ℕ → List Place
row_places zero x y = []
row_places (suc n) x y = record { column = x; line = y } ∷ row_places n (suc x) y

-- The places of an area, line by line.
unfoldable pub area_places : ℕ → ℕ → ℕ → ℕ → List Place
unfolding row_places
area_places zero y left columns = []
area_places (suc n) y left columns = row_places columns left y ++ area_places n (suc y) left columns

unfoldable pub first_place : (Place → Bool) → List Place → Seen
first_place test [] = unseen
first_place test (p ∷ ps) =
    let rest = first_place test ps in if test p then seen p.column p.line else rest

first_place-append :
    (test : Place → Bool) (ps qs : List Place)
    → first_place test (ps ++ qs) ≡ or_later (first_place test ps) (first_place test qs)
unfolding first_place
first_place-append test [] qs = refl
first_place-append test (p ∷ ps) qs = elim (Bool-cases (test p)) [
  | inl e ↦ rw e refl
  | inr e ↦ rw e (first_place-append test ps qs)
]

-- The area is a part of the image.
pub record IsInside (img : Rgba) (a : Area) : Type 0 where
  pub across : a.left + a.columns ≤ img.width
  pub down : a.top + a.rows ≤ img.height

module _ (img : Rgba) (straight_alpha : Bool) (target : Color) (tolerance : ℕ) where
  -- The pixel of an image at a place is close to the colour.
  abbrev pub close_at : Place → Bool
  close_at p =
      is_close target tolerance (color_at img straight_alpha (p.line * img.stride + p.column * 4))

  module _ (r : IsImage img) where
    in_range_at :
        (x y off : ℕ)
        → x < img.width
        → y < img.height
        → off ≡ y * img.stride + x * 4
        → leb (length img.pix) (off + 3) ≡ false
    in_range_at x y off p q e =
        ground
          (arith, p, e, row_mono y (img.height - 1) img.stride (omega (arith, q)), r.buffer_fits)

    scan_columns-first_place :
        (n x y off : ℕ)
        → x + n ≤ img.width
        → y < img.height
        → off ≡ y * img.stride + x * 4
        → scan_columns img straight_alpha target tolerance n x y off
          ≡ first_place close_at (row_places n x y)
    unfolding scan_columns row_places first_place
    scan_columns-first_place zero x y off f d e = refl
    scan_columns-first_place (suc n) x y off f d e =
        rw
          (
            in_range_at x y off (omega (arith, f)) d e,
            ap (λ t. is_close target tolerance (color_at img straight_alpha t)) e,
            scan_columns-first_place n (suc x) y (off + 4) (omega (arith, f)) d (omega (arith, e)),
          )
          refl

    scan_lines-first_place :
        (n y left columns : ℕ)
        → y + n ≤ img.height
        → left + columns ≤ img.width
        → scan_lines img straight_alpha target tolerance n y left columns
          ≡ first_place close_at (area_places n y left columns)
    unfolding scan_lines area_places first_place
    scan_lines-first_place zero y left columns d f = refl
    scan_lines-first_place (suc n) y left columns d f =
        rw
          (
            scan_columns-first_place columns left y (y * img.stride + left * 4) f (omega (arith, d))
                refl,
            scan_lines-first_place n (suc y) left columns (omega (arith, d)) f,
          )
          (sym (
            first_place-append close_at (row_places columns left y)
              (area_places n (suc y) left columns)))

module _ (low rlow rhigh : ℤ) (size : ℕ) where
  part_inside :
      leb_ℤ low rlow ≡ true
      → leb_ℤ rhigh (low +ℤ pos size) ≡ true
      → leb_ℤ rhigh rlow ≡ false
      → span low rlow + span rlow rhigh ≤ size
  part_inside a b c = ground (arith, a, b, c)

scan_area-IsInside : (c : Capture) (r : Rectangle) → IsInside c.image (scan_area c r)
unfolding scan_area
scan_area-IsInside c r = elim (Bool-cases (is_empty_rect r)) [
  | inl e ↦ rw e (record { across = omega arith; down = omega arith })
  | inr e1 ↦ elim (Bool-cases (covers c r)) [
    | inl e ↦
        rw (e1, e)
          (record {
            across =
                part_inside c.min_x r.min_x r.max_x c.image.width (ground (arith, e))
                  (ground (arith, e)) (ground (arith, e1));
            down =
                part_inside c.min_y r.min_y r.max_y c.image.height (ground (arith, e))
                  (ground (arith, e)) (ground (arith, e1));
          })
    | inr e ↦ rw (e1, e) (record { across = ground arith; down = ground arith })
  ]
]

-- What is found is the first place of the area, line by line, where the colour is close; nothing is
-- found where the layout of the image is not valid, and no read is out of the range of its buffer.
pub pixel_found-first_place :
    (c : Capture) (r : Rectangle) (target : Color) (tolerance : ℕ)
    → pixel_found c r target tolerance ≡ (
        if valid_packed_image_layout c.image
        then at_point (scan_area c r) (
            first_place (close_at c.image c.straight_alpha target tolerance) (
              area_places
                (scan_area c r).rows
                (scan_area c r).top
                (scan_area c r).left
                (scan_area c r).columns))
        else no_pixel)
unfolding pixel_found scan_packed_pixels valid_packed_image_layout
pixel_found-first_place c r target tolerance =
    elim (Bool-cases (valid_packed_image_layout c.image)) [
      | inr e ↦ rw e refl
      | inl e ↦
          let inside = scan_area-IsInside c r in
          rw
            (
              e,
              scan_lines-first_place c.image c.straight_alpha target tolerance
                  (valid_packed_image_layout-IsValid c.image e).image (scan_area c r).rows
                  (scan_area c r).top (scan_area c r).left (scan_area c r).columns inside.down
                  inside.across,
            )
            refl
    ]
