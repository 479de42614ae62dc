-- ===== src/Find/Color/Point.antt =====
-- find/find.go: a point that `PixelFound` reports is in the rectangle of the screen it is asked for.
use perfuncted.Prelude.{
  ℕ, zero, suc, ◌+◌, ◌*◌, ◌≤◌, ◌<◌, ◌≡◌, subst, Bool, true, false, length, leb, arith, Bool-cases,
  inl, inr,
}
use perfuncted.Prelude.Int.{ℤ, pos, leb_ℤ, ◌+ℤ◌, ◌≤ℤ◌, ◌<ℤ◌}
use perfuncted.Screen.Geometry.{Rectangle, is_empty_rect}
use perfuncted.Find.Image.{Rgba, packed_buffer_size, holds_size}
use perfuncted.Find.Color.{
  Capture, Color, Area, covers, span, no_more_than, scan_area, Seen, seen, unseen, out_of_range,
  or_later, color_at, is_close, scan_columns, scan_lines, scan_packed_pixels, Found, point,
  no_pixel, index_panic, at_point, pixel_found,
}

-- A place between two limits; the others see none.
abbrev IsWithin : ℕ → ℕ → ℕ → ℕ → Seen → Type 0
IsWithin left columns top rows (seen x y) =
    (left ≤ x) × (x < left + columns) × (top ≤ y) × (y < top + rows)
IsWithin left columns top rows unseen = 0 ≤ 0
IsWithin left columns top rows out_of_range = 0 ≤ 0

module _ (img : Rgba) (straight_alpha : Bool) (target : Color) (tolerance : ℕ) where
  scan_columns-IsWithin :
      (n x y off left columns : ℕ)
      → left ≤ x
      → x + n ≤ left + columns
      → IsWithin left columns y 1 (scan_columns img straight_alpha target tolerance n x y off)
  unfolding scan_columns
  scan_columns-IsWithin zero x y off left columns p q = omega arith
  scan_columns-IsWithin (suc n) x y off left columns p q =
      let later =
        scan_columns-IsWithin n (suc x) y (off + 4) left columns (omega (arith, p))
          (omega (arith, q)) in
      elim (Bool-cases (leb (length img.pix) (off + 3))) [
        | inl e ↦ rw e (omega arith)
        | inr e1 ↦ elim (Bool-cases (is_close target tolerance (color_at img straight_alpha off))) [
          | inl e ↦ rw (e1, e) (p, omega (arith, q), omega arith, omega arith)
          | inr e ↦ rw (e1, e) later
        ]
      ]

  join_places :
      (left columns top rows : ℕ) (a b : Seen)
      → IsWithin left columns top 1 a
      → IsWithin left columns (suc top) rows b
      → IsWithin left columns top (suc rows) (or_later a b)
  join_places left columns top rows (seen x y) b p q = (p.0, p.1, p.2, omega (arith, p.3))
  join_places left columns top rows out_of_range b p q = omega arith
  join_places left columns top rows unseen (seen x y) p q =
      (q.0, q.1, omega (arith, q.2), omega (arith, q.3))
  join_places left columns top rows unseen unseen p q = omega arith
  join_places left columns top rows unseen out_of_range p q = omega arith

  scan_lines-IsWithin :
      (n y left columns : ℕ)
      → IsWithin left columns y n (scan_lines img straight_alpha target tolerance n y left columns)
  unfolding scan_lines
  scan_lines-IsWithin zero y left columns = omega arith
  scan_lines-IsWithin (suc n) y left columns =
      join_places left columns y n
        (scan_columns img straight_alpha target tolerance columns left y
          (y * img.stride + left * 4))
        (scan_lines img straight_alpha target tolerance n (suc y) left columns)
        (scan_columns-IsWithin columns left y (y * img.stride + left * 4) left columns (omega arith)
          (omega arith))
        (scan_lines-IsWithin n (suc y) left columns)

  scan_packed_pixels-IsWithin :
      (a : Area)
      → IsWithin a.left a.columns a.top a.rows
          (scan_packed_pixels img straight_alpha target tolerance a)
  unfolding scan_packed_pixels
  scan_packed_pixels-IsWithin a = elim (Bool-cases (holds_size img (packed_buffer_size img))) [
    | inl e ↦ rw e (scan_lines-IsWithin a.rows a.top a.left a.columns)
    | inr e ↦ rw e (omega arith)
  ]

-- A point of the screen is in a rectangle of it.
pub record IsIn (r : Rectangle) (x y : ℤ) : Type 0 where
  pub from_x : r.min_x ≤ℤ x
  pub to_x : x <ℤ r.max_x
  pub from_y : r.min_y ≤ℤ y
  pub to_y : y <ℤ r.max_y

-- The coordinates of an area that a scan can report are those of the rectangle.
abbrev IsPartOf : ℤ → ℤ → ℤ → ℕ → ℕ → Type 0
IsPartOf low high origin first count =
    (x : ℕ)
    → first ≤ x
    → x < first + count
    → (low ≤ℤ (origin +ℤ pos x)) × ((origin +ℤ pos x) <ℤ high)

contained-IsPartOf :
    (clow low high : ℤ)
    → leb_ℤ clow low ≡ true
    → leb_ℤ high low ≡ false
    → IsPartOf low high clow (span clow low) (span low high)
contained-IsPartOf clow low high a b x p q = ground (arith, a, b, p, q)

region-IsPartOf :
    (low high : ℤ) (size : ℕ)
    → leb_ℤ high low ≡ false
    → IsPartOf low high low 0 (no_more_than (span low high) size)
region-IsPartOf low high size b x p q = ground (arith, b, p, q)

area-parts :
    (c : Capture) (r : Rectangle)
    → is_empty_rect r ≡ false
    → IsPartOf r.min_x r.max_x (scan_area c r).origin_x (scan_area c r).left (scan_area c r).columns
      × IsPartOf r.min_y r.max_y (scan_area c r).origin_y (scan_area c r).top (scan_area c r).rows
unfolding scan_area
area-parts c r e = elim (Bool-cases (covers c r)) [
  | inl inside ↦
      rw (e, inside)
        (
          contained-IsPartOf c.min_x r.min_x r.max_x (ground (arith, inside)) (ground (arith, e)),
          contained-IsPartOf c.min_y r.min_y r.max_y (ground (arith, inside)) (ground (arith, e)),
        )
  | inr outside ↦
      rw (e, outside)
        (
          region-IsPartOf r.min_x r.max_x c.image.width (ground (arith, e)),
          region-IsPartOf r.min_y r.max_y c.image.height (ground (arith, e)),
        )
]

-- What a found point says.
abbrev IsFoundIn : Rectangle → Found → Type 0
IsFoundIn r (point x y) = IsIn r x y
IsFoundIn r no_pixel = 0 ≤ 0
IsFoundIn r index_panic = 0 ≤ 0

at_point-IsFoundIn :
    (r : Rectangle) (a : Area) (s : Seen)
    → IsPartOf r.min_x r.max_x a.origin_x a.left a.columns
    → IsPartOf r.min_y r.max_y a.origin_y a.top a.rows
    → IsWithin a.left a.columns a.top a.rows s
    → IsFoundIn r (at_point a s)
at_point-IsFoundIn r a (seen x y) p q w =
    let in_x = p x w.0 w.1 in
    let in_y = q y w.2 w.3 in
    record { from_x = in_x.0; to_x = in_x.1; from_y = in_y.0; to_y = in_y.1 }
at_point-IsFoundIn r a unseen p q w = omega arith
at_point-IsFoundIn r a out_of_range p q w = omega arith

-- A point that is found for a rectangle that is not empty is a point of the rectangle.
pub pixel_found-IsIn :
    (c : Capture) (r : Rectangle) (target : Color) (tolerance : ℕ) (x y : ℤ)
    → is_empty_rect r ≡ false
    → pixel_found c r target tolerance ≡ point x y
    → IsIn r x y
unfolding pixel_found
pixel_found-IsIn c r target tolerance x y e found =
    let parts = area-parts c r e in
    subst (IsFoundIn r) found (
      at_point-IsFoundIn r (scan_area c r)
        (scan_packed_pixels c.image c.straight_alpha target tolerance (scan_area c r)) parts.0
        parts.1
        (scan_packed_pixels-IsWithin c.image c.straight_alpha target tolerance (scan_area c r)))
