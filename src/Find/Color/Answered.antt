-- ===== src/Find/Color/Answered.antt =====
-- find/find.go: the point that `FindColor` answers is in the rectangle, and it never panics.
use perfuncted.Prelude.{
  List, [], ◌∷◌, ℕ, ◌≤◌, ◌≡◌, ◌||◌, refl, Bool, true, false, arith, Bool-cases, inl, inr,
  if◌then◌else◌,
}
use perfuncted.Prelude.Int.{ℤ, pos, pos_part, ltb_ℤ}
use perfuncted.Screen.Geometry.{Rectangle, is_empty_rect}
use perfuncted.Find.Image.{valid_packed_image_layout}
use perfuncted.Find.Color.{
  Capture, Color, Area, Seen, seen, unseen, out_of_range, Found, point, no_pixel, index_panic,
  scan_area, at_point, pixel_found, Grabbed, grabbed, grab_failed, nil_image, Answer,
  color_at_point, unavailable, cancelled, invalid_tolerance, grab_error, nil_error, color_not_found,
  color_panic, answer, grabbed_color, find_color,
}
use perfuncted.Find.Color.Places.{
  Place, close_at, first_place, area_places, pixel_found-first_place,
}
use perfuncted.Find.Color.Point.{IsIn, pixel_found-IsIn}

-- A point of the rectangle, or an error.
abbrev pub IsAnswer : Rectangle → Answer → Type 0
IsAnswer r (color_at_point x y) = IsIn r x y
IsAnswer r color_panic = 1 ≤ 0
IsAnswer r unavailable = 0 ≤ 0
IsAnswer r cancelled = 0 ≤ 0
IsAnswer r invalid_tolerance = 0 ≤ 0
IsAnswer r grab_error = 0 ≤ 0
IsAnswer r nil_error = 0 ≤ 0
IsAnswer r color_not_found = 0 ≤ 0

abbrev in_range : Seen → Bool
in_range (seen x y) = true
in_range unseen = true
in_range out_of_range = false

first_place-in_range :
    (test : Place → Bool) (ps : List Place) → in_range (first_place test ps) ≡ true
unfolding first_place
first_place-in_range test [] = refl
first_place-in_range test (p ∷ ps) = elim (Bool-cases (test p)) [
  | inl h ↦ rw h refl
  | inr h ↦ rw h (first_place-in_range test ps)
]

abbrev is_panic : Found → Bool
is_panic (point x y) = false
is_panic no_pixel = false
is_panic index_panic = true

at_point-in_range : (a : Area) (s : Seen) → in_range s ≡ true → is_panic (at_point a s) ≡ false
at_point-in_range a (seen x y) e = refl
at_point-in_range a unseen e = refl
at_point-in_range a out_of_range e = absurd (ground (arith, e))

pixel_found-is_panic :
    (c : Capture) (r : Rectangle) (target : Color) (tolerance : ℕ)
    → is_panic (pixel_found c r target tolerance) ≡ false
pixel_found-is_panic c r target tolerance =
    rw (pixel_found-first_place c r target tolerance) (either (valid_packed_image_layout c.image))
  where
    either :
        (b : Bool)
        → is_panic (
            if b
            then at_point (scan_area c r) (
                first_place (close_at c.image c.straight_alpha target tolerance) (
                  area_places
                    (scan_area c r).rows
                    (scan_area c r).top
                    (scan_area c r).left
                    (scan_area c r).columns))
            else no_pixel)
          ≡ false
    either false = refl
    either true = at_point-in_range (scan_area c r) _ (
        first_place-in_range (close_at c.image c.straight_alpha target tolerance) (
          area_places (scan_area c r).rows (scan_area c r).top (scan_area c r).left
            (scan_area c r).columns))

answer-IsAnswer :
    (r : Rectangle) (f : Found)
    → is_panic f ≡ false
    → ((x y : ℤ) → f ≡ point x y → IsIn r x y)
    → IsAnswer r (answer f)
answer-IsAnswer r (point x y) e h = h x y refl
answer-IsAnswer r no_pixel e h = omega arith
answer-IsAnswer r index_panic e h = absurd (ground (arith, e))

-- For a rectangle that is not empty, FindColor answers with a point of the rectangle or with an
-- error; it does not panic.
pub find_color-IsAnswer :
    (available done_first done_after done_last : Bool) (grab : Grabbed) (r : Rectangle)
    (target : Color) (tolerance : ℤ)
    → is_empty_rect r ≡ false
    → IsAnswer r (find_color available done_first done_after done_last grab r target tolerance)
unfolding find_color grabbed_color
find_color-IsAnswer false done_first done_after done_last grab r target tolerance e = omega arith
find_color-IsAnswer true true done_after done_last grab r target tolerance e = omega arith
find_color-IsAnswer true false done_after done_last grab r target tolerance e =
    elim (Bool-cases (ltb_ℤ tolerance (pos 0) || ltb_ℤ (pos 255) tolerance)) [
      | inl bad ↦ rw bad (omega arith)
      | inr good ↦ rw good (after done_after done_last grab)
    ]
  where
    after :
        (a b : Bool) (g : Grabbed) → IsAnswer r (grabbed_color a b g r target (pos_part tolerance))
    after a b grab_failed = omega arith
    after a b nil_image = omega arith
    after true b (grabbed c) = omega arith
    after false true (grabbed c) = omega arith
    after false false (grabbed c) =
        answer-IsAnswer r (pixel_found c r target (pos_part tolerance))
          (pixel_found-is_panic c r target (pos_part tolerance))
          (λ x y. pixel_found-IsIn c r target (pos_part tolerance) x y e)
