-- ===== src/Find/Locate/First.antt =====
-- find/find.go: `LocateExactInImage` beside a search that tries each place in turn.
use perfuncted.Prelude.{
  ℕ, zero, suc, ◌+◌, ◌-◌, ◌≤◌, ◌≡◌, refl, sym, ap, subst, true, false, not, ◌||◌, none, some, ltb,
  ◌==◌, if◌then◌else◌, arith, Bool-cases, inl, inr,
}
use perfuncted.Screen.Geometry.{Rectangle, is_empty_rect}
use perfuncted.Find.Image.{Rgba, valid_packed_image_layout, match_at}
use perfuncted.Find.Image.Match.{IsMatch}
use perfuncted.Find.Image.Layout.{valid_packed_image_layout-IsValid, match_at-IsMatch}
use perfuncted.Find.Locate.{
  PassEnd, pass_match, pass_anchor, pass_done, place, not_found, first_anchor, scan_rows,
  second_pass, first_pass_end, locate_in_source, locate_exact_in_image, translate, empty_area,
}
use perfuncted.Find.Locate.Bounds.{IsAnchor}
use perfuncted.Find.Locate.Rows.{IsFirstMatch, IsBareRow, IsPassEnd, scan_rows-IsPassEnd}
use perfuncted.Find.Locate.Plain.{
  plain_row, plain_rows, plain_locate, plain_row-none, plain_row-some,
}

module _ (src ref : Rgba) (s : valid_packed_image_layout src ≡ true)
    (r : valid_packed_image_layout ref ≡ true) (narrow : ref.width ≤ src.width) where
  no_match :
      (x y : ℕ)
      → x + ref.width ≤ src.width
      → y + ref.height ≤ src.height
      → ¬ IsMatch src ref x y
      → match_at src ref x y ≡ false
  no_match x y f d h = elim (Bool-cases (match_at src ref x y)) [
    | inl e ↦ absurd (h ((match_at-IsMatch src ref x y s r f d).0 e))
    | inr e ↦ e
  ]

  bare_row :
      (y : ℕ)
      → y + ref.height ≤ src.height
      → IsBareRow src ref s r y
      → plain_row src ref (src.width - ref.width + 1) 0 y ≡ none
  bare_row y d h =
      plain_row-none src ref (src.width - ref.width + 1) 0 y
        (λ z p q. no_match z y (omega (arith, q, narrow)) d (h z (omega (arith, q, narrow))))

  plain_rows-none :
      (n y : ℕ)
      → y + n + ref.height ≡ suc src.height
      → ((w : ℕ) → y ≤ w → w + ref.height ≤ src.height → IsBareRow src ref s r w)
      → plain_rows src ref n y ≡ not_found
  unfolding plain_rows
  plain_rows-none zero y e h = refl
  plain_rows-none (suc n) y e h =
      let d : y + ref.height ≤ src.height = omega (arith, e) in
      rw (bare_row y d (h y (omega arith) d))
        (plain_rows-none n (suc y) (omega (arith, e)) (λ w p q. h w (omega (arith, p)) q))

  first_in_row :
      (y x v : ℕ)
      → IsFirstMatch src ref s r y x v
      → plain_row src ref (src.width - ref.width + 1) 0 v ≡ some x
  first_in_row y x v h =
      plain_row-some src ref (src.width - ref.width + 1) 0 v x
        ((match_at-IsMatch src ref x v s r h.across h.down).1 h.is_there) (omega arith)
        (omega (arith, h.across))
        (λ z p q.
          let f : z + ref.width ≤ src.width = omega (arith, q, h.across) in
          no_match z v f h.down (h.none_left z f q))

  plain_rows-some :
      (n y x v : ℕ)
      → y + n + ref.height ≡ suc src.height
      → IsFirstMatch src ref s r y x v
      → plain_rows src ref n y ≡ place x v
  unfolding plain_rows
  plain_rows-some zero y x v e h = absurd (omega (arith, e, h.from_row, h.down))
  plain_rows-some (suc n) y x v e h = elim (Bool-cases (ltb y v)) [
    | inl more ↦
        rw (bare_row y (omega (arith, e)) (h.none_above y (omega arith) (ground (arith, more)))) (
          plain_rows-some n (suc y) x v (omega (arith, e)) (record {
            across = h.across;
            down = h.down;
            from_row = ground (arith, more);
            is_there = h.is_there;
            none_left = h.none_left;
            none_above = λ w p q. h.none_above w (omega (arith, p)) q;
          }))
    | inr here ↦
        let same : v ≡ y = ground (arith, here, h.from_row) in
        rw
          (subst (λ k. plain_row src ref (src.width - ref.width + 1) 0 k ≡ some x) same
            (first_in_row y x v h))
          (ap (place x) (sym same))
  ]

  module _ (low : ref.height ≤ src.height) where
    second_pass-plain :
        (e : PassEnd)
        → IsPassEnd src ref s r false 0 e
        → second_pass e ≡ plain_rows src ref (src.height - ref.height + 1) 0
    second_pass-plain (pass_match x v) h =
        sym (plain_rows-some (src.height - ref.height + 1) 0 x v (omega (arith, low)) h)
    second_pass-plain (pass_anchor b) h = absurd (ground (arith, h.0))
    second_pass-plain pass_done h =
        sym (plain_rows-none (src.height - ref.height + 1) 0 (omega (arith, low)) h)

    first_pass_end-plain :
        (e : PassEnd)
        → IsPassEnd src ref s r true 0 e
        → first_pass_end src ref e ≡ plain_rows src ref (src.height - ref.height + 1) 0
    unfolding first_pass_end
    first_pass_end-plain (pass_match x v) h =
        sym (plain_rows-some (src.height - ref.height + 1) 0 x v (omega (arith, low)) h)
    first_pass_end-plain (pass_anchor b) h =
        second_pass-plain (scan_rows src ref false b (src.height - ref.height + 1) 0 0) (
          scan_rows-IsPassEnd src ref s r false b h.1 (src.height - ref.height + 1) 0 0
            (omega (arith, low)))
    first_pass_end-plain pass_done h =
        sym (plain_rows-none (src.height - ref.height + 1) 0 (omega (arith, low)) h)

    first_anchor-IsAnchor : IsAnchor ref first_anchor
    first_anchor-IsAnchor =
        let image = (valid_packed_image_layout-IsValid ref r).image in
        record {
          row_in = image.rows;
          some_bytes = omega arith;
          bytes_in = omega (arith, image.columns);
        }

    passes-plain :
        first_pass_end src ref
          (scan_rows src ref true first_anchor (src.height - ref.height + 1) 0 0)
        ≡ plain_rows src ref (src.height - ref.height + 1) 0
    passes-plain =
        first_pass_end-plain (scan_rows src ref true first_anchor (src.height - ref.height + 1) 0 0)
          (scan_rows-IsPassEnd src ref s r true first_anchor first_anchor-IsAnchor
            (src.height - ref.height + 1) 0 0 (omega (arith, low)))

locate_in_source-plain_locate : (src ref : Rgba) → locate_in_source src ref ≡ plain_locate src ref
unfolding locate_in_source plain_locate
locate_in_source-plain_locate src ref = elim (Bool-cases ((ref.width == 0) || (ref.height == 0))) [
  | inl e ↦ rw e refl
  | inr e1 ↦
      elim (Bool-cases
        (not (valid_packed_image_layout src) || not (valid_packed_image_layout ref))) [
          | inl e ↦ rw (e1, e) refl
          | inr e2 ↦ elim (Bool-cases (ltb src.width ref.width || ltb src.height ref.height)) [
            | inl e ↦ rw (e1, e2, e) refl
            | inr e3 ↦
                rw (e1, e2, e3)
                  (passes-plain src ref (ground (arith, e2)) (ground (arith, e2))
                    (ground (arith, e3)) (ground (arith, e3)))
          ]
        ]
]

-- Behind the check that the search area is not empty, the search by anchors gives what the search of
-- each place in turn gives, moved to the search area: the first match in the order of the rows, or
-- that there is none, or the same error.
pub locate_exact_in_image-plain_locate :
    (area : Rectangle) (src ref : Rgba)
    → locate_exact_in_image area src ref
      ≡ (if is_empty_rect area then empty_area else translate area ref (plain_locate src ref))
unfolding locate_exact_in_image
locate_exact_in_image-plain_locate area src ref =
    ap (λ p. if is_empty_rect area then empty_area else translate area ref p)
      (locate_in_source-plain_locate src ref)
