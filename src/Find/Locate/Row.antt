-- ===== src/Find/Locate/Row.antt =====
-- find/find.go: the search of one row finds the first match of it, from a byte on.
use perfuncted.Prelude.{
  ℕ, zero, suc, ◌+◌, ◌-◌, ◌*◌, ◌/◌, ◌≤◌, ◌<◌, ◌≡◌, sym, subst, Bool, true, ◌&&◌, drop, slice, ltb,
  leb, ◌==◌, if◌then◌else◌, arith, Bool-cases, Option-cases, inl, inr,
}
use perfuncted.Find.Image.{Rgba, match_at, valid_packed_image_layout}
use perfuncted.Find.Image.Match.{IsMatch}
use perfuncted.Find.Image.Layout.{valid_packed_image_layout-IsValid, match_at-IsMatch}
use perfuncted.Find.Locate.{
  fallback_candidates, is_first_anchor, index, RowEnd, row_match, row_anchor, row_done,
  anchor_bytes, row_start, is_place, choose, scan_row,
}
use perfuncted.Find.Locate.Choice.{Anchor, select_locate_anchor}
use perfuncted.Find.Locate.Bounds.{IsAnchor, select_locate_anchor-IsAnchor}
use perfuncted.Find.Locate.Bytes.{row_bytes, found_before, place_of, is_place_fits}

module _ (src ref : Rgba) (s : valid_packed_image_layout src ≡ true)
    (r : valid_packed_image_layout ref ≡ true) where
  -- No match at the places of row y that satisfy a condition.
  abbrev pub IsBare : ℕ → (ℕ → Type 0) → Type 0
  IsBare y among = (x : ℕ) → x + ref.width ≤ src.width → among x → ¬ IsMatch src ref x y

  -- What the end of a row says, where the search begins at a byte with the bytes at start.
  abbrev pub IsRowEnd : Bool → ℕ → ℕ → ℕ → RowEnd → Type 0
  IsRowEnd first_pass start y from (row_match x) =
      (x + ref.width ≤ src.width)
      × IsMatch src ref x y
      × IsBare y (λ z. (from ≤ z * 4 + start) × (z < x))
  IsRowEnd first_pass start y from (row_anchor b) = (first_pass ≡ true) × IsAnchor ref b
  IsRowEnd first_pass start y from (row_done n) = IsBare y (λ z. from ≤ z * 4 + start)

  widen :
      (first_pass : Bool) (start y from later : ℕ) (e : RowEnd)
      → IsRowEnd first_pass start y later e
      → IsBare y (λ z. (from ≤ z * 4 + start) × (z * 4 + start < later))
      → IsRowEnd first_pass start y from e
  widen first_pass start y from later (row_match x) (p, q, h) none_between = (
    p,
    q,
    λ z f c m. elim (Bool-cases (ltb (z * 4 + start) later)) [
      | inl before ↦ none_between z f (c.0, ground (arith, before)) m
      | inr after ↦ h z f (ground (arith, after), c.1) m
    ],
  )
  widen first_pass start y from later (row_anchor b) h none_between = h
  widen first_pass start y from later (row_done n) h none_between = λ z f c m.
      elim (Bool-cases (ltb (z * 4 + start) later)) [
        | inl before ↦ none_between z f (c, ground (arith, before)) m
        | inr after ↦ h z f (ground (arith, after)) m
      ]

  module _ (first_pass : Bool) (a : Anchor) (in_ref : IsAnchor ref a) (y : ℕ)
      (down : y + ref.height ≤ src.height) where
    chosen_end :
        (at falses from : ℕ) (rest : RowEnd)
        → IsRowEnd first_pass a.start y from rest
        → IsRowEnd first_pass a.start y from (choose src ref first_pass a y at falses rest)
    chosen_end at falses from rest h =
        let source = slice (row_start src ref first_pass a y + (at - a.start)) 4 src.pix in
        let image = (valid_packed_image_layout-IsValid ref r).image in
        elim (Bool-cases (first_pass && (suc falses == fallback_candidates))) [
          | inr e ↦ rw e h
          | inl e ↦ elim (Bool-cases (is_first_anchor (select_locate_anchor ref source))) [
            | inl same ↦ rw (e, same) h
            | inr other ↦
                rw (e, other)
                  (
                    ground (arith, e),
                    select_locate_anchor-IsAnchor ref source image.columns image.rows,
                  )
          ]
        ]

    -- Where no match is before it, a match up to a byte is at it.
    match_there :
        (from at z : ℕ)
        → IsBare y (λ x. (from ≤ x * 4 + a.start) × (x * 4 + a.start < at))
        → z + ref.width ≤ src.width
        → (from ≤ z * 4 + a.start) × (z * 4 + a.start < suc at)
        → IsMatch src ref z y
        → (is_place src ref first_pass a at ≡ true)
          × (match_at src ref ((at - a.start) / 4) y ≡ true)
    match_there from at z before f c m = elim (Bool-cases (ltb (z * 4 + a.start) at)) [
      | inl earlier ↦ absurd (before z f (c.0, ground (arith, earlier)) m)
      | inr later ↦
          let same : z * 4 + a.start ≡ at = ground (arith, later, c.1) in
          let place = place_of src ref s r first_pass a in_ref y down z f in
          (
            subst (λ t. is_place src ref first_pass a t ≡ true) same place.0,
            subst (λ t. match_at src ref ((t - a.start) / 4) y ≡ true) same
                (subst (λ x. match_at src ref x y ≡ true) (sym place.1)
                  ((match_at-IsMatch src ref z y s r f down).1 m)),
          )
    ]

    -- What is found at a place, where no match is before it.
    candidate_end :
        (at falses from : ℕ) (rest : RowEnd)
        → IsRowEnd first_pass a.start y (suc at) rest
        → IsBare y (λ z. (from ≤ z * 4 + a.start) × (z * 4 + a.start < at))
        → IsRowEnd first_pass a.start y from (
            if is_place src ref first_pass a at
            then if match_at src ref ((at - a.start) / 4) y
              then row_match ((at - a.start) / 4)
              else choose src ref first_pass a y at falses rest
            else rest)
    candidate_end at falses from rest h before =
        elim (Bool-cases (is_place src ref first_pass a at)) [
          | inr e ↦ rw e (
              widen first_pass a.start y from (suc at) rest h
                (λ z f c m. ground (arith, e, (match_there from at z before f c m).0)))
          | inl e ↦
              let place = is_place_fits src ref s r first_pass a in_ref y down at e in
              elim (Bool-cases (match_at src ref ((at - a.start) / 4) y)) [
                | inl hit ↦
                    rw (e, hit)
                      (
                        place.0,
                        (match_at-IsMatch src ref ((at - a.start) / 4) y s r place.0 down).0 hit,
                        λ z f c m. before z f (c.0, omega (arith, c.1, place.1)) m,
                      )
                | inr miss ↦
                    rw (e, miss)
                      (chosen_end at falses from rest (
                        widen first_pass a.start y from (suc at) rest h (λ z f c m.
                          ground (arith, miss, (match_there from at z before f c m).1))))
              ]
        ]

    pub scan_row-IsRowEnd :
        (rounds from falses : ℕ)
        → src.width * 4 < rounds + from
        → IsRowEnd first_pass a.start y from (scan_row src ref first_pass a rounds y from falses)
    unfolding scan_row
    scan_row-IsRowEnd zero from falses enough =
        λ z f c m. omega (arith, enough, f, c, in_ref.some_bytes, in_ref.bytes_in)
    scan_row-IsRowEnd (suc rounds) from falses enough =
        elim (Bool-cases (leb (src.width * 4) from)) [
          | inl over ↦
              rw over (λ z f c m. ground (arith, over, f, c, in_ref.some_bytes, in_ref.bytes_in))
          | inr more ↦
              elim (Option-cases (
                index (drop from (row_bytes src ref s r first_pass a in_ref y down))
                  (anchor_bytes src ref first_pass a))) [
                    | inl nowhere ↦
                        rw (more, nowhere)
                          (λ z f c m. ground (
                            arith,
                            nowhere,
                            (found_before src ref s r first_pass a in_ref y down z from f c m).1,
                          ))
                    | inr (offset, here) ↦
                        rw (more, here)
                          (candidate_end (from + offset) falses from _
                            (scan_row-IsRowEnd rounds (suc (from + offset)) _
                              (omega (arith, enough)))
                            (λ z f c m.
                              let found =
                                found_before src ref s r first_pass a in_ref y down z from f c.0
                                  m in
                              ground (arith, found.1, found.2, here, c)))
                  ]
        ]
