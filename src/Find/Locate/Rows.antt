-- ===== src/Find/Locate/Rows.antt =====
-- find/find.go: a pass over the rows finds the first match, in the order of the rows.
use perfuncted.Prelude.{
  ℕ, zero, suc, ◌+◌, ◌-◌, ◌*◌, ◌≤◌, ◌<◌, ◌≡◌, subst, Bool, true, false, length, ltb, arith,
  Bool-cases, inl, inr,
}
use perfuncted.Prelude.Product.{row_mono}
use perfuncted.Find.Image.{Rgba, valid_packed_image_layout}
use perfuncted.Find.Image.Match.{IsMatch}
use perfuncted.Find.Image.Layout.{valid_packed_image_layout-IsValid}
use perfuncted.Find.Locate.{
  RowEnd, row_match, row_anchor, row_done, PassEnd, pass_match, pass_anchor, pass_done, row_start,
  scan_row, after_row, scan_rows,
}
use perfuncted.Find.Locate.Choice.{Anchor}
use perfuncted.Find.Locate.Bounds.{IsAnchor}
use perfuncted.Find.Locate.Row.{IsRowEnd, scan_row-IsRowEnd}

module _ (src ref : Rgba) (s : valid_packed_image_layout src ≡ true)
    (r : valid_packed_image_layout ref ≡ true) where
  -- No match in a row, at the places up to a limit.
  abbrev pub IsBareTo : ℕ → ℕ → Type 0
  IsBareTo y limit = (x : ℕ) → x + ref.width ≤ src.width → x < limit → ¬ IsMatch src ref x y

  abbrev pub IsBareRow : ℕ → Type 0
  IsBareRow y = (x : ℕ) → x + ref.width ≤ src.width → ¬ IsMatch src ref x y

  -- A match at x in row v, and none before it from row y on.
  pub record IsFirstMatch (y x v : ℕ) : Type 0 where
    pub across : x + ref.width ≤ src.width
    pub down : v + ref.height ≤ src.height
    pub from_row : y ≤ v
    pub is_there : IsMatch src ref x v
    pub none_left : IsBareTo v x
    pub none_above : (w : ℕ) → y ≤ w → w < v → IsBareRow w

  abbrev pub IsPassEnd : Bool → ℕ → PassEnd → Type 0
  IsPassEnd first_pass y (pass_match x v) = IsFirstMatch y x v
  IsPassEnd first_pass y (pass_anchor b) = (first_pass ≡ true) × IsAnchor ref b
  IsPassEnd first_pass y pass_done = (w : ℕ) → y ≤ w → w + ref.height ≤ src.height → IsBareRow w

  row_or_later : (y w : ℕ) → IsBareRow y → (y < w → IsBareRow w) → y ≤ w → IsBareRow w
  row_or_later y w bare later p = elim (Bool-cases (ltb y w)) [
    | inl e ↦ later (ground (arith, e))
    | inr e ↦ subst IsBareRow (ground (arith, e, p)) bare
  ]

  one_more :
      (first_pass : Bool) (y : ℕ) (e : PassEnd)
      → IsBareRow y
      → IsPassEnd first_pass (suc y) e
      → IsPassEnd first_pass y e
  one_more first_pass y (pass_match x v) bare h = record {
    across = h.across;
    down = h.down;
    from_row = omega (arith, h.from_row);
    is_there = h.is_there;
    none_left = h.none_left;
    none_above = λ w p q. row_or_later y w bare (λ l. h.none_above w l q) p;
  }
  one_more first_pass y (pass_anchor b) bare h = h
  one_more first_pass y pass_done bare h = λ w p q. row_or_later y w bare (λ l. h w l q) p

  module _ (first_pass : Bool) (a : Anchor) (in_ref : IsAnchor ref a) where
    after_row-IsPassEnd :
        (y : ℕ) (e : RowEnd) (later : ℕ → PassEnd)
        → y + ref.height ≤ src.height
        → IsRowEnd src ref s r first_pass a.start y 0 e
        → ((n : ℕ) → IsPassEnd first_pass (suc y) (later n))
        → IsPassEnd first_pass y (after_row src ref first_pass a y e later)
    after_row-IsPassEnd y (row_match x) later d (f, m, bare) h = record {
      across = f;
      down = d;
      from_row = omega arith;
      is_there = m;
      none_left = λ z g l. bare z g (omega arith, l);
      none_above = λ w p q. absurd (omega (arith, p, q));
    }
    after_row-IsPassEnd y (row_anchor b) later d e h = e
    after_row-IsPassEnd y (row_done n) later d bare h =
        one_more first_pass y (later n) (λ z g. bare z g (omega arith)) (h n)

    row_in_buffer :
        (y : ℕ)
        → y + ref.height ≤ src.height
        → ltb (length src.pix) (row_start src ref first_pass a y + src.width * 4) ≡ false
    row_in_buffer y d =
        let image = (valid_packed_image_layout-IsValid src s).image in
        ground (
          arith,
          row_mono (y + a.row) (src.height - 1) src.stride (omega (arith, d, in_ref.row_in)),
          image.buffer_fits,
        )

    pub scan_rows-IsPassEnd :
        (n y falses : ℕ)
        → y + n + ref.height ≡ suc src.height
        → IsPassEnd first_pass y (scan_rows src ref first_pass a n y falses)
    unfolding scan_rows
    scan_rows-IsPassEnd zero y falses e = λ w p q. absurd (omega (arith, e, p, q))
    scan_rows-IsPassEnd (suc n) y falses e =
        let down : y + ref.height ≤ src.height = omega (arith, e) in
        rw (row_in_buffer y down) (
          after_row-IsPassEnd y (scan_row src ref first_pass a (src.width * 4 + 1) y 0 falses)
            (λ count. scan_rows src ref first_pass a n (suc y) count) down
            (scan_row-IsRowEnd src ref s r first_pass a in_ref y down (src.width * 4 + 1) 0 falses
              (omega arith))
            (λ count. scan_rows-IsPassEnd n (suc y) count (omega (arith, e))))
