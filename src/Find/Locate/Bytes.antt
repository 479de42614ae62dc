-- ===== src/Find/Locate/Bytes.antt =====
-- find/find.go: where a match is in a row, the bytes of the anchor are found there or before.
use perfuncted.Prelude.{
  ℕ, ◌+◌, ◌-◌, ◌*◌, ◌/◌, ◌≤◌, ◌<◌, ◌≡◌, sym, ◌∙◌, ap, Bool, true, some, List, length, drop, slice,
  length-slice, get_elem?, get_elem?-slice, get_elem?-drop, arith,
}
use perfuncted.Prelude.Product.{row_mono}
use perfuncted.Find.Image.{Rgba, valid_packed_image_layout}
use perfuncted.Find.Image.Match.{IsMatch}
use perfuncted.Find.Image.Layout.{valid_packed_image_layout-IsValid}
use perfuncted.Find.Locate.{index, anchor_bytes, row_start, is_place}
use perfuncted.Find.Locate.Choice.{Anchor}
use perfuncted.Find.Locate.Bounds.{IsAnchor}
use perfuncted.Find.Locate.Index.{index_found, is_prefix_bytes}

module _ (src ref : Rgba) (s : valid_packed_image_layout src ≡ true)
    (r : valid_packed_image_layout ref ≡ true) where
  module _ (first_pass : Bool) (a : Anchor) (in_ref : IsAnchor ref a) (y : ℕ)
      (down : y + ref.height ≤ src.height) where
    abbrev pub row_bytes : List ℕ
    row_bytes = slice (row_start src ref first_pass a y) (src.width * 4) src.pix

    -- Where a match is, the bytes of the anchor are in the row.
    match_bytes :
        (x : ℕ)
        → x + ref.width ≤ src.width
        → IsMatch src ref x y
        → (i : ℕ) → i < a.len
        → get_elem? row_bytes (x * 4 + a.start + i)
          ≡ get_elem? (anchor_bytes src ref first_pass a) i
    match_bytes x f m i p =
        get_elem?-slice (row_start src ref first_pass a y) (src.width * 4) (x * 4 + a.start + i)
          src.pix (omega (arith, f, p, in_ref.bytes_in))
        ∙ ap (λ t. get_elem? src.pix t) (omega arith)
        ∙ m a.row in_ref.row_in (a.start + i) (omega (arith, p, in_ref.bytes_in))
        ∙ ap (λ t. get_elem? ref.pix t) (omega arith)
        ∙ sym (get_elem?-slice (a.row * ref.stride + a.start) a.len i ref.pix p)

    anchor_length : length (anchor_bytes src ref first_pass a) ≡ a.len
    anchor_length =
        let image = (valid_packed_image_layout-IsValid ref r).image in
        length-slice (a.row * ref.stride + a.start) a.len ref.pix (
          omega (
            arith,
            in_ref.bytes_in,
            row_mono a.row (ref.height - 1) ref.stride (omega (arith, in_ref.row_in)),
            image.buffer_fits,
          ))

    -- A match at x is found at its place or before it.
    pub found_before :
        (x from : ℕ)
        → x + ref.width ≤ src.width
        → from ≤ x * 4 + a.start
        → IsMatch src ref x y
        → (k : ℕ) × (index (drop from row_bytes) (anchor_bytes src ref first_pass a) ≡ some k)
          × (from + k ≤ x * 4 + a.start)
    found_before x from f l m =
        let back = x * 4 + a.start - from in
        let found = index_found (drop from row_bytes) (anchor_bytes src ref first_pass a) back (
          is_prefix_bytes (anchor_bytes src ref first_pass a) (drop back (drop from row_bytes))
            (λ i p.
              get_elem?-drop back i (drop from row_bytes)
              ∙ get_elem?-drop from (back + i) row_bytes
              ∙ ap (λ t. get_elem? row_bytes t) (omega (arith, l))
              ∙ match_bytes x f m i (omega (arith, p, anchor_length)))) in
        (found.0, found.1, omega (arith, found.2, l))

    pub place_of :
        (x : ℕ)
        → x + ref.width ≤ src.width
        → (is_place src ref first_pass a (x * 4 + a.start) ≡ true)
          × ((x * 4 + a.start - a.start) / 4 ≡ x)
    place_of x f = (ground (arith, f), omega arith)

    pub is_place_fits :
        (at : ℕ)
        → is_place src ref first_pass a at ≡ true
        → ((at - a.start) / 4 + ref.width ≤ src.width) × ((at - a.start) / 4 * 4 + a.start ≡ at)
    is_place_fits at e = ground (arith, e)
