-- ===== src/Find/Locate/Bounds.antt =====
-- find/find.go: the anchor that `selectLocateAnchor` chooses is in the reference.
use perfuncted.Prelude.{
  ℕ, zero, suc, ◌+◌, ◌-◌, ◌*◌, ◌≤◌, ◌<◌, ◌≡◌, refl, Bool, true, false, Option, none, List, slice,
  ltb, if◌then◌else◌, arith,
}
use perfuncted.Find.Image.{Rgba}
use perfuncted.Find.Locate.Choice.{
  Anchor, best_row, best_start, window_length, anchor_in, select_locate_anchor,
}

-- The bytes of an anchor are in a row of the reference, and they are not empty.
pub record IsAnchor (ref : Rgba) (a : Anchor) : Type 0 where
  pub row_in : a.row < ref.height
  pub some_bytes : 1 ≤ a.len
  pub bytes_in : a.start + a.len ≤ ref.width * 4

chosen : (b : Bool) (m n limit : ℕ) → m ≤ limit → n ≤ limit → (if b then m else n) ≤ limit
chosen true m n limit p q = p
chosen false m n limit p q = q

best_row_in :
    (rounds candidate selected : ℕ) (score : Option ℕ) (ref : Rgba) (limit : ℕ)
    → selected ≤ limit
    → candidate + rounds ≤ suc limit
    → best_row rounds candidate selected score ref ≤ limit
unfolding best_row
best_row_in zero candidate selected score ref limit p q = p
best_row_in (suc rounds) candidate selected score ref limit p q =
    best_row_in rounds (suc candidate) _ _ ref limit
      (chosen _ candidate selected limit (omega (arith, q)) p) (omega (arith, q))

best_start_in :
    (rounds candidate start : ℕ) (score : Option ℕ) (len : ℕ) (row source : List ℕ) (limit : ℕ)
    → start ≤ limit
    → candidate + rounds ≤ suc limit
    → best_start rounds candidate start score len row source ≤ limit
unfolding best_start
best_start_in zero candidate start score len row source limit p q = p
best_start_in (suc rounds) candidate start score len row source limit p q =
    best_start_in rounds (suc candidate) _ _ len row source limit
      (chosen _ candidate start limit (omega (arith, q)) p) (omega (arith, q))

window_length_in : (n : ℕ) → 1 ≤ n → (1 ≤ window_length n) × (window_length n ≤ n)
window_length_in n p = (ground (arith, p), ground arith)

anchor_in-IsAnchor :
    (ref : Rgba) (row : ℕ) (source : List ℕ)
    → 1 ≤ ref.width
    → row < ref.height
    → IsAnchor ref (anchor_in ref row source)
unfolding anchor_in
anchor_in-IsAnchor ref row source wide r =
    let w = window_length_in (ref.width * 4) (omega (arith, wide)) in
    record {
      row_in = r;
      some_bytes = w.0;
      bytes_in = omega (
        arith,
        w.1,
        best_start_in (ref.width * 4 - window_length (ref.width * 4) + 1) 0 0 none
            (window_length (ref.width * 4)) (slice (row * ref.stride) (ref.width * 4) ref.pix)
            source (ref.width * 4 - window_length (ref.width * 4)) (omega arith) (omega arith),
      );
    }

last_row : (ref : Rgba) → 1 < ref.height → best_row (ref.height - 1) 1 1 none ref < ref.height
last_row ref p = omega (
  arith,
  p,
  best_row_in (ref.height - 1) 1 1 none ref (ref.height - 1) (omega (arith, p)) (omega (arith, p)),
)

pub select_locate_anchor-IsAnchor :
    (ref : Rgba) (source : List ℕ)
    → 1 ≤ ref.width
    → 1 ≤ ref.height
    → IsAnchor ref (select_locate_anchor ref source)
unfolding select_locate_anchor
select_locate_anchor-IsAnchor ref source wide high =
    anchor_in-IsAnchor ref (if ltb 1 ref.height then best_row (ref.height - 1) 1 1 none ref else 0)
      source wide (row_in_image (ltb 1 ref.height) refl)
  where
    row_in_image :
        (b : Bool)
        → ltb 1 ref.height ≡ b
        → (if b then best_row (ref.height - 1) 1 1 none ref else 0) < ref.height
    row_in_image true e = last_row ref (ground (arith, e))
    row_in_image false e = high
