-- ===== src/Find/Locate/Choice.antt =====
-- find/find.go: `selectLocateAnchor`, which chooses the bytes of the reference to search for.
use perfuncted.Prelude.{
  ℕ, zero, suc, ◌+◌, ◌-◌, ◌*◌, ◌%◌, Bool, true, not, ◌&&◌, Option, none, some, List, length,
  get_elem?, slice, ltb, ◌==◌, if◌then◌else◌,
}
use perfuncted.Find.Image.{Rgba}

pub record Anchor : Type 0 where
  pub row : ℕ
  pub start : ℕ
  pub len : ℕ

abbrev window_bytes : ℕ
window_bytes = 16

abbrev pub byte_at : List ℕ → ℕ → ℕ
byte_at xs i = elim (get_elem? xs i) [ none ↦ 0 | some v ↦ v ]

abbrev differs : List ℕ → ℕ → ℕ → Bool
differs pixels i j = not (byte_at pixels i == byte_at pixels j)

abbrev pixel_differs : List ℕ → ℕ → Bool
pixel_differs pixels offset = not (
    not (differs pixels offset (offset - 4))
    && (not (differs pixels (offset + 1) (offset - 3))
        && (not (differs pixels (offset + 2) (offset - 2))
            && not (differs pixels (offset + 3) (offset - 1)))))

-- How often a pixel of the row differs from the one before it, from an offset on.
unfoldable pub row_score : ℕ → ℕ → List ℕ → ℕ
row_score zero offset pixels = 0
row_score (suc rounds) offset pixels =
    let rest = row_score rounds (offset + 4) pixels in
    if ltb offset (length pixels) then if pixel_differs pixels offset then suc rest else rest else 0

-- A score that is greater than the best one so far; at first there is none.
abbrev is_better : ℕ → Option ℕ → Bool
is_better score none = true
is_better score (some best) = ltb best score

unfoldable pub best_row : ℕ → ℕ → ℕ → Option ℕ → Rgba → ℕ
unfolding row_score
best_row zero candidate selected score ref = selected
best_row (suc rounds) candidate selected score ref =
    let this = row_score ref.width 4 (slice (candidate * ref.stride) (ref.width * 4) ref.pix) in
    best_row rounds (suc candidate) (if is_better this score then candidate else selected)
      (if is_better this score then some this else score) ref

abbrev pub contrast : ℕ → ℕ → ℕ
contrast a b = if ltb a b then b - a else a - b

unfoldable pub changes : ℕ → ℕ → List ℕ → ℕ
changes zero i row = 0
changes (suc n) i row =
    let rest = changes n (suc i) row in if differs row i (i - 1) then suc rest else rest

abbrev window_score : List ℕ → List ℕ → ℕ → ℕ → ℕ
unfolding changes
window_score row source len candidate =
    contrast (byte_at row candidate) (byte_at source (candidate % 4)) * len
    + changes (len - 1) (suc candidate) row

unfoldable pub best_start : ℕ → ℕ → ℕ → Option ℕ → ℕ → List ℕ → List ℕ → ℕ
unfolding changes
best_start zero candidate start score len row source = start
best_start (suc rounds) candidate start score len row source =
    let this = window_score row source len candidate in
    best_start rounds (suc candidate) (if is_better this score then candidate else start)
      (if is_better this score then some this else score) len row source

abbrev pub window_length : ℕ → ℕ
window_length row_bytes = if ltb row_bytes window_bytes then row_bytes else window_bytes

unfoldable pub anchor_in : Rgba → ℕ → List ℕ → Anchor
unfolding best_start
anchor_in ref row source =
    let bytes = slice (row * ref.stride) (ref.width * 4) ref.pix in
    let len = window_length (ref.width * 4) in
    record {
      row = row;
      start = best_start (ref.width * 4 - len + 1) 0 0 none len bytes source;
      len = len;
    }

-- The reads of the reference and of the pixel are in bounds where it is called.
unfoldable pub select_locate_anchor : Rgba → List ℕ → Anchor
unfolding best_row best_start
select_locate_anchor ref source =
    anchor_in ref (if ltb 1 ref.height then best_row (ref.height - 1) 1 1 none ref else 0) source
