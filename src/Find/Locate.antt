-- ===== src/Find/Locate.antt =====
-- find/find.go: the exact search of a reference image, on the path for two RGBA images. A row of the
-- source is searched for the bytes of an anchor in the reference; where many of its places turn out
-- to be false candidates, the search begins again with an anchor that is chosen to stand out.
pub mod Choice
mod Bounds
mod Index
mod Bytes
mod Row
mod Rows
mod Plain
pub mod First
mod Examples
use Choice.{Anchor, select_locate_anchor}
use perfuncted.Prelude.{
  ℕ, zero, suc, ◌+◌, ◌-◌, ◌*◌, ◌/◌, ◌%◌, Bool, true, false, not, ◌&&◌, ◌||◌, Option, none, some,
  List, [], ◌∷◌, length, is_empty, drop, slice, ltb, leb, is_some, ◌==◌, if◌then◌else◌,
}
use perfuncted.Prelude.Int.{pos, ◌+ℤ◌}
use perfuncted.Screen.Geometry.{Rectangle, is_empty_rect}
use perfuncted.Find.Image.{Rgba, packed_row_bytes, valid_packed_image_layout, match_at}

abbrev pub is_prefix : List ℕ → List ℕ → Bool
is_prefix [] s = true
is_prefix (c ∷ sep) [] = false
is_prefix (c ∷ sep) (d ∷ s) = (c == d) && is_prefix sep s

abbrev next_index : Option ℕ → Option ℕ
next_index none = none
next_index (some i) = some (suc i)

-- `bytes.Index`
unfoldable pub index : List ℕ → List ℕ → Option ℕ
index [] sep = if is_empty sep then some 0 else none
index (c ∷ s) sep =
    let rest = next_index (index s sep) in if is_prefix sep (c ∷ s) then some 0 else rest

abbrev pub fallback_candidates : ℕ
fallback_candidates = 8

abbrev pub first_anchor : Anchor
first_anchor = record { row = 0; start = 0; len = 4 }

-- How the search of a row ends: at a match, with another anchor, or with the false candidates so far.
pub data RowEnd : Type 0 where
  row_match : ℕ → RowEnd
  row_anchor : Anchor → RowEnd
  row_done : ℕ → RowEnd

pub data PassEnd : Type 0 where
  pass_match : ℕ → ℕ → PassEnd
  pass_anchor : Anchor → PassEnd
  pass_done : PassEnd

abbrev is_first_anchor : Anchor → Bool
is_first_anchor a = (a.row == 0) && ((a.start == 0) && (a.len == 4))

module _ (src ref : Rgba) (first_pass : Bool) (a : Anchor) where
  abbrev pub anchor_bytes : List ℕ
  anchor_bytes = slice (a.row * ref.stride + a.start) a.len ref.pix

  abbrev pub row_start : ℕ → ℕ
  row_start y = (y + a.row) * src.stride

  -- The place of a candidate is that of a whole pixel where the reference fits.
  abbrev pub is_place : ℕ → Bool
  is_place at =
      leb a.start at
      && (((at - a.start) % 4 == 0) && leb ((at - a.start) / 4 + ref.width) src.width)

  -- A false candidate: the last one of the first pass may choose another anchor.
  abbrev pub choose : ℕ → ℕ → ℕ → RowEnd → RowEnd
  choose y at falses rest =
      if first_pass && (suc falses == fallback_candidates)
      then (let chosen =
            select_locate_anchor ref (slice (row_start y + (at - a.start)) 4 src.pix) in
          if is_first_anchor chosen then rest else row_anchor chosen)
      else rest

  -- The loop over a row, for so many rounds.
  unfoldable pub scan_row : ℕ → ℕ → ℕ → ℕ → RowEnd
  scan_row zero y from falses = row_done falses
  scan_row (suc rounds) y from falses =
      if leb (src.width * 4) from
      then row_done falses
      else elim (index (drop from (slice (row_start y) (src.width * 4) src.pix)) anchor_bytes) [
        | none ↦ row_done falses
        | some offset ↦
            let at = from + offset in
            let fits = is_place at in
            let hit = match_at src ref ((at - a.start) / 4) y in
            let rest = scan_row rounds y (suc at) (if fits then suc falses else falses) in
            if fits
            then if hit then row_match ((at - a.start) / 4) else choose y at falses rest
            else rest
      ]

  abbrev pub after_row : ℕ → RowEnd → (ℕ → PassEnd) → PassEnd
  after_row y (row_match x) later = pass_match x y
  after_row y (row_anchor b) later = pass_anchor b
  after_row y (row_done falses) later = later falses

  -- The loop over the rows, from row y on; a row that is not in the buffer ends it.
  unfoldable pub scan_rows : ℕ → ℕ → ℕ → PassEnd
  scan_rows zero y falses = pass_done
  scan_rows (suc n) y falses =
      if ltb (length src.pix) (row_start y + src.width * 4)
      then pass_done
      else after_row y (scan_row (src.width * 4 + 1) y 0 falses)
          (λ count. scan_rows n (suc y) count)

pub data Place : Type 0 where
  place : ℕ → ℕ → Place
  not_found too_large malformed empty_reference : Place

abbrev second_pass : PassEnd → Place
second_pass (pass_match x y) = place x y
second_pass (pass_anchor b) = not_found
second_pass pass_done = not_found

first_pass_end : Rgba → Rgba → PassEnd → Place
unfolding scan_rows
first_pass_end src ref (pass_match x y) = place x y
first_pass_end src ref (pass_anchor b) =
    second_pass (scan_rows src ref false b (src.height - ref.height + 1) 0 0)
first_pass_end src ref pass_done = not_found

-- `LocateExactInImage` behind the check of its area, with the place of the match in the source.
unfoldable pub locate_in_source : Rgba → Rgba → Place
unfolding first_pass_end scan_rows
locate_in_source src ref =
    if (ref.width == 0) || (ref.height == 0)
    then empty_reference
    else if not (valid_packed_image_layout src) || not (valid_packed_image_layout ref)
    then malformed
    else if ltb src.width ref.width || ltb src.height ref.height
    then too_large
    else first_pass_end src ref
        (scan_rows src ref true first_anchor (src.height - ref.height + 1) 0 0)

-- A rectangle of the screen, or an error.
pub data Located : Type 0 where
  located : Rectangle → Located
  no_match reference_too_large malformed_layout empty_image empty_area : Located

-- `translateRect` from the corner of the source to that of the search area.
abbrev pub translate : Rectangle → Rgba → Place → Located
translate area ref (place x y) = located (record {
  min_x = area.min_x +ℤ pos x;
  min_y = area.min_y +ℤ pos y;
  max_x = area.min_x +ℤ pos (x + ref.width);
  max_y = area.min_y +ℤ pos (y + ref.height);
})
translate area ref not_found = no_match
translate area ref too_large = reference_too_large
translate area ref malformed = malformed_layout
translate area ref empty_reference = empty_image

unfoldable pub locate_exact_in_image : Rectangle → Rgba → Rgba → Located
unfolding locate_in_source
locate_exact_in_image area src ref =
    if is_empty_rect area then empty_area else translate area ref (locate_in_source src ref)
