-- ===== src/Find/Locate/Examples.antt =====
-- Runs of the search on small images, one of them with an anchor that is chosen in the first pass.
use perfuncted.Prelude.{if◌then◌else◌, ℕ, ◌≡◌, ◌↔◌, refl, true, List, [], ◌∷◌, ◌++◌, zeros, arith}
use perfuncted.Prelude.Int.{pos, negsuc}
use perfuncted.Screen.Geometry.{Rectangle, is_empty_rect}
use perfuncted.Prelude.Text.{text_eq}
use perfuncted.Find.Image.{Rgba, rows_match, valid_packed_image_layout, match_at}
use perfuncted.Find.Image.Match.{IsMatch}
use perfuncted.Find.Image.Layout.{match_at-IsMatch}
use perfuncted.Find.Locate.{
  locate_in_source, translate, empty_area, located, scan_row, index, locate_exact_in_image,
}
use perfuncted.Find.Locate.Choice.{anchor_in, select_locate_anchor}
use perfuncted.Find.Locate.Plain.{plain_locate}
use perfuncted.Find.Locate.First.{locate_exact_in_image-plain_locate}

-- Three rows of four pixels, with some bytes after each row.
abbrev dark : List ℕ
dark = zeros 4

abbrev light : List ℕ
light = 9 ∷ 8 ∷ 7 ∷ 6 ∷ []

abbrev screen : Rgba
screen = record {
  width = 4;
  height = 3;
  stride = 20;
  pix =
      dark ++ dark ++ dark ++ dark ++ dark ++ dark ++ dark ++ dark ++ light ++ dark ++ dark ++ dark
      ++ light ++ light ++ dark;
}

abbrev patch : Rgba
patch = record { width = 2; height = 2; stride = 8; pix = dark ++ light ++ light ++ light }

-- A screen of ten dark pixels and one that is light, with eight false candidates.
abbrev strip : Rgba
strip = record {
  width = 12;
  height = 1;
  stride = 48;
  pix =
      dark ++ dark ++ dark ++ dark ++ dark ++ dark ++ dark ++ dark ++ dark ++ dark ++ dark ++ light;
}

abbrev edge : Rgba
edge = record { width = 2; height = 1; stride = 8; pix = dark ++ light }

-- The area of the screen that the captures are of.
abbrev monitor : Rectangle
monitor = record { min_x = negsuc 1; min_y = pos 5; max_x = pos 30; max_y = pos 20 }

locate_patch_test :
    locate_exact_in_image monitor screen patch
    ≡ located (record { min_x = pos 0; min_y = pos 6; max_x = pos 2; max_y = pos 8 })
unfolding locate_exact_in_image locate_in_source valid_packed_image_layout scan_row index match_at
    rows_match text_eq
locate_patch_test = refl

-- After eight false candidates the anchor is the whole row of the reference.
select_edge_test : select_locate_anchor edge dark ≡ record { row = 0; start = 0; len = 8 }
unfolding select_locate_anchor anchor_in
select_edge_test = refl

locate_edge_test :
    locate_exact_in_image monitor strip edge
    ≡ located (record { min_x = pos 8; min_y = pos 5; max_x = pos 10; max_y = pos 6 })
unfolding locate_exact_in_image locate_in_source valid_packed_image_layout scan_row index match_at
    rows_match text_eq select_locate_anchor anchor_in
locate_edge_test = refl

screen_valid : valid_packed_image_layout screen ≡ true
unfolding valid_packed_image_layout
screen_valid = refl

patch_valid : valid_packed_image_layout patch ≡ true
unfolding valid_packed_image_layout
patch_valid = refl

match_at-IsMatch_example : (match_at screen patch 2 1 ≡ true) ↔ IsMatch screen patch 2 1
match_at-IsMatch_example =
    match_at-IsMatch screen patch 2 1 screen_valid patch_valid (omega arith) (omega arith)

locate_exact_in_image-plain_locate_example : locate_exact_in_image monitor strip edge ≡ (
    if is_empty_rect monitor then empty_area else translate monitor edge (plain_locate strip edge))
locate_exact_in_image-plain_locate_example = locate_exact_in_image-plain_locate monitor strip edge
