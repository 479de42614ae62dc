-- ===== src/Window/Examples.antt =====
-- Sizes, positions and folded texts at concrete values.
use perfuncted.Prelude.{◌+◌, ◌≡◌, ◌≢◌, ◌↔◌, none}
use perfuncted.Prelude.Int.{pos, negsuc, ◌≤ℤ◌}
use perfuncted.Prelude.Text.{codes}
use perfuncted.Window.Geometry.{
  min_int32, max_int32, max_dimension, validate_size, validate_position, to_uint16,
  validate_size_iff, validate_size-to_uint16, validate_position_iff,
}
use perfuncted.Window.Fold.{
  contains_fold_lower, contains, to_lower, contains_fold_lower-eq-contains,
}

size_checked : (validate_size (pos 640) (pos 65536) ≡ none) ↔ (
    (pos 1 ≤ℤ pos 640)
    × (pos 640 ≤ℤ pos max_dimension)
    × (pos 1 ≤ℤ pos 65536)
    × (pos 65536 ≤ℤ pos max_dimension))
size_checked = validate_size_iff (pos 640) (pos 65536)

validate_size-to_uint16_example : (validate_size (pos 640) (negsuc 0) ≡ none) ↔ (
    (to_uint16 (pos 640) ≡ pos 640)
    × (to_uint16 (negsuc 0) ≡ negsuc 0)
    × (pos 640 ≢ pos 0)
    × (negsuc 0 ≢ pos 0))
validate_size-to_uint16_example = validate_size-to_uint16 (pos 640) (negsuc 0)

validate_position_iff_test : (validate_position (negsuc 9) (pos 20) ≡ none) ↔ (
    (min_int32 ≤ℤ negsuc 9)
    × (negsuc 9 ≤ℤ max_int32)
    × (min_int32 ≤ℤ pos 20)
    × (pos 20 ≤ℤ max_int32))
validate_position_iff_test = validate_position_iff (negsuc 9) (pos 20)

contains_fold_lower-eq-contains_example :
    contains_fold_lower (λ c. c + 32) (codes "Ärger im EDITOR") (codes "editor")
    ≡ contains (to_lower (λ c. c + 32) (codes "Ärger im EDITOR")) (codes "editor")
contains_fold_lower-eq-contains_example =
    contains_fold_lower-eq-contains (λ c. c + 32) (codes "Ärger im EDITOR") (codes "editor")
