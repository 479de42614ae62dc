-- ===== src/Window/Geometry.antt =====
-- window/geometry.go: the sizes and positions that every backend can carry.
use perfuncted.Prelude.{
  ℕ, ◌-◌, ◌%◌, ◌^◌, ◌≡◌, ◌↔◌, ◌≢◌, ◌||◌, Option, none, some, if◌then◌else◌, arith,
}
use perfuncted.Prelude.Int.{ℤ, pos, negsuc, ◌≤ℤ◌, ltb_ℤ, leb_ℤ}

abbrev pub max_dimension : ℕ
max_dimension = 2 ^ 16 - 1

-- The error texts are left out: an error names the argument and what is wrong with it.
pub data Axis : Type 0 where
  width height x y : Axis

pub data SizeErr : Type 0 where
  not_positive too_large out_of_range : Axis → SizeErr

validate_dimension : Axis → ℤ → Option SizeErr
validate_dimension name value =
    if leb_ℤ value (pos 0)
    then some (not_positive name)
    else if ltb_ℤ (pos max_dimension) value
    then some (too_large name)
    else none

abbrev or_else : Option SizeErr → Option SizeErr → Option SizeErr
or_else (some e) rest = some e
or_else none rest = rest

pub validate_size : ℤ → ℤ → Option SizeErr
unfolding validate_dimension
validate_size w h = or_else (validate_dimension width w) (validate_dimension height h)

abbrev pub min_int32 : ℤ
min_int32 = negsuc (2 ^ 31 - 1)

abbrev pub max_int32 : ℤ
max_int32 = pos (2 ^ 31 - 1)

validate_coordinate : Axis → ℤ → Option SizeErr
validate_coordinate name value =
    if ltb_ℤ value min_int32 || ltb_ℤ max_int32 value then some (out_of_range name) else none

pub validate_position : ℤ → ℤ → Option SizeErr
unfolding validate_coordinate
validate_position a b = or_else (validate_coordinate x a) (validate_coordinate y b)

-- What a uint16 of X11, and an int32 of the GNOME bridge, keep of an integer.
abbrev pub to_uint16 : ℤ → ℤ
to_uint16 (pos n) = pos (n % 2 ^ 16)
to_uint16 (negsuc n) = pos (2 ^ 16 - 1 - n % 2 ^ 16)

-- A size passes exactly if both edges lie between 1 and `max_dimension`.
pub validate_size_iff :
    (w h : ℤ)
    → (validate_size w h ≡ none)
      ↔ ((pos 1 ≤ℤ w) × (w ≤ℤ pos max_dimension) × (pos 1 ≤ℤ h) × (h ≤ℤ pos max_dimension))
unfolding validate_size
validate_size_iff w h = (λ e. ground arith, λ e. ground arith)

-- A size passes exactly if no edge is 0 and the X11 protocol, which keeps 16 bits, carries both
-- edges unchanged.
pub validate_size-to_uint16 :
    (w h : ℤ)
    → (validate_size w h ≡ none)
      ↔ ((to_uint16 w ≡ w) × (to_uint16 h ≡ h) × (w ≢ pos 0) × (h ≢ pos 0))
unfolding validate_size
validate_size-to_uint16 w h = (λ e. ground arith, λ e. ground arith)

-- A position passes exactly if both coordinates are int32 values.
pub validate_position_iff :
    (a b : ℤ)
    → (validate_position a b ≡ none)
      ↔ ((min_int32 ≤ℤ a) × (a ≤ℤ max_int32) × (min_int32 ≤ℤ b) × (b ≤ℤ max_int32))
unfolding validate_position
validate_position_iff a b = (λ e. ground arith, λ e. ground arith)
