-- ===== src/Screen/Rows.antt =====
-- screen/pixels.go: the rows that the decoders write, one after the other.
use perfuncted.Prelude.{
  slice, length-slice, get_elem?-slice, ℕ, zero, suc, ◌+◌, ◌-◌, ◌*◌, ◌/◌, ◌≤◌, ◌<◌, ◌≡◌, refl, sym,
  subst, ◌∙◌, Bool, true, false, ◌⊎◌, inl, inr, Option, some, List, length, get_elem?, ltb, leb,
  if◌then◌else◌, arith, Bool-cases,
}
use perfuncted.Screen.Geometry.{max_int}
use perfuncted.Screen.Pixels.{copy_bgra, decode_row, decode_rows}
use perfuncted.Prelude.Product.{/_lt, row_fits, row_before, row_mono}
use perfuncted.Screen.Slices.{length-splice, get_elem?-splice}
use perfuncted.Screen.Swapped.{byte, opaque, length-copy_bgra, copy_bgra-byte}

-- What a frame has for a pixel: a pixel that is not whole is transparent black.
abbrev pub frame_byte : List ℕ → ℕ → ℕ → Option ℕ
frame_byte frame base c = if leb (base + 4) (length frame) then opaque frame base c else some 0

opaque-slice :
    (start n base c : ℕ) (xs : List ℕ)
    → base + 4 ≤ n
    → opaque (slice start n xs) base c ≡ opaque xs (start + base) c
opaque-slice start n base zero xs h =
    ground (arith, get_elem?-slice start n (base + 2) xs (omega (arith, h)))
opaque-slice start n base (suc zero) xs h =
    ground (arith, get_elem?-slice start n (base + 1) xs (omega (arith, h)))
opaque-slice start n base (suc (suc zero)) xs h =
    ground (arith, get_elem?-slice start n base xs (omega (arith, h)))
opaque-slice start n base (suc (suc (suc c))) xs h = refl

leb_le : (a b : ℕ) → leb a b ≡ true → a ≤ b
leb_le a b e = ground arith

lt_of_not : (a b : ℕ) → leb a b ≡ false → b < a
lt_of_not a b e = ground arith

lt_of : (a b : ℕ) → ltb a b ≡ true → a < b
lt_of a b e = ground arith

below : (y z : ℕ) → y ≤ z → (y ≡ z) ⊎ (suc y ≤ z)
below y z p = ground arith

-- Either stop leaves the image as it is.
stopped-same :
    (a b : Bool) (p q : List ℕ) (i : ℕ)
    → get_elem? q i ≡ get_elem? p i
    → get_elem? (if a then p else if b then p else q) i ≡ get_elem? p i
stopped-same true b p q i e = refl
stopped-same false true p q i e = refl
stopped-same false false p q i e = e

stopped-byte :
    (a b : Bool) (p q : List ℕ) (i : ℕ) (v : Option ℕ)
    → (a ≡ true → get_elem? p i ≡ v)
    → (b ≡ true → get_elem? p i ≡ v)
    → (b ≡ false → get_elem? q i ≡ v)
    → get_elem? (if a then p else if b then p else q) i ≡ v
stopped-byte true b p q i v f g k = f refl
stopped-byte false true p q i v f g k = g refl
stopped-byte false false p q i v f g k = k refl

module _ (frame : List ℕ) (start rb off : ℕ) (pix : List ℕ) (fits : off + rb ≤ length pix) where
  abbrev row_length : ℕ
  row_length = if leb rb (length frame - start) then rb else length frame - start

  abbrev copied : List ℕ
  copied = copy_bgra (slice off rb pix) (slice start row_length frame)

  length-copied : length copied ≡ rb
  length-copied =
      length-copy_bgra (slice off rb pix) (slice start row_length frame)
      ∙ length-slice off rb pix fits

  pub length-decode_row : length (decode_row frame start rb off pix) ≡ length pix
  unfolding decode_row
  length-decode_row = length-splice pix copied off (omega (arith, length-copied, fits))

  pub decode_row-other :
      (i : ℕ)
      → (i < off) ⊎ (off + rb ≤ i)
      → get_elem? (decode_row frame start rb off pix) i ≡ get_elem? pix i
  unfolding decode_row
  decode_row-other i o = ground (
    arith,
    get_elem?-splice pix copied off i (omega (arith, length-copied, fits)),
    length-copied,
    o,
  )

  abbrev source : List ℕ
  source = slice start row_length frame

  length-source : start < length frame → length source ≡ row_length
  length-source s = length-slice start row_length frame (ground arith)

  copied-byte :
      (x c : ℕ)
      → byte x 4 ≤ rb
      → c < 4
      → get_elem? (decode_row frame start rb off pix) (off + byte x c) ≡ get_elem? copied (byte x c)
  unfolding decode_row
  copied-byte x c h k = ground (
    arith,
    get_elem?-splice pix copied off (off + byte x c) (omega (arith, length-copied, fits)),
    length-copied,
    h,
    k,
  )

  source-byte :
      (x c : ℕ)
      → start < length frame
      → byte x 4 ≤ rb
      → c < 4
      → get_elem? pix (off + byte x c) ≡ some 0
      → (if leb (byte x 4) (length source)
          then opaque source (byte x 0) c
          else get_elem? (slice off rb pix) (byte x c))
        ≡ frame_byte frame (start + byte x 0) c
  source-byte x c s h k z = elim (Bool-cases (leb (byte x 4) (length source))) [
    | inl e ↦ rw e (
        ground (
          arith,
          opaque-slice start row_length (byte x 0) c frame
              (omega (arith, length-source s, leb_le (byte x 4) (length source) e)),
          length-source s,
        ))
    | inr e ↦ rw e (
        ground
          (arith, get_elem?-slice off rb (byte x c) pix (omega (arith, h, k)), length-source s))
  ]

  pub decode_row-byte :
      (x c : ℕ)
      → start < length frame
      → byte x 4 ≤ rb
      → c < 4
      → get_elem? pix (off + byte x c) ≡ some 0
      → get_elem? (decode_row frame start rb off pix) (off + byte x c)
        ≡ frame_byte frame (start + byte x 0) c
  unfolding decode_row
  decode_row-byte x c s h k z =
      copied-byte x c h k
      ∙ copy_bgra-byte (slice off rb pix) source x c k
          (omega (arith, length-slice off rb pix fits, h))
      ∙ source-byte x c s h k z

-- The rows, from row y on, of an image that has no others below.
module _ (frame : List ℕ) (stride x_offset rb first_row h : ℕ) (s : 1 ≤ stride)
    (l : length frame ≤ max_int) where
  abbrev pub base : ℕ → ℕ
  base y = (first_row + y) * stride + x_offset

  -- A row beyond the data, or one whose place would overflow, and all the rows below, have no byte
  -- in the data.
  row-beyond :
      (y z : ℕ)
      → ltb ((max_int - x_offset) / stride) (first_row + y) ≡ true
      → y ≤ z
      → length frame ≤ base z
  row-beyond y z e p = omega (
    arith,
    /_lt (first_row + y) (max_int - x_offset) stride s
        (lt_of ((max_int - x_offset) / stride) (first_row + y) e),
    row_mono (first_row + y) (first_row + z) stride (omega (arith, p)),
    l,
  )

  row-below : (y z : ℕ) → length frame ≤ base y → y ≤ z → length frame ≤ base z
  row-below y z e p =
      omega (arith, row_mono (first_row + y) (first_row + z) stride (omega (arith, p)), e)

  frame_byte-beyond :
      (z x c : ℕ) → length frame ≤ base z → frame_byte frame (base z + byte x 0) c ≡ some 0
  frame_byte-beyond z x c e = ground arith

  row_in : (y : ℕ) (pix : List ℕ) → rb * h ≤ length pix → y < h → y * rb + rb ≤ length pix
  row_in y pix f b = omega (arith, row_fits y h rb rb b (omega arith), f)

  pub rows-other :
      (n y i : ℕ) (pix : List ℕ)
      → rb * h ≤ length pix
      → y + n ≤ h
      → i < y * rb
      → get_elem? (decode_rows frame stride x_offset rb first_row n y pix) i ≡ get_elem? pix i
  unfolding decode_rows
  rows-other zero y i pix f g b = refl
  rows-other (suc n) y i pix f g b =
      let fits = row_in y pix f (omega (arith, g)) in
      let row = decode_row frame (base y) rb (y * rb) pix in
      stopped-same (ltb ((max_int - x_offset) / stride) (first_row + y))
        (leb (length frame) (base y)) pix
        (decode_rows frame stride x_offset rb first_row n (suc y) row) i
        (rows-other n (suc y) i row
            (omega (arith, f, length-decode_row frame (base y) rb (y * rb) pix fits))
            (omega (arith, g)) (omega (arith, b, row_before y (suc y) rb (omega arith)))
          ∙ decode_row-other frame (base y) rb (y * rb) pix fits i (inl b))

  pub rows-byte :
      (n y z x c : ℕ) (pix : List ℕ)
      → rb * h ≤ length pix
      → y + n ≤ h
      → y ≤ z
      → z < y + n
      → byte x 4 ≤ rb
      → c < 4
      → get_elem? pix (z * rb + byte x c) ≡ some 0
      → get_elem? (decode_rows frame stride x_offset rb first_row n y pix) (z * rb + byte x c)
        ≡ frame_byte frame (base z + byte x 0) c
  unfolding decode_rows
  rows-byte zero y z x c pix f g a b d k q = ground arith
  rows-byte (suc n) y z x c pix f g a b d k q =
      let fits = row_in y pix f (omega (arith, g)) in
      let row = decode_row frame (base y) rb (y * rb) pix in
      let rest = decode_rows frame stride x_offset rb first_row n (suc y) row in
      let kept : rb * h ≤ length row =
        omega (arith, f, length-decode_row frame (base y) rb (y * rb) pix fits) in
      stopped-byte (ltb ((max_int - x_offset) / stride) (first_row + y))
        (leb (length frame) (base y)) pix rest (z * rb + byte x c)
        (frame_byte frame (base z + byte x 0) c)
        (λ e. q ∙ sym (frame_byte-beyond z x c (row-beyond y z e a)))
        (λ e.
          q ∙ sym (frame_byte-beyond z x c (row-below y z (leb_le (length frame) (base y) e) a)))
        (λ e. elim (below y z a) [
          | inl u ↦
              subst
                (λ w. get_elem? rest (w * rb + byte x c) ≡ frame_byte frame (base w + byte x 0) c) u
                (rows-other n (suc y) (y * rb + byte x c) row kept (omega (arith, g))
                    (omega (arith, d, k, row_before y (suc y) rb (omega arith)))
                  ∙ decode_row-byte frame (base y) rb (y * rb) pix fits x c
                      (lt_of_not (length frame) (base y) e) d k
                      (subst (λ w. get_elem? pix (w * rb + byte x c) ≡ some 0) (sym u) q))
          | inr u ↦ rows-byte n (suc y) z x c row kept (omega (arith, g)) u (omega (arith, b)) d k (
              decode_row-other frame (base y) rb (y * rb) pix fits (z * rb + byte x c)
                (inr (omega (arith, row_before y z rb u)))
              ∙ q)
        ])
