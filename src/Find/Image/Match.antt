-- ===== src/Find/Image/Match.antt =====
-- find/find.go: `matchAt` says that the bytes of the reference are those of the source at a place.
use perfuncted.Prelude.{
  ℕ, zero, suc, ◌+◌, ◌-◌, ◌*◌, ◌≤◌, ◌<◌, ◌≡◌, ◌⊎◌, refl, sym, ◌∙◌, ap, subst, Bool, true, false,
  ◌||◌, List, [], ◌∷◌, length, slice, length-slice, get_elem?, get_elem?-slice, ltb, if◌then◌else◌,
  arith, Bool-cases, inl, inr,
}
use perfuncted.Prelude.Text.{text_eq, text_eq_self, text_eq-eq}
use perfuncted.Prelude.Product.{row_mono}
use perfuncted.Find.Image.{Rgba, rows_match}

-- Every byte of row j of the reference is the one of the source in its place.
abbrev pub IsRowMatch : Rgba → Rgba → ℕ → ℕ → ℕ → Type 0
IsRowMatch src ref ox oy j =
    (i : ℕ)
    → i < ref.width * 4
    → get_elem? src.pix ((oy + j) * src.stride + ox * 4 + i)
      ≡ get_elem? ref.pix (j * ref.stride + i)

-- The reference is in the source at a place.
abbrev pub IsMatch : Rgba → Rgba → ℕ → ℕ → Type 0
IsMatch src ref ox oy = (j : ℕ) → j < ref.height → IsRowMatch src ref ox oy j

-- The rows of an image are in its buffer.
pub record IsImage (img : Rgba) : Type 0 where
  pub columns : 1 ≤ img.width
  pub rows : 1 ≤ img.height
  pub row_fits : img.width * 4 ≤ img.stride
  pub buffer_fits : (img.height - 1) * img.stride + img.width * 4 ≤ length img.pix

both_hold : (b r : Bool) → (if b then r else false) ≡ true → (b ≡ true) × (r ≡ true)
both_hold false r e = absurd (ground (arith, e))
both_hold true r e = (refl, e)

le_cases : (y j : ℕ) → y ≤ j → (y ≡ j) ⊎ (suc y ≤ j)
le_cases y j a = elim (Bool-cases (ltb y j)) [
  | inl e ↦ inr (ground (arith, e))
  | inr e ↦ inl (ground (arith, e, a))
]

list_ext :
    (xs ys : List ℕ)
    → length xs ≡ length ys
    → ((i : ℕ) → i < length xs → get_elem? xs i ≡ get_elem? ys i)
    → xs ≡ ys
list_ext [] [] l h = refl
list_ext [] (y ∷ ys) l h = absurd (omega (arith, l))
list_ext (x ∷ xs) [] l h = absurd (omega (arith, l))
list_ext (x ∷ xs) (y ∷ ys) l h =
    let e = list_ext xs ys (omega (arith, l)) (λ i p. h (suc i) (omega (arith, p))) in
    ground (arith, e, h 0)

module _ (xs ys : List ℕ) (a b n : ℕ) (fits : a + n ≤ length xs) (into : b + n ≤ length ys) where
  pub slices_same :
      text_eq (slice a n xs) (slice b n ys) ≡ true
      → (i : ℕ) → i < n
      → get_elem? xs (a + i) ≡ get_elem? ys (b + i)
  slices_same e i p =
      sym (get_elem?-slice a n i xs p)
      ∙ ap (λ t. get_elem? t i) (text_eq-eq (slice a n xs) (slice b n ys) e)
      ∙ get_elem?-slice b n i ys p

  pub slices_equal :
      ((i : ℕ) → i < n → get_elem? xs (a + i) ≡ get_elem? ys (b + i))
      → text_eq (slice a n xs) (slice b n ys) ≡ true
  slices_equal h =
      subst (λ t. text_eq (slice a n xs) t ≡ true)
        (list_ext (slice a n xs) (slice b n ys)
          (length-slice a n xs fits ∙ sym (length-slice b n ys into))
          (λ i p.
            let q : i < n = omega (arith, p, length-slice a n xs fits) in
            get_elem?-slice a n i xs q ∙ h i q ∙ sym (get_elem?-slice b n i ys q)))
        (text_eq_self (slice a n xs))

module _ (src ref : Rgba) (ox oy : ℕ) (s : IsImage src) (r : IsImage ref)
    (across : ox + ref.width ≤ src.width) (down : oy + ref.height ≤ src.height) where
  src_fits :
      (j : ℕ) → j < ref.height → (oy + j) * src.stride + ox * 4 + ref.width * 4 ≤ length src.pix
  src_fits j p = omega (
    arith,
    row_mono (oy + j) (src.height - 1) src.stride (omega (arith, p, down)),
    s.buffer_fits,
    across,
  )

  ref_fits : (j : ℕ) → j < ref.height → j * ref.stride + ref.width * 4 ≤ length ref.pix
  ref_fits j p =
      omega (arith, row_mono j (ref.height - 1) ref.stride (omega (arith, p)), r.buffer_fits)

  in_buffers :
      (j : ℕ)
      → j < ref.height
      → (ltb (length src.pix) ((oy + j) * src.stride + ox * 4 + ref.width * 4)
          || ltb (length ref.pix) (j * ref.stride + ref.width * 4))
        ≡ false
  in_buffers j p = ground (arith, src_fits j p, ref_fits j p)

  abbrev row_test : ℕ → Bool
  row_test j =
      text_eq (slice ((oy + j) * src.stride + ox * 4) (ref.width * 4) src.pix)
        (slice (j * ref.stride) (ref.width * 4) ref.pix)

  rows_match-step :
      (n y : ℕ)
      → y < ref.height
      → rows_match (suc n) y (ref.width * 4) ox oy src ref
        ≡ (if row_test y then rows_match n (suc y) (ref.width * 4) ox oy src ref else false)
  unfolding rows_match
  rows_match-step n y p = rw (in_buffers y p) refl

  -- From the numbers of the loop to those of the definition.
  same_bytes : (j : ℕ) → j < ref.height → row_test j ≡ true → IsRowMatch src ref ox oy j
  same_bytes j p e =
      slices_same src.pix ref.pix ((oy + j) * src.stride + ox * 4) (j * ref.stride) (ref.width * 4)
        (src_fits j p) (ref_fits j p) e

  pub rows_match_sound :
      (n y : ℕ)
      → y + n ≤ ref.height
      → rows_match n y (ref.width * 4) ox oy src ref ≡ true
      → (j : ℕ) → y ≤ j
      → j < y + n
      → IsRowMatch src ref ox oy j
  rows_match_sound zero y p e j a b = absurd (omega (arith, a, b))
  rows_match_sound (suc n) y p e j a b =
      let q : y < ref.height = omega (arith, p) in
      let both =
        both_hold (row_test y) (rows_match n (suc y) (ref.width * 4) ox oy src ref)
          (sym (rows_match-step n y q) ∙ e) in
      elim (le_cases y j a) [
        | inl same ↦ subst (λ t. IsRowMatch src ref ox oy t) same (same_bytes y q both.0)
        | inr after ↦
            rows_match_sound n (suc y) (omega (arith, p)) both.1 j after (omega (arith, b))
      ]

  pub rows_match_complete :
      (n y : ℕ)
      → y + n ≤ ref.height
      → IsMatch src ref ox oy
      → rows_match n y (ref.width * 4) ox oy src ref ≡ true
  unfolding rows_match
  rows_match_complete zero y p h = refl
  rows_match_complete (suc n) y p h =
      let q : y < ref.height = omega (arith, p) in
      rows_match-step n y q
      ∙ rw
          (slices_equal src.pix ref.pix ((oy + y) * src.stride + ox * 4) (y * ref.stride)
            (ref.width * 4) (src_fits y q) (ref_fits y q) (h y q))
          (rows_match_complete n (suc y) (omega (arith, p)) h)
