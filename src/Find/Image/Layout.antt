-- ===== src/Find/Image/Layout.antt =====
-- find/find.go: an image whose layout is valid has its rows in its buffer, and `matchAt` on two of
-- them decides whether the one is in the other.
use perfuncted.Prelude.{
  ℕ, ◌+◌, ◌-◌, ◌*◌, ◌≤◌, ◌≡◌, ◌↔◌, refl, sym, ◌∙◌, ap, subst, true, some, length, leb, is_some,
  arith, Option-cases, inl, inr,
}
use perfuncted.Find.Image.{
  Rgba, packed_row_bytes, buffer_size, packed_buffer_size, valid_packed_image_layout, holds_size,
  rows_match, match_rows, match_at,
}
use perfuncted.Find.Image.Match.{IsImage, IsMatch, rows_match_sound, rows_match_complete}

packed_row_bytes-some :
    (w n : ℕ)
    → packed_row_bytes w ≡ some n
    → (1 ≤ w) × (packed_row_bytes w ≡ some (w * 4)) × (n ≡ w * 4)
packed_row_bytes-some w n e = ground (arith, e)

buffer_size-some :
    (rows stride n size : ℕ)
    → buffer_size rows stride (some n) ≡ some size
    → (n ≤ stride) × (size ≡ (rows - 1) * stride + n)
unfolding buffer_size
buffer_size-some rows stride n size e = ground (arith, e)

sides :
    (img : Rgba) (size : ℕ)
    → packed_buffer_size img ≡ some size
    → (1 ≤ img.height)
      × (buffer_size img.height img.stride (packed_row_bytes img.width) ≡ some size)
unfolding packed_buffer_size
sides img size e = ground (arith, e)

size_of :
    (img : Rgba) (size : ℕ)
    → packed_buffer_size img ≡ some size
    → leb size (length img.pix) ≡ true
    → IsImage img × (packed_row_bytes img.width ≡ some (img.width * 4))
unfolding buffer_size
size_of img size e l =
    let known = sides img size e in
    elim (Option-cases (packed_row_bytes img.width)) [
      | inl no_row ↦ absurd (
          ground
            (arith, subst (λ o. buffer_size img.height img.stride o ≡ some size) no_row known.1))
      | inr (n, row) ↦
          let width = packed_row_bytes-some img.width n row in
          let sized =
            buffer_size-some img.height img.stride n size
              (subst (λ o. buffer_size img.height img.stride o ≡ some size) row known.1) in
          (
            record {
              columns = width.0;
              rows = known.0;
              row_fits = omega (arith, width.2, sized.0);
              buffer_fits = ground (arith, l, width.2, sized.1);
            },
            width.1,
          )
    ]

-- What a valid layout says of an image.
pub record IsValid (img : Rgba) : Type 0 where
  pub image : IsImage img
  pub row_known : packed_row_bytes img.width ≡ some (img.width * 4)
  pub size_known : is_some (packed_buffer_size img) ≡ true

pub valid_packed_image_layout-IsValid :
    (img : Rgba) → valid_packed_image_layout img ≡ true → IsValid img
unfolding valid_packed_image_layout
valid_packed_image_layout-IsValid img e = elim (Option-cases (packed_buffer_size img)) [
  | inl unknown ↦ absurd (ground (arith, e, unknown))
  | inr (size, known) ↦
      let both = size_of img size known (sym (ap (holds_size img) known) ∙ e) in
      record { image = both.0; row_known = both.1; size_known = ap is_some known }
]

-- For two images of valid layout, where the reference fits at the place: `matchAt` is true there
-- just when every byte of every row of the reference is in the source at its place.
pub match_at-IsMatch :
    (src ref : Rgba) (ox oy : ℕ)
    → valid_packed_image_layout src ≡ true
    → valid_packed_image_layout ref ≡ true
    → ox + ref.width ≤ src.width
    → oy + ref.height ≤ src.height
    → (match_at src ref ox oy ≡ true) ↔ IsMatch src ref ox oy
unfolding match_at match_rows
match_at-IsMatch src ref ox oy s r across down =
    let vs = valid_packed_image_layout-IsValid src s in
    let vr = valid_packed_image_layout-IsValid ref r in
    let same : match_at src ref ox oy ≡ rows_match ref.height 0 (ref.width * 4) ox oy src ref =
      rw (vr.row_known, vs.size_known, vr.size_known) refl in
    (
      (λ e j p.
          rows_match_sound src ref ox oy vs.image vr.image across down ref.height 0 (omega arith)
            (sym same ∙ e) j (omega arith) (omega (arith, p))),
      (λ h.
          same
          ∙ rows_match_complete src ref ox oy vs.image vr.image across down ref.height 0
              (omega arith) h),
    )
