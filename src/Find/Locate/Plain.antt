-- ===== src/Find/Locate/Plain.antt =====
-- find/find.go: the search that tries each place of a source in turn, for comparison.
use perfuncted.Prelude.{
  ℕ, zero, suc, ◌+◌, ◌-◌, ◌≤◌, ◌<◌, ◌≡◌, refl, sym, ap, subst, true, false, not, ◌||◌, Option, none,
  some, ltb, ◌==◌, if◌then◌else◌, arith, Bool-cases, inl, inr,
}
use perfuncted.Find.Image.{Rgba, valid_packed_image_layout, match_at}
use perfuncted.Find.Locate.{Place, place, not_found, too_large, malformed, empty_reference}

abbrev pub row_found : ℕ → Option ℕ → Place → Place
row_found y none rest = rest
row_found y (some x) rest = place x y

module _ (src ref : Rgba) where
  -- The first match in row y among n places from x on.
  unfoldable pub plain_row : ℕ → ℕ → ℕ → Option ℕ
  plain_row zero x y = none
  plain_row (suc n) x y =
      let rest = plain_row n (suc x) y in if match_at src ref x y then some x else rest

  -- The first match in n rows from row y on.
  unfoldable pub plain_rows : ℕ → ℕ → Place
  plain_rows zero y = not_found
  plain_rows (suc n) y =
      let rest = plain_rows n (suc y) in
      row_found y (plain_row (src.width - ref.width + 1) 0 y) rest

  -- The search with each place tried in turn, behind the same checks.
  unfoldable pub plain_locate : Place
  plain_locate =
      if (ref.width == 0) || (ref.height == 0)
      then empty_reference
      else if not (valid_packed_image_layout src) || not (valid_packed_image_layout ref)
      then malformed
      else if ltb src.width ref.width || ltb src.height ref.height
      then too_large
      else plain_rows (src.height - ref.height + 1) 0

  pub plain_row-none :
      (n x y : ℕ)
      → ((z : ℕ) → x ≤ z → z < x + n → match_at src ref z y ≡ false)
      → plain_row n x y ≡ none
  unfolding plain_row
  plain_row-none zero x y h = refl
  plain_row-none (suc n) x y h =
      rw (h x (omega arith) (omega arith))
        (plain_row-none n (suc x) y (λ z p q. h z (omega (arith, p)) (omega (arith, q))))

  pub plain_row-some :
      (n x y t : ℕ)
      → match_at src ref t y ≡ true
      → x ≤ t
      → t < x + n
      → ((z : ℕ) → x ≤ z → z < t → match_at src ref z y ≡ false)
      → plain_row n x y ≡ some t
  unfolding plain_row
  plain_row-some zero x y t e p q h = absurd (omega (arith, p, q))
  plain_row-some (suc n) x y t e p q h = elim (Bool-cases (ltb x t)) [
    | inl more ↦ rw (h x (omega arith) (ground (arith, more))) (
        plain_row-some n (suc x) y t e (ground (arith, more)) (omega (arith, q))
          (λ z a b. h z (omega (arith, a)) b))
    | inr here ↦
        let same : x ≡ t = ground (arith, here, p) in
        rw (subst (λ k. match_at src ref k y ≡ true) (sym same) e) (ap some same)
  ]
