-- ===== src/Window/Fold.antt =====
-- The case folding of window/match.go: `containsFoldLower` and what it calls.
-- Texts are valid UTF-8, as code points. `high` is `unicode.ToLower` above ASCII.
use perfuncted.Prelude.{
  ℕ, ◌+◌, ◌≤◌, ◌≡◌, refl, Bool, true, false, ◌&&◌, ◌||◌, [], ◌∷◌, map, length, is_empty, ltb, leb,
  ◌==◌, if◌then◌else◌, arith,
}
use perfuncted.Prelude.Text.{Text}

-- `unicode.ToLower`, with its fast path for ASCII.
module _ (high : ℕ → ℕ) where
  unfoldable pub lower : ℕ → ℕ
  lower c = if ltb c 128 then (if leb b'A' c && leb c b'Z' then c + 32 else c) else high c

  abbrev pub to_lower : Text → Text
  to_lower = map lower

unfoldable pub is_ascii : Text → Bool
is_ascii [] = true
is_ascii (c ∷ s) = ltb c 128 && is_ascii s

-- The inner loop of `containsFoldASCIILower`, for the part of `s` from `i` on: `lower_sub` is not
-- empty there, and `s` is long enough.
ascii_matches : Text → Text → Bool
ascii_matches s [] = true
ascii_matches [] (d ∷ sub) = false
ascii_matches (c ∷ s) (d ∷ sub) =
    ((if leb b'A' c && leb c b'Z' then c + 32 else c) == d) && ascii_matches s sub

-- The outer loop: one round for each place where the rest is long enough.
contains_fold_ascii_lower : Text → Text → Bool
unfolding ascii_matches
contains_fold_ascii_lower [] sub = false
contains_fold_ascii_lower (c ∷ s) sub =
    let rest = contains_fold_ascii_lower s sub in
    if ltb (length (c ∷ s)) (length sub)
    then false
    else if ascii_matches (c ∷ s) sub
    then true
    else rest

module _ (high : ℕ → ℕ) where
  fold_matches : Text → Text → Bool
  unfolding lower
  fold_matches segment [] = true
  fold_matches [] (want ∷ sub) = false
  fold_matches (r ∷ segment) (want ∷ sub) = (lower high r == want) && fold_matches segment sub

  fold_scan : Text → Text → Bool
  unfolding fold_matches
  fold_scan [] sub = false
  fold_scan (c ∷ s) sub =
      let rest = fold_scan s sub in if fold_matches (c ∷ s) sub then true else rest

  unfoldable pub contains_fold_lower : Text → Text → Bool
  unfolding is_ascii contains_fold_ascii_lower fold_scan
  contains_fold_lower s [] = true
  contains_fold_lower [] (d ∷ sub) = false
  contains_fold_lower (c ∷ s) (d ∷ sub) =
      if is_ascii (c ∷ s) && is_ascii (d ∷ sub)
      then contains_fold_ascii_lower (c ∷ s) (d ∷ sub)
      else fold_scan (c ∷ s) (d ∷ sub)

-- `strings.HasPrefix` and `strings.Contains`.
abbrev pub has_prefix : Text → Text → Bool
has_prefix s [] = true
has_prefix [] (d ∷ sub) = false
has_prefix (c ∷ s) (d ∷ sub) = (c == d) && has_prefix s sub

unfoldable pub contains : Text → Text → Bool
contains [] sub = is_empty sub
contains (c ∷ s) sub = has_prefix (c ∷ s) sub || contains s sub

module _ (high : ℕ → ℕ) where
  fold_matches-eq-has_prefix :
      (s sub : Text) → fold_matches high s sub ≡ has_prefix (to_lower high s) sub
  unfolding fold_matches
  fold_matches-eq-has_prefix [] [] = refl
  fold_matches-eq-has_prefix (c ∷ s) [] = refl
  fold_matches-eq-has_prefix [] (d ∷ sub) = refl
  fold_matches-eq-has_prefix (c ∷ s) (d ∷ sub) = rw (fold_matches-eq-has_prefix s sub)

  ascii_matches-eq-has_prefix :
      (s sub : Text) → is_ascii s ≡ true → ascii_matches s sub ≡ has_prefix (to_lower high s) sub
  unfolding ascii_matches is_ascii lower
  ascii_matches-eq-has_prefix [] [] a = refl
  ascii_matches-eq-has_prefix (c ∷ s) [] a = refl
  ascii_matches-eq-has_prefix [] (d ∷ sub) a = refl
  ascii_matches-eq-has_prefix (c ∷ s) (d ∷ sub) a =
      ground (arith, ascii_matches-eq-has_prefix s sub)

  fold_scan-eq-contains :
      (s : Text) (d : ℕ) (sub : Text)
      → fold_scan high s (d ∷ sub) ≡ contains (to_lower high s) (d ∷ sub)
  unfolding fold_scan contains
  fold_scan-eq-contains [] d sub = refl
  fold_scan-eq-contains (c ∷ s) d sub =
      ground (arith, fold_scan-eq-contains s d sub, fold_matches-eq-has_prefix (c ∷ s) (d ∷ sub))

  has_prefix-length :
      (s sub : Text) → has_prefix (to_lower high s) sub ≡ true → length sub ≤ length s
  has_prefix-length [] [] h = omega arith
  has_prefix-length (c ∷ s) [] h = omega arith
  has_prefix-length [] (d ∷ sub) h = cc
  has_prefix-length (c ∷ s) (d ∷ sub) h = ground (arith, has_prefix-length s sub)

  contains-length : (s sub : Text) → contains (to_lower high s) sub ≡ true → length sub ≤ length s
  unfolding contains
  contains-length [] [] h = omega arith
  contains-length [] (d ∷ sub) h = cc
  contains-length (c ∷ s) sub h =
      ground (arith, contains-length s sub, has_prefix-length (c ∷ s) sub)

  ascii_scan-eq-contains :
      (s : Text) (d : ℕ) (sub : Text)
      → is_ascii s ≡ true
      → contains_fold_ascii_lower s (d ∷ sub) ≡ contains (to_lower high s) (d ∷ sub)
  unfolding contains_fold_ascii_lower contains is_ascii
  ascii_scan-eq-contains [] d sub a = refl
  ascii_scan-eq-contains (c ∷ s) d sub a = ground (
    arith,
    ascii_scan-eq-contains s d sub,
    ascii_matches-eq-has_prefix (c ∷ s) (d ∷ sub),
    has_prefix-length (c ∷ s) (d ∷ sub),
    contains-length s (d ∷ sub),
  )

  -- The search without a lowered copy finds `lower_sub` exactly where `strings.Contains` finds it in
  -- `strings.ToLower` of the text, on the ASCII path and on the other.
  pub contains_fold_lower-eq-contains :
      (s lower_sub : Text)
      → contains_fold_lower high s lower_sub ≡ contains (to_lower high s) lower_sub
  unfolding contains_fold_lower contains
  contains_fold_lower-eq-contains [] [] = refl
  contains_fold_lower-eq-contains (c ∷ s) [] = refl
  contains_fold_lower-eq-contains [] (d ∷ sub) = refl
  contains_fold_lower-eq-contains (c ∷ s) (d ∷ sub) =
      ground (arith, ascii_scan-eq-contains (c ∷ s) d sub, fold_scan-eq-contains (c ∷ s) d sub)
