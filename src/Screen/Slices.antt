-- ===== src/Screen/Slices.antt =====
-- Bytes of slices, for the proofs about screen/pixels.go.
use perfuncted.Prelude.{
  get_elem?-take, ℕ, zero, suc, ◌+◌, ◌-◌, ◌≤◌, ◌<◌, ◌≡◌, refl, ◌&&◌, some, List, [], ◌∷◌, ◌++◌,
  length, get_elem?, take, drop, ltb, leb, if◌then◌else◌, arith, length-append, length-take,
  length-drop, get_elem?-drop, zeros,
}
use perfuncted.Screen.Pixels.{splice}

pub get_elem?-both :
    (xs ys : List ℕ) (i : ℕ)
    → get_elem? (xs ++ ys) i
      ≡ (if ltb i (length xs) then get_elem? xs i else get_elem? ys (i - length xs))
get_elem?-both [] ys i = ground arith
get_elem?-both (x ∷ xs) ys zero = ground arith
get_elem?-both (x ∷ xs) ys (suc i) = ground (arith, get_elem?-both xs ys i)

pub length-splice :
    (xs ys : List ℕ) (start : ℕ)
    → start + length ys ≤ length xs
    → length (splice xs start ys) ≡ length xs
length-splice xs ys start h = omega (
  arith,
  length-append (take start xs) (ys ++ drop (start + length ys) xs),
  length-append ys (drop (start + length ys) xs),
  length-take start xs (omega (arith, h)),
  length-drop (start + length ys) xs,
  h,
)

pub get_elem?-splice :
    (xs ys : List ℕ) (start i : ℕ)
    → start + length ys ≤ length xs
    → get_elem? (splice xs start ys) i ≡ (
        if leb start i && ltb i (start + length ys)
        then get_elem? ys (i - start)
        else get_elem? xs i)
get_elem?-splice xs ys start i h = ground (
  arith,
  get_elem?-both (take start xs) (ys ++ drop (start + length ys) xs) i,
  get_elem?-both ys (drop (start + length ys) xs) (i - start),
  length-take start xs (omega (arith, h)),
  get_elem?-take start i xs,
  get_elem?-drop (start + length ys) (i - start - length ys) xs,
)

pub get_elem?-zeros : (n i : ℕ) → i < n → get_elem? (zeros n) i ≡ some 0
get_elem?-zeros zero i h = ground arith
get_elem?-zeros (suc n) zero h = refl
get_elem?-zeros (suc n) (suc i) h = get_elem?-zeros n i (omega (arith, h))
