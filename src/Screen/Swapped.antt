-- ===== src/Screen/Swapped.antt =====
-- screen/pixels.go: the bytes of a row that copyBGRA wrote.
use perfuncted.Prelude.{
  get_elem?-take, length-take, length-drop, get_elem?-drop, ℕ, zero, suc, ◌+◌, ◌-◌, ◌*◌, ◌/◌, ◌≤◌,
  ◌<◌, ◌≡◌, refl, sym, subst, ◌∙◌, Option, some, List, [], ◌∷◌, ◌++◌, length, get_elem?, take, drop,
  ltb, leb, if◌then◌else◌, arith, length-append, Bool-cases, inl, inr,
}
use perfuncted.Screen.Pixels.{swap_pixels, whole_pixels, copy_bgra}
use perfuncted.Screen.Slices.{get_elem?-both}

-- Byte c of pixel x.
abbrev pub byte : ℕ → ℕ → ℕ
byte x c = x * 4 + c

-- The byte of an opaque pixel whose bytes are at a place, in the order of BGRA.
abbrev pub opaque : List ℕ → ℕ → ℕ → Option ℕ
opaque frame base zero = get_elem? frame (base + 2)
opaque frame base (suc zero) = get_elem? frame (base + 1)
opaque frame base (suc (suc zero)) = get_elem? frame base
opaque frame base (suc (suc (suc c))) = some 255

-- The same, of the first pixel that is at an index counted in fours.
quad : ℕ → ℕ → ℕ
quad zero c = c
quad (suc x) c = suc (suc (suc (suc (quad x c))))

quad-byte : (x c : ℕ) → quad x c ≡ byte x c
unfolding quad
quad-byte zero c = omega arith
quad-byte (suc x) c = omega (arith, quad-byte x c)

get_elem?-behind :
    (b g r a i : ℕ) (xs : List ℕ) → get_elem? (b ∷ (g ∷ (r ∷ (a ∷ xs)))) (4 + i) ≡ get_elem? xs i
get_elem?-behind b g r a i xs = ground arith

opaque-behind :
    (b g r a q c : ℕ) (xs : List ℕ)
    → opaque (b ∷ (g ∷ (r ∷ (a ∷ xs)))) (suc (suc (suc (suc q)))) c ≡ opaque xs q c
opaque-behind b g r a q zero xs = ground (arith, get_elem?-behind b g r a (q + 2) xs)
opaque-behind b g r a q (suc zero) xs = ground (arith, get_elem?-behind b g r a (q + 1) xs)
opaque-behind b g r a q (suc (suc zero)) xs = refl
opaque-behind b g r a q (suc (suc (suc c))) xs = refl

swap-quad :
    (n x c : ℕ) (xs : List ℕ)
    → n * 4 ≤ length xs
    → c < 4
    → get_elem? (swap_pixels n xs) (quad x c)
      ≡ (if ltb x n then opaque xs (quad x 0) c else get_elem? xs (quad x c))
unfolding quad swap_pixels
swap-quad zero x c xs h k = ground arith
swap-quad (suc n) x c [] h k = ground arith
swap-quad (suc n) x c (b ∷ []) h k = ground arith
swap-quad (suc n) x c (b ∷ (g ∷ [])) h k = ground arith
swap-quad (suc n) x c (b ∷ (g ∷ (r ∷ []))) h k = ground arith
swap-quad (suc n) zero zero (b ∷ (g ∷ (r ∷ (a ∷ xs)))) h k = ground arith
swap-quad (suc n) zero (suc zero) (b ∷ (g ∷ (r ∷ (a ∷ xs)))) h k = ground arith
swap-quad (suc n) zero (suc (suc zero)) (b ∷ (g ∷ (r ∷ (a ∷ xs)))) h k = ground arith
swap-quad (suc n) zero (suc (suc (suc zero))) (b ∷ (g ∷ (r ∷ (a ∷ xs)))) h k = ground arith
swap-quad (suc n) zero (suc (suc (suc (suc c)))) (b ∷ (g ∷ (r ∷ (a ∷ xs)))) h k = ground arith
swap-quad (suc n) (suc x) c (b ∷ (g ∷ (r ∷ (a ∷ xs)))) h k =
    ground (arith, swap-quad n x c xs, opaque-behind b g r a (quad x 0) c xs)

pub length-swap : (n : ℕ) (xs : List ℕ) → length (swap_pixels n xs) ≡ length xs
unfolding swap_pixels
length-swap zero xs = refl
length-swap (suc n) [] = refl
length-swap (suc n) (b ∷ []) = refl
length-swap (suc n) (b ∷ (g ∷ [])) = refl
length-swap (suc n) (b ∷ (g ∷ (r ∷ []))) = refl
length-swap (suc n) (b ∷ (g ∷ (r ∷ (a ∷ xs)))) = omega (arith, length-swap n xs)

opaque-byte : (xs : List ℕ) (x c : ℕ) → opaque xs (quad x 0) c ≡ opaque xs (byte x 0) c
opaque-byte xs x c = rw (quad-byte x 0) refl

swap-byte :
    (n x c : ℕ) (xs : List ℕ)
    → n * 4 ≤ length xs
    → c < 4
    → get_elem? (swap_pixels n xs) (byte x c)
      ≡ (if ltb x n then opaque xs (byte x 0) c else get_elem? xs (byte x c))
swap-byte n x c xs h k =
    subst
      (λ i.
        get_elem? (swap_pixels n xs) i
        ≡ (if ltb x n then opaque xs (byte x 0) c else get_elem? xs i))
      (quad-byte x c) (rw (sym (opaque-byte xs x c)) (swap-quad n x c xs h k))

get_elem?-front :
    (n i : ℕ) (xs ys : List ℕ)
    → i < n
    → n ≤ length xs
    → get_elem? (take n xs ++ ys) i ≡ get_elem? xs i
get_elem?-front n i xs ys h k =
    ground (arith, get_elem?-both (take n xs) ys i, length-take n xs k, get_elem?-take n i xs)

get_elem?-back :
    (n i : ℕ) (xs ys : List ℕ)
    → n ≤ i
    → n ≤ length xs
    → get_elem? (take n xs ++ drop n ys) i ≡ get_elem? ys i
get_elem?-back n i xs ys h k = ground (
  arith,
  get_elem?-both (take n xs) (drop n ys) i,
  length-take n xs k,
  get_elem?-drop n (i - n) ys,
)

length-mixed :
    (n : ℕ) (xs ys : List ℕ)
    → n ≤ length xs
    → n ≤ length ys
    → length (take n xs ++ drop n ys) ≡ length ys
length-mixed n xs ys h k =
    omega (arith, length-append (take n xs) (drop n ys), length-take n xs h, length-drop n ys, h, k)

-- The whole pixels fit into both slices.
whole_le :
    (dst src : List ℕ)
    → (whole_pixels dst src ≤ length src)
      × (whole_pixels dst src ≤ length dst)
      × (whole_pixels dst src / 4 * 4 ≡ whole_pixels dst src)
whole_le dst src = (ground arith, ground arith, ground arith)

whole-last :
    (dst src : List ℕ) (x : ℕ)
    → byte x 4 ≤ length dst
    → ltb x (whole_pixels dst src / 4) ≡ leb (byte x 4) (length src)
whole-last dst src x h = ground arith

opaque-take :
    (n base c : ℕ) (xs ys : List ℕ)
    → base + 4 ≤ n
    → n ≤ length xs
    → opaque (take n xs ++ ys) base c ≡ opaque xs base c
opaque-take n base zero xs ys h k = get_elem?-front n (base + 2) xs ys (omega (arith, h)) k
opaque-take n base (suc zero) xs ys h k = get_elem?-front n (base + 1) xs ys (omega (arith, h)) k
opaque-take n base (suc (suc zero)) xs ys h k = get_elem?-front n base xs ys (omega (arith, h)) k
opaque-take n base (suc (suc (suc c))) xs ys h k = refl

mixed-byte :
    (q n x c : ℕ) (dst src : List ℕ)
    → q * 4 ≡ n
    → n ≤ length src
    → n ≤ length dst
    → c < 4
    → get_elem? (swap_pixels q (take n src ++ drop n dst)) (byte x c)
      ≡ (if ltb x q then opaque src (byte x 0) c else get_elem? dst (byte x c))
mixed-byte q n x c dst src e h k l = elim (Bool-cases (ltb x q)) [
  | inl b ↦ rw b (
      ground (
        arith,
        swap-byte q x c (take n src ++ drop n dst)
            (omega (arith, e, h, k, length-mixed n src dst h k)) l,
        opaque-take n (byte x 0) c src (drop n dst) (ground arith) h,
      ))
  | inr b ↦ rw b (
      ground (
        arith,
        swap-byte q x c (take n src ++ drop n dst)
            (omega (arith, e, h, k, length-mixed n src dst h k)) l,
        get_elem?-back n (byte x c) src dst (ground arith) h,
      ))
]

pub length-copy_bgra : (dst src : List ℕ) → length (copy_bgra dst src) ≡ length dst
unfolding copy_bgra
length-copy_bgra dst src =
    let (h, k, e) = whole_le dst src in
    length-swap (whole_pixels dst src / 4)
      (take (whole_pixels dst src) src ++ drop (whole_pixels dst src) dst)
    ∙ length-mixed (whole_pixels dst src) src dst h k

-- A pixel that is whole in both slices is written, and any other keeps its bytes.
pub copy_bgra-byte :
    (dst src : List ℕ) (x c : ℕ)
    → c < 4
    → byte x 4 ≤ length dst
    → get_elem? (copy_bgra dst src) (byte x c)
      ≡ (if leb (byte x 4) (length src) then opaque src (byte x 0) c else get_elem? dst (byte x c))
unfolding copy_bgra
copy_bgra-byte dst src x c k h =
    let (p, q, e) = whole_le dst src in
    subst
      (λ b.
        get_elem? (copy_bgra dst src) (byte x c)
        ≡ (if b then opaque src (byte x 0) c else get_elem? dst (byte x c)))
      (whole-last dst src x h)
      (mixed-byte (whole_pixels dst src / 4) (whole_pixels dst src) x c dst src e p q k)
