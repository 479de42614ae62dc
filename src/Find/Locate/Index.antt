-- ===== src/Find/Locate/Index.antt =====
-- find/find.go: the search for bytes in a row reports the first place where they are, if any.
use perfuncted.Prelude.{
  ℕ, zero, suc, ◌≤◌, ◌<◌, ◌≡◌, refl, true, some, List, [], ◌∷◌, length, is_empty, drop, get_elem?,
  arith, Bool-cases, inl, inr,
}
use perfuncted.Find.Locate.{is_prefix, index}

pub is_prefix_bytes :
    (sep s : List ℕ)
    → ((i : ℕ) → i < length sep → get_elem? s i ≡ get_elem? sep i)
    → is_prefix sep s ≡ true
is_prefix_bytes [] s h = refl
is_prefix_bytes (c ∷ sep) [] h = absurd (ground (arith, h 0 (omega arith)))
is_prefix_bytes (c ∷ sep) (d ∷ s) h =
    let rest = is_prefix_bytes sep s (λ i p. h (suc i) (omega (arith, p))) in
    ground (arith, rest, h 0 (omega arith))

empty_prefix : (sep : List ℕ) → is_prefix sep [] ≡ true → is_empty sep ≡ true
empty_prefix [] e = refl
empty_prefix (c ∷ sep) e = absurd (ground (arith, e))

-- Bytes that are at k are found, at k or before it.
pub index_found :
    (s sep : List ℕ) (k : ℕ)
    → is_prefix sep (drop k s) ≡ true
    → (k0 : ℕ) × (index s sep ≡ some k0) × (k0 ≤ k)
unfolding index
index_found [] sep zero e = (0, rw (empty_prefix sep e) refl, omega arith)
index_found [] sep (suc k) e = (0, rw (empty_prefix sep e) refl, omega arith)
index_found (c ∷ s) sep zero e = (0, rw e refl, omega arith)
index_found (c ∷ s) sep (suc k) e = elim (Bool-cases (is_prefix sep (c ∷ s))) [
  | inl here ↦ (0, rw here refl, omega arith)
  | inr later ↦
      let found = index_found s sep k e in
      (suc found.0, rw (later, found.1) refl, omega (arith, found.2))
]
