-- ===== src/Probe/Chosen.antt =====
-- internal/probe/probe.go: exactly the first available backend is chosen.
use perfuncted.Prelude.{
  ℕ, suc, ◌+◌, ◌≡◌, refl, Bool, true, false, not, ◌&&◌, Option, none, some, List, [], ◌∷◌,
  if◌then◌else◌, arith,
}
use perfuncted.Probe.{Result, select_from, select_best}

-- The first available one, by its place.
abbrev pub first_available : List Result → Option ℕ
first_available [] = none
first_available (r ∷ rs) =
    let rest = first_available rs in
    if r.available then some 0 else elim rest [ none ↦ none | some i ↦ some (suc i) ]

-- The places of the selected ones, from a place on.
abbrev pub selected_at : ℕ → List Result → List ℕ
selected_at i [] = []
selected_at i (r ∷ rs) = let rest = selected_at (suc i) rs in if r.selected then i ∷ rest else rest

-- The list without its selections.
abbrev pub candidates : List Result → List Result
candidates [] = []
candidates (r ∷ rs) = record r { selected = false } ∷ candidates rs

abbrev pub at_place : ℕ → Option ℕ → List ℕ
at_place i none = []
at_place i (some k) = (i + k) ∷ []

selected-none : (i : ℕ) (rs : List Result) → selected_at i (select_from true rs) ≡ []
unfolding select_from
selected-none i [] = refl
selected-none i (r ∷ rs) = ground (arith, selected-none (suc i) rs)

selected-first :
    (i : ℕ) (rs : List Result)
    → selected_at i (select_from false rs) ≡ at_place i (first_available rs)
unfolding select_from
selected-first i [] = refl
selected-first i (r ∷ rs) = ground (arith, selected-none (suc i) rs, selected-first (suc i) rs)

candidates-same : (b : Bool) (rs : List Result) → candidates (select_from b rs) ≡ candidates rs
unfolding select_from
candidates-same b [] = refl
candidates-same b (r ∷ rs) =
    ground (arith, candidates-same (if r.available && not b then true else b) rs)

-- Exactly the first available candidate is selected, whichever ones were before, or none where none
-- is available; the candidates and their order stay the same.
pub select_best-first :
    (rs : List Result)
    → (selected_at 0 (select_best rs) ≡ at_place 0 (first_available rs))
      × (candidates (select_best rs) ≡ candidates rs)
unfolding select_best
select_best-first rs = (selected-first 0 rs, candidates-same false rs)
