-- ===== src/Wayland/Globals/Order.antt =====
-- internal/wl/session.go: the order of the globals, and what is found under a name.
use perfuncted.Prelude.{
  ℕ, ◌<◌, ◌≡◌, refl, ◌≢◌, true, false, Option, none, some, List, [], ◌∷◌, ◌==◌, if◌then◌else◌, All,
  arith, Bool-cases, inl, inr,
}
use perfuncted.Wayland.Globals.{GlobalEvent, at_most, insert, sort_globals}

-- Strictly by name.
abbrev pub Ordered : List GlobalEvent → Type 0
Ordered [] = Unit
Ordered (g ∷ gs) = All (λ h. g.name < h.name) gs × Ordered gs

abbrev pub IsAbsent : ℕ → List GlobalEvent → Type 0
IsAbsent n gs = All (λ h. h.name ≢ n) gs

abbrev pub Distinct : List GlobalEvent → Type 0
Distinct [] = Unit
Distinct (g ∷ gs) = IsAbsent g.name gs × Distinct gs

abbrev pub find_global : ℕ → List GlobalEvent → Option GlobalEvent
find_global n [] = none
find_global n (g ∷ gs) = if g.name == n then some g else find_global n gs

pub All-weaken :
    (P Q : GlobalEvent → Type 0) (gs : List GlobalEvent)
    → ((g : GlobalEvent) → P g → Q g)
    → All P gs
    → All Q gs
All-weaken P Q [] f h = tt
All-weaken P Q (g ∷ gs) f (p, h) = (f g p, All-weaken P Q gs f h)

pub Ordered-Distinct : (gs : List GlobalEvent) → Ordered gs → Distinct gs
Ordered-Distinct [] h = tt
Ordered-Distinct (g ∷ gs) (a, h) = (
  All-weaken (λ k. g.name < k.name) (λ k. k.name ≢ g.name) gs (λ k p. omega (arith, p)) a,
  Ordered-Distinct gs h,
)

pub IsAbsent-none : (n : ℕ) (gs : List GlobalEvent) → IsAbsent n gs → find_global n gs ≡ none
IsAbsent-none n [] h = ground arith
IsAbsent-none n (g ∷ gs) (p, h) = ground (arith, IsAbsent-none n gs h)

-- The order of two globals of different names is that of the names.
pub at_most_lt : (a b : GlobalEvent) → a.name ≢ b.name → at_most a b ≡ true → a.name < b.name
unfolding at_most
at_most_lt a b ne h = ground arith

pub at_most_gt : (a b : GlobalEvent) → a.name ≢ b.name → at_most a b ≡ false → b.name < a.name
unfolding at_most
at_most_gt a b ne h = ground arith

pub All-insert :
    (P : GlobalEvent → Type 0) (ev : GlobalEvent) (gs : List GlobalEvent)
    → P ev
    → All P gs
    → All P (insert ev gs)
unfolding insert
All-insert P ev [] p h = (p, tt)
All-insert P ev (g ∷ gs) p h = elim (Bool-cases (at_most ev g)) [
  | inl e ↦ rw e (p, h)
  | inr e ↦ rw e (h.0, All-insert P ev gs p h.1)
]

All-sort : (P : GlobalEvent → Type 0) (gs : List GlobalEvent) → All P gs → All P (sort_globals gs)
unfolding sort_globals
All-sort P [] h = tt
All-sort P (g ∷ gs) h = All-insert P g (sort_globals gs) h.0 (All-sort P gs h.1)

pub insert-Ordered :
    (ev : GlobalEvent) (gs : List GlobalEvent)
    → IsAbsent ev.name gs
    → Ordered gs
    → Ordered (insert ev gs)
unfolding insert
insert-Ordered ev [] a h = (tt, tt)
insert-Ordered ev (g ∷ gs) a h = elim (Bool-cases (at_most ev g)) [
  | inl e ↦
      let lt = at_most_lt ev g (λ q. a.0 (ground arith)) e in
      rw e (
        (
          lt,
          All-weaken (λ k. g.name < k.name) (λ k. ev.name < k.name) gs (λ k p. omega (arith, p, lt))
              h.0,
        ),
        h,
      )
  | inr e ↦ rw e (
    All-insert (λ k. g.name < k.name) ev gs (at_most_gt ev g (λ q. a.0 (ground arith)) e) h.0,
    insert-Ordered ev gs a.1 h.1,
  )
]

pub sort-Ordered : (gs : List GlobalEvent) → Distinct gs → Ordered (sort_globals gs)
unfolding sort_globals
sort-Ordered [] h = tt
sort-Ordered (g ∷ gs) h =
    insert-Ordered g (sort_globals gs) (All-sort (λ k. k.name ≢ g.name) gs h.0)
      (sort-Ordered gs h.1)

pub find-insert :
    (n : ℕ) (ev : GlobalEvent) (gs : List GlobalEvent)
    → IsAbsent ev.name gs
    → find_global n (insert ev gs) ≡ (if ev.name == n then some ev else find_global n gs)
unfolding insert
find-insert n ev [] a = ground arith
find-insert n ev (g ∷ gs) a = elim (Bool-cases (at_most ev g)) [
  | inl e ↦ rw e refl
  | inr e ↦ rw e (ground (arith, find-insert n ev gs a.1, a.0))
]

pub find-sort :
    (n : ℕ) (gs : List GlobalEvent)
    → Distinct gs
    → find_global n (sort_globals gs) ≡ find_global n gs
unfolding sort_globals
find-sort n [] h = refl
find-sort n (g ∷ gs) h = ground (
  arith,
  find-insert n g (sort_globals gs) (All-sort (λ k. k.name ≢ g.name) gs h.0),
  find-sort n gs h.1,
)
