-- ===== src/Wayland/Globals/Announced.antt =====
-- internal/wl/session.go: addGlobal and removeGlobal, and the globals after any run of events.
use perfuncted.Prelude.{
  ℕ, ◌<◌, ◌⊎◌, ◌≡◌, refl, sym, subst, ◌≢◌, Option, none, some, List, [], ◌∷◌, ◌++◌, ◌==◌,
  if◌then◌else◌, All, All-append, arith, Option-cases, Bool-cases, inl, inr,
}
use perfuncted.Wayland.Globals.{
  GlobalEvent, replace, add_global, remove_global, Event, global, global_remove, globals_after,
}
use perfuncted.Wayland.Globals.Order.{
  Ordered, IsAbsent, Distinct, find_global, Ordered-Distinct, sort-Ordered, find-sort,
}

replace-IsAbsent :
    (ev : GlobalEvent) (gs : List GlobalEvent) → replace ev gs ≡ none → IsAbsent ev.name gs
unfolding replace
replace-IsAbsent ev [] h = tt
replace-IsAbsent ev (g ∷ gs) h = elim (Bool-cases (g.name == ev.name)) [
  | inl e ↦ ground arith
  | inr e ↦ (ground arith, replace-IsAbsent ev gs (ground arith))
]

-- The first global is the one of the name, or the exchange is behind it.
replace-cases :
    (ev g : GlobalEvent) (gs hs : List GlobalEvent)
    → replace ev (g ∷ gs) ≡ some hs
    → ((g.name ≡ ev.name) × (ev ∷ gs ≡ hs))
      ⊎ ((ks : List GlobalEvent) × (g.name ≢ ev.name) × (replace ev gs ≡ some ks) × (g ∷ ks ≡ hs))
unfolding replace
replace-cases ev g gs hs h = elim (Bool-cases (g.name == ev.name)) [
  | inl e ↦ inl (ground arith, ground arith)
  | inr e ↦ elim (Option-cases (replace ev gs)) [
    | inl q ↦ ground arith
    | inr (ks, q) ↦ inr (ks, ground arith, q, ground arith)
  ]
]

All-replace :
    (P : GlobalEvent → Type 0) (ev : GlobalEvent) (gs hs : List GlobalEvent)
    → replace ev gs ≡ some hs
    → P ev
    → All P gs
    → All P hs
unfolding replace
All-replace P ev [] hs h p a = ground arith
All-replace P ev (g ∷ gs) hs h p a = elim (replace-cases ev g gs hs h) [
  | inl (e, q) ↦ subst (All P) q (p, a.1)
  | inr (ks, ne, e, q) ↦ subst (All P) q (a.0, All-replace P ev gs ks e p a.1)
]

replace-Distinct :
    (ev : GlobalEvent) (gs hs : List GlobalEvent)
    → replace ev gs ≡ some hs
    → Distinct gs
    → Distinct hs
unfolding replace
replace-Distinct ev [] hs h d = ground arith
replace-Distinct ev (g ∷ gs) hs h d = elim (replace-cases ev g gs hs h) [
  | inl (e, q) ↦ subst Distinct q (subst (λ n. IsAbsent n gs) e d.0, d.1)
  | inr (ks, ne, e, q) ↦ subst Distinct q (
    All-replace (λ k. k.name ≢ g.name) ev gs ks e (λ r. ne (sym r)) d.0,
    replace-Distinct ev gs ks e d.1,
  )
]

find-replace :
    (n : ℕ) (ev : GlobalEvent) (gs hs : List GlobalEvent)
    → replace ev gs ≡ some hs
    → find_global n hs ≡ (if ev.name == n then some ev else find_global n gs)
unfolding replace
find-replace n ev [] hs h = ground arith
find-replace n ev (g ∷ gs) hs h = elim (Option-cases (replace ev gs)) [
  | inl e ↦ ground arith
  | inr (ks, e) ↦ ground (arith, find-replace n ev gs ks e)
]

append-Distinct :
    (ev : GlobalEvent) (gs : List GlobalEvent)
    → IsAbsent ev.name gs
    → Distinct gs
    → Distinct (gs ++ ev ∷ [])
append-Distinct ev [] a d = (tt, tt)
append-Distinct ev (g ∷ gs) a d = (
  All-append (λ k. k.name ≢ g.name) gs (ev ∷ []) d.0 ((λ q. a.0 (ground arith)), tt),
  append-Distinct ev gs a.1 d.1,
)

find-append :
    (n : ℕ) (ev : GlobalEvent) (gs : List GlobalEvent)
    → IsAbsent ev.name gs
    → find_global n (gs ++ ev ∷ []) ≡ (if ev.name == n then some ev else find_global n gs)
find-append n ev [] a = refl
find-append n ev (g ∷ gs) a = ground (arith, find-append n ev gs a.1, a.0)

add_global-Ordered :
    (ev : GlobalEvent) (gs : List GlobalEvent) → Ordered gs → Ordered (add_global ev gs)
unfolding add_global
add_global-Ordered ev gs h = elim (Option-cases (replace ev gs)) [
  | inl e ↦
      rw (e, add_global)
        (sort-Ordered (gs ++ ev ∷ [])
          (append-Distinct ev gs (replace-IsAbsent ev gs e) (Ordered-Distinct gs h)))
  | inr (hs, e) ↦
      rw (e, add_global) (sort-Ordered hs (replace-Distinct ev gs hs e (Ordered-Distinct gs h)))
]

find-add_global :
    (n : ℕ) (ev : GlobalEvent) (gs : List GlobalEvent)
    → Ordered gs
    → find_global n (add_global ev gs) ≡ (if ev.name == n then some ev else find_global n gs)
unfolding add_global
find-add_global n ev gs h = elim (Option-cases (replace ev gs)) [
  | inl e ↦
      let a = replace-IsAbsent ev gs e in
      rw
        (
          add_global,
          e,
          find-sort n (gs ++ ev ∷ []) (append-Distinct ev gs a (Ordered-Distinct gs h)),
        )
        (find-append n ev gs a)
  | inr (hs, e) ↦
      rw (add_global, e, find-sort n hs (replace-Distinct ev gs hs e (Ordered-Distinct gs h)))
        (find-replace n ev gs hs e)
]

All-remove_global :
    (P : GlobalEvent → Type 0) (name : ℕ) (gs : List GlobalEvent)
    → All P gs
    → All P (remove_global name gs)
unfolding remove_global
All-remove_global P name [] h = tt
All-remove_global P name (g ∷ gs) h = elim (Bool-cases (g.name == name)) [
  | inl e ↦ rw e (All-remove_global P name gs h.1)
  | inr e ↦ rw e (h.0, All-remove_global P name gs h.1)
]

remove_global-Ordered :
    (name : ℕ) (gs : List GlobalEvent) → Ordered gs → Ordered (remove_global name gs)
unfolding remove_global
remove_global-Ordered name [] h = tt
remove_global-Ordered name (g ∷ gs) h = elim (Bool-cases (g.name == name)) [
  | inl e ↦ rw e (remove_global-Ordered name gs h.1)
  | inr e ↦
      rw e (All-remove_global (λ k. g.name < k.name) name gs h.0, remove_global-Ordered name gs h.1)
]

find-remove_global :
    (n name : ℕ) (gs : List GlobalEvent)
    → find_global n (remove_global name gs) ≡ (if name == n then none else find_global n gs)
unfolding remove_global
find-remove_global n name [] = ground arith
find-remove_global n name (g ∷ gs) = ground (arith, find-remove_global n name gs)

-- What the compositor last said of a name.
abbrev pub announced : ℕ → List Event → Option GlobalEvent → Option GlobalEvent
announced n [] o = o
announced n (global ev ∷ es) o = announced n es (if ev.name == n then some ev else o)
announced n (global_remove name ∷ es) o = announced n es (if name == n then none else o)

pub globals_after-Ordered :
    (es : List Event) (gs : List GlobalEvent) → Ordered gs → Ordered (globals_after es gs)
unfolding globals_after
globals_after-Ordered [] gs h = h
globals_after-Ordered (global ev ∷ es) gs h =
    globals_after-Ordered es (add_global ev gs) (add_global-Ordered ev gs h)
globals_after-Ordered (global_remove name ∷ es) gs h =
    globals_after-Ordered es (remove_global name gs) (remove_global-Ordered name gs h)

pub find-globals_after :
    (n : ℕ) (es : List Event) (gs : List GlobalEvent)
    → Ordered gs
    → find_global n (globals_after es gs) ≡ announced n es (find_global n gs)
unfolding globals_after
find-globals_after n [] gs h = refl
find-globals_after n (global ev ∷ es) gs h =
    rw
      (
        find-globals_after n es (add_global ev gs) (add_global-Ordered ev gs h),
        find-add_global n ev gs h,
      )
      refl
find-globals_after n (global_remove name ∷ es) gs h =
    rw
      (
        find-globals_after n es (remove_global name gs) (remove_global-Ordered name gs h),
        find-remove_global n name gs,
      )
      refl

-- After any run of announcements and removals, the globals of the session are in strictly
-- increasing order of their names, and under each name is what the compositor announced last, or
-- nothing where it was removed since or never announced.
pub globals-announced :
    (es : List Event) (n : ℕ)
    → Ordered (globals_after es []) × (find_global n (globals_after es []) ≡ announced n es none)
globals-announced es n = (globals_after-Ordered es [] tt, find-globals_after n es [] tt)
