-- ===== src/Wayland/Globals.antt =====
-- internal/wl/session.go: the globals that the compositor advertises, as the canonical session
-- keeps them. `slices.SortFunc` is an insertion sort here: equal elements are the same element, so
-- every sort gives the same list.
mod Order
pub mod Announced
mod Examples
use Prim.Native.Nat.{compare, Ordering}
use perfuncted.Prelude.{
  ℕ, ◌≡◌, Bool, true, false, Option, none, some, List, [], ◌∷◌, ◌++◌, ◌==◌, if◌then◌else◌, not,
}
use perfuncted.Prelude.Text.{Text}

pub record GlobalEvent : Type 0 where
  pub name : ℕ
  pub interface : Text
  pub version : ℕ

compare_text : Text → Text → Ordering
compare_text [] [] = Ordering.eq
compare_text [] (d ∷ t) = Ordering.lt
compare_text (c ∷ s) [] = Ordering.gt
compare_text (c ∷ s) (d ∷ t) = elim (compare c d) [
  | Ordering.eq ↦ compare_text s t
  | Ordering.lt ↦ Ordering.lt
  | Ordering.gt ↦ Ordering.gt
]

or_else : Ordering → Ordering → Ordering
or_else Ordering.eq o = o
or_else Ordering.lt o = Ordering.lt
or_else Ordering.gt o = Ordering.gt

-- The comparison of `sortGlobals`: not greater.
is_before : Ordering → Bool
is_before Ordering.gt = false
is_before Ordering.lt = true
is_before Ordering.eq = true

unfoldable pub at_most : GlobalEvent → GlobalEvent → Bool
unfolding compare_text or_else is_before
at_most a b = is_before (
    or_else (compare a.name b.name)
      (or_else (compare_text a.interface b.interface) (compare a.version b.version)))

unfoldable pub insert : GlobalEvent → List GlobalEvent → List GlobalEvent
insert ev [] = ev ∷ []
insert ev (g ∷ gs) = let rest = insert ev gs in if at_most ev g then ev ∷ g ∷ gs else g ∷ rest

unfoldable pub sort_globals : List GlobalEvent → List GlobalEvent
sort_globals [] = []
sort_globals (g ∷ gs) = insert g (sort_globals gs)

-- The loop of `addGlobal`: the first global of the name is exchanged.
unfoldable pub replace : GlobalEvent → List GlobalEvent → Option (List GlobalEvent)
replace ev [] = none
replace ev (g ∷ gs) =
    let rest = replace ev gs in
    if g.name == ev.name
    then some (ev ∷ gs)
    else elim rest [ none ↦ none | some hs ↦ some (g ∷ hs) ]

unfoldable pub add_global : GlobalEvent → List GlobalEvent → List GlobalEvent
unfolding replace sort_globals
add_global ev gs = elim (replace ev gs) [
  | some hs ↦ sort_globals hs
  | none ↦ sort_globals (gs ++ ev ∷ [])
]

unfoldable pub remove_global : ℕ → List GlobalEvent → List GlobalEvent
remove_global name [] = []
remove_global name (g ∷ gs) =
    let rest = remove_global name gs in if not (g.name == name) then g ∷ rest else rest

-- What the registry delivers, in order.
pub data Event : Type 0 where
  global : GlobalEvent → Event
  global_remove : ℕ → Event

unfoldable pub globals_after : List Event → List GlobalEvent → List GlobalEvent
unfolding add_global remove_global
globals_after [] gs = gs
globals_after (global ev ∷ es) gs = globals_after es (add_global ev gs)
globals_after (global_remove name ∷ es) gs = globals_after es (remove_global name gs)
