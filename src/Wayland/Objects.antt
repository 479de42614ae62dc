-- ===== src/Wayland/Objects.antt =====
-- internal/wl/wl.go: the registry of the objects of a connection. A proxy is its identity, a number;
-- each call is one section under `objectsMu`, and the map is an association list.
pub mod Fresh
pub mod Kept
mod Examples
use perfuncted.Prelude.{
  ℕ, zero, suc, ◌+◌, ◌%◌, ◌^◌, ◌≡◌, Bool, true, false, Option, none, some, List, [], ◌∷◌, length,
  is_some, ◌==◌, if◌then◌else◌,
}

pub record Objects : Type 0 where
  pub objects : List (ℕ × ℕ)
  pub next_id : ℕ

abbrev pub no_objects : Objects
no_objects = record { objects = []; next_id = 1 }

abbrev pub lookup : ℕ → List (ℕ × ℕ) → Option ℕ
lookup id [] = none
lookup id ((key, p) ∷ os) = let rest = lookup id os in if key == id then some p else rest

abbrev pub delete : ℕ → List (ℕ × ℕ) → List (ℕ × ℕ)
delete id [] = []
delete id ((key, p) ∷ os) = let rest = delete id os in if key == id then rest else (key, p) ∷ rest

-- The loop of `Register`, which tries the numbers of 32 bits in turn, for so many rounds.
unfoldable pub next_free : ℕ → List (ℕ × ℕ) → ℕ → Option ℕ
next_free zero os n = none
next_free (suc rounds) os n =
    let id = (n + 1) % 2 ^ 32 in
    let rest = next_free rounds os id in
    if id == 0 then rest else if is_some (lookup id os) then rest else some id

abbrev with_id : Objects → ℕ → Option ℕ → Option (ℕ × Objects)
with_id o p none = none
with_id o p (some id) = some (id, record { objects = (id, p) ∷ o.objects; next_id = id })

-- `Register`, with the new identifier: nothing where the rounds do not suffice.
unfoldable pub register : ℕ → Objects → Option (ℕ × Objects)
unfolding next_free
register p o = with_id o p (next_free (length o.objects + 2) o.objects o.next_id)

unfoldable pub set_proxy : ℕ → ℕ → Objects → Objects
set_proxy id p o =
    if id == 0
    then o
    else if is_some (lookup id o.objects)
    then o
    else record o { objects = (id, p) ∷ o.objects }

abbrev pub is_proxy : Option ℕ → ℕ → Bool
is_proxy none p = false
is_proxy (some q) p = q == p

unfoldable pub unregister : ℕ → ℕ → Objects → Objects
unregister id expected o =
    if is_proxy (lookup id o.objects) expected
    then record o { objects = delete id o.objects }
    else o

-- A call on the registry, with the proxy that it is about.
pub data Call : Objects → Objects → Type 0 where
  registers : {o o' : Objects} (p id : ℕ) → register p o ≡ some (id, o') → Call o o'
  sets : {o : Objects} (id p : ℕ) → Call o (set_proxy id p o)
  unregisters : {o : Objects} (id p : ℕ) → Call o (unregister id p o)

pub data Run (o : Objects) : Objects → Type 0 where
  here : Run o o
  next : {u v : Objects} → Run o u → Call u v → Run o v
