-- ===== src/Wayland/Objects/Examples.antt =====
-- Tests and examples for the object registry of internal/wl/wl.go.
use perfuncted.Prelude.{ℕ, ◌-◌, ◌^◌, ◌<◌, ◌≡◌, ◌≢◌, ◌⊎◌, refl, none, some, [], ◌∷◌, arith}
use perfuncted.Wayland.Objects.{
  Objects, no_objects, lookup, next_free, register, set_proxy, unregister, registers, sets,
  unregisters, Run, here, next,
}
use perfuncted.Wayland.Objects.Fresh.{register_total}
use perfuncted.Wayland.Objects.Kept.{IsRevoked, Run-keeps}

-- The next number is the last of 32 bits, after which 0 and a taken one are left out.
abbrev nearly_full : Objects
nearly_full = record { objects = (2 ^ 32 - 1, 8) ∷ (1, 9) ∷ []; next_id = 2 ^ 32 - 2 }

wrapped :
    register 5 nearly_full
    ≡ some (2, record { objects = (2, 5) ∷ (2 ^ 32 - 1, 8) ∷ (1, 9) ∷ []; next_id = 2 })
unfolding register next_free
wrapped = refl

register_total_example :
    (id : ℕ) × (o' : Objects) × (register 5 nearly_full ≡ some (id, o'))
    × (id ≢ 0)
    × (id < 2 ^ 32)
    × (lookup id nearly_full.objects ≡ none)
    × (lookup id o'.objects ≡ some 5)
register_total_example = register_total 5 nearly_full (omega arith)

abbrev registered : Objects
registered = record { objects = (2, 5) ∷ []; next_id = 2 }

first_registered : register 5 no_objects ≡ some (2, registered)
unfolding register next_free
first_registered = refl

calls : Run no_objects (unregister 2 6 (set_proxy 2 6 registered))
calls = next (next (next here (registers 5 2 first_registered)) (sets 2 6)) (unregisters 2 6)

abbrev later_calls : Run registered (unregister 2 6 (set_proxy 2 6 registered))
later_calls = next (next here (sets 2 6)) (unregisters 2 6)

Run-keeps_example :
    (lookup 2 (unregister 2 6 (set_proxy 2 6 registered)).objects ≡ some 5)
    ⊎ IsRevoked later_calls 2 5
Run-keeps_example = Run-keeps later_calls 2 5 refl
