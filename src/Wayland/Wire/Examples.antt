-- ===== src/Wayland/Wire/Examples.antt =====
-- Tests and examples for the wire encoding of internal/wl/wl.go.
use perfuncted.Prelude.{◌≡◌, ◌≢◌, refl, true, [], ◌∷◌, ◌++◌, arith}
use perfuncted.Prelude.Text.{codes}
use perfuncted.Wayland.Globals.{GlobalEvent, global, global_remove}
use perfuncted.Wayland.Wire.{
  put_str, trim_right, uint32, decoded, ignored, panics, registry_dispatch, decode_name,
  decode_removed,
}
use perfuncted.Wayland.Wire.RoundTrip.{global_body, IsGlobal, registry_dispatch-global_body}
use perfuncted.Wayland.Wire.Total.{registry_dispatch_total}

seat_string : put_str (codes "wl_seat") ≡ 8 ∷ 0 ∷ 0 ∷ 0 ∷ (codes "wl_seat" ++ 0 ∷ [])
unfolding put_str
seat_string = refl

abbrev seat : GlobalEvent
seat = record { name = 258; interface = codes "wl_seat"; version = 5 }

seat-IsGlobal : IsGlobal seat
unfolding trim_right
seat-IsGlobal = record {
  name_fits = omega arith;
  version_fits = omega arith;
  has_version = omega arith;
  interface_fits = omega arith;
  no_nul = refl;
}

removed : registry_dispatch true true 1 (7 ∷ 1 ∷ 0 ∷ 0 ∷ []) ≡ decoded (global_remove 263)
unfolding registry_dispatch uint32 decode_removed
removed = refl

-- A string that says to be longer than the event.
cut_off : registry_dispatch true true 0 (7 ∷ 0 ∷ 0 ∷ 0 ∷ 9 ∷ 0 ∷ 0 ∷ 0 ∷ 65 ∷ 0 ∷ []) ≡ ignored
unfolding registry_dispatch uint32 decode_name
cut_off = refl

registry_dispatch-global_body_example :
    registry_dispatch true true 0 (global_body seat ++ 1 ∷ 2 ∷ []) ≡ decoded (global seat)
registry_dispatch-global_body_example =
    registry_dispatch-global_body true seat (1 ∷ 2 ∷ []) seat-IsGlobal

registry_dispatch_total_example :
    registry_dispatch true true 0 (7 ∷ 0 ∷ 0 ∷ 0 ∷ 9 ∷ 0 ∷ 0 ∷ 0 ∷ 65 ∷ []) ≢ panics
registry_dispatch_total_example =
    registry_dispatch_total true true 0 (7 ∷ 0 ∷ 0 ∷ 0 ∷ 9 ∷ 0 ∷ 0 ∷ 0 ∷ 65 ∷ [])
