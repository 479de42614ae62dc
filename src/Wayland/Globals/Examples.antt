-- ===== src/Wayland/Globals/Examples.antt =====
-- Tests and examples for the globals of internal/wl/session.go.
use perfuncted.Prelude.{◌≡◌, refl, none, List, [], ◌∷◌}
use perfuncted.Prelude.Text.{codes}
use perfuncted.Wayland.Globals.{
  GlobalEvent, Event, global, global_remove, globals_after, at_most, insert, sort_globals, replace,
}
use perfuncted.Wayland.Globals.Order.{Ordered, find_global}
use perfuncted.Wayland.Globals.Announced.{announced, globals-announced}

abbrev shm : GlobalEvent
shm = record { name = 3; interface = codes "wl_shm"; version = 1 }

abbrev seat : GlobalEvent
seat = record { name = 7; interface = codes "wl_seat"; version = 5 }

abbrev new_shm : GlobalEvent
new_shm = record { name = 3; interface = codes "wl_shm"; version = 2 }

abbrev events : List Event
events = global seat ∷ global shm ∷ global new_shm ∷ global_remove 9 ∷ []

events_sorted : globals_after events [] ≡ new_shm ∷ seat ∷ []
unfolding globals_after at_most insert sort_globals replace
events_sorted = refl

globals-announced_example :
    Ordered (globals_after events [])
    × (find_global 3 (globals_after events []) ≡ announced 3 events none)
globals-announced_example = globals-announced events 3
