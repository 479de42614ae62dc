-- ===== src/Tracker/Examples.antt =====
-- One operation, one `Close` call and a second one behind it.
use perfuncted.Prelude.{◌≤◌, ◌≡◌, refl, true, false, Option, none, some, [], ◌∷◌, is_empty, arith}
use perfuncted.Tracker.{
  Err, draining, released, waiting, returned, World, refused, begin, finish, close_enter, advance,
  here, next, begins, finishes, enters, advances, zero_tracker,
}
use perfuncted.Tracker.Safety.{
  Reached, no_panic, release_once_drained, close_errors_agree, closed_refuses, finish_all,
  close_completes,
}

-- After `Begin` and two calls of `Close`, the later first in the list.
abbrev closing : World
closing = record zero_tracker {
  closed = true;
  close_done = some 1;
  active = 1 ∷ [];
  active_done = some 0;
  next = 1;
  chans = 2;
  calls = waiting 1 ∷ draining 1 (some 0) (1 ∷ []) ∷ [];
}

closing-Reached : Reached closing
unfolding begin close_enter
closing-Reached = next (next (next here (begins none 7 (omega arith))) enters) enters

abbrev cancelling : World
cancelling = record closing { cancelled = 1 ∷ []; calls = waiting 1 ∷ draining 1 (some 0) [] ∷ [] }

cancelling-Reached : Reached cancelling
unfolding advance
cancelling-Reached =
    next closing-Reached (advances {v = record closing { cancelled = 1 ∷ [] }} none 1 _ _ refl refl)

abbrev drained : World
drained = record cancelling {
  active = [];
  active_done = none;
  shut = 0 ∷ [];
  cancelled = 1 ∷ 1 ∷ [];
  finished = 1 ∷ [];
}

drained-Reached : Reached drained
unfolding finish
drained-Reached = next cancelling-Reached (finishes 1 (omega arith) (omega arith))

abbrev released_world : World
released_world = record drained { releases = 1; calls = waiting 1 ∷ released 1 (some 9) ∷ [] }

abbrev published : World
published = record released_world {
  shut = 1 ∷ 0 ∷ [];
  close_err = some 9;
  calls = waiting 1 ∷ returned (some 9) ∷ [];
}

abbrev all_returned : World
all_returned = record published { calls = returned (some 9) ∷ returned (some 9) ∷ [] }

all_returned-Reached : Reached all_returned
unfolding advance
all_returned-Reached =
    next
      (next
        (next drained-Reached
          (advances {v = record drained { releases = 1 }} (some (some 9)) 1 _ _ refl refl))
        (advances {v = record released_world { shut = 1 ∷ 0 ∷ []; close_err = some 9 }} none 1 _ _
          refl refl))
      (advances {v = published} none 0 _ _ refl refl)

no_panic_example : all_returned.panicked ≡ false
no_panic_example = no_panic all_returned all_returned-Reached

release_once_drained_example :
    (is_empty drained.active ≡ true) × (drained.releases ≡ 0) × (released_world.releases ≤ 1)
unfolding advance
release_once_drained_example =
    release_once_drained drained (record drained { releases = 1 }) 1 1 (some 0) (some (some 9))
      (released 1 (some 9)) drained-Reached refl refl

close_errors_agree_example : ◌≡◌ {A = Option Err} (some 9) (some 9)
close_errors_agree_example =
    close_errors_agree all_returned 0 1 (some 9) (some 9) all_returned-Reached refl refl

closed_refuses_example : begin none 7 closing ≡ (closing, refused 7)
unfolding close_enter
closed_refuses_example = closed_refuses closing closing none 7 here

close_completes_example :
    (v : World) × (u : World) × (e : Option Err) × (advance
        (some none)
        (draining 1 (some 0) [])
        (finish_all (1 ∷ []) cancelling)
      ≡ some (v, released 1 e))
    × (advance (some none) (released 1 e) v ≡ some (u, returned e))
    × (advance (some none) (waiting 1) u ≡ some (u, returned e))
close_completes_example =
    close_completes cancelling 1 1 (some 0) (some none) cancelling-Reached refl
