-- ===== src/Tracker.antt =====
-- internal/operation/tracker.go: admission, cancellation and shutdown of operations.
-- `World` is the struct `Tracker` with the run time around it: which channels are closed, which
-- cancel functions ran, whose `sync.Once` fired, and the `Close` calls in progress. A section under
-- the mutex is one step; `Step` interleaves the steps of any number of goroutines.
pub mod Inv
mod Admit
mod Frames
mod Shutdown
pub mod Steps
pub mod Safety
mod Examples
use perfuncted.Prelude.{
  ℕ, suc, ◌+◌, ◌%◌, ◌^◌, ◌<◌, ◌≤◌, ◌≡◌, Bool, true, false, ◌||◌, Option, none, some, List, [], ◌∷◌,
  ◌++◌, is_empty, get_elem?, set, mem, remove, if◌then◌else◌,
}

-- An error value, by its identity.
abbrev pub Err : Type 0
Err = ℕ

-- A call of `Close` between two of its blocking points.
pub data Call : Type 0 where
  -- past the first section, with `done`, `activeDone` and the `cancels` not called yet
  draining : ℕ → Option ℕ → List ℕ → Call
  -- `release` has returned, with its error
  released : ℕ → Option Err → Call
  -- another call is closing: blocked on `done`
  waiting : ℕ → Call
  returned : Option Err → Call

pub record World : Type 0 where
  pub closed : Bool
  pub close_done : Option ℕ
  pub close_err : Option Err
  pub active : List ℕ
  pub active_done : Option ℕ
  pub next : ℕ
  -- the next channel that `make` gives, and the channels that are closed
  pub chans : ℕ
  pub shut : List ℕ
  pub cancelled : List ℕ
  pub finished : List ℕ
  pub releases : ℕ
  pub panicked : Bool
  pub calls : List Call

-- The zero value of `Tracker`, with no goroutine in it.
abbrev pub zero_tracker : World
zero_tracker = record {
  closed = false;
  close_done = none;
  close_err = none;
  active = [];
  active_done = none;
  next = 0;
  chans = 0;
  shut = [];
  cancelled = [];
  finished = [];
  releases = 0;
  panicked = false;
  calls = [];
}

pub data Begun : Type 0 where
  refused : Err → Begun
  admitted : ℕ → Begun

-- `t.active[id] = cancel` after the two `make`s that `Begin` may do.
admit : World → World
admit w =
    let id = (w.next + 1) % 2 ^ 64 in
    if is_empty w.active
    then record w {
      active = id ∷ remove id w.active;
      active_done = some w.chans;
      chans = w.chans + 1;
      next = id;
    }
    else record w { active = id ∷ remove id w.active; next = id }

unfoldable pub begin : Option Err → Err → World → World × Begun
unfolding admit
begin (some e) closed_err w = (w, refused e)
begin none closed_err w =
    if w.closed then (w, refused closed_err) else (admit w, admitted ((w.next + 1) % 2 ^ 64))

-- `close(ch)` panics on a nil or a closed channel.
close_chan : Option ℕ → World → World
close_chan none w = record w { panicked = true }
close_chan (some c) w =
    if mem c w.shut then record w { panicked = true } else record w { shut = c ∷ w.shut }

-- What the release of operation `id` does under its `sync.Once`.
release_op : ℕ → World → World
unfolding close_chan
release_op id w =
    let v = record w {
      cancelled = id ∷ w.cancelled;
      finished = id ∷ w.finished;
      active = remove id w.active;
    } in
    if is_empty (remove id w.active)
    then record (close_chan w.active_done v) { active_done = none }
    else v

unfoldable pub finish : ℕ → World → World
unfolding release_op
finish id w = if mem id w.finished then w else release_op id w

-- The first section of `Close`.
enter_as : Option ℕ → World → World × Call
enter_as (some done) w = (w, waiting done)
enter_as none w = (record w { panicked = true }, returned none)

unfoldable pub close_enter : World → World × Call
unfolding enter_as
close_enter w = if w.closed then enter_as w.close_done w else (
  record w { closed = true; close_done = some w.chans; chans = w.chans + 1 },
  draining w.chans w.active_done w.active,
)

abbrev pub is_shut : Option ℕ → List ℕ → Bool
is_shut none shut = true
is_shut (some c) shut = mem c shut

abbrev pub release_err : Option (Option Err) → Option Err
release_err none = none
release_err (some e) = e

abbrev pub release_count : Option (Option Err) → ℕ
release_count none = 0
release_count (some _) = 1

-- One step of a `Close` call, `none` where it is blocked. `release` is nil or what the callback
-- returns. A cancel function that runs again does nothing.
unfoldable pub advance : Option (Option Err) → Call → World → Option (World × Call)
unfolding close_chan
advance release (draining done wait (id ∷ cancels)) w =
    some (record w { cancelled = id ∷ w.cancelled }, draining done wait cancels)
advance release (draining done wait []) w =
    if is_shut wait w.shut
    then some (
      record w { releases = w.releases + release_count release },
      released done (release_err release),
    )
    else none
advance release (released done e) w =
    some (close_chan (some done) (record w { close_err = e }), returned e)
advance release (waiting done) w = if mem done w.shut then some (w, returned w.close_err) else none
advance release (returned e) w = none

-- Fewer than 2 ^ 64 operations are ever admitted; `release` is only called with its own `id`.
pub data Step : World → World → Type 0 where
  begins :
      {w : World} (ctx_err : Option Err) (closed_err : Err)
      → w.next + 1 < 2 ^ 64
      → Step w (begin ctx_err closed_err w).0
  finishes : {w : World} (id : ℕ) → 1 ≤ id → id ≤ w.next → Step w (finish id w)
  enters : {w : World} → Step w (record (close_enter w).0 { calls = (close_enter w).1 ∷ w.calls })
  advances :
      {w v : World} (release : Option (Option Err)) (i : ℕ) (c d : Call)
      → get_elem? w.calls i ≡ some c
      → advance release c w ≡ some (v, d)
      → Step w (record v { calls = set w.calls i d })

pub data Reach (w : World) : World → Type 0 where
  here : Reach w w
  next : {u v : World} → Reach w u → Step u v → Reach w v
