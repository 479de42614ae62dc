-- ===== src/Tracker/Safety.antt =====
-- What a tracker promises, over every interleaving of `Begin`, release and `Close`.
use perfuncted.Prelude.{
  ℕ, total-get, ◌+◌, ◌≤◌, ◌≡◌, refl, ◌∙◌, true, false, not, ◌&&◌, ◌==◌, Option, none, some, List,
  [], ◌∷◌, get_elem?, is_empty, mem, arith,
}
use perfuncted.Tracker.{
  release_count, release_err, Err, Call, draining, released, waiting, returned, World, refused,
  is_shut, begin, finish, close_enter, advance, Step, Reach, here, next, begins, finishes, enters,
  advances, zero_tracker,
}
use perfuncted.Tracker.Inv.{Inv, zero_tracker-Inv, All-get, CallOk, mem-remove, releases_later}
use perfuncted.Tracker.Admit.{finish-Inv, calls-finish}
use perfuncted.Tracker.Shutdown.{drained}
use perfuncted.Tracker.Steps.{Reach-Inv}

abbrev pub Reached : World → Type 0
Reached w = Reach zero_tracker w

Reached-Inv : (w : World) → Reached w → Inv w
Reached-Inv w r = Reach-Inv zero_tracker-Inv r

-- No interleaving closes a nil channel, closes a channel twice, or finds `closeDone` missing.
pub no_panic : (w : World) → Reached w → w.panicked ≡ false
no_panic w r = (Reached-Inv w r).no_panic

-- Where a `Close` call gets to run `release`, no admitted operation is active and `release` has not
-- run before; over the whole life of the tracker it runs at most once.
pub release_once_drained :
    (w v : World) (i done : ℕ) (wait : Option ℕ) (release : Option (Option Err)) (d : Call)
    → Reached w
    → get_elem? w.calls i ≡ some (draining done wait [])
    → advance release (draining done wait []) w ≡ some (v, d)
    → (is_empty w.active ≡ true) × (w.releases ≡ 0) × (v.releases ≤ 1)
unfolding advance
release_once_drained w v i done wait release d r at e =
    let h = Reached-Inv w r in
    let now = All-get (CallOk w) w.calls i _ at h.calls_ok in
    let room = total-get releases_later w.calls i _ at in
    (drained w wait now.2 h.active_ok (ground arith), ground arith, ground arith)

-- Any two `Close` calls that have returned gave the same error.
pub close_errors_agree :
    (w : World) (i j : ℕ) (e f : Option Err)
    → Reached w
    → get_elem? w.calls i ≡ some (returned e)
    → get_elem? w.calls j ≡ some (returned f)
    → e ≡ f
close_errors_agree w i j e f r a b =
    let h = Reached-Inv w r in
    let p = All-get (CallOk w) w.calls i _ a h.calls_ok in
    let q = All-get (CallOk w) w.calls j _ b h.calls_ok in cc (p.1, q.1)

Step-closed : {w v : World} → Step w v → w.closed ≡ true → v.closed ≡ true
unfolding begin finish close_enter advance
Step-closed (begins (some x) e h) c = c
Step-closed (begins none e h) c = ground arith
Step-closed (finishes id l u) c = ground arith
Step-closed enters c = ground arith
Step-closed (advances release i (draining done wait (id ∷ ids)) d at e) c = ground arith
Step-closed (advances release i (draining done wait []) d at e) c = ground arith
Step-closed (advances release i (released done x) d at e) c = ground arith
Step-closed (advances release i (waiting done) d at e) c = ground arith
Step-closed (advances release i (returned x) d at e) c = cc

Reach-closed : {w v : World} → Reach w v → w.closed ≡ true → v.closed ≡ true
Reach-closed here c = c
Reach-closed (next r s) c = Step-closed s (Reach-closed r c)

-- The error of a context that is done comes before the closed error.
abbrev pub first_error : Option Err → Err → Err
first_error none closed_err = closed_err
first_error (some e) closed_err = e

-- Once a `Close` call has begun, every later `Begin` is refused and leaves the tracker as it is,
-- whatever steps lie between: with the error of its context where that is done, and otherwise with
-- the closed error.
pub closed_refuses :
    (w v : World) (context : Option Err) (e : Err)
    → Reach (close_enter w).0 v
    → begin context e v ≡ (v, refused (first_error context e))
unfolding begin close_enter
closed_refuses w v none e r = let c = Reach-closed r (ground arith) in ground arith
closed_refuses w v (some x) e r = refl

-- The operations of a list end, in its order.
abbrev pub finish_all : List ℕ → World → World
finish_all [] w = w
finish_all (id ∷ ids) w = finish_all ids (finish id w)

mem-finish :
    (w : World) (id j : ℕ)
    → Inv w
    → 1 ≤ id
    → id ≤ w.next
    → mem j (finish id w).active ≡ (mem j w.active && not (id == j))
unfolding finish
mem-finish w id j h l u = ground (arith, h.ids_ok j, mem-remove id j w.active)

next-finish : (w : World) (id : ℕ) → (finish id w).next ≡ w.next
unfolding finish
next-finish w id = ground arith

abbrev InRange : ℕ → List ℕ → Type 0
InRange n [] = Unit
InRange n (id ∷ ids) = (1 ≤ id) × (id ≤ n) × InRange n ids

active-InRange :
    (w : World) (ids : List ℕ)
    → Inv w
    → ((j : ℕ) → mem j ids ≡ true → mem j w.active ≡ true)
    → InRange w.next ids
active-InRange w [] h sub = tt
active-InRange w (id ∷ ids) h sub =
    let here_ : mem id w.active ≡ true = sub id (ground arith) in
    (
      ground (arith, h.ids_ok id),
      ground (arith, h.ids_ok id),
      active-InRange w ids h (λ j m. sub j (ground arith)),
    )

finish_all-Inv : (ids : List ℕ) (w : World) → Inv w → InRange w.next ids → Inv (finish_all ids w)
finish_all-Inv [] w h r = h
finish_all-Inv (id ∷ ids) w h r =
    finish_all-Inv ids (finish id w) (finish-Inv id w r.0 r.1 h) (rw next-finish r.2)

mem-finish_all :
    (ids : List ℕ) (w : World) (j : ℕ)
    → Inv w
    → InRange w.next ids
    → mem j (finish_all ids w).active ≡ (mem j w.active && not (mem j ids))
mem-finish_all [] w j h r = ground arith
mem-finish_all (id ∷ ids) w j h r =
    let rest =
      mem-finish_all ids (finish id w) j (finish-Inv id w r.0 r.1 h) (rw next-finish r.2) in
    ground (arith, rest, mem-finish w id j h r.0 r.1)

calls-finish_all : (ids : List ℕ) (w : World) → (finish_all ids w).calls ≡ w.calls
calls-finish_all [] w = refl
calls-finish_all (id ∷ ids) w = calls-finish_all ids (finish id w) ∙ calls-finish id w

no_mem : (xs : List ℕ) → ((j : ℕ) → mem j xs ≡ false) → is_empty xs ≡ true
no_mem [] h = refl
no_mem (x ∷ xs) h = ground (arith, h x)

covered :
    (w : World) (wait : Option ℕ) (done : ℕ)
    → CallOk w (draining done wait [])
    → is_empty w.active ≡ true
    → is_shut wait w.shut ≡ true
covered w none done c e = refl
covered w (some x) done c e = c.2.1 e

-- A `Close` call that has cancelled everything is not blocked once every active operation has ended:
-- it runs `release` next, and what it publishes then unblocks every waiting call.
pub close_completes :
    (w : World) (i done : ℕ) (wait : Option ℕ) (release : Option (Option Err))
    → Reached w
    → get_elem? w.calls i ≡ some (draining done wait [])
    → (v : World) × (u : World) × (e : Option Err) × (advance release
          (draining done wait [])
          (finish_all w.active w)
        ≡ some (v, released done e))
      × (advance release (released done e) v ≡ some (u, returned e))
      × (advance release (waiting done) u ≡ some (u, returned e))
unfolding advance
close_completes w i done wait release r at =
    let h = Reached-Inv w r in
    let range = active-InRange w w.active h (λ j m. m) in
    let f = finish_all w.active w in
    let g = finish_all-Inv w.active w h range in
    let at_end : get_elem? f.calls i ≡ some (draining done wait []) =
      rw (calls-finish_all w.active w) at in
    let now = All-get (CallOk f) f.calls i _ at_end g.calls_ok in
    let none_left = no_mem f.active (λ j. ground (arith, mem-finish_all w.active w j h range)) in
    let open_ = covered f wait done now none_left in
    (
      record f { releases = f.releases + release_count release },
      record f {
        releases = f.releases + release_count release;
        close_err = release_err release;
        shut = done ∷ f.shut;
      },
      release_err release,
      rw open_,
      rw now.1,
      ground arith,
    )
