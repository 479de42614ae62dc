-- ===== src/Tracker/Shutdown.antt =====
-- The steps of `Close` keep the tracker's invariant.
use mathlib.Core.Path.{subst}
use perfuncted.Prelude.{
  ℕ, total-set, total-get, ◌+◌, ◌<◌, ◌≡◌, refl, true, false, Bool-cases, inl, inr, Option, none,
  some, List, [], ◌∷◌, is_empty, get_elem?, set, mem, arith,
}
use perfuncted.Tracker.{
  release_count, release_err, Err, Call, draining, released, waiting, returned, World, is_shut,
  advance,
}
use perfuncted.Tracker.Inv.{
  Inv, Covers, publishes, releases_later, All-get, All-set_single, CloseOk, CallOk, ActiveOk,
}
use perfuncted.Tracker.Frames.{CallOk-frame, calls_ok-set}

pub drained :
    (w : World) (wait : Option ℕ)
    → Covers w wait
    → ActiveOk w w.active_done
    → is_shut wait w.shut ≡ true
    → is_empty w.active ≡ true
drained w none c a s = c
drained w (some x) c a s = ground arith

close_chan_lt :
    (w : World) (done : ℕ) → CloseOk w w.close_done → w.close_done ≡ some done → done < w.chans
close_chan_lt w done k e = ground arith

-- The close channel is not the one of the active operations.
ActiveOk-publish :
    (w : World) (done : ℕ)
    → ActiveOk w w.active_done
    → CloseOk w w.close_done
    → w.close_done ≡ some done
    → ActiveOk (record w { shut = done ∷ w.shut }) w.active_done
ActiveOk-publish w done a k e = ground arith

CallOk-publish :
    (w : World) (done : ℕ) (e : Option Err)
    → w.close_done ≡ some done
    → mem done w.shut ≡ false
    → (c : Call) → CallOk w c
    → publishes c ≡ 0
    → CallOk (record w { close_err = e; shut = done ∷ w.shut }) c
CallOk-publish w done e k s (draining d x y) p z = absurd (omega arith)
CallOk-publish w done e k s (released d x) p z = absurd (omega arith)
CallOk-publish w done e k s (waiting d) p z = p
CallOk-publish w done e k s (returned x) p z = ground arith

moved :
    (w : World) (i : ℕ) {u v : World} {c d : Call}
    → ◌≡◌ {A = Option (World × Call)} (some (u, c)) (some (v, d))
    → Inv (record u { calls = set w.calls i c })
    → Inv (record v { calls = set w.calls i d })
moved w i {u} {v} {c} {d} e =
    let p : ◌≡◌ {A = World × Call} (u, c) (v, d) = cc in
    subst (λ (p : World × Call). Inv (record (p.0) { calls = set w.calls i p.1 })) p

module _ (w : World) (i : ℕ) (v : Inv w) where
  cancel-Inv :
      (done id : ℕ) (wait : Option ℕ) (ids : List ℕ)
      → get_elem? w.calls i ≡ some (draining done wait (id ∷ ids))
      → Inv (record w {
        cancelled = id ∷ w.cancelled;
        calls = set w.calls i (draining done wait ids);
      })
  cancel-Inv done id wait ids at =
      let t = total-set publishes w.calls i _ (draining done wait ids) at in
      let u = total-set releases_later w.calls i _ (draining done wait ids) at in
      let now = All-get (CallOk w) w.calls i _ at v.calls_ok in
      record {
        active_ok = v.active_ok;
        close_ok = v.close_ok;
        shut_old = v.shut_old;
        finished_old = v.finished_old;
        ids_ok = v.ids_ok;
        calls_ok =
            calls_ok-set w (record w { cancelled = id ∷ w.cancelled }) i _ refl refl refl refl refl
              v.calls_ok
              (CallOk-frame w (record w { cancelled = id ∷ w.cancelled }) (draining done wait ids)
                refl refl refl refl refl now);
        one_publisher = omega arith;
        one_release = omega arith;
        none_before = λ h. omega (arith, v.none_before h);
        no_panic = v.no_panic;
      }

  release-Inv :
      (done : ℕ) (wait : Option ℕ) (release : Option (Option Err)) (e : Option Err)
      → get_elem? w.calls i ≡ some (draining done wait [])
      → is_shut wait w.shut ≡ true
      → Inv (record w {
        releases = w.releases + release_count release;
        calls = set w.calls i (released done e);
      })
  release-Inv done wait release e at open_ =
      let t = total-set publishes w.calls i _ (released done e) at in
      let u = total-set releases_later w.calls i _ (released done e) at in
      let now = All-get (CallOk w) w.calls i _ at v.calls_ok in
      let room = total-get publishes w.calls i _ at in
      record {
        active_ok = v.active_ok;
        close_ok = v.close_ok;
        shut_old = v.shut_old;
        finished_old = v.finished_old;
        ids_ok = v.ids_ok;
        calls_ok =
            calls_ok-set w (record w { releases = w.releases + release_count release }) i
              (released done e) refl refl refl refl refl v.calls_ok
              (now.0, now.1, drained w wait now.2 v.active_ok open_);
        one_publisher = omega arith;
        one_release = ground arith;
        none_before = λ h. absurd (omega (arith, v.none_before h));
        no_panic = v.no_panic;
      }

  publish-Inv :
      (done : ℕ) (e : Option Err)
      → get_elem? w.calls i ≡ some (released done e)
      → Inv (record w { close_err = e; shut = done ∷ w.shut; calls = set w.calls i (returned e) })
  publish-Inv done e at =
      let t = total-set publishes w.calls i _ (returned e) at in
      let u = total-set releases_later w.calls i _ (returned e) at in
      let now = All-get (CallOk w) w.calls i _ at v.calls_ok in
      let room = total-get publishes w.calls i _ at in
      record {
        active_ok = ActiveOk-publish w done v.active_ok v.close_ok now.0;
        close_ok = v.close_ok;
        shut_old = (close_chan_lt w done v.close_ok now.0, v.shut_old);
        finished_old = v.finished_old;
        ids_ok = v.ids_ok;
        calls_ok =
            All-set_single publishes (CallOk-publish w done e now.0 now.1) w.calls i _ (returned e)
              at refl v.one_publisher v.calls_ok (ground arith, refl);
        one_publisher = omega arith;
        one_release = omega arith;
        none_before = λ h. absurd (omega (arith, v.none_before h));
        no_panic = v.no_panic;
      }

  wait-Inv :
      (done : ℕ)
      → get_elem? w.calls i ≡ some (waiting done)
      → mem done w.shut ≡ true
      → Inv (record w { calls = set w.calls i (returned w.close_err) })
  wait-Inv done at is =
      let t = total-set publishes w.calls i _ (returned w.close_err) at in
      let u = total-set releases_later w.calls i _ (returned w.close_err) at in
      let now = All-get (CallOk w) w.calls i _ at v.calls_ok in
      record {
        active_ok = v.active_ok;
        close_ok = v.close_ok;
        shut_old = v.shut_old;
        finished_old = v.finished_old;
        ids_ok = v.ids_ok;
        calls_ok =
            calls_ok-set w w i (returned w.close_err) refl refl refl refl refl v.calls_ok
              (ground arith, refl);
        one_publisher = omega arith;
        one_release = omega arith;
        none_before = λ h. omega (arith, v.none_before h);
        no_panic = v.no_panic;
      }

pub advance-Inv :
    (release : Option (Option Err)) (w v : World) (i : ℕ) (c d : Call)
    → Inv w
    → get_elem? w.calls i ≡ some c
    → advance release c w ≡ some (v, d)
    → Inv (record v { calls = set w.calls i d })
unfolding advance
advance-Inv release w v i (draining done wait (id ∷ ids)) d h at e =
    moved w i e (cancel-Inv w i h done id wait ids at)
advance-Inv release w v i (draining done wait []) d h at e =
    elim (Bool-cases (is_shut wait w.shut)) [
      | inl o ↦
          moved w i (rw o at e) (release-Inv w i h done wait release (release_err release) at o)
      | inr o ↦ cc
    ]
advance-Inv release w v i (released done x) d h at e =
    let now = All-get (CallOk w) w.calls i _ at h.calls_ok in
    moved w i (rw now.1 at e) (publish-Inv w i h done x at)
advance-Inv release w v i (waiting done) d h at e = elim (Bool-cases (mem done w.shut)) [
  | inl o ↦ moved w i (rw o at e) (wait-Inv w i h done at o)
  | inr o ↦ cc
]
advance-Inv release w v i (returned x) d h at e = cc
