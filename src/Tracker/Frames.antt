-- ===== src/Tracker/Frames.antt =====
-- What a step of internal/operation/tracker.go leaves as it was, for the calls in progress.
use perfuncted.Prelude.{ℕ, ◌<◌, ◌≤◌, ◌≡◌, none, some, ◌∷◌, set, All, arith}
use perfuncted.Tracker.{Call, draining, released, waiting, returned, World, close_enter}
use perfuncted.Tracker.Inv.{
  Inv, releases_later-le-publishes, All-set, CloseOk, CallOk, mem_fresh, All-lt_mono, All-imp,
}

abbrev pub entered : World → World
entered w = record (close_enter w).0 { calls = (close_enter w).1 ∷ w.calls }

pub CallOk-enter :
    (w : World) (c : Call) → CloseOk w w.close_done → CallOk w c → CallOk (entered w) c
unfolding close_enter
CallOk-enter w (draining d none cs) h p = ground arith
CallOk-enter w (draining d (some x) cs) h p = ground arith
CallOk-enter w (released d x) h p = ground arith
CallOk-enter w (waiting d) h p = ground arith
CallOk-enter w (returned x) h p = ground arith

module _ (w : World) where
  pub chans-enter : w.chans ≤ (close_enter w).0.chans
  unfolding close_enter
  chans-enter = ground arith

  pub shut-enter : (close_enter w).0.shut ≡ w.shut
  unfolding close_enter
  shut-enter = ground arith

  pub shut_old-enter :
      All (λ c. c < w.chans) w.shut → All (λ c. c < (close_enter w).0.chans) (close_enter w).0.shut
  shut_old-enter h = rw shut-enter (All-lt_mono _ _ w.shut chans-enter h)

  pub CallOk-enter_self : Inv w → CallOk (entered w) (close_enter w).1
  unfolding close_enter
  CallOk-enter_self v = ground (arith, mem_fresh w.chans w.shut v.shut_old)

  pub enter-Inv : Inv w → Inv (entered w)
  unfolding close_enter
  enter-Inv v = record {
    active_ok = ground arith;
    close_ok = ground arith;
    shut_old = shut_old-enter v.shut_old;
    finished_old = λ j m. ground (arith, v.finished_old j);
    ids_ok = λ j. ground (arith, v.ids_ok j);
    calls_ok =
        (CallOk-enter_self v, All-imp w.calls (λ c p. CallOk-enter w c v.close_ok p) v.calls_ok);
    one_publisher = ground arith;
    one_release = ground (arith, releases_later-le-publishes w.calls);
    none_before = ground arith;
    no_panic = ground arith;
  }

-- A call is in order as before where what it looks at is as before.
pub CallOk-frame :
    (w v : World) (c : Call)
    → v.close_done ≡ w.close_done
    → v.close_err ≡ w.close_err
    → v.shut ≡ w.shut
    → v.active ≡ w.active
    → v.active_done ≡ w.active_done
    → CallOk w c
    → CallOk v c
CallOk-frame w v (draining d none _) a b e f g p = ground arith
CallOk-frame w v (draining d (some x) _) a b e f g p = ground arith
CallOk-frame w v (released d _) a b e f g p = ground arith
CallOk-frame w v (waiting d) a b e f g p = ground arith
CallOk-frame w v (returned x) a b e f g p = ground arith

-- One call moves on in a world that is the same to the others.
pub calls_ok-set :
    (w v : World) (i : ℕ) (d : Call)
    → v.close_done ≡ w.close_done
    → v.close_err ≡ w.close_err
    → v.shut ≡ w.shut
    → v.active ≡ w.active
    → v.active_done ≡ w.active_done
    → All (CallOk w) w.calls
    → CallOk v d
    → All (CallOk v) (set w.calls i d)
calls_ok-set w v i d a b e f g h p =
    All-set (CallOk v) (w.calls) i d (All-imp w.calls (λ c q. CallOk-frame w v c a b e f g q) h) p
