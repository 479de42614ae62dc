-- ===== src/Tracker/Admit.antt =====
-- `Begin` and the release of an operation keep the tracker's invariant.
use perfuncted.Prelude.{
  ℕ, ◌+◌, ◌<◌, ◌≤◌, ◌^◌, ◌%◌, ◌≡◌, ◌⊎◌, inl, inr, Option, none, some, ◌∷◌, All, arith,
}
use perfuncted.Tracker.{Err, Call, draining, released, waiting, returned, World, begin, finish}
use perfuncted.Tracker.Inv.{
  Inv, CloseOk, CallOk, mem-remove, mem_fresh, All-lt_mono, ActiveOk, All-imp,
}

-- While nothing closes, no call is past the first section of `Close`.
CallOk-begin :
    (ctx_err : Option Err) (e : Err) (w : World) (c : Call)
    → CloseOk w w.close_done
    → CallOk w c
    → CallOk (begin ctx_err e w).0 c
unfolding begin
CallOk-begin (some x) e w c h p = p
CallOk-begin none e w (draining d wait cs) h p = ground arith
CallOk-begin none e w (released d x) h p = ground arith
CallOk-begin none e w (waiting d) h p = ground arith
CallOk-begin none e w (returned x) h p = ground arith

module _ (ctx_err : Option Err) (e : Err) (w : World) where
  shut-begin : (begin ctx_err e w).0.shut ≡ w.shut
  unfolding begin
  shut-begin = ground arith

  chans-begin : w.chans ≤ (begin ctx_err e w).0.chans
  unfolding begin
  chans-begin = ground arith

  calls-begin : (begin ctx_err e w).0.calls ≡ w.calls
  unfolding begin
  calls-begin = ground arith

  shut_old-begin :
      All (λ c. c < w.chans) w.shut
      → All (λ c. c < (begin ctx_err e w).0.chans) (begin ctx_err e w).0.shut
  shut_old-begin h = rw shut-begin (All-lt_mono _ _ w.shut chans-begin h)

  calls_ok-begin :
      CloseOk w w.close_done
      → All (CallOk w) w.calls
      → All (CallOk (begin ctx_err e w).0) (begin ctx_err e w).0.calls
  calls_ok-begin k h = rw calls-begin (All-imp w.calls (λ c p. CallOk-begin ctx_err e w c k p) h)

pub begin-Inv :
    (ctx_err : Option Err) (e : Err) (w : World)
    → w.next + 1 < 2 ^ 64
    → Inv w
    → Inv (begin ctx_err e w).0
unfolding begin
begin-Inv (some x) e w h v = v
begin-Inv none e w h v = record {
  active_ok = ground (arith, mem_fresh w.chans w.shut v.shut_old);
  close_ok = ground arith;
  shut_old = shut_old-begin none e w v.shut_old;
  finished_old = λ id m. ground (arith, v.finished_old id);
  ids_ok = λ id.
      ground
        (arith, v.ids_ok id, mem-remove ((w.next + 1) % 2 ^ 64) id w.active, v.finished_old id);
  calls_ok = calls_ok-begin none e w v.close_ok v.calls_ok;
  one_publisher = ground arith;
  one_release = ground arith;
  none_before = ground arith;
  no_panic = ground arith;
}

CallOk-finish :
    (id : ℕ) (w : World) (c : Call)
    → ActiveOk w w.active_done
    → CloseOk w w.close_done
    → CallOk w c
    → CallOk (finish id w) c
unfolding finish
CallOk-finish id w (draining d none cs) a h p = ground arith
CallOk-finish id w (draining d (some x) cs) a h p = ground arith
CallOk-finish id w (released d x) a h p = ground arith
CallOk-finish id w (waiting d) a h p = ground arith
CallOk-finish id w (returned x) a h p = ground arith

chan-lt : (w : World) (c : ℕ) → ActiveOk w w.active_done → w.active_done ≡ some c → c < w.chans
chan-lt w c a is = ground arith

module _ (id : ℕ) (w : World) where
  pub calls-finish : (finish id w).calls ≡ w.calls
  unfolding finish
  calls-finish = ground arith

  chans-finish : (finish id w).chans ≡ w.chans
  unfolding finish
  chans-finish = ground arith

  shut-finish :
      ((finish id w).shut ≡ w.shut)
      ⊎ ((c : ℕ) × (w.active_done ≡ some c) × ((finish id w).shut ≡ c ∷ w.shut))
  unfolding finish
  shut-finish = ground arith

  shut_old-finish :
      ActiveOk w w.active_done
      → All (λ c. c < w.chans) w.shut
      → All (λ c. c < (finish id w).chans) (finish id w).shut
  shut_old-finish a h = rw chans-finish (elim shut-finish [
    | inl same ↦ rw same h
    | inr (c, is, more) ↦ rw more (chan-lt w c a is, h)
  ])

  calls_ok-finish :
      ActiveOk w w.active_done
      → CloseOk w w.close_done
      → All (CallOk w) w.calls
      → All (CallOk (finish id w)) (finish id w).calls
  calls_ok-finish a k h = rw calls-finish (All-imp w.calls (λ c p. CallOk-finish id w c a k p) h)

pub finish-Inv : (id : ℕ) (w : World) → 1 ≤ id → id ≤ w.next → Inv w → Inv (finish id w)
unfolding finish
finish-Inv id w l u v = record {
  active_ok = ground arith;
  close_ok = ground arith;
  shut_old = shut_old-finish id w v.active_ok v.shut_old;
  finished_old = λ j m. ground (arith, v.finished_old j);
  ids_ok = λ j. ground (arith, v.ids_ok j, mem-remove id j w.active, v.finished_old id);
  calls_ok = calls_ok-finish id w v.active_ok v.close_ok v.calls_ok;
  one_publisher = ground arith;
  one_release = ground arith;
  none_before = ground arith;
  no_panic = ground (arith, v.ids_ok id);
}
