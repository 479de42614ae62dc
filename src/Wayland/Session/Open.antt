-- ===== src/Wayland/Session/Open.antt =====
-- Steps of internal/wl/session.go that take a reference, or none, keep the invariant.
use mathlib.Core.Path.{subst}
use perfuncted.Prelude.{
  ℕ, ◌+◌, ◌≤◌, ◌≡◌, some, List, get_elem?, set, get_elem?-set, total-set, All, total, ltb, ◌==◌,
  arith, Option-cases, inl, inr,
}
use perfuncted.Wayland.Session.{SessionRef, Session, Call, World}
use perfuncted.Wayland.Session.Counts.{
  one_if, session_holds, call_holds, holders, ref_owns, call_owns, same, owners, refs_of, SessionOk,
  CallOk,
}
use perfuncted.Wayland.Session.Inv.{Inv, Live, LiveAt, Cached}

module _ (w : World) (h : Inv w) (sessions : List Session) (calls : List Call) (shut : List ℕ) where
  -- Neither the cache nor a reference changes.
  pub steady-Inv :
      (conns : ℕ)
      → ((q : ℕ) → total (session_holds q) sessions + total (call_holds q) calls ≡ holders q w)
      → ((k : ℕ)
          → total (call_owns k) calls + total (same k) shut + one_if (ltb k w.conns)
            ≡ total (call_owns k) w.calls + total (same k) w.shut + one_if (ltb k conns))
      → All (λ s. SessionOk w.refs s.ref s.sock s.conn) sessions
      → All (CallOk w.refs) calls
      → Inv (record w { sessions = sessions; calls = calls; shut = shut; conns = conns })
  steady-Inv conns hold own sok cok = record {
    counted = λ r. omega (arith, h.counted r, hold r);
    cached = h.cached;
    live = h.live;
    sessions_ok = sok;
    calls_ok = cok;
    owned = λ k. omega (arith, own k, h.owned k);
  }

  -- One more holder of reference `r`, which is in the cache.
  module _ (r : ℕ) (ref : SessionRef) (at : get_elem? w.refs r ≡ some ref)
      (pos : 1 ≤ ref.refs) where
    more : SessionRef
    more = record ref { refs = ref.refs + 1 }

    unfoldable pub raised : World
    raised = record w {
      refs = set w.refs r (record ref { refs = ref.refs + 1 });
      sessions = sessions;
      calls = calls;
      shut = shut;
    }

    raised-counted :
        ((q : ℕ)
          → total (session_holds q) sessions + total (call_holds q) calls
            ≡ holders q w + one_if (r == q))
        → (q : ℕ) → refs_of (get_elem? raised.refs q) ≡ holders q raised
    unfolding raised
    raised-counted hold q = ground (
      arith,
      get_elem?-set w.refs r q ref (record ref { refs = ref.refs + 1 }),
      h.counted q,
      hold q,
    )

    raised-cached : (q : ℕ) → Cached raised.cache q (get_elem? raised.refs q)
    unfolding raised
    raised-cached q = ground (
      arith,
      get_elem?-set w.refs r q ref (record ref { refs = ref.refs + 1 }),
      h.cached q,
      h.cached r,
    )

    raised-live : (sock : ℕ) → LiveAt raised.refs sock (raised.cache sock)
    unfolding raised
    raised-live sock = elim (Option-cases (w.cache sock)) [
      | inl e ↦ rw e tt
      | inr (q, e) ↦ rw e (still q (subst (LiveAt w.refs sock) e (h.live sock)))
    ]
      where
        still :
            (q : ℕ)
            → Live sock (get_elem? w.refs q)
            → Live sock (get_elem? (set w.refs r (record ref { refs = ref.refs + 1 })) q)
        still q l =
            ground (arith, get_elem?-set w.refs r q ref (record ref { refs = ref.refs + 1 }))

    raised-owned :
        ((k : ℕ)
          → total (call_owns k) calls + total (same k) shut
            ≡ total (call_owns k) w.calls + total (same k) w.shut)
        → (k : ℕ) → owners k raised ≡ one_if (ltb k w.conns)
    unfolding raised
    raised-owned own k = ground (
      arith,
      own k,
      h.owned k,
      total-set (ref_owns k) w.refs r ref (record ref { refs = ref.refs + 1 }) at,
    )

    pub raised-Inv :
        ((q : ℕ)
          → total (session_holds q) sessions + total (call_holds q) calls
            ≡ holders q w + one_if (r == q))
        → ((k : ℕ)
            → total (call_owns k) calls + total (same k) shut
              ≡ total (call_owns k) w.calls + total (same k) w.shut)
        → All (λ s. SessionOk raised.refs s.ref s.sock s.conn) sessions
        → All (CallOk raised.refs) calls
        → Inv raised
    unfolding raised
    raised-Inv hold own sok cok = record {
      counted = raised-counted hold;
      cached = raised-cached;
      live = raised-live;
      sessions_ok = sok;
      calls_ok = cok;
      owned = raised-owned own;
    }
