-- ===== src/Wayland/Session/Close.antt =====
-- Steps of internal/wl/session.go that publish a connection or release a reference keep the
-- invariant.
use mathlib.Core.Path.{subst}
use perfuncted.Prelude.{
  ℕ, ◌+◌, ◌-◌, ◌≤◌, ◌≡◌, true, Option, none, some, List, [], ◌∷◌, ◌++◌, length, get_elem?, set,
  get_elem?-set, get_elem?-append, get_elem?-length, total-set, total-append, All, total, ltb, leb,
  ◌==◌, if◌then◌else◌, arith, Bool-cases, Option-cases, inl, inr,
}
use perfuncted.Wayland.Session.{SessionRef, Session, Call, World, update}
use perfuncted.Wayland.Session.Counts.{
  one_if, session_holds, call_holds, holders, ref_owns, call_owns, owners, refs_of, SessionOk,
  CallOk,
}
use perfuncted.Wayland.Session.Inv.{Inv, Live, LiveAt, Cached}

module _ (w : World) (h : Inv w) (sessions : List Session) (calls : List Call) where
  -- A new reference, of a socket that the cache has not.
  module _ (ref : SessionRef) (free : w.cache ref.sock ≡ none) (one : ref.refs ≡ 1) where
    unfoldable pub added : World
    added = record w {
      cache = update w.cache ref.sock (some (length w.refs));
      refs = w.refs ++ ref ∷ [];
      sessions = sessions;
      calls = calls;
    }

    added-cached : (q : ℕ) → Cached added.cache q (get_elem? added.refs q)
    unfolding added
    added-cached q = ground (arith, get_elem?-append w.refs ref q, h.cached q)

    added-live : (sock : ℕ) → LiveAt added.refs sock (added.cache sock)
    unfolding added
    added-live sock = elim (Bool-cases (sock == ref.sock)) [
      | inl e ↦ rw e (new e)
      | inr e ↦ rw e (elim (Option-cases (w.cache sock)) [
        | inl f ↦ rw f tt
        | inr (q, f) ↦ rw f (still q (subst (LiveAt w.refs sock) f (h.live sock)))
      ])
    ]
      where
        still :
            (q : ℕ) → Live sock (get_elem? w.refs q) → Live sock (get_elem? (w.refs ++ ref ∷ []) q)
        still q l = ground (arith, get_elem?-append w.refs ref q, get_elem?-length w.refs)

        new : sock == ref.sock ≡ true → Live sock (get_elem? (w.refs ++ ref ∷ []) (length w.refs))
        new e = ground (arith, get_elem?-append w.refs ref (length w.refs))

    added-counted :
        ((q : ℕ)
          → total (session_holds q) sessions + total (call_holds q) calls
            ≡ holders q w + one_if (length w.refs == q))
        → (q : ℕ) → refs_of (get_elem? added.refs q) ≡ holders q added
    unfolding added
    added-counted hold q =
        ground (arith, get_elem?-append w.refs ref q, get_elem?-length w.refs, h.counted q, hold q)

    added-owned :
        ((k : ℕ) → total (call_owns k) calls + one_if (ref.conn == k) ≡ total (call_owns k) w.calls)
        → (k : ℕ) → owners k added ≡ one_if (ltb k w.conns)
    unfolding added
    added-owned own k =
        ground (arith, own k, h.owned k, total-append (ref_owns k) w.refs (ref ∷ []))

    pub added-Inv :
        ((q : ℕ)
          → total (session_holds q) sessions + total (call_holds q) calls
            ≡ holders q w + one_if (length w.refs == q))
        → ((k : ℕ)
            → total (call_owns k) calls + one_if (ref.conn == k) ≡ total (call_owns k) w.calls)
        → All (λ s. SessionOk added.refs s.ref s.sock s.conn) sessions
        → All (CallOk added.refs) calls
        → Inv added
    unfolding added
    added-Inv hold own sok cok = record {
      counted = added-counted hold;
      cached = added-cached;
      live = added-live;
      sessions_ok = sok;
      calls_ok = cok;
      owned = added-owned own;
    }

  -- One holder less of reference `r`, which goes from the cache with the last one.
  module _ (r : ℕ) (ref : SessionRef) (at : get_elem? w.refs r ≡ some ref)
      (pos : 1 ≤ ref.refs) where
    abbrev cache_after : ℕ → Option ℕ
    cache_after = if leb ref.refs 1 then update w.cache ref.sock none else w.cache

    unfoldable pub lowered : World
    lowered = record w {
      cache = cache_after;
      refs = set w.refs r (record ref { refs = ref.refs - 1 });
      sessions = sessions;
      calls = calls;
    }

    lowered-counted :
        ((q : ℕ)
          → total (session_holds q) sessions + total (call_holds q) calls + one_if (r == q)
            ≡ holders q w)
        → (q : ℕ) → refs_of (get_elem? lowered.refs q) ≡ holders q lowered
    unfolding lowered
    lowered-counted hold q = ground (
      arith,
      get_elem?-set w.refs r q ref (record ref { refs = ref.refs - 1 }),
      h.counted q,
      hold q,
    )

    lowered-cached : (q : ℕ) → Cached lowered.cache q (get_elem? lowered.refs q)
    unfolding lowered
    lowered-cached q = ground (
      arith,
      get_elem?-set w.refs r q ref (record ref { refs = ref.refs - 1 }),
      h.cached q,
      h.cached r,
    )

    lowered-live : (sock : ℕ) → LiveAt lowered.refs sock (lowered.cache sock)
    unfolding lowered
    lowered-live sock = elim (Option-cases (cache_after sock)) [
      | inl e ↦ rw e tt
      | inr (q, e) ↦ rw e (still q e (h.live sock))
    ]
      where
        still :
            (q : ℕ)
            → cache_after sock ≡ some q
            → LiveAt w.refs sock (w.cache sock)
            → Live sock (get_elem? (set w.refs r (record ref { refs = ref.refs - 1 })) q)
        still q e l =
            ground
              (arith, get_elem?-set w.refs r q ref (record ref { refs = ref.refs - 1 }), h.cached r)

    lowered-owned :
        ((k : ℕ)
          → total (call_owns k) calls
            ≡ total (call_owns k) w.calls + (if leb ref.refs 1 then one_if (ref.conn == k) else 0))
        → (k : ℕ) → owners k lowered ≡ one_if (ltb k w.conns)
    unfolding lowered
    lowered-owned own k = ground (
      arith,
      own k,
      h.owned k,
      total-set (ref_owns k) w.refs r ref (record ref { refs = ref.refs - 1 }) at,
    )

    pub lowered-Inv :
        ((q : ℕ)
          → total (session_holds q) sessions + total (call_holds q) calls + one_if (r == q)
            ≡ holders q w)
        → ((k : ℕ)
            → total (call_owns k) calls
              ≡ total (call_owns k) w.calls
                + (if leb ref.refs 1 then one_if (ref.conn == k) else 0))
        → All (λ s. SessionOk lowered.refs s.ref s.sock s.conn) sessions
        → All (CallOk lowered.refs) calls
        → Inv lowered
    unfolding lowered
    lowered-Inv hold own sok cok = record {
      counted = lowered-counted hold;
      cached = lowered-cached;
      live = lowered-live;
      sessions_ok = sok;
      calls_ok = cok;
      owned = lowered-owned own;
    }
