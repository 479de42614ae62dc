-- ===== src/Wayland/Session/Held.antt =====
-- What the invariant of internal/wl/session.go says of a reference that is in use, and the steps that
-- only hand on a call.
use mathlib.Core.Path.{subst}
use perfuncted.Prelude.{
  ℕ, ◌+◌, ◌≤◌, ◌≡◌, refl, Bool, true, false, Option, none, some, List, [], ◌∷◌, ◌++◌, length,
  get_elem?, set, get_elem?-append, get_elem?-set, total-set, total-get, All-set, All-get_elem?,
  ◌==◌, if◌then◌else◌, arith, Bool-cases, Option-cases, inl, inr,
}
use perfuncted.Wayland.Session.{
  SessionRef, Session, Call, ended, dialing, releasing, World, handle, shut_conn, look_up,
  open_session, close_session, is_ref, with_call,
}
use perfuncted.Wayland.Session.Counts.{
  one_if, session_holds, call_holds, holders, call_owns, refs_of, SessionOk, CallOk, IsListed,
  Points, Goes, cons-Goes,
}
use perfuncted.Wayland.Session.Inv.{
  Inv, Live, LiveAt, Cached, set-Extends, sessions-Extends, calls-Extends,
}
use perfuncted.Wayland.Session.Open.{steady-Inv, raised-Inv, raised}

pub Live-ref :
    (refs : List SessionRef) (sock r : ℕ)
    → Live sock (get_elem? refs r)
    → (ref : SessionRef) × (get_elem? refs r ≡ some ref) × (ref.sock ≡ sock) × (1 ≤ ref.refs)
Live-ref refs sock r l = elim (Option-cases (get_elem? refs r)) [
  | inl e ↦ absurd (subst (Live sock) e l)
  | inr (ref, e) ↦ let p : Live sock (some ref) = subst (Live sock) e l in (ref, e, p.0, p.1)
]

pub there_now :
    (refs : List SessionRef) (r n : ℕ) (ref : SessionRef)
    → get_elem? refs r ≡ some ref
    → Points (get_elem? (set refs r (record ref { refs = n })) r) ref.sock (some ref.conn)
there_now refs r n ref at = ground (arith, get_elem?-set refs r r ref (record ref { refs = n }))

pub IsListed-now :
    (refs : List SessionRef) (r n : ℕ) (ref : SessionRef)
    → get_elem? refs r ≡ some ref
    → IsListed (get_elem? (set refs r (record ref { refs = n })) r)
IsListed-now refs r n ref at = ground (arith, get_elem?-set refs r r ref (record ref { refs = n }))

pub there_last :
    (refs : List SessionRef) (ref : SessionRef)
    → Points (get_elem? (refs ++ ref ∷ []) (length refs)) ref.sock (some ref.conn)
there_last refs ref = ground (arith, get_elem?-append refs ref (length refs))

module _ (w : World) (h : Inv w) where
  pub live-ref :
      (sock r : ℕ)
      → w.cache sock ≡ some r
      → (ref : SessionRef) × (get_elem? w.refs r ≡ some ref) × (ref.sock ≡ sock) × (1 ≤ ref.refs)
  live-ref sock r e = Live-ref w.refs sock r (subst (LiveAt w.refs sock) e (h.live sock))

  -- A call goes on, and holds and owns what it did.
  pub plain-Inv :
      (c d : Call) (later : List Call)
      → Goes w.calls c d later
      → CallOk w.refs d
      → ((q : ℕ) → call_holds q c ≡ call_holds q d)
      → ((k : ℕ) → call_owns k c ≡ call_owns k d)
      → Inv (record w { calls = later })
  plain-Inv c d later g ok p q =
      steady-Inv w h w.sessions later w.shut w.conns (λ r. omega (arith, g.holds r, p r))
        (λ k. omega (arith, g.owns k, q k)) h.sessions_ok (g.oks w.refs h.calls_ok ok)

  pub look_up-Inv : (cancelled : Bool) (sock : ℕ) → Inv (with_call (open_session cancelled sock w))
  unfolding open_session raised
  look_up-Inv cancelled sock = elim (Option-cases (w.cache sock)) [
    | inl e ↦
        rw (e, look_up)
          (plain-Inv ended (dialing sock) _ (cons-Goes w.calls (dialing sock)) tt (λ q. refl)
            (λ k. refl))
    | inr (r, e) ↦ elim (Bool-cases cancelled) [
      | inl b ↦
          rw (e, look_up, b)
            (plain-Inv ended ended _ (cons-Goes w.calls ended) tt (λ q. refl) (λ k. refl))
      | inr b ↦
          let (ref, at, s, pos) = live-ref sock r e in rw (e, look_up, b, at) (hit r ref at pos)
    ]
  ]
    where
      hit :
          (r : ℕ) (ref : SessionRef) (at : get_elem? w.refs r ≡ some ref) (pos : 1 ≤ ref.refs)
          → Inv (record w {
            refs = set w.refs r (record ref { refs = ref.refs + 1 });
            sessions = handle r ref ∷ w.sessions;
            calls = ended ∷ w.calls;
          })
      hit r ref at pos =
          raised-Inv w h (handle r ref ∷ w.sessions) (ended ∷ w.calls) w.shut r ref at pos
            (λ q. omega arith) (λ k. omega arith)
            (
              there_now w.refs r (ref.refs + 1) ref at,
              sessions-Extends w.refs _ (set-Extends w.refs r (ref.refs + 1) ref at) w.sessions
                  h.sessions_ok,
            )
            (
              tt,
              calls-Extends w.refs _ (set-Extends w.refs r (ref.refs + 1) ref at) w.calls
                  h.calls_ok,
            )

  pub discard-Inv :
      (conn : ℕ) (c : Call) (later : List Call)
      → Goes w.calls c ended later
      → ((q : ℕ) → call_holds q c ≡ 0)
      → ((k : ℕ) → call_owns k c ≡ one_if (conn == k))
      → Inv (record (shut_conn conn w) { calls = later })
  discard-Inv conn c later g p q =
      steady-Inv w h w.sessions later (conn ∷ w.shut) w.conns (λ r. omega (arith, g.holds r, p r))
        (λ k. omega (arith, g.owns k, q k)) h.sessions_ok (g.oks w.refs h.calls_ok tt)

  pub close_session-Inv :
      (i : ℕ) (s : Session)
      → get_elem? w.sessions i ≡ some s
      → Inv (with_call (close_session i s w))
  unfolding close_session
  close_session-Inv i s at = go s.close_done refl
    where
      ok : SessionOk w.refs s.ref s.sock s.conn
      ok = All-get_elem? (λ s. SessionOk w.refs s.ref s.sock s.conn) w.sessions i s h.sessions_ok at

      go :
          (b : Bool)
          → s.close_done ≡ b
          → Inv (
              with_call (
                if b then (w, ended) else (
                  record w { sessions = set w.sessions i (record s { close_done = true }) },
                  releasing s,
                )))
      go true b = plain-Inv ended ended _ (cons-Goes w.calls ended) tt (λ q. refl) (λ k. refl)
      go false b =
          steady-Inv w h (set w.sessions i (record s { close_done = true })) (releasing s ∷ w.calls)
            w.shut w.conns
            (λ r. ground (
              arith,
              total-set (session_holds r) w.sessions i s (record s { close_done = true }) at,
            ))
            (λ k. omega arith)
            (All-set (λ s. SessionOk w.refs s.ref s.sock s.conn) w.sessions i
              (record s { close_done = true }) h.sessions_ok ok)
            (ok, h.calls_ok)

  -- A reference that is held is in the cache.
  pub held :
      (q : ℕ)
      → 1 ≤ holders q w
      → (ref : SessionRef) × (get_elem? w.refs q ≡ some ref)
        × (1 ≤ ref.refs)
        × (w.cache ref.sock ≡ some q)
  held q l = elim (Option-cases (get_elem? w.refs q)) [
    | inl e ↦ absurd (none_held e (h.counted q))
    | inr (ref, e) ↦
        let pos = some_held ref e (h.counted q) in
        (ref, e, pos, subst (Cached w.cache q) e (h.cached q) pos)
  ]
    where
      none_held : get_elem? w.refs q ≡ none → refs_of (get_elem? w.refs q) ≡ holders q w → ⊥
      none_held e c = ground arith

      some_held :
          (ref : SessionRef)
          → get_elem? w.refs q ≡ some ref
          → refs_of (get_elem? w.refs q) ≡ holders q w
          → 1 ≤ ref.refs
      some_held ref e c = ground arith

  -- A session whose reference is held is that of the cache for its socket.
  pub ok_held :
      (r : Option ℕ) (sock : ℕ) (conn : Option ℕ)
      → SessionOk w.refs r sock conn
      → ((q : ℕ) → one_if (is_ref r q) ≤ holders q w)
      → (q : ℕ) × (ref : SessionRef) × (r ≡ some q)
        × (get_elem? w.refs q ≡ some ref)
        × (ref.sock ≡ sock)
        × (some ref.conn ≡ conn)
        × (1 ≤ ref.refs)
        × (w.cache sock ≡ some q)
  ok_held none sock conn o l = absurd o
  ok_held (some q) sock conn o l =
      let (ref, e, pos, c) = held q (ground (arith, l q)) in
      let p : Points (some ref) sock conn = subst (λ x. Points x sock conn) e o in
      (q, ref, refl, e, p.0, p.1, pos, subst (λ x. w.cache x ≡ some q) p.0 c)

  pub releasing_held :
      (i : ℕ) (s : Session)
      → get_elem? w.calls i ≡ some (releasing s)
      → (q : ℕ) × (ref : SessionRef) × (s.ref ≡ some q)
        × (get_elem? w.refs q ≡ some ref)
        × (ref.sock ≡ s.sock)
        × (some ref.conn ≡ s.conn)
        × (1 ≤ ref.refs)
        × (w.cache s.sock ≡ some q)
  releasing_held i s at =
      ok_held s.ref s.sock s.conn
        (All-get_elem? (CallOk w.refs) w.calls i (releasing s) h.calls_ok at)
        (λ q. omega (arith, total-get (call_holds q) w.calls i (releasing s) at))
