-- ===== src/Wayland/Session/Steps.antt =====
-- Every step of internal/wl/session.go keeps the invariant of the cache.
use mathlib.Core.Path.{subst}
use perfuncted.Prelude.{
  ℕ, suc, ◌+◌, ◌-◌, ◌≤◌, ◌≡◌, refl, sym, Bool, true, false, none, some, List, [], ◌∷◌, ◌++◌, length,
  get_elem?, set, All-get_elem?, leb, ◌==◌, if◌then◌else◌, arith, Bool-cases, Option-cases, inl,
  inr,
}
use perfuncted.Wayland.Session.{
  SessionRef, Session, Call, ended, dialing, publishing, sharing, discarding, releasing,
  disconnecting, World, hand_out, handle, update, shut_conn, dial, insert_or_share, publish,
  release, advance, with_call_at, Step, opens, closes, advances, Reach, here, next, no_sessions,
}
use perfuncted.Wayland.Session.Counts.{
  one_if, call_holds, call_owns, CallOk, IsListed, Points, Goes, set-Goes,
}
use perfuncted.Wayland.Session.Inv.{
  Inv, set-Extends, append-Extends, sessions-Extends, calls-Extends, no_sessions-Inv,
}
use perfuncted.Wayland.Session.Open.{steady-Inv, raised-Inv, raised}
use perfuncted.Wayland.Session.Close.{added, added-Inv, lowered, lowered-Inv}
use perfuncted.Wayland.Session.Held.{
  IsListed-now, there_last, live-ref, plain-Inv, look_up-Inv, discard-Inv, close_session-Inv,
  releasing_held,
}

module _ (w : World) (h : Inv w) where
  fresh-Inv :
      (i sock : ℕ) (d : Call)
      → get_elem? w.calls i ≡ some (dialing sock)
      → CallOk w.refs d
      → ((q : ℕ) → call_holds q d ≡ 0)
      → ((k : ℕ) → call_owns k d ≡ one_if (w.conns == k))
      → Inv (record w { conns = suc w.conns; calls = set w.calls i d })
  fresh-Inv i sock d at ok p q =
      let g = set-Goes w.calls i (dialing sock) d at in
      steady-Inv w h w.sessions (set w.calls i d) w.shut (suc w.conns)
        (λ r. omega (arith, g.holds r, p r)) (λ k. ground (arith, g.owns k, q k)) h.sessions_ok
        (g.oks w.refs h.calls_ok ok)

  module _ (i : ℕ) where
    dial-Inv :
        (connects exchanges : Bool) (sock : ℕ)
        → get_elem? w.calls i ≡ some (dialing sock)
        → Inv (with_call_at i (dial connects exchanges sock w))
    unfolding dial
    dial-Inv false exchanges sock at =
        plain-Inv w h (dialing sock) ended _ (set-Goes w.calls i (dialing sock) ended at) tt
          (λ q. refl) (λ k. refl)
    dial-Inv true true sock at =
        fresh-Inv i sock (publishing sock w.conns) at tt (λ q. refl) (λ k. refl)
    dial-Inv true false sock at =
        fresh-Inv i sock (discarding w.conns) at tt (λ q. refl) (λ k. refl)

    publish-Inv :
        (cancelled : Bool) (sock conn : ℕ)
        → get_elem? w.calls i ≡ some (publishing sock conn)
        → Inv (with_call_at i (publish cancelled sock conn w))
    unfolding publish raised added
    publish-Inv true sock conn at =
        plain-Inv w h (publishing sock conn) (discarding conn) _
          (set-Goes w.calls i _ (discarding conn) at) tt (λ q. refl) (λ k. refl)
    publish-Inv false sock conn at = elim (Option-cases (w.cache sock)) [
      | inl e ↦
          rw (e, insert_or_share) (new (record { sock = sock; conn = conn; refs = 1 }) e refl at)
      | inr (r, e) ↦
          let (ref, there, s, pos) = live-ref w h sock r e in
          rw (e, insert_or_share, there)
            (hit r ref there pos (set-Goes w.calls i _ (sharing conn r) at))
    ]
      where
        new :
            (ref : SessionRef)
            → w.cache ref.sock ≡ none
            → ref.refs ≡ 1
            → get_elem? w.calls i ≡ some (publishing ref.sock ref.conn)
            → Inv (record w {
              cache = update w.cache ref.sock (some (length w.refs));
              refs = w.refs ++ ref ∷ [];
              sessions = handle (length w.refs) ref ∷ w.sessions;
              calls = set w.calls i ended;
            })
        new ref free one at =
            let g = set-Goes w.calls i (publishing ref.sock ref.conn) ended at in
            let x = append-Extends w.refs ref in
            added-Inv w h (handle (length w.refs) ref ∷ w.sessions) (set w.calls i ended) ref free
              one (λ q. omega (arith, g.holds q)) (λ k. omega (arith, g.owns k))
              (
                there_last w.refs ref,
                sessions-Extends w.refs (w.refs ++ ref ∷ []) x w.sessions h.sessions_ok,
              )
              (g.oks (w.refs ++ ref ∷ [])
                (calls-Extends w.refs (w.refs ++ ref ∷ []) x w.calls h.calls_ok) tt)

        hit :
            (r : ℕ) (ref : SessionRef) (there : get_elem? w.refs r ≡ some ref) (pos : 1 ≤ ref.refs)
            → Goes w.calls (publishing sock conn) (sharing conn r) (set w.calls i (sharing conn r))
            → Inv (record w {
              refs = set w.refs r (record ref { refs = ref.refs + 1 });
              calls = set w.calls i (sharing conn r);
            })
        hit r ref there pos g =
            let x = set-Extends w.refs r (ref.refs + 1) ref there in
            raised-Inv w h w.sessions (set w.calls i (sharing conn r)) w.shut r ref there pos
              (λ q. omega (arith, g.holds q)) (λ k. omega (arith, g.owns k))
              (sessions-Extends w.refs _ x w.sessions h.sessions_ok)
              (g.oks _ (calls-Extends w.refs _ x w.calls h.calls_ok)
                (IsListed-now w.refs r (ref.refs + 1) ref there))

    share-Inv :
        (conn r : ℕ)
        → get_elem? w.calls i ≡ some (sharing conn r)
        → Inv (with_call_at i (hand_out (get_elem? w.refs r) r (shut_conn conn w), ended))
    share-Inv conn r at = elim (Option-cases (get_elem? w.refs r)) [
      | inl e ↦ absurd (subst IsListed e (All-get_elem? (CallOk w.refs) w.calls i _ h.calls_ok at))
      | inr (ref, e) ↦ rw e (go ref e (set-Goes w.calls i (sharing conn r) ended at))
    ]
      where
        go :
            (ref : SessionRef)
            → get_elem? w.refs r ≡ some ref
            → Goes w.calls (sharing conn r) ended (set w.calls i ended)
            → Inv (record w {
              sessions = handle r ref ∷ w.sessions;
              shut = conn ∷ w.shut;
              calls = set w.calls i ended;
            })
        go ref e g =
            steady-Inv w h (handle r ref ∷ w.sessions) (set w.calls i ended) (conn ∷ w.shut) w.conns
              (λ q. omega (arith, g.holds q)) (λ k. omega (arith, g.owns k))
              (subst (λ x. Points x ref.sock (some ref.conn)) (sym e) (refl, refl), h.sessions_ok)
              (g.oks w.refs h.calls_ok tt)

    pub release-eq :
        (s : Session) (q : ℕ) (ref : SessionRef)
        → s.ref ≡ some q
        → get_elem? w.refs q ≡ some ref
        → ref.sock ≡ s.sock
        → w.cache s.sock ≡ some q
        → release s w ≡ (
          record w {
            cache = if leb ref.refs 1 then update w.cache ref.sock none else w.cache;
            refs = set w.refs q (record ref { refs = ref.refs - 1 });
          },
          if leb ref.refs 1 then disconnecting ref.conn else ended,
        )
    unfolding release
    release-eq s q ref e there p c = ground arith

    release-Inv :
        (s : Session)
        → get_elem? w.calls i ≡ some (releasing s)
        → Inv (with_call_at i (release s w))
    unfolding lowered
    release-Inv s at =
        let (q, ref, e, there, p, _, pos, c) = releasing_held w h i s at in
        subst (λ x. Inv (with_call_at i x)) (sym (release-eq s q ref e there p c))
          (lower q ref there pos e (set-Goes w.calls i (releasing s) _ at))
      where
        later : SessionRef → Call
        later ref = if leb ref.refs 1 then disconnecting ref.conn else ended

        later_ok : (refs : List SessionRef) (ref : SessionRef) → CallOk refs (later ref)
        later_ok refs ref = elim (Bool-cases (leb ref.refs 1)) [ inl b ↦ rw b tt | inr b ↦ rw b tt ]

        lower :
            (q : ℕ) (ref : SessionRef) (there : get_elem? w.refs q ≡ some ref) (pos : 1 ≤ ref.refs)
            → s.ref ≡ some q
            → Goes w.calls (releasing s) (later ref) (set w.calls i (later ref))
            → Inv (record w {
              cache = if leb ref.refs 1 then update w.cache ref.sock none else w.cache;
              refs = set w.refs q (record ref { refs = ref.refs - 1 });
              calls = set w.calls i (later ref);
            })
        lower q ref there pos e g =
            let x = set-Extends w.refs q (ref.refs - 1) ref there in
            lowered-Inv w h w.sessions (set w.calls i (later ref)) q ref there pos
              (λ r. ground (arith, g.holds r)) (λ k. ground (arith, g.owns k))
              (sessions-Extends w.refs _ x w.sessions h.sessions_ok)
              (g.oks _ (calls-Extends w.refs _ x w.calls h.calls_ok) (later_ok _ ref))

  advance-Inv :
      (a b : Bool) (i : ℕ) (c : Call)
      → get_elem? w.calls i ≡ some c
      → Inv (with_call_at i (advance a b c w))
  unfolding advance
  advance-Inv a b i (dialing sock) at = dial-Inv i a b sock at
  advance-Inv a b i (publishing sock conn) at = publish-Inv i a sock conn at
  advance-Inv a b i (sharing conn r) at = share-Inv i conn r at
  advance-Inv a b i (discarding conn) at =
      discard-Inv w h conn (discarding conn) _ (set-Goes w.calls i _ ended at) (λ q. refl)
        (λ k. refl)
  advance-Inv a b i (releasing s) at = release-Inv i s at
  advance-Inv a b i (disconnecting conn) at =
      discard-Inv w h conn (disconnecting conn) _ (set-Goes w.calls i _ ended at) (λ q. refl)
        (λ k. refl)
  advance-Inv a b i ended at =
      plain-Inv w h ended ended _ (set-Goes w.calls i ended ended at) tt (λ q. refl) (λ k. refl)

pub Step-Inv : {w v : World} → Step w v → Inv w → Inv v
Step-Inv {w = w} (opens cancelled sock) h = look_up-Inv w h cancelled sock
Step-Inv {w = w} (closes i s at) h = close_session-Inv w h i s at
Step-Inv {w = w} (advances a b i c at) h = advance-Inv w h a b i c at

pub Reach-Inv : {w v : World} → Inv w → Reach w v → Inv v
Reach-Inv h here = h
Reach-Inv h (next r s) = Step-Inv s (Reach-Inv h r)

pub Reached-Inv : (w : World) → Reach no_sessions w → Inv w
Reached-Inv w r = Reach-Inv no_sessions-Inv r
