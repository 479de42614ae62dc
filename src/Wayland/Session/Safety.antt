-- ===== src/Wayland/Session/Safety.antt =====
-- What the session cache of internal/wl/session.go promises, over every interleaving of its calls.
use perfuncted.Prelude.{
  ℕ, suc, ◌≤◌, ◌<◌, ◌≡◌, refl, sym, ◌∙◌, true, false, none, some, List, [], ◌∷◌, get_elem?, mem,
  total, total-get, All, All-get_elem?, arith, Option-cases, inl, inr,
}
use perfuncted.Wayland.Session.{SessionRef, Session, Call, ended, World, Reach, no_sessions}
use perfuncted.Wayland.Session.Counts.{
  session_holds, call_holds, ref_owns, call_owns, same, refs_of, SessionOk,
}
use perfuncted.Wayland.Session.Inv.{Inv}
use perfuncted.Wayland.Session.Steps.{Reached-Inv}
use perfuncted.Wayland.Session.Held.{ok_held, live-ref}

not_mem : (k : ℕ) (l : List ℕ) → total (same k) l ≡ 0 → mem k l ≡ false
not_mem k [] h = refl
not_mem k (c ∷ l) h = ground (arith, not_mem k l)

-- The reference of an open handle.
open_ref :
    (w : World) (h : Inv w) (i : ℕ) (s : Session)
    → get_elem? w.sessions i ≡ some s
    → s.close_done ≡ false
    → (q : ℕ) × (ref : SessionRef) × (s.ref ≡ some q)
      × (get_elem? w.refs q ≡ some ref)
      × (ref.sock ≡ s.sock)
      × (some ref.conn ≡ s.conn)
      × (1 ≤ ref.refs)
      × (w.cache s.sock ≡ some q)
open_ref w h i s at op =
    ok_held w h s.ref s.sock s.conn
      (All-get_elem? (λ s. SessionOk w.refs s.ref s.sock s.conn) w.sessions i s h.sessions_ok at)
      (λ q. ground (arith, total-get (session_holds q) w.sessions i s at))

alone :
    (w : World) (h : Inv w) (q : ℕ) (ref : SessionRef)
    → get_elem? w.refs q ≡ some ref
    → 1 ≤ ref.refs
    → (total (call_owns ref.conn) w.calls ≡ 0) × (total (same ref.conn) w.shut ≡ 0)
alone w h q ref e pos =
    ground (arith, total-get (ref_owns ref.conn) w.refs q ref e, h.owned ref.conn)

-- While a handle is not closed, the cache has its reference for its socket, the connection of the
-- handle has not been closed, and no call in progress will close it.
pub open_connected :
    (w : World) (i : ℕ) (s : Session)
    → Reach no_sessions w
    → get_elem? w.sessions i ≡ some s
    → s.close_done ≡ false
    → (conn : ℕ) × (s.conn ≡ some conn)
      × (w.cache s.sock ≡ s.ref)
      × (mem conn w.shut ≡ false)
      × (total (call_owns conn) w.calls ≡ 0)
open_connected w i s r at op =
    let h = Reached-Inv w r in
    let (q, ref, e, there, p, c, pos, f) = open_ref w h i s at op in
    let (a, b) = alone w h q ref there pos in
    (ref.conn, sym c, f ∙ sym e, not_mem ref.conn w.shut b, a)

-- Two open handles of one socket share one connection.
pub open_shared :
    (w : World) (i j : ℕ) (s t : Session)
    → Reach no_sessions w
    → get_elem? w.sessions i ≡ some s
    → get_elem? w.sessions j ≡ some t
    → s.close_done ≡ false
    → t.close_done ≡ false
    → s.sock ≡ t.sock
    → s.conn ≡ t.conn
open_shared w i j s t r at bt op oq e =
    let h = Reached-Inv w r in
    let (q, ref, a, there, p, c, pos, f) = open_ref w h i s at op in
    let (q', ref', a', there', p', c', pos', f') = open_ref w h j t bt oq in cc

all_ended :
    (k : ℕ) (l : List Call)
    → All (λ c. c ≡ ended) l
    → (total (call_owns k) l ≡ 0) × (total (call_holds k) l ≡ 0)
all_ended k [] h = (refl, refl)
all_ended k (c ∷ l) h = ground (arith, all_ended k l h.1)

all_closed :
    (r : ℕ) (l : List Session) → All (λ s. s.close_done ≡ true) l → total (session_holds r) l ≡ 0
all_closed r [] h = refl
all_closed r (s ∷ l) h = ground (arith, all_closed r l h.1)

unowned :
    (k : ℕ) (refs : List SessionRef)
    → ((r : ℕ) → refs_of (get_elem? refs r) ≡ 0)
    → total (ref_owns k) refs ≡ 0
unowned k [] h = refl
unowned k (ref ∷ refs) h = ground (arith, h 0, unowned k refs (λ r. h (suc r)))

-- No connection is ever closed twice.
pub closed_once : (w : World) (conn : ℕ) → Reach no_sessions w → total (same conn) w.shut ≤ 1
closed_once w conn r = let h = Reached-Inv w r in ground (arith, h.owned conn)

-- Once every call has ended and every handle is closed, the cache is empty and each connection that
-- was made has been closed, exactly once: none leaks.
pub no_leak :
    (w : World)
    → Reach no_sessions w
    → All (λ c. c ≡ ended) w.calls
    → All (λ s. s.close_done ≡ true) w.sessions
    → ((sock : ℕ) → w.cache sock ≡ none)
      × ((conn : ℕ) → conn < w.conns → total (same conn) w.shut ≡ 1)
no_leak w r over closed = (empty, once)
  where
    h : Inv w
    h = Reached-Inv w r

    unheld : (q : ℕ) → refs_of (get_elem? w.refs q) ≡ 0
    unheld q =
        omega (arith, h.counted q, (all_ended q w.calls over).1, all_closed q w.sessions closed)

    idle : (q : ℕ) (ref : SessionRef) → get_elem? w.refs q ≡ some ref → 1 ≤ ref.refs → ⊥
    idle q ref there pos = ground (arith, unheld q)

    empty : (sock : ℕ) → w.cache sock ≡ none
    empty sock = elim (Option-cases (w.cache sock)) [
      | inl e ↦ e
      | inr (q, e) ↦
          let (ref, there, _, pos) = live-ref w h sock q e in absurd (idle q ref there pos)
    ]

    once : (conn : ℕ) → conn < w.conns → total (same conn) w.shut ≡ 1
    once conn l =
        ground (arith, h.owned conn, (all_ended conn w.calls over).0, unowned conn w.refs unheld)
