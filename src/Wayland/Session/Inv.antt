-- ===== src/Wayland/Session/Inv.antt =====
-- What holds of the session cache of internal/wl/session.go between two steps.
use perfuncted.Prelude.{
  ℕ, zero, suc, ◌≤◌, ◌≡◌, refl, Option, none, some, List, [], ◌∷◌, ◌++◌, get_elem?, set,
  get_elem?-set, All, ltb, arith,
}
use perfuncted.Wayland.Session.{SessionRef, Session, Call, sharing, releasing, World, no_sessions}
use perfuncted.Wayland.Session.Counts.{
  one_if, holders, owners, refs_of, SessionOk, CallOk, IsListed, Points,
}

-- The reference that the cache has for a socket is of that socket, and is held.
abbrev pub Live : ℕ → Option SessionRef → Type 0
Live sock none = ⊥
Live sock (some ref) = (ref.sock ≡ sock) × (1 ≤ ref.refs)

abbrev pub LiveAt : List SessionRef → ℕ → Option ℕ → Type 0
LiveAt refs sock none = Unit
LiveAt refs sock (some r) = Live sock (get_elem? refs r)

-- A reference that is held is in the cache.
abbrev pub Cached : (ℕ → Option ℕ) → ℕ → Option SessionRef → Type 0
Cached cache r none = Unit
Cached cache r (some ref) = 1 ≤ ref.refs → cache ref.sock ≡ some r

pub record Inv (w : World) : Type 0 where
  pub counted : (r : ℕ) → refs_of (get_elem? w.refs r) ≡ holders r w
  pub cached : (r : ℕ) → Cached w.cache r (get_elem? w.refs r)
  pub live : (sock : ℕ) → LiveAt w.refs sock (w.cache sock)
  pub sessions_ok : All (λ s. SessionOk w.refs s.ref s.sock s.conn) w.sessions
  pub calls_ok : All (CallOk w.refs) w.calls
  -- each connection that was made is owned just once
  pub owned : (conn : ℕ) → owners conn w ≡ one_if (ltb conn w.conns)

pub no_sessions-Inv : Inv no_sessions
no_sessions-Inv = record {
  counted = λ r. refl;
  cached = λ r. tt;
  live = λ sock. tt;
  sessions_ok = tt;
  calls_ok = tt;
  owned = λ conn. ground arith;
}

-- References that differ in their counts only, at most with a new one at the end.
abbrev pub Follows : Option SessionRef → Option SessionRef → Type 0
Follows none b = Unit
Follows (some a) none = ⊥
Follows (some a) (some b) = (a.sock ≡ b.sock) × (a.conn ≡ b.conn)

abbrev pub Extends : List SessionRef → List SessionRef → Type 0
Extends refs later = (r : ℕ) → Follows (get_elem? refs r) (get_elem? later r)

pub set-Extends :
    (refs : List SessionRef) (r n : ℕ) (ref : SessionRef)
    → get_elem? refs r ≡ some ref
    → Extends refs (set refs r (record ref { refs = n }))
set-Extends refs r n ref e q = ground (arith, get_elem?-set refs r q ref (record ref { refs = n }))

pub append-Extends : (refs : List SessionRef) (ref : SessionRef) → Extends refs (refs ++ ref ∷ [])
append-Extends [] ref q = tt
append-Extends (x ∷ refs) ref zero = (refl, refl)
append-Extends (x ∷ refs) ref (suc q) = append-Extends refs ref q

Points-Follows :
    (a b : Option SessionRef) (sock : ℕ) (conn : Option ℕ)
    → Follows a b
    → Points a sock conn
    → Points b sock conn
Points-Follows none b sock conn f p = absurd p
Points-Follows (some a) none sock conn f p = f
Points-Follows (some a) (some b) sock conn f p = ground arith

IsListed-Follows : (a b : Option SessionRef) → Follows a b → IsListed a → IsListed b
IsListed-Follows none b f p = absurd p
IsListed-Follows (some a) none f p = f
IsListed-Follows (some a) (some b) f p = tt

module _ (refs later : List SessionRef) (x : Extends refs later) where
  pub SessionOk-Extends :
      (r : Option ℕ) (sock : ℕ) (conn : Option ℕ)
      → SessionOk refs r sock conn
      → SessionOk later r sock conn
  SessionOk-Extends none sock conn h = h
  SessionOk-Extends (some r) sock conn h =
      Points-Follows (get_elem? refs r) (get_elem? later r) sock conn (x r) h

  pub CallOk-Extends : (c : Call) → CallOk refs c → CallOk later c
  CallOk-Extends (releasing s) h = SessionOk-Extends s.ref s.sock s.conn h
  CallOk-Extends (sharing conn r) h =
      IsListed-Follows (get_elem? refs r) (get_elem? later r) (x r) h
  CallOk-Extends _ h = tt

  pub sessions-Extends :
      (l : List Session)
      → All (λ s. SessionOk refs s.ref s.sock s.conn) l
      → All (λ s. SessionOk later s.ref s.sock s.conn) l
  sessions-Extends [] h = tt
  sessions-Extends (s ∷ l) h = (SessionOk-Extends s.ref s.sock s.conn h.0, sessions-Extends l h.1)

  pub calls-Extends : (l : List Call) → All (CallOk refs) l → All (CallOk later) l
  calls-Extends [] h = tt
  calls-Extends (c ∷ l) h = (CallOk-Extends c h.0, calls-Extends l h.1)
