-- ===== src/Wayland/Session/Refines.antt =====
-- The session cache of internal/wl/session.go refines a table of shared connections: for each
-- socket either nothing, or one connection with the number of its holders.
use mathlib.Core.Path.{subst}
use perfuncted.Prelude.{
  ℕ, ◌+◌, ◌-◌, ◌≤◌, ◌≡◌, ◌⊎◌, refl, sym, ap, Bool, true, false, Option, none, some, List, [], ◌∷◌,
  ◌++◌, length, get_elem?, set, get_elem?-set, get_elem?-append, get_elem?-length, leb, ◌==◌,
  if◌then◌else◌, arith, Bool-cases, Option-cases, inl, inr,
}
use perfuncted.Wayland.Session.{
  SessionRef, Call, ended, dialing, publishing, sharing, discarding, releasing, disconnecting,
  World, update, look_up, open_session, dial, insert_or_share, publish, close_session, advance,
  with_call, with_call_at, Step, opens, closes, advances, Reach, next, no_sessions,
}
use perfuncted.Wayland.Session.Counts.{holders, refs_of}
use perfuncted.Wayland.Session.Inv.{Inv, Live, LiveAt, Cached}
use perfuncted.Wayland.Session.Steps.{Reached-Inv, release-eq}
use perfuncted.Wayland.Session.Held.{live-ref, releasing_held}

abbrev pub Entry : Type 0
Entry = Option (ℕ × ℕ)

abbrev pub entry_of : Option SessionRef → Entry
entry_of none = none
entry_of (some ref) = some (ref.conn, ref.refs)

abbrev pub entry_at : List SessionRef → Option ℕ → Entry
entry_at refs none = none
entry_at refs (some r) = entry_of (get_elem? refs r)

-- The table by the counters of the references.
abbrev pub table : World → ℕ → Entry
table w sock = entry_at w.refs (w.cache sock)

-- The table that the world promises: a connection with those who hold its reference, which are the
-- handles that are open and the calls that will make or release one. The counter is not read.
abbrev pub held_entry : World → ℕ → Option SessionRef → Entry
held_entry w r none = none
held_entry w r (some ref) = some (ref.conn, holders r w)

abbrev pub held_at : World → Option ℕ → Entry
held_at w none = none
held_at w (some r) = held_entry w r (get_elem? w.refs r)

abbrev pub held_table : World → ℕ → Entry
held_table w sock = held_at w (w.cache sock)

entry_counted :
    (w : World) (r : ℕ) (o : Option SessionRef)
    → refs_of o ≡ holders r w
    → held_entry w r o ≡ entry_of o
entry_counted w r none e = refl
entry_counted w r (some ref) e = ap (λ n. some (ref.conn, n)) (sym e)

table_counted : (w : World) → Inv w → (sock : ℕ) → held_table w sock ≡ table w sock
table_counted w h sock = go (w.cache sock)
  where
    go : (o : Option ℕ) → held_at w o ≡ entry_at w.refs o
    go none = refl
    go (some r) = entry_counted w r (get_elem? w.refs r) (h.counted r)

-- How the entry of a socket may change: a connection comes with its first holder and goes with its
-- last one, and in between it stays the same.
abbrev pub Moves : Entry → Entry → Type 0
Moves none none = Unit
Moves none (some (conn, n)) = n ≡ 1
Moves (some (conn, n)) none = n ≡ 1
Moves (some (conn, n)) (some (later, m)) =
    (later ≡ conn) × (1 ≤ m) × ((m ≡ n) ⊎ ((m ≡ n + 1) ⊎ (n ≡ m + 1)))

stays :
    (refs : List SessionRef) (sock : ℕ) (r : Option ℕ)
    → LiveAt refs sock r
    → Moves (entry_at refs r) (entry_at refs r)
stays refs sock none l = tt
stays refs sock (some r) l = ground arith

module _ (w : World) (h : Inv w) where
  -- A change of one reference, for a socket whose entry is at hand.
  Live-at : (sock q : ℕ) → w.cache sock ≡ some q → Live sock (get_elem? w.refs q)
  Live-at sock q e = subst (LiveAt w.refs sock) e (h.live sock)

  steady : (sock : ℕ) → Moves (table w sock) (table w sock)
  steady sock = stays w.refs sock (w.cache sock) (h.live sock)

  adds :
      (ref : SessionRef) (sock : ℕ)
      → w.cache ref.sock ≡ none
      → ref.refs ≡ 1
      → Moves
          (table w sock)
          (entry_at (w.refs ++ ref ∷ []) (update w.cache ref.sock (some (length w.refs)) sock))
  adds ref sock free one = elim (Bool-cases (sock == ref.sock)) [
    | inl e ↦ rw (e, none_here e) (new)
    | inr e ↦ elim (Option-cases (w.cache sock)) [
      | inl f ↦ rw (e, f) tt
      | inr (q, f) ↦ rw (e, f) (old q (Live-at sock q f))
    ]
  ]
    where
      none_here : sock == ref.sock ≡ true → w.cache sock ≡ none
      none_here e = ground arith

      new : Moves none (entry_of (get_elem? (w.refs ++ ref ∷ []) (length w.refs)))
      new = ground (arith, get_elem?-append w.refs ref (length w.refs))

      old :
          (q : ℕ)
          → Live sock (get_elem? w.refs q)
          → Moves (entry_of (get_elem? w.refs q)) (entry_of (get_elem? (w.refs ++ ref ∷ []) q))
      old q l = ground (arith, get_elem?-append w.refs ref q, get_elem?-length w.refs)

  module _ (r : ℕ) (ref : SessionRef) (at : get_elem? w.refs r ≡ some ref)
      (pos : 1 ≤ ref.refs) where
    counts_up :
        (sock : ℕ)
        → Moves
            (table w sock)
            (entry_at (set w.refs r (record ref { refs = ref.refs + 1 })) (w.cache sock))
    counts_up sock = elim (Option-cases (w.cache sock)) [
      | inl e ↦ rw e tt
      | inr (q, e) ↦ rw e (one q (Live-at sock q e))
    ]
      where
        one :
            (q : ℕ)
            → Live sock (get_elem? w.refs q)
            → Moves
                (entry_of (get_elem? w.refs q))
                (entry_of (get_elem? (set w.refs r (record ref { refs = ref.refs + 1 })) q))
        one q l = ground (arith, get_elem?-set w.refs r q ref (record ref { refs = ref.refs + 1 }))

    counts_down :
        (sock : ℕ)
        → Moves (table w sock) (
            entry_at
              (set w.refs r (record ref { refs = ref.refs - 1 }))
              ((if leb ref.refs 1 then update w.cache ref.sock none else w.cache) sock))
    counts_down sock = elim (Bool-cases (leb ref.refs 1)) [
      | inl b ↦ elim (Bool-cases (sock == ref.sock)) [
        | inl t ↦ rw (b, t, here t, at) (omega (arith, last b))
        | inr t ↦ elim (Option-cases (w.cache sock)) [
          | inl e ↦ rw (b, t, e) tt
          | inr (q, e) ↦ rw (b, t, e) (other q t (Live-at sock q e))
        ]
      ]
      | inr b ↦ elim (Option-cases (w.cache sock)) [
        | inl e ↦ rw (b, e) tt
        | inr (q, e) ↦ rw (b, e) (one q b (Live-at sock q e))
      ]
    ]
      where
        fewer : SessionRef
        fewer = record ref { refs = ref.refs - 1 }

        cached : w.cache ref.sock ≡ some r
        cached = subst (Cached w.cache r) at (h.cached r) pos

        here : sock == ref.sock ≡ true → w.cache sock ≡ some r
        here t = ground (arith, cached)

        last : leb ref.refs 1 ≡ true → ref.refs ≡ 1
        last b = ground arith

        other :
            (q : ℕ)
            → sock == ref.sock ≡ false
            → Live sock (get_elem? w.refs q)
            → Moves
                (entry_of (get_elem? w.refs q))
                (entry_of (get_elem? (set w.refs r (record ref { refs = ref.refs - 1 })) q))
        other q t l =
            ground (arith, get_elem?-set w.refs r q ref (record ref { refs = ref.refs - 1 }))

        one :
            (q : ℕ)
            → leb ref.refs 1 ≡ false
            → Live sock (get_elem? w.refs q)
            → Moves
                (entry_of (get_elem? w.refs q))
                (entry_of (get_elem? (set w.refs r (record ref { refs = ref.refs - 1 })) q))
        one q b l =
            ground (arith, get_elem?-set w.refs r q ref (record ref { refs = ref.refs - 1 }))

  open-Moves :
      (cancelled : Bool) (opened sock : ℕ)
      → Moves (table w sock) (table (with_call (open_session cancelled opened w)) sock)
  unfolding open_session
  open-Moves cancelled opened sock = elim (Option-cases (w.cache opened)) [
    | inl e ↦ rw (e, look_up) (steady sock)
    | inr (r, e) ↦ elim (Bool-cases cancelled) [
      | inl b ↦ rw (e, look_up, b) (steady sock)
      | inr b ↦
          let (ref, at, s, pos) = live-ref w h opened r e in
          rw (e, look_up, b, at) (counts_up r ref at pos sock)
    ]
  ]

  publish-Moves :
      (cancelled : Bool) (i opened conn sock : ℕ)
      → Moves (table w sock) (table (with_call_at i (publish cancelled opened conn w)) sock)
  unfolding publish
  publish-Moves true i opened conn sock = steady sock
  publish-Moves false i opened conn sock = elim (Option-cases (w.cache opened)) [
    | inl e ↦
        rw (e, insert_or_share) (adds (record { sock = opened; conn = conn; refs = 1 }) sock e refl)
    | inr (r, e) ↦
        let (ref, at, s, pos) = live-ref w h opened r e in
        rw (e, insert_or_share, at) (counts_up r ref at pos sock)
  ]

  advance-Moves :
      (a b : Bool) (i : ℕ) (c : Call) (sock : ℕ)
      → get_elem? w.calls i ≡ some c
      → Moves (table w sock) (table (with_call_at i (advance a b c w)) sock)
  unfolding advance dial
  advance-Moves a b i (dialing opened) sock at = ground (arith, steady sock)
  advance-Moves a b i (publishing opened conn) sock at = publish-Moves a i opened conn sock
  advance-Moves a b i (sharing conn r) sock at = ground (arith, steady sock)
  advance-Moves a b i (discarding conn) sock at = steady sock
  advance-Moves a b i (releasing s) sock at =
      let (q, ref, e, there, p, _, pos, c) = releasing_held w h i s at in
      subst (λ x. Moves (table w sock) (table (with_call_at i x) sock))
        (sym (release-eq w h i s q ref e there p c)) (counts_down q ref there pos sock)
  advance-Moves a b i (disconnecting conn) sock at = steady sock
  advance-Moves a b i ended sock at = steady sock

counted_steps :
    (w v : World) (sock : ℕ) → Reach no_sessions w → Step w v → Moves (table w sock) (table v sock)
unfolding close_session
counted_steps w v sock r (opens cancelled opened) =
    open-Moves w (Reached-Inv w r) cancelled opened sock
counted_steps w v sock r (closes i s at) = ground (arith, steady w (Reached-Inv w r) sock)
counted_steps w v sock r (advances a b i c at) = advance-Moves w (Reached-Inv w r) a b i c sock at

-- Every step of the cache is a move, at each socket, of the table of connections with their holders,
-- which are the open handles and the calls that will make or release one: a connection enters the
-- table with its first holder, is never exchanged for another one while it has holders, whose number
-- changes by one at most, and leaves the table with the last of them.
pub Step-Moves :
    (w v : World) (sock : ℕ)
    → Reach no_sessions w
    → Step w v
    → Moves (held_table w sock) (held_table v sock)
Step-Moves w v sock r s =
    rw (table_counted w (Reached-Inv w r) sock, table_counted v (Reached-Inv v (next r s)) sock)
      (counted_steps w v sock r s)
