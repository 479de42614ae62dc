-- ===== src/Wayland/Session/Counts.antt =====
-- Who holds a reference and who owns a connection in internal/wl/session.go, as counts.
use perfuncted.Prelude.{
  ℕ, ◌+◌, ◌≡◌, Bool, ◌&&◌, Option, none, some, List, ◌∷◌, get_elem?, set, All, total, total-set,
  All-set, leb, ◌==◌, if◌then◌else◌, arith,
}
use perfuncted.Wayland.Session.{
  SessionRef, Session, Call, publishing, sharing, discarding, releasing, disconnecting, ended,
  World, is_ref,
}

abbrev pub one_if : Bool → ℕ
one_if b = if b then 1 else 0

-- An open handle holds its reference, and so does a call that will make or release one.
abbrev pub session_holds : ℕ → Session → ℕ
session_holds r s = if s.close_done then 0 else one_if (is_ref s.ref r)

abbrev pub call_holds : ℕ → Call → ℕ
call_holds r (sharing conn q) = one_if (q == r)
call_holds r (releasing s) = one_if (is_ref s.ref r)
call_holds r _ = 0

abbrev pub holders : ℕ → World → ℕ
holders r w = total (session_holds r) w.sessions + total (call_holds r) w.calls

-- A counted reference owns its connection, and so does a call that will publish or close it.
abbrev pub ref_owns : ℕ → SessionRef → ℕ
ref_owns conn ref = one_if (leb 1 ref.refs && (ref.conn == conn))

abbrev pub call_owns : ℕ → Call → ℕ
call_owns conn (publishing sock c) = one_if (c == conn)
call_owns conn (sharing c r) = one_if (c == conn)
call_owns conn (discarding c) = one_if (c == conn)
call_owns conn (disconnecting c) = one_if (c == conn)
call_owns conn _ = 0

abbrev pub same : ℕ → ℕ → ℕ
same conn c = one_if (c == conn)

abbrev pub owners : ℕ → World → ℕ
owners conn w =
    total (ref_owns conn) w.refs + total (call_owns conn) w.calls + total (same conn) w.shut

abbrev pub refs_of : Option SessionRef → ℕ
refs_of none = 0
refs_of (some ref) = ref.refs

-- A session or a reference number points to a reference, of this socket and connection.
abbrev pub Points : Option SessionRef → ℕ → Option ℕ → Type 0
Points none sock conn = ⊥
Points (some ref) sock conn = (ref.sock ≡ sock) × (some ref.conn ≡ conn)

abbrev pub SessionOk : List SessionRef → Option ℕ → ℕ → Option ℕ → Type 0
SessionOk refs none sock conn = ⊥
SessionOk refs (some r) sock conn = Points (get_elem? refs r) sock conn

abbrev pub IsListed : Option SessionRef → Type 0
IsListed none = ⊥
IsListed (some ref) = Unit

abbrev pub CallOk : List SessionRef → Call → Type 0
CallOk refs (releasing s) = SessionOk refs s.ref s.sock s.conn
CallOk refs (sharing conn r) = IsListed (get_elem? refs r)
CallOk refs _ = Unit

-- What a list of calls becomes where `c` goes on as `d`; a new call comes from `ended`.
pub record Goes (calls : List Call) (c d : Call) (later : List Call) : Type 0 where
  pub holds :
      (r : ℕ)
      → total (call_holds r) later + call_holds r c ≡ total (call_holds r) calls + call_holds r d
  pub owns :
      (k : ℕ)
      → total (call_owns k) later + call_owns k c ≡ total (call_owns k) calls + call_owns k d
  pub oks :
      (refs : List SessionRef) → All (CallOk refs) calls → CallOk refs d → All (CallOk refs) later

pub set-Goes :
    (calls : List Call) (i : ℕ) (c d : Call)
    → get_elem? calls i ≡ some c
    → Goes calls c d (set calls i d)
set-Goes calls i c d e = record {
  holds = λ r. total-set (call_holds r) calls i c d e;
  owns = λ k. total-set (call_owns k) calls i c d e;
  oks = λ refs h k. All-set (CallOk refs) calls i d h k;
}

pub cons-Goes : (calls : List Call) (d : Call) → Goes calls ended d (d ∷ calls)
cons-Goes calls d = record {
  holds = λ r. omega arith;
  owns = λ k. omega arith;
  oks = λ refs h k. (k, h);
}
