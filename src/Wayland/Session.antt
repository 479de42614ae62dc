-- ===== src/Wayland/Session.antt =====
-- internal/wl/session.go: the cache of sessions, one connection for each socket, which handles
-- share and the last one closes.
-- `World` is the package's state and its heap, with the calls in progress: a section under
-- `sessionCacheMu`, and each thing done outside of it, is one step of a call, and `Step` interleaves
-- the calls of any number of goroutines. Sockets and connections are numbers. The canonical session
-- of a reference never changes, so `SessionRef` has its connection in place of a pointer to it; it
-- has its `ref` before it is in the cache, so that no session without one is ever found there.
pub mod Counts
mod Inv
mod Open
mod Close
mod Held
pub mod Steps
pub mod Safety
pub mod Refines
mod Examples
use perfuncted.Prelude.{
  ℕ, zero, suc, ◌+◌, ◌-◌, ◌≡◌, Bool, true, false, not, ◌&&◌, ◌||◌, Option, none, some, List, [],
  ◌∷◌, ◌++◌, length, get_elem?, set, leb, ◌==◌, if◌then◌else◌,
}

pub record SessionRef : Type 0 where
  pub sock : ℕ
  pub conn : ℕ
  pub refs : ℕ

-- A handle. `ref` is nil for a session that was not made by `NewSession`.
pub record Session : Type 0 where
  pub sock : ℕ
  pub conn : Option ℕ
  pub ref : Option ℕ
  pub close_done : Bool

-- A call, by what it does next.
pub data Call : Type 0 where
  -- `NewSessionContext`: it dials; it publishes the new connection; it closes the new connection,
  -- to use the session of the reference or to fail
  dialing : ℕ → Call
  publishing sharing : ℕ → ℕ → Call
  discarding : ℕ → Call
  -- `Close`: it releases its reference; it closes the connection
  releasing : Session → Call
  disconnecting : ℕ → Call
  ended : Call

pub record World : Type 0 where
  pub cache : ℕ → Option ℕ
  pub refs : List SessionRef
  pub sessions : List Session
  -- the next connection, and the ones that were closed
  pub conns : ℕ
  pub shut : List ℕ
  pub calls : List Call

abbrev pub no_sessions : World
no_sessions = record {
  cache = λ sock. none;
  refs = [];
  sessions = [];
  conns = 0;
  shut = [];
  calls = [];
}

abbrev pub update : (ℕ → Option ℕ) → ℕ → Option ℕ → ℕ → Option ℕ
update cache sock r s = if s == sock then r else cache s

-- `newSessionHandle`
abbrev pub handle : ℕ → SessionRef → Session
handle r ref = record { sock = ref.sock; conn = some ref.conn; ref = some r; close_done = false }

abbrev pub hand_out : Option SessionRef → ℕ → World → World
hand_out none r w = w
hand_out (some ref) r w = record w { sessions = handle r ref ∷ w.sessions }

abbrev pub count_up : Option SessionRef → ℕ → World → World
count_up none r w = w
count_up (some ref) r w = record w { refs = set w.refs r (record ref { refs = ref.refs + 1 }) }

-- The first section of `NewSessionContext`, where the cache may have the session.
look_up : Bool → ℕ → Option ℕ → World → World × Call
look_up cancelled sock none w = (w, dialing sock)
look_up cancelled sock (some r) w =
    if cancelled
    then (w, ended)
    else (hand_out (get_elem? w.refs r) r (count_up (get_elem? w.refs r) r w), ended)

unfoldable pub open_session : Bool → ℕ → World → World × Call
unfolding look_up
open_session cancelled sock w = look_up cancelled sock (w.cache sock) w

-- Dialing fails, or gives a connection; the registry exchange on it fails or not.
unfoldable pub dial : Bool → Bool → ℕ → World → World × Call
dial connects exchanges sock w =
    if connects
    then (
      record w { conns = suc w.conns },
      if exchanges then publishing sock w.conns else discarding w.conns,
    )
    else (w, ended)

abbrev pub add_ref : SessionRef → World → World
add_ref ref w = record w {
  cache = update w.cache ref.sock (some (length w.refs));
  refs = w.refs ++ ref ∷ [];
  sessions = handle (length w.refs) ref ∷ w.sessions;
}

-- The second section of `NewSessionContext`: another call may have been first.
insert_or_share : Bool → ℕ → ℕ → Option ℕ → World → World × Call
insert_or_share true sock conn r w = (w, discarding conn)
insert_or_share false sock conn (some r) w = (count_up (get_elem? w.refs r) r w, sharing conn r)
insert_or_share false sock conn none w =
    (add_ref (record { sock = sock; conn = conn; refs = 1 }) w, ended)

unfoldable pub publish : Bool → ℕ → ℕ → World → World × Call
unfolding insert_or_share
publish cancelled sock conn w = insert_or_share cancelled sock conn (w.cache sock) w

-- The section of `Close` under the mutex of the session.
unfoldable pub close_session : ℕ → Session → World → World × Call
close_session i s w =
    if s.close_done
    then (w, ended)
    else (record w { sessions = set w.sessions i (record s { close_done = true }) }, releasing s)

abbrev pub disconnect : Option ℕ → Call
disconnect none = ended
disconnect (some conn) = disconnecting conn

abbrev pub is_ref : Option ℕ → ℕ → Bool
is_ref none r = false
is_ref (some q) r = q == r

-- `ref.refs--` and what follows, for the reference that the cache has.
count_down : Session → ℕ → Option SessionRef → World → World × Call
count_down s r none w = (w, ended)
count_down s r (some ref) w =
    let v = record w { refs = set w.refs r (record ref { refs = ref.refs - 1 }) } in
    if leb ref.refs 1
    then (record v { cache = update w.cache s.sock none }, disconnecting ref.conn)
    else (v, ended)

-- The handle was released already, or it never was in the cache.
abbrev pub not_cached : Option ℕ → Option ℕ → Call
not_cached (some r) conn = ended
not_cached none conn = disconnect conn

release_found : Session → Option ℕ → World → World × Call
unfolding count_down
release_found s none w = (w, not_cached s.ref s.conn)
release_found s (some r) w =
    if is_ref s.ref r then count_down s r (get_elem? w.refs r) w else (w, not_cached s.ref s.conn)

-- The section of `Close` under `sessionCacheMu`.
unfoldable pub release : Session → World → World × Call
unfolding release_found
release s w = release_found s (w.cache s.sock) w

abbrev pub shut_conn : ℕ → World → World
shut_conn conn w = record w { shut = conn ∷ w.shut }

-- One step of a call. The Booleans are what the context and the connection say.
unfoldable pub advance : Bool → Bool → Call → World → World × Call
unfolding dial publish release
advance a b (dialing sock) w = dial a b sock w
advance a b (publishing sock conn) w = publish a sock conn w
advance a b (sharing conn r) w = (hand_out (get_elem? w.refs r) r (shut_conn conn w), ended)
advance a b (discarding conn) w = (shut_conn conn w, ended)
advance a b (releasing s) w = release s w
advance a b (disconnecting conn) w = (shut_conn conn w, ended)
advance a b ended w = (w, ended)

abbrev pub with_call : World × Call → World
with_call (w, c) = record w { calls = c ∷ w.calls }

abbrev pub with_call_at : ℕ → World × Call → World
with_call_at i (w, c) = record w { calls = set w.calls i c }

pub data Step : World → World → Type 0 where
  opens :
      {w : World} (cancelled : Bool) (sock : ℕ) → Step w (with_call (open_session cancelled sock w))
  closes :
      {w : World} (i : ℕ) (s : Session)
      → get_elem? w.sessions i ≡ some s
      → Step w (with_call (close_session i s w))
  advances :
      {w : World} (a b : Bool) (i : ℕ) (c : Call)
      → get_elem? w.calls i ≡ some c
      → Step w (with_call_at i (advance a b c w))

pub data Reach (w : World) : World → Type 0 where
  here : Reach w w
  next : {u v : World} → Reach w u → Step u v → Reach w v
