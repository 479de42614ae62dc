-- ===== src/Find/Read.antt =====
-- find/find.go: `grabImageHash`, `readWaitHash`, `WaitFor` and `WaitForChange`.
use perfuncted.Prelude.{ℕ, Bool, true, false, not, ◌&&◌, List, ◌==◌, if◌then◌else◌}
use perfuncted.Find.Poll.{
  Err, canceled, Round, Probed, failed, seen, Polled, found, stopped, polling, poll,
}

-- A hash, or a hash and an error.
pub data Read : Type 0 where
  hash : ℕ → Read
  no_hash : ℕ → Err → Read

-- A grab, by the first check that refuses it, or by its hash.
pub data Grab : Type 0 where
  refused : Err → Grab
  image : ℕ → Grab

-- The Booleans are what the context says before the grab, and after the hash.
unfoldable pub grab_image_hash : Bool → Bool → Grab → Bool → Read
grab_image_hash preserve true g after = no_hash 0 canceled
grab_image_hash preserve false (refused e) after = no_hash 0 e
grab_image_hash preserve false (image value) after =
    if after then no_hash (if preserve then value else 0) canceled else hash value

-- What a backend with canonical hashes returns, or a grab of another one.
pub data Sample : Type 0 where
  canonical : Read → Sample
  grabbed : Bool → Grab → Bool → Sample

unfoldable pub read_wait_hash : Sample → Read
unfolding grab_image_hash
read_wait_hash (canonical r) = r
read_wait_hash (grabbed before g after) = grab_image_hash true before g after

-- The probes of `WaitFor` and `WaitForChange` keep nothing from round to round.
unfoldable pub match_read : ℕ → Read → Probed (Unit {0})
match_read want (no_hash h e) = failed tt h e
match_read want (hash h) = seen tt (h == want) h

unfoldable pub match_probe : ℕ → Unit {0} → Bool → Sample → Probed (Unit {0})
unfolding match_read read_wait_hash
match_probe want s c a = match_read want (read_wait_hash a)

unfoldable pub change_read : ℕ → Bool → Read → Probed (Unit {0})
change_read initial c (no_hash h e) = failed tt (if c && (h == 0) then initial else h) e
change_read initial c (hash h) = seen tt (not (h == initial)) h

unfoldable pub change_probe : ℕ → Unit {0} → Bool → Sample → Probed (Unit {0})
unfolding change_read read_wait_hash
change_probe initial s c a = change_read initial c (read_wait_hash a)

pub data Awaited : Type 0 where
  reached : ℕ → Awaited
  out_of_time : ℕ → Awaited
  lost : Err → Awaited
  looking : Awaited

abbrev pub await : Polled (Unit {0}) → Awaited
await (found s h) = reached h
await (stopped s h e is_done) = if is_done then out_of_time h else lost e
await (polling s) = looking

unfoldable pub wait_for : ℕ → List (Round Sample) → Awaited
unfolding poll match_probe
wait_for want rs = await (poll (match_probe want) 0 rs tt)

unfoldable pub wait_for_change : ℕ → List (Round Sample) → Awaited
unfolding poll change_probe
wait_for_change initial rs = await (poll (change_probe initial) initial rs tt)
