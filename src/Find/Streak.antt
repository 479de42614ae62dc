-- ===== src/Find/Streak.antt =====
-- find/find.go: `stableStreak`, the two probes of a settle loop, and `WaitForNoChangeFrom`.
use perfuncted.Prelude.{
  ℕ, zero, suc, Bool, false, not, ◌&&◌, Option, none, some, List, ltb, leb, ◌==◌, if◌then◌else◌,
}
use perfuncted.Prelude.Int.{ℤ, pos, negsuc}
use perfuncted.Find.Poll.{
  Err, grab_failed, Round, Probed, failed, seen, Polled, found, stopped, polling, poll,
}

pub record StableStreak : Type 0 where
  pub last : ℕ
  pub count : ℕ
  pub stable : ℕ

abbrev pub at_least_one : ℤ → ℕ
at_least_one (pos zero) = 1
at_least_one (pos (suc n)) = suc n
at_least_one (negsuc n) = 1

abbrev pub new_stable_streak : ℕ → ℤ → StableStreak
new_stable_streak initial stable = record {
  last = initial;
  count = if initial == 0 then 0 else 1;
  stable = at_least_one stable;
}

-- The streak with the new hash, and whether it is long enough. The hash to report is the new one.
unfoldable pub advance : StableStreak → ℕ → StableStreak × Bool
advance s h =
    if ltb 0 s.count && (h == s.last)
    then (record s { count = suc s.count }, leb s.stable (suc s.count))
    else (record s { last = h; count = 1 }, false)

abbrev pub changed : StableStreak → StableStreak
changed s = record s { count = 0 }

-- What the backend's own hash of the region gives: nothing on an error.
unfoldable pub canonical_hash_probe : StableStreak → Bool → Option ℕ → Probed StableStreak
unfolding advance
canonical_hash_probe s c none = failed s 0 grab_failed
canonical_hash_probe s c (some h) = let (t, done) = advance s h in seen t done h

-- A grab, by the first check that refuses it, or by its top left pixel and its hash.
pub data Shot : Type 0 where
  unusable : Err → Shot
  captured : ℕ → ℕ → Shot

-- The streak, with the last top left pixel.
pub record Watch : Type 0 where
  pub streak : StableStreak
  pub sentinel : Option ℕ

abbrev pub is_other : Option ℕ → ℕ → Bool
is_other none cur = false
is_other (some p) cur = not (p == cur)

unfoldable pub grab_hash_probe : Watch → Bool → Shot → Probed Watch
unfolding advance
grab_hash_probe w c (unusable e) = failed w 0 e
grab_hash_probe w c (captured cur h) =
    if is_other w.sentinel cur
    then seen (record { streak = changed w.streak; sentinel = some cur }) false w.streak.last
    else let (t, done) = advance w.streak h in
      seen (record { streak = t; sentinel = some cur }) done h

pub data Settled : Type 0 where
  settled : ℕ → Settled
  -- the hash, and the streak that the error tells of
  timed_out : ℕ → StableStreak → Settled
  gave_up : Err → Settled
  empty_region unavailable : Settled
  waiting_on : Settled

abbrev pub settle : {S : Type 0} → (S → StableStreak) → Polled S → Settled
settle streak (found s h) = settled h
settle streak (stopped s h e is_done) = if is_done then timed_out h (streak s) else gave_up e
settle streak (polling s) = waiting_on

-- What the screen can do: nothing, as it is nil; canonical hashes; or grabs only, which a hasher of
-- the caller needs as well.
pub data Screen : Type 0 where
  no_screen : Screen
  hashes : List (Round (Option ℕ)) → Screen
  grabs : List (Round Shot) → Screen

unfoldable pub wait_for_no_change_from : Screen → Bool → ℕ → ℤ → Settled
unfolding poll canonical_hash_probe grab_hash_probe
wait_for_no_change_from no_screen rect_empty initial stable = unavailable
wait_for_no_change_from (hashes rs) rect_empty initial stable =
    if rect_empty
    then empty_region
    else let streak = new_stable_streak initial stable in
      settle (λ s. s) (poll canonical_hash_probe streak.last rs streak)
wait_for_no_change_from (grabs rs) rect_empty initial stable =
    if rect_empty
    then empty_region
    else let streak = new_stable_streak initial stable in
      settle (λ w. w.streak)
        (poll grab_hash_probe streak.last rs (record { streak = streak; sentinel = none }))

abbrev pub wait_for_no_change : Screen → Bool → ℤ → Settled
wait_for_no_change screen rect_empty stable = wait_for_no_change_from screen rect_empty 0 stable
