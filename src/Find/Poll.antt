-- ===== src/Find/Poll.antt =====
-- find/find.go: `poll`, the loop under every wait. A list has what each round meets; the two loops
-- of the source differ only in how long they wait between rounds, and are one here. No caller reads
-- the number of the attempt.
use perfuncted.Prelude.{ℕ, Bool, true, List, [], ◌∷◌, if◌then◌else◌}

-- Why a probe, or the loop, gave up.
pub data Err : Type 0 where
  canceled grab_failed nil_image malformed empty_image partial_region : Err

-- What the context says at the top of a round, after the probe, and while waiting for the next
-- round, with what the probe meets.
pub record Round (A : Type 0) : Type 0 where
  pub before : Bool
  pub shot : A
  pub after : Bool
  pub waiting : Bool

-- A probe changes its state, and gives a hash with an error or with whether it is done.
pub data Probed (S : Type 0) : Type 0 where
  failed : S → ℕ → Err → Probed S
  seen : S → Bool → ℕ → Probed S

pub data Polled (S : Type 0) : Type 0 where
  found : S → ℕ → Polled S
  -- with the hash, and whether the context is done
  stopped : S → ℕ → Err → Bool → Polled S
  polling : S → Polled S

abbrev pub state_of : {S : Type 0} → Probed S → S
state_of (failed s res e) = s
state_of (seen s done res) = s

abbrev pub conclude : {S A : Type 0} → Round A → Probed S → Polled S → Polled S
conclude r (failed s res e) rest = stopped s res e r.after
conclude r (seen s done res) rest =
    if r.after
    then stopped s res canceled true
    else if done
    then found s res
    else if r.waiting
    then stopped s res canceled true
    else rest

unfoldable pub poll : {S A : Type 0} → (S → Bool → A → Probed S) → ℕ → List (Round A) → S → Polled S
poll fn on_cancel [] s = polling s
poll fn on_cancel (r ∷ rs) s =
    let p = fn s r.after r.shot in
    let rest = poll fn on_cancel rs (state_of p) in
    if r.before then stopped s on_cancel canceled true else conclude r p rest
