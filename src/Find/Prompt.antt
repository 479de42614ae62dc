-- ===== src/Find/Prompt.antt =====
-- find/find.go: when `WaitForNoChangeFrom` ends, while captures succeed and nothing is canceled.
use perfuncted.Prelude.{
  ℕ, ◌≡◌, refl, subst, Bool, false, ◌&&◌, Option, some, List, [], ◌∷◌, ◌==◌, leb, if◌then◌else◌,
  arith, Bool-cases, inl, inr,
}
use perfuncted.Prelude.Int.{ℤ}
use perfuncted.Find.Poll.{Round, Polled, found, poll}
use perfuncted.Find.Streak.{
  StableStreak, at_least_one, new_stable_streak, advance, canonical_hash_probe, Settled, settled,
  waiting_on, settle, hashes, wait_for_no_change_from,
}
use perfuncted.Find.Settled.{stable-advance}
use perfuncted.Find.Run.{run, Follows, advance-Follows, at_least_two}

-- Rounds in which every capture succeeds, and nothing is canceled.
abbrev pub quiet : List ℕ → List (Round (Option ℕ))
quiet [] = []
quiet (h ∷ hs) = record { before = false; shot = some h; after = false; waiting = false } ∷ quiet hs

-- The first sample that is the last of n equal ones, after the samples of `past`, the newest first.
abbrev pub first_run : ℕ → List ℕ → List ℕ → Settled
first_run n past [] = waiting_on
first_run n past (h ∷ hs) =
    let rest = first_run n (h ∷ past) hs in if leb n (run (h ∷ past)) then settled h else rest

settle-round :
    (done : Bool) (t : StableStreak) (h n k : ℕ) (rest : Polled StableStreak) (last : Settled)
    → done ≡ (leb n k && leb 2 k)
    → settle (λ v. v) rest ≡ last
    → settle (λ v. v) (if done then found t h else rest)
      ≡ (if leb (at_least_two n) k then settled h else last)
settle-round done t h n k rest last d e = ground arith

poll-first_run :
    (oc : ℕ) (hs past : List ℕ) (s : StableStreak)
    → Follows s past
    → settle (λ v. v) (poll canonical_hash_probe oc (quiet hs) s)
      ≡ first_run (at_least_two s.stable) past hs
unfolding poll canonical_hash_probe
poll-first_run oc [] past s f = refl
poll-first_run oc (h ∷ hs) past s f =
    let (g, d) = advance-Follows s h past f in
    let t = (advance s h).0 in
    let ih =
      subst
        (λ n.
          settle (λ v. v) (poll canonical_hash_probe oc (quiet hs) t)
          ≡ first_run (at_least_two n) (h ∷ past) hs)
        (stable-advance s h) (poll-first_run oc hs (h ∷ past) t g) in
    settle-round (advance s h).1 t h s.stable (run (h ∷ past))
      (poll canonical_hash_probe oc (quiet hs) t) (first_run (at_least_two s.stable) (h ∷ past) hs)
      d ih

abbrev pub known : ℕ → List ℕ
known initial = if initial == 0 then [] else initial ∷ []

Follows-known :
    (initial : ℕ) (stable : ℤ) → Follows (new_stable_streak initial stable) (known initial)
Follows-known initial stable = elim (Bool-cases (initial == 0)) [
  | inl e ↦ rw e refl
  | inr e ↦ rw e (refl, refl)
]

-- On a screen that computes the hashes itself, with a region that is not empty, while every hash is
-- given and nothing is canceled, the wait for a settled region ends at the first sample with which as many consecutive ones as were asked for are equal, and two at least,
-- and goes on for as long as there is none. The hash that the caller gives is the first sample,
-- unless it is 0.
pub settled-first_run :
    (hs : List ℕ) (initial : ℕ) (stable : ℤ)
    → wait_for_no_change_from (hashes (quiet hs)) false initial stable
      ≡ first_run (at_least_two (at_least_one stable)) (known initial) hs
unfolding wait_for_no_change_from
settled-first_run hs initial stable =
    poll-first_run initial hs (known initial) (new_stable_streak initial stable)
      (Follows-known initial stable)
