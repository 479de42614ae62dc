-- ===== src/Find/Examples.antt =====
-- Tests and examples for the waits of find/find.go.
use perfuncted.Prelude.{ℕ, ◌≡◌, refl, ◌≢◌, not, Bool, true, false, List, [], ◌∷◌, ◌==◌, mem}
use perfuncted.Prelude.Int.{pos}
use perfuncted.Find.Poll.{Round}
use perfuncted.Find.Streak.{
  Shot, captured, settled, timed_out, Screen, hashes, grabs, wait_for_no_change_from, advance,
}
use perfuncted.Find.Read.{
  hash, Sample, canonical, reached, out_of_time, wait_for, wait_for_change, read_wait_hash,
  match_read, change_read,
}
use perfuncted.Find.Poll.{poll}
use perfuncted.Find.Run.{has_run}
use perfuncted.Find.Settled.{screen_hashes, settled-run}
use perfuncted.Find.Prompt.{first_run, known, settled-first_run}
use perfuncted.Find.Prompt
use perfuncted.Find.Awaited
use perfuncted.Find.Awaited.{
  by_backend, by_grab, first_where, read_hashes, reached-wanted, reached-changed,
  reached-first_where,
}

abbrev sample : Bool → ℕ → ℕ → Round Shot
sample waiting cur h = record {
  before = false;
  shot = captured cur h;
  after = false;
  waiting = waiting;
}

-- The second capture has another top left pixel, so that its hash does not count.
abbrev grabbed_screen : Screen
grabbed_screen =
    grabs (sample false 1 8 ∷ sample false 2 9 ∷ sample false 2 9 ∷ sample false 2 9 ∷ [])

settle_grabs : wait_for_no_change_from grabbed_screen false 0 (pos 2) ≡ settled 9
unfolding wait_for_no_change_from poll advance
settle_grabs = refl

-- One sample never settles: the wait for a single one times out.
settle_once :
    wait_for_no_change_from (grabs (sample true 1 8 ∷ [])) false 0 (pos 1)
    ≡ timed_out 8 (record { last = 8; count = 1; stable = 1 })
unfolding wait_for_no_change_from poll advance
settle_once = refl

settled-run_example : has_run 2 9 (screen_hashes grabbed_screen) ≡ true
settled-run_example = settled-run grabbed_screen false 0 9 (pos 2) settle_grabs

settled-first_run_example :
    wait_for_no_change_from (hashes (Prompt.quiet (4 ∷ 7 ∷ 7 ∷ 7 ∷ []))) false 4 (pos 3)
    ≡ first_run 3 (4 ∷ []) (4 ∷ 7 ∷ 7 ∷ 7 ∷ [])
settled-first_run_example = settled-first_run (4 ∷ 7 ∷ 7 ∷ 7 ∷ []) 4 (pos 3)

abbrev readings : List (Round Sample)
readings = Awaited.quiet (by_backend 3 ∷ by_backend 3 ∷ by_backend 5 ∷ [])

-- A wait that is canceled before a later round gives the hash it started with.
canceled_early :
    wait_for 5 (
      record { before = false; shot = canonical (hash 3); after = false; waiting = false }
      ∷ record { before = true; shot = canonical (hash 5); after = true; waiting = true }
      ∷ [])
    ≡ out_of_time 0
unfolding wait_for poll read_wait_hash match_read
canceled_early = refl

found_five : wait_for 5 readings ≡ reached 5
unfolding wait_for poll read_wait_hash match_read
found_five = refl

changed_to_five : wait_for_change 3 readings ≡ reached 5
unfolding wait_for_change poll read_wait_hash change_read
changed_to_five = refl

five_wanted : (◌≡◌ {A = ℕ} 5 5) × (mem 5 (read_hashes readings) ≡ true)
five_wanted = reached-wanted 5 5 readings found_five

reached-changed_test : (◌≢◌ {A = ℕ} 5 3) × (mem 5 (read_hashes readings) ≡ true)
reached-changed_test = reached-changed 3 5 readings changed_to_five

reached-first_where_example :
    (wait_for 5 (Awaited.quiet (by_grab 3 ∷ by_backend 3 ∷ by_grab 5 ∷ []))
      ≡ first_where (λ v. v == 5) (3 ∷ 3 ∷ 5 ∷ []))
    × (wait_for_change 3 (Awaited.quiet (by_grab 3 ∷ by_backend 3 ∷ by_grab 5 ∷ []))
        ≡ first_where (λ v. not (v == 3)) (3 ∷ 3 ∷ 5 ∷ []))
reached-first_where_example = reached-first_where 5 3 (by_grab 3 ∷ by_backend 3 ∷ by_grab 5 ∷ [])
