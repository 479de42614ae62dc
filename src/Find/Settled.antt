-- ===== src/Find/Settled.antt =====
-- find/find.go: what `WaitForNoChangeFrom` promises when it ends, for both probes.
use perfuncted.Prelude.{
  ℕ, zero, suc, ◌≤◌, ◌≡◌, refl, sym, subst, ◌⊎◌, inl, inr, Bool, true, false, Option, none, some,
  List, [], ◌∷◌, ◌==◌, if◌then◌else◌, arith, Bool-cases,
}
use perfuncted.Prelude.Int.{ℤ, pos, negsuc}
use perfuncted.Find.Poll.{
  Round, Probed, failed, seen, Polled, found, stopped, polling, state_of, conclude, poll,
}
use perfuncted.Find.Streak.{
  StableStreak, at_least_one, new_stable_streak, advance, changed, canonical_hash_probe, Shot,
  unusable, captured, Watch, is_other, grab_hash_probe, settled, settle, Screen, no_screen, hashes,
  grabs, wait_for_no_change_from,
}
use perfuncted.Find.Run.{has_run, at_least_two, starts-two, met, met-advance, met-done, met-changed}

-- The rounds' samples, as far as there are any.
abbrev pub samples : {A : Type 0} → (A → Option ℕ) → List (Round A) → List (Option ℕ)
samples hash_of [] = []
samples hash_of (r ∷ rs) = hash_of r.shot ∷ samples hash_of rs

pub stable-advance : (s : StableStreak) (h : ℕ) → (advance s h).0.stable ≡ s.stable
unfolding advance
stable-advance s h = ground arith

module _ {S A : Type 0} (fn : S → Bool → A → Probed S) (streak : S → StableStreak)
    (hash_of : A → Option ℕ) where
  -- A probe either counts the sample into the streak, or drops the streak.
  abbrev pub IsCounted : S → A → Probed S → Type 0
  IsCounted s a (failed t res e) = streak t ≡ streak s
  IsCounted s a (seen t done h) =
      ((streak t ≡ (advance (streak s) h).0)
        × (done ≡ (advance (streak s) h).1)
        × (hash_of a ≡ some h))
      ⊎ ((streak t ≡ changed (streak s)) × (done ≡ false))

  found-met-round :
      (r : Round A) (s t : S) (h : ℕ) (p : Probed S) (rest : Polled S) (xs : List (Option ℕ))
      → 1 ≤ (streak s).stable
      → IsCounted s r.shot p
      → conclude r p rest ≡ found t h
      → (rest ≡ found t h → met (streak (state_of p)) h xs ≡ true)
      → met (streak s) h (hash_of r.shot ∷ xs) ≡ true
  found-met-round r s t h (failed u res e) rest xs st c f ih = ground arith
  found-met-round r s t h (seen u done k) rest xs st (inl (e, d, q)) f ih = rw q (
      ground (
        arith,
        met-done (streak s) k xs st,
        met-advance (streak s) k h xs st,
        subst (λ v. rest ≡ found t h → met v h xs ≡ true) e ih,
      ))
  found-met-round r s t h (seen u done k) rest xs st (inr (e, d)) f ih = ground (
    arith,
    met-changed (streak s) h (hash_of r.shot) xs,
    subst (λ v. rest ≡ found t h → met v h xs ≡ true) e ih,
  )

  stable_kept :
      (s : S) (a : A) (p : Probed S)
      → IsCounted s a p
      → 1 ≤ (streak s).stable
      → 1 ≤ (streak (state_of p)).stable
  stable_kept s a (failed t res e) c st = subst (λ v. 1 ≤ v.stable) (sym c) st
  stable_kept s a (seen t done h) (inl (e, d, q)) st =
      subst (λ v. 1 ≤ v.stable) (sym e) (omega (arith, stable-advance (streak s) h, st))
  stable_kept s a (seen t done h) (inr (e, d)) st = subst (λ v. 1 ≤ v.stable) (sym e) st

  pub found-met :
      ((s : S) (c : Bool) (a : A) → IsCounted s a (fn s c a))
      → (on_cancel : ℕ) (rs : List (Round A)) (s t : S) (h : ℕ) → 1 ≤ (streak s).stable
      → poll fn on_cancel rs s ≡ found t h
      → met (streak s) h (samples hash_of rs) ≡ true
  unfolding poll
  found-met counted oc [] s t h st f = ground arith
  found-met counted oc (r ∷ rs) s t h st f =
      let c = counted s r.after r.shot in
      found-met-round r s t h (fn s r.after r.shot) (poll fn oc rs (state_of (fn s r.after r.shot)))
        (samples hash_of rs) st c (ground arith)
        (found-met counted oc rs (state_of (fn s r.after r.shot)) t h
          (stable_kept s r.shot (fn s r.after r.shot) c st))

abbrev pub shot_hash : Shot → Option ℕ
shot_hash (unusable e) = none
shot_hash (captured cur h) = some h

canonical-IsCounted :
    (s : StableStreak) (c : Bool) (o : Option ℕ)
    → IsCounted canonical_hash_probe (λ t. t) (λ x. x) s o (canonical_hash_probe s c o)
unfolding canonical_hash_probe
canonical-IsCounted s c none = refl
canonical-IsCounted s c (some h) = inl (refl, refl, refl)

grab-IsCounted :
    (w : Watch) (c : Bool) (a : Shot)
    → IsCounted grab_hash_probe (λ v. v.streak) shot_hash w a (grab_hash_probe w c a)
unfolding grab_hash_probe
grab-IsCounted w c (unusable e) = refl
grab-IsCounted w c (captured cur h) = elim (Bool-cases (is_other w.sentinel cur)) [
  | inl e ↦ rw e (inr (refl, refl))
  | inr e ↦ rw e (inl (refl, refl, refl))
]

-- The hashes that a wait sees, from the one that the caller knows on.
abbrev pub screen_hashes : Screen → List (Option ℕ)
screen_hashes no_screen = []
screen_hashes (hashes rs) = samples (λ x. x) rs
screen_hashes (grabs rs) = samples shot_hash rs

abbrev pub from_initial : ℕ → List (Option ℕ) → List (Option ℕ)
from_initial initial xs = if initial == 0 then xs else some initial ∷ xs

pub at_least_one-pos : (stable : ℤ) → 1 ≤ at_least_one stable
at_least_one-pos (pos zero) = omega arith
at_least_one-pos (pos (suc n)) = omega arith
at_least_one-pos (negsuc n) = omega arith

met-initial :
    (initial h : ℕ) (stable : ℤ) (xs : List (Option ℕ))
    → met (new_stable_streak initial stable) h xs ≡ true
    → has_run (at_least_two (at_least_one stable)) h (from_initial initial xs) ≡ true
met-initial initial h stable xs m =
    ground (arith, starts-two (at_least_one stable) h xs (at_least_one-pos stable))

settle-found :
    {S : Type 0} (streak : S → StableStreak) (p : Polled S) (h : ℕ)
    → settle streak p ≡ settled h
    → (t : S) × (p ≡ found t h)
settle-found streak (found t k) h e = (t, ground arith)
settle-found streak (stopped t k err true) h e = ground arith
settle-found streak (stopped t k err false) h e = ground arith
settle-found streak (polling t) h e = ground arith

-- When the wait for a settled region ends with a hash, as many consecutive samples as were asked for
-- had this hash, and two at least; the hash that the caller gives counts as the first sample, unless
-- it is 0. This holds for both ways to take samples, whatever happened in between.
pub settled-run :
    (screen : Screen) (rect_empty : Bool) (initial h : ℕ) (stable : ℤ)
    → wait_for_no_change_from screen rect_empty initial stable ≡ settled h
    → has_run (at_least_two (at_least_one stable)) h (from_initial initial (screen_hashes screen))
      ≡ true
unfolding wait_for_no_change_from
settled-run no_screen e initial h stable f = ground arith
settled-run (hashes rs) true initial h stable f = ground arith
settled-run (hashes rs) false initial h stable f =
    let s = new_stable_streak initial stable in
    let (t, e) = settle-found (λ v. v) (poll canonical_hash_probe s.last rs s) h f in
    met-initial initial h stable (samples (λ x. x) rs) (
      found-met canonical_hash_probe (λ v. v) (λ x. x) canonical-IsCounted s.last rs s t h
        (at_least_one-pos stable) e)
settled-run (grabs rs) true initial h stable f = ground arith
settled-run (grabs rs) false initial h stable f =
    let s = new_stable_streak initial stable in
    let w : Watch = record { streak = s; sentinel = none } in
    let (t, e) = settle-found (λ v. v.streak) (poll grab_hash_probe s.last rs w) h f in
    met-initial initial h stable (samples shot_hash rs) (
      found-met grab_hash_probe (λ v. v.streak) shot_hash grab-IsCounted s.last rs w t h
        (at_least_one-pos stable) e)
