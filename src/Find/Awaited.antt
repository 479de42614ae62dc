-- ===== src/Find/Awaited.antt =====
-- find/find.go: what `WaitFor` and `WaitForChange` promise.
use perfuncted.Prelude.{
  ℕ, ◌≡◌, ◌≢◌, refl, Bool, true, false, not, ◌&&◌, List, [], ◌∷◌, ◌==◌, if◌then◌else◌, arith, mem,
}
use perfuncted.Find.Poll.{Round, Probed, failed, seen, Polled, found, poll, conclude}
use perfuncted.Find.Read.{
  Read, hash, no_hash, Sample, canonical, grabbed, image, grab_image_hash, read_wait_hash,
  match_read, change_read, match_probe, change_probe, Awaited, reached, looking, await, wait_for,
  wait_for_change,
}

-- The hashes of the rounds that read one.
abbrev pub hashes_of : Read → List ℕ → List ℕ
hashes_of (hash h) hs = h ∷ hs
hashes_of (no_hash h e) hs = hs

abbrev pub read_hashes : List (Round Sample) → List ℕ
read_hashes [] = []
read_hashes (r ∷ rs) = hashes_of (read_wait_hash r.shot) (read_hashes rs)

-- What a test of the hashes makes of a reading.
abbrev IsTested : (ℕ → Bool) → Read → Probed (Unit {0}) → Type 0
IsTested p (hash h) q = q ≡ seen tt (p h) h
IsTested p (no_hash h e) q = (v : ℕ) × (q ≡ failed tt v e)

-- A round that reads a hash: from a backend that computes it, or from a grab, with the context live.
pub data Reading : Type 0 where
  by_backend by_grab : ℕ → Reading

abbrev sample_of : Reading → Sample
sample_of (by_backend h) = canonical (hash h)
sample_of (by_grab h) = grabbed false (image h) false

abbrev pub values : List Reading → List ℕ
values [] = []
values (by_backend h ∷ l) = h ∷ values l
values (by_grab h ∷ l) = h ∷ values l

abbrev pub quiet : List Reading → List (Round Sample)
quiet [] = []
quiet (x ∷ l) =
    record { before = false; shot = sample_of x; after = false; waiting = false } ∷ quiet l

-- The first hash that passes a test.
abbrev pub first_where : (ℕ → Bool) → List ℕ → Awaited
first_where p [] = looking
first_where p (h ∷ hs) = let rest = first_where p hs in if p h then reached h else rest

module _ (p : ℕ → Bool) where
  reached_round :
      (r : Round Sample) (d : Read) (q : Probed (Unit {0})) (rest : Polled (Unit {0})) (h : ℕ)
      (hs : List ℕ)
      → IsTested p d q
      → await (conclude r q rest) ≡ reached h
      → (await rest ≡ reached h → (p h ≡ true) × (mem h hs ≡ true))
      → (p h ≡ true) × (mem h (hashes_of d hs) ≡ true)
  reached_round r (hash k) q rest h hs t e ih = ground arith
  reached_round r (no_hash k x) q rest h hs t e ih = ground arith

  first-round :
      (h : ℕ) (rest : Polled (Unit {0})) (last : Awaited)
      → await rest ≡ last
      → await (if p h then found tt h else rest) ≡ (if p h then reached h else last)
  first-round h rest last e = ground arith

  module _ (fn : Unit {0} → Bool → Sample → Probed (Unit {0}))
      (tested : (c : Bool) (a : Sample) → IsTested p (read_wait_hash a) (fn tt c a)) (oc : ℕ) where
    reached_sound :
        (rs : List (Round Sample)) (h : ℕ)
        → await (poll fn oc rs tt) ≡ reached h
        → (p h ≡ true) × (mem h (read_hashes rs) ≡ true)
    unfolding poll
    reached_sound [] h e = ground arith
    reached_sound (r ∷ rs) h e =
        reached_round r (read_wait_hash r.shot) (fn tt r.after r.shot) (poll fn oc rs tt) h
          (read_hashes rs) (tested r.after r.shot) (ground arith) (reached_sound rs h)

    reached_first : (l : List Reading) → await (poll fn oc (quiet l) tt) ≡ first_where p (values l)
    unfolding poll read_wait_hash grab_image_hash
    reached_first [] = refl
    reached_first (by_backend h ∷ l) =
        rw (tested false (canonical (hash h)))
          (first-round h (poll fn oc (quiet l) tt) (first_where p (values l)) (reached_first l))
    reached_first (by_grab h ∷ l) =
        rw (tested false (grabbed false (image h) false))
          (first-round h (poll fn oc (quiet l) tt) (first_where p (values l)) (reached_first l))

match_read-IsTested : (want : ℕ) (d : Read) → IsTested (λ h. h == want) d (match_read want d)
unfolding match_read
match_read-IsTested want (hash h) = refl
match_read-IsTested want (no_hash h e) = (h, refl)

change_read-IsTested :
    (initial : ℕ) (c : Bool) (d : Read)
    → IsTested (λ h. not (h == initial)) d (change_read initial c d)
unfolding change_read
change_read-IsTested initial c (hash h) = refl
change_read-IsTested initial c (no_hash h e) = (if c && (h == 0) then initial else h, refl)

match-IsTested :
    (want : ℕ) (c : Bool) (a : Sample)
    → IsTested (λ h. h == want) (read_wait_hash a) (match_probe want tt c a)
unfolding match_probe
match-IsTested want c a = match_read-IsTested want (read_wait_hash a)

change-IsTested :
    (initial : ℕ) (c : Bool) (a : Sample)
    → IsTested (λ h. not (h == initial)) (read_wait_hash a) (change_probe initial tt c a)
unfolding change_probe
change-IsTested initial c a = change_read-IsTested initial c (read_wait_hash a)

-- Where `WaitFor` ends with a hash, whatever happened before, it is the hash that was asked for, and
-- a round read it.
pub reached-wanted :
    (want h : ℕ) (rs : List (Round Sample))
    → wait_for want rs ≡ reached h
    → (h ≡ want) × (mem h (read_hashes rs) ≡ true)
unfolding wait_for
reached-wanted want h rs e =
    let (p, m) = reached_sound (λ v. v == want) (match_probe want) (match-IsTested want) 0 rs h e in
    (ground arith, m)

-- Where `WaitForChange` ends with a hash, whatever happened before, it is not the one that was to
-- change, and a round read it.
pub reached-changed :
    (initial h : ℕ) (rs : List (Round Sample))
    → wait_for_change initial rs ≡ reached h
    → (h ≢ initial) × (mem h (read_hashes rs) ≡ true)
unfolding wait_for_change
reached-changed initial h rs e =
    let (p, m) =
      reached_sound (λ v. not (v == initial)) (change_probe initial) (change-IsTested initial)
        initial rs h e in
    (λ q. ground arith, m)

-- While every reading succeeds, by a hash of the backend or by a grab, and nothing is canceled, `WaitFor` ends at the first hash that is
-- the one it was asked for, and `WaitForChange` at the first one that is not.
pub reached-first_where :
    (want initial : ℕ) (l : List Reading)
    → (wait_for want (quiet l) ≡ first_where (λ v. v == want) (values l))
      × (wait_for_change initial (quiet l) ≡ first_where (λ v. not (v == initial)) (values l))
unfolding wait_for wait_for_change
reached-first_where want initial l = (
  reached_first (λ v. v == want) (match_probe want) (match-IsTested want) 0 l,
  reached_first (λ v. not (v == initial)) (change_probe initial) (change-IsTested initial) initial
      l,
)
