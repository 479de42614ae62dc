-- ===== src/Find/Run.antt =====
-- find/find.go: runs of equal hashes, and what the streak knows of them.
use perfuncted.Prelude.{
  ℕ, zero, suc, ◌-◌, ◌≤◌, ◌≡◌, Bool, true, false, ◌&&◌, ◌||◌, Option, none, some, List, [], ◌∷◌,
  ltb, leb, ◌==◌, if◌then◌else◌, arith,
}
use perfuncted.Find.Streak.{StableStreak, advance}

-- The newest samples that are equal, of samples with the newest first.
abbrev pub run : List ℕ → ℕ
run [] = 0
run (h ∷ []) = 1
run (h ∷ (k ∷ hs)) = if h == k then suc (run (k ∷ hs)) else 1

-- The streak stands for the samples.
abbrev pub Follows : StableStreak → List ℕ → Type 0
Follows s [] = s.count ≡ 0
Follows s (h ∷ hs) = (s.last ≡ h) × (s.count ≡ run (h ∷ hs))

run-pos : (h : ℕ) (hs : List ℕ) → 1 ≤ run (h ∷ hs)
run-pos h [] = omega arith
run-pos h (k ∷ hs) = ground arith

-- The streak counts the newest equal samples, and a sample ends the wait when it makes them at
-- least as many as were asked for, and two: a single sample never does.
pub advance-Follows :
    (s : StableStreak) (h : ℕ) (hs : List ℕ)
    → Follows s hs
    → Follows (advance s h).0 (h ∷ hs)
      × ((advance s h).1 ≡ (leb s.stable (run (h ∷ hs)) && leb 2 (run (h ∷ hs))))
unfolding advance
advance-Follows s h [] f = ground arith
advance-Follows s h (k ∷ hs) f = ground (arith, run-pos k hs)

-- The first samples are at least so many of one hash.
abbrev pub starts_with : ℕ → ℕ → List (Option ℕ) → Bool
starts_with zero h xs = true
starts_with (suc n) h [] = false
starts_with (suc n) h (none ∷ xs) = false
starts_with (suc n) h (some k ∷ xs) = (k == h) && starts_with n h xs

-- So many consecutive samples are of one hash, somewhere.
abbrev pub has_run : ℕ → ℕ → List (Option ℕ) → Bool
has_run n h [] = starts_with n h []
has_run n h (x ∷ xs) = starts_with n h (x ∷ xs) || has_run n h xs

-- How many more samples of the last hash end the wait.
abbrev pub missing : StableStreak → ℕ
missing s = if leb (s.stable - s.count) 1 then 1 else s.stable - s.count

-- What a wait that ends with a hash, from a streak on, has met.
abbrev pub met : StableStreak → ℕ → List (Option ℕ) → Bool
met s h xs =
    (ltb 0 s.count && (s.last == h) && starts_with (missing s) h xs)
    || has_run (if leb s.stable 1 then 2 else s.stable) h xs

abbrev pub at_least_two : ℕ → ℕ
at_least_two n = if leb n 1 then 2 else n

missing-suc :
    (s : StableStreak)
    → leb s.stable (suc s.count) ≡ false
    → missing s ≡ suc (missing (record s { count = suc s.count }))
missing-suc s d = ground arith

at_least_two-suc : (n : ℕ) → 1 ≤ n → at_least_two n ≡ suc (if leb (n - 1) 1 then 1 else n - 1)
at_least_two-suc n st = ground arith

starts-longer :
    (s : StableStreak) (h : ℕ) (xs : List (Option ℕ))
    → leb s.stable (suc s.count) ≡ false
    → starts_with (missing (record s { count = suc s.count })) h xs ≡ true
    → starts_with (missing s) h (some h ∷ xs) ≡ true
starts-longer s h xs d m = rw (missing-suc s d) (ground arith)

pub starts-two :
    (n h : ℕ) (xs : List (Option ℕ))
    → 1 ≤ n
    → starts_with (if leb (n - 1) 1 then 1 else n - 1) h xs ≡ true
    → starts_with (at_least_two n) h (some h ∷ xs) ≡ true
starts-two n h xs st m = rw (at_least_two-suc n st) (ground arith)

pub met-advance :
    (s : StableStreak) (k h : ℕ) (xs : List (Option ℕ))
    → 1 ≤ s.stable
    → met (advance s k).0 h xs ≡ true
    → (advance s k).1 ≡ false
    → met s h (some k ∷ xs) ≡ true
unfolding advance
met-advance s k h xs st m d = ground (arith, starts-longer s h xs, starts-two s.stable h xs st)

pub met-done :
    (s : StableStreak) (k : ℕ) (xs : List (Option ℕ))
    → 1 ≤ s.stable
    → (advance s k).1 ≡ true
    → met s k (some k ∷ xs) ≡ true
unfolding advance
met-done s k xs st d = ground arith

pub met-changed :
    (s : StableStreak) (h : ℕ) (x : Option ℕ) (xs : List (Option ℕ))
    → met (record s { count = 0 }) h xs ≡ true
    → met s h (x ∷ xs) ≡ true
met-changed s h x xs m = ground arith
