-- ===== src/Poll/Backoff.antt =====
-- `AdaptivePoll` of poll/poll.go doubles the base for each attempt, up to the maximum.
use perfuncted.Prelude.{
  ℕ, zero, suc, ◌-◌, ◌*◌, ◌≤◌, ◌<◌, ◌≡◌, refl, ap, ◌∙◌, true, false, ltb, leb, Bool-cases, inl, inr,
  if◌then◌else◌, arith,
}
use perfuncted.Prelude.Int.{ℤ, pos, pos_part}
use perfuncted.Poll.{backoff, adaptive_poll}

-- `d * 2 ^ n`
abbrev pub doubled : ℕ → ℕ → ℕ
doubled zero d = d
doubled (suc n) d = doubled n d * 2

abbrev pub at_most : ℕ → ℕ → ℕ
at_most d max = if leb d max then d else max

doubled-inner : (n d : ℕ) → doubled n (d * 2) ≡ doubled n d * 2
doubled-inner zero d = refl
doubled-inner (suc n) d = ap (λ x. x * 2) (doubled-inner n d)

le-doubled : (n d : ℕ) → d ≤ doubled n d
le-doubled zero d = omega arith
le-doubled (suc n) d = let h = le-doubled n d in omega arith

at_most-le : (d max : ℕ) → d ≤ max → at_most d max ≡ d
at_most-le d max h = ground arith

at_most-gt : (d max : ℕ) → max < d → at_most d max ≡ max
at_most-gt d max h = ground arith

backoff-doubled : (n d max : ℕ) → d ≤ max → backoff n d max ≡ at_most (doubled n d) max
unfolding backoff
backoff-doubled zero d max h = ground arith
backoff-doubled (suc n) d max h = elim (Bool-cases (ltb (max - d) d)) [
  | inl e ↦ rw (e, backoff) (over (le-doubled n d) e)
  | inr e ↦
      rw (e, backoff)
        (backoff-doubled n (d * 2) max (under e) ∙ ap (λ x. at_most x max) (doubled-inner n d))
]
  where
    over : d ≤ doubled n d → ltb (max - d) d ≡ true → max ≡ at_most (doubled n d * 2) max
    over l e = ground arith

    under : ltb (max - d) d ≡ false → d * 2 ≤ max
    under e = ground arith

-- For a positive base and a positive maximum, the duration of an attempt is the base, doubled once
-- for each attempt before, but never more than the maximum; a negative attempt counts as the first.
pub adaptive_poll-doubled :
    (attempt : ℤ) (base max : ℕ)
    → 1 ≤ base
    → 1 ≤ max
    → adaptive_poll attempt (pos base) (pos max)
      ≡ pos (at_most (doubled (pos_part attempt) base) max)
unfolding adaptive_poll
adaptive_poll-doubled attempt base max b m =
    ground (arith, backoff-doubled (pos_part attempt) base max, le-doubled (pos_part attempt) base)
