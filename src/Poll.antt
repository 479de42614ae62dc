-- ===== src/Poll.antt =====
-- poll/poll.go: back-off durations and polling. Durations are in nanoseconds.
-- In `WaitFunc`, `ctx n` is what the n-th look at the context finds, three for each round, and
-- `fn n` what the n-th call of the function returns. Ticks of the ticker are not counted.
mod Backoff
mod Wait
mod Examples
use perfuncted.Prelude.{
  ℕ, zero, suc, ◌+◌, ◌-◌, ◌*◌, Bool, true, false, ◌||◌, Option, none, some, ltb, leb, if◌then◌else◌,
}
use perfuncted.Prelude.Int.{ℤ, pos, negsuc, pos_part}

-- The loop of `AdaptivePoll`. `d * 2` is at most `max` there, so that it cannot overflow.
unfoldable pub backoff : ℕ → ℕ → ℕ → ℕ
backoff zero d max = d
backoff (suc attempt) d max =
    let rest = backoff attempt (d * 2) max in if ltb (max - d) d then max else rest

abbrev pub is_positive : ℤ → Bool
is_positive (pos n) = ltb 0 n
is_positive (negsuc n) = false

-- A negative attempt counts as 0.
unfoldable pub adaptive_poll : ℤ → ℤ → ℤ → ℤ
unfolding backoff
adaptive_poll attempt base max =
    if is_positive base
    then if is_positive max
      then if leb (pos_part max) (pos_part base)
        then max
        else pos (backoff (pos_part attempt) (pos_part base) (pos_part max))
      else pos 0
    else pos 0

unfoldable pub clamp : ℤ → ℤ
clamp d = if is_positive d then d else pos 10000000

pub data Polled (T E : Type 0) : Type 0 where
  got : T → Polled T E
  cancelled : E → Polled T E
  no_function : Polled T E
  polling : Polled T E

pub data Tried (T : Type 0) : Type 0 where
  value : T → Tried T
  failure : Tried T

module _ {T E : Type 0} (ctx : ℕ → Option E) where
  abbrev pub unless_done : Option E → Polled T E → Polled T E
  unless_done none p = p
  unless_done (some e) p = cancelled e

  abbrev pub settled : Tried T → Polled T E → Polled T E
  settled (value v) p = got v
  settled failure p = p

  -- The loop of `WaitFunc` from round `i`, for as many rounds as there is fuel.
  unfoldable pub wait_loop : (ℕ → Tried T) → ℕ → ℕ → Polled T E
  wait_loop fn zero i = polling
  wait_loop fn (suc fuel) i = unless_done (ctx (3 * i)) (
      unless_done (ctx (3 * i + 1))
        (settled (fn i) (unless_done (ctx (3 * i + 2)) (wait_loop fn fuel (suc i)))))

  unfoldable pub wait_func : Option (ℕ → Tried T) → ℕ → Polled T E
  unfolding wait_loop
  wait_func none fuel = no_function
  wait_func (some fn) fuel = wait_loop fn fuel 0
