-- ===== src/Poll/Examples.antt =====
-- Tests and examples for poll/poll.go.
use perfuncted.Prelude.{ℕ, ◌≡◌, refl, Option, none, some, ◌==◌, ltb, if◌then◌else◌, arith}
use perfuncted.Prelude.Int.{pos}
use perfuncted.Poll.{got, Tried, value, failure, adaptive_poll, wait_func}
use perfuncted.Poll.Backoff.{doubled, at_most, adaptive_poll-doubled}
use perfuncted.Poll.Wait.{IsFirstValue, wait_func-got, got-wait_func}

adaptive_poll-doubled_test :
    adaptive_poll (pos 3) (pos 10) (pos 50) ≡ pos (at_most (doubled 3 10) 50)
adaptive_poll-doubled_test = adaptive_poll-doubled (pos 3) 10 50 (omega arith) (omega arith)

-- The context ends at the ninth look, in the third round; the second call succeeds.
abbrev ctx : ℕ → Option ℕ
ctx n = if ltb n 8 then none else some 1

abbrev fn : ℕ → Tried ℕ
fn n = if n == 1 then value 7 else failure

fn-IsFirstValue : IsFirstValue ctx fn 0 1 7
fn-IsFirstValue = (omega arith, refl, (λ j h k. ground arith), (λ j h k. ground arith))

wait_func-got_example : wait_func ctx (some fn) 5 ≡ got 7
wait_func-got_example = wait_func-got ctx fn 5 1 7 (omega arith) fn-IsFirstValue

wait_func_test : wait_func ctx (some fn) 4 ≡ got 7
unfolding wait_func
wait_func_test = refl

got-wait_func_test : (n : ℕ) × IsFirstValue ctx fn 0 n 7
got-wait_func_test = got-wait_func ctx fn 4 7 wait_func_test
