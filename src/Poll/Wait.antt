-- ===== src/Poll/Wait.antt =====
-- `WaitFunc` of poll/poll.go returns the first value, unless the context ends before.
use perfuncted.Prelude.{
  ℕ, zero, suc, ◌+◌, ◌*◌, ◌≤◌, ◌<◌, ◌≡◌, ◌⊎◌, refl, Option, none, some, inl, inr, arith,
}
use perfuncted.Poll.{Polled, got, Tried, value, failure, unless_done, settled, wait_loop, wait_func}

Tried-cases : {T : Type 0} → (t : Tried T) → ((v : T) × (t ≡ value v)) ⊎ (t ≡ failure)
Tried-cases (value v) = inl (v, refl)
Tried-cases failure = inr refl

module _ {T E : Type 0} (ctx : ℕ → Option E) (fn : ℕ → Tried T) where
  -- From round `i` on, all calls before the `n`-th fail and this one gives `v`, and the context has
  -- not ended when its result is there.
  abbrev pub IsFirstValue : ℕ → ℕ → T → Type 0
  IsFirstValue i n v =
      (i ≤ n)
      × (fn n ≡ value v)
      × ((j : ℕ) → i ≤ j → j < n → fn j ≡ failure)
      × ((j : ℕ) → 3 * i ≤ j → j ≤ 3 * n + 1 → ctx j ≡ none)

  start_or_later : (i n : ℕ) → i ≤ n → (i ≡ n) ⊎ (suc i ≤ n)
  start_or_later i n h = ground arith

  wait_loop-got :
      (fuel i n : ℕ) (v : T) → n < fuel + i → IsFirstValue i n v → wait_loop ctx fn fuel i ≡ got v
  unfolding wait_loop
  wait_loop-got zero i n v f (l, q, b, c) = absurd (omega arith)
  wait_loop-got (suc fuel) i n v f (l, q, b, c) = elim (start_or_later i n l) [
    | inl e ↦
        rw (c (3 * i) (omega arith) (omega arith), c (3 * i + 1) (omega arith) (omega arith), e, q)
          refl
    | inr g ↦
        rw
          (
            c (3 * i) (omega arith) (omega arith),
            c (3 * i + 1) (omega arith) (omega arith),
            c (3 * i + 2) (omega arith) (omega arith),
            b i (omega arith) g,
          )
          (wait_loop-got fuel (suc i) n v (omega arith)
            (g, q, (λ j h k. b j (omega arith) k), (λ j h k. c j (omega arith) k)))
  ]

  -- Where the function first succeeds in round `n` and the context has not ended by then, the
  -- rounds up to that one are enough, and the value of that call is returned.
  pub wait_func-got :
      (fuel n : ℕ) (v : T) → n < fuel → IsFirstValue 0 n v → wait_func ctx (some fn) fuel ≡ got v
  unfolding wait_func
  wait_func-got fuel n v f h = wait_loop-got fuel 0 n v (omega arith) h

  unless_done-got :
      (o : Option E) (p : Polled T E) (v : T)
      → unless_done ctx o p ≡ got v
      → (o ≡ none) × (p ≡ got v)
  unless_done-got none p v h = (refl, h)
  unless_done-got (some e) p v h = ground arith

  settled-got :
      (t : Tried T) (p : Polled T E) (v : T)
      → settled ctx t p ≡ got v
      → (t ≡ value v) ⊎ ((t ≡ failure) × (p ≡ got v))
  settled-got (value w) p v h = inl (ground arith)
  settled-got failure p v h = inr (refl, h)

  value_now :
      (i : ℕ) (v : T)
      → ctx (3 * i) ≡ none
      → ctx (3 * i + 1) ≡ none
      → fn i ≡ value v
      → IsFirstValue i i v
  value_now i v c d q = (omega arith, q, (λ j h k. absurd (omega arith)), quiet)
    where
      pick : (j : ℕ) → 3 * i ≤ j → j ≤ 3 * i + 1 → (3 * i ≡ j) ⊎ (3 * i + 1 ≡ j)
      pick j h k = ground arith

      quiet : (j : ℕ) → 3 * i ≤ j → j ≤ 3 * i + 1 → ctx j ≡ none
      quiet j h k = elim (pick j h k) [ inl e ↦ rw (← e) c | inr e ↦ rw (← e) d ]

  value_later :
      (i : ℕ) (v : T)
      → ctx (3 * i) ≡ none
      → ctx (3 * i + 1) ≡ none
      → ctx (3 * i + 2) ≡ none
      → fn i ≡ failure
      → (n : ℕ) × IsFirstValue (suc i) n v
      → (n : ℕ) × IsFirstValue i n v
  value_later i v c d e q (n, (l, r, b, z)) = (n, (omega arith, r, failing, quiet))
    where
      failing : (j : ℕ) → i ≤ j → j < n → fn j ≡ failure
      failing j h k = elim (start_or_later i j h) [ inl p ↦ rw (← p) q | inr p ↦ b j p k ]

      pick :
          (j : ℕ)
          → 3 * i ≤ j
          → (3 * i ≡ j) ⊎ ((3 * i + 1 ≡ j) ⊎ ((3 * i + 2 ≡ j) ⊎ (3 * suc i ≤ j)))
      pick j h = ground arith

      quiet : (j : ℕ) → 3 * i ≤ j → j ≤ 3 * n + 1 → ctx j ≡ none
      quiet j h k = elim (pick j h) [
        | inl p ↦ rw (← p) c
        | inr (inl p) ↦ rw (← p) d
        | inr (inr (inl p)) ↦ rw (← p) e
        | inr (inr (inr p)) ↦ z j p k
      ]

  got-wait_loop :
      (fuel i : ℕ) (v : T) → wait_loop ctx fn fuel i ≡ got v → (n : ℕ) × IsFirstValue i n v
  unfolding wait_loop
  got-wait_loop zero i v h = ground arith
  got-wait_loop (suc fuel) i v h =
      let (c, h1) = unless_done-got (ctx (3 * i)) _ v h in
      let (d, h2) = unless_done-got (ctx (3 * i + 1)) _ v h1 in
      elim (settled-got (fn i) _ v h2) [
        | inl q ↦ (i, value_now i v c d q)
        | inr (q, h3) ↦
            let (e, h4) = unless_done-got (ctx (3 * i + 2)) _ v h3 in
            value_later i v c d e q (got-wait_loop fuel (suc i) v h4)
      ]

  -- A value that is returned is that of the first call that succeeds, and the context had not ended
  -- when the call returned.
  pub got-wait_func :
      (fuel : ℕ) (v : T) → wait_func ctx (some fn) fuel ≡ got v → (n : ℕ) × IsFirstValue 0 n v
  unfolding wait_func
  got-wait_func fuel v h = got-wait_loop fuel 0 v h
