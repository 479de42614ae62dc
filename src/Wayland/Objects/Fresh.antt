-- ===== src/Wayland/Objects/Fresh.antt =====
-- internal/wl/wl.go: `Register` finds an identifier, and one that no object has.
use perfuncted.Prelude.{
  ℕ, zero, suc, ◌+◌, ◌%◌, ◌^◌, ◌≤◌, ◌<◌, ◌≡◌, ◌≢◌, ◌⊎◌, refl, subst, true, Option, none, some, List,
  [], ◌∷◌, length, is_some, ◌==◌, if◌then◌else◌, arith, Bool-cases, Option-cases, inl, inr,
}
use perfuncted.Wayland.Objects.{Objects, lookup, next_free, register}

-- Whether one of the identifiers after n, up to a distance, is x.
abbrev hit : ℕ → ℕ → ℕ → ℕ
hit x n zero = 0
hit x n (suc k) = let rest = hit x n k in if ((n + suc k) % 2 ^ 32) == x then suc rest else rest

no_hit : (x n k m : ℕ) → k < m → m ≤ 2 ^ 32 → (n + m) % 2 ^ 32 ≡ x → hit x n k ≡ 0
no_hit x n zero m p q e = refl
no_hit x n (suc k) m p q e = ground (arith, no_hit x n k m)

hit_once : (x n k : ℕ) → k ≤ 2 ^ 32 → hit x n k ≤ 1
hit_once x n zero p = omega arith
hit_once x n (suc k) p = ground (arith, hit_once x n k, no_hit x n k (suc k))

-- The identifiers after n, up to a distance, that are taken.
abbrev taken : List (ℕ × ℕ) → ℕ → ℕ → ℕ
taken [] n k = 0
taken ((x, p) ∷ os) n k = hit x n k + taken os n k

taken_le : (os : List (ℕ × ℕ)) (n k : ℕ) → k ≤ 2 ^ 32 → taken os n k ≤ length os
taken_le [] n k p = omega arith
taken_le ((x, q) ∷ os) n k p = omega (arith, hit_once x n k p, taken_le os n k p)

hit_mono : (x n k : ℕ) → hit x n k ≤ hit x n (suc k)
hit_mono x n k = ground arith

taken_mono : (os : List (ℕ × ℕ)) (n k : ℕ) → taken os n k ≤ taken os n (suc k)
taken_mono [] n k = omega arith
taken_mono ((x, q) ∷ os) n k = omega (arith, hit_mono x n k, taken_mono os n k)

-- One more identifier that is taken is counted.
taken_more :
    (os : List (ℕ × ℕ)) (n k : ℕ)
    → is_some (lookup ((n + suc k) % 2 ^ 32) os) ≡ true
    → suc (taken os n k) ≤ taken os n (suc k)
taken_more [] n k h = ground arith
taken_more ((x, q) ∷ os) n k h =
    ground (arith, taken_more os n k, hit_mono x n k, taken_mono os n k)

-- The identifiers that cannot be given: the number 0, and those that are taken.
abbrev blocked : List (ℕ × ℕ) → ℕ → ℕ → ℕ
blocked os n k = hit 0 n k + taken os n k

blocked_more :
    (os : List (ℕ × ℕ)) (n k id : ℕ)
    → id ≡ (n + suc k) % 2 ^ 32
    → ((id ≡ 0) ⊎ (is_some (lookup id os) ≡ true))
    → suc (blocked os n k) ≤ blocked os n (suc k)
blocked_more os n k id e (inl z) = ground (arith, taken_mono os n k, e, z)
blocked_more os n k id e (inr t) =
    let u = subst (λ m. is_some (lookup m os) ≡ true) e t in
    omega (arith, taken_more os n k u, hit_mono 0 n k)

-- Rounds that find nothing only met such identifiers.
blocked_none : (os : List (ℕ × ℕ)) (n : ℕ) → 0 ≤ blocked os n 0
blocked_none os n = omega arith

tried :
    (id : ℕ) (os : List (ℕ × ℕ)) (rest : Option ℕ)
    → (if id == 0 then rest else if is_some (lookup id os) then rest else some id) ≡ none
    → ((id ≡ 0) ⊎ (is_some (lookup id os) ≡ true)) × (rest ≡ none)
tried id os rest h = elim (Bool-cases (id == 0)) [
  | inl e ↦ (inl (ground (arith, e)), ground (arith, h, e))
  | inr e ↦ elim (Bool-cases (is_some (lookup id os))) [
    | inl f ↦ (inr f, ground (arith, h, e, f))
    | inr f ↦ ground (arith, h, e, f)
  ]
]

all_blocked :
    (rounds : ℕ) (os : List (ℕ × ℕ)) (m n i j : ℕ)
    → i + rounds ≡ j
    → (m + 1) % 2 ^ 32 ≡ (n + suc i) % 2 ^ 32
    → next_free rounds os m ≡ none
    → blocked os n i + rounds ≤ blocked os n j
unfolding next_free
all_blocked zero os m n i j q e h =
    subst (λ k. blocked os n i + 0 ≤ blocked os n k) {x = i} (omega (arith, q)) (omega arith)
all_blocked (suc rounds) os m n i j q e h =
    let id = (m + 1) % 2 ^ 32 in
    omega (
      arith,
      blocked_more os n i id e (tried id os (next_free rounds os id) h).0,
      all_blocked rounds os id n (suc i) j (omega (arith, q)) (omega (arith, e))
          (tried id os (next_free rounds os id) h).1,
    )

found_round :
    (m id : ℕ) (os : List (ℕ × ℕ)) (rest : Option ℕ)
    → (if m == 0 then rest else if is_some (lookup m os) then rest else some m) ≡ some id
    → (rest ≡ some id → (id ≢ 0) × (id < 2 ^ 32) × (lookup id os ≡ none))
    → m < 2 ^ 32
    → (id ≢ 0) × (id < 2 ^ 32) × (lookup id os ≡ none)
found_round m id os rest h ih l = elim (Bool-cases (m == 0)) [
  | inl e ↦ ih (ground (arith, h, e))
  | inr e ↦ elim (Option-cases (lookup m os)) [
    | inl f ↦
        subst (λ k. (k ≢ 0) × (k < 2 ^ 32) × (lookup k os ≡ none)) {x = m} (ground (arith, h, e, f))
          (ground (arith, e), l, f)
    | inr (p, f) ↦ ih (ground (arith, h, e, f))
  ]
]

pub found_free :
    (rounds : ℕ) (os : List (ℕ × ℕ)) (m id : ℕ)
    → next_free rounds os m ≡ some id
    → (id ≢ 0) × (id < 2 ^ 32) × (lookup id os ≡ none)
unfolding next_free
found_free zero os m id h = ground arith
found_free (suc rounds) os m id h =
    found_round ((m + 1) % 2 ^ 32) id os (next_free rounds os ((m + 1) % 2 ^ 32)) h
      (found_free rounds os ((m + 1) % 2 ^ 32) id) (omega arith)

-- While fewer than 2 ^ 32 - 1 objects are registered, `Register` finds an identifier; it is not 0,
-- and no object has it.
pub register_total :
    (p : ℕ) (o : Objects)
    → length o.objects + 1 < 2 ^ 32
    → (id : ℕ) × (o' : Objects) × (register p o ≡ some (id, o'))
      × (id ≢ 0)
      × (id < 2 ^ 32)
      × (lookup id o.objects ≡ none)
      × (lookup id o'.objects ≡ some p)
unfolding register
register_total p o h = elim (Option-cases (next_free (length o.objects + 2) o.objects o.next_id)) [
  | inl e ↦ absurd (
      omega (
        arith,
        h,
        all_blocked (length o.objects + 2) o.objects o.next_id o.next_id 0 (length o.objects + 2)
            (omega arith) refl e,
        hit_once 0 o.next_id (length o.objects + 2) (omega (arith, h)),
        taken_le o.objects o.next_id (length o.objects + 2) (omega (arith, h)),
        blocked_none o.objects o.next_id,
      ))
  | inr (id, e) ↦
      let (a, b, c) = found_free (length o.objects + 2) o.objects o.next_id id e in
      (id, record { objects = (id, p) ∷ o.objects; next_id = id }, rw e refl, a, b, c, ground arith)
]
