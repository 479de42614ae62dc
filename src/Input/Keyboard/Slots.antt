-- ===== src/Input/Keyboard/Slots.antt =====
-- input/wl_keyboard.go: which slots the allocation of `sendkeys` gives.
use perfuncted.Prelude.{
  ℕ, zero, suc, ◌+◌, ◌≤◌, ◌<◌, ◌≡◌, refl, ◌⊎◌, true, false, Option, none, some, List, [], ◌∷◌, mem,
  leb, Bool-cases, Option-cases, inl, inr, arith,
}
use mathlib.Core.Path.{subst}
use perfuncted.Input.Keymap.{kc_dyn_base, kc_dyn_max}
use perfuncted.Input.Keyboard.{Out, done, failed}
use perfuncted.Input.Keyboard.Layout.{take_slot, slot_fuel, assign, prepend_slot}

abbrev pub Taken : List ℕ → ℕ → ℕ → Type 0
Taken reserved from to = (t : ℕ) → from ≤ t → t < to → mem t reserved ≡ true

-- The first free slot from `next` on, or none up to the last slot.
abbrev pub IsFirst : ℕ → List ℕ → Option (ℕ × ℕ) → Type 0
IsFirst next reserved none = Taken reserved next (suc kc_dyn_max)
IsFirst next reserved (some (slot, after)) =
    (after ≡ suc slot)
    × (next ≤ slot)
    × (slot ≤ kc_dyn_max)
    × (mem slot reserved ≡ false)
    × Taken reserved next slot

Taken-extend :
    (reserved : List ℕ) (next to : ℕ)
    → mem next reserved ≡ true
    → Taken reserved (suc next) to
    → Taken reserved next to
Taken-extend reserved next to m h t l u = elim (split next t l) [
  | inl e ↦ rw (← e) m
  | inr g ↦ h t g u
]
  where
    split : (a b : ℕ) → a ≤ b → (a ≡ b) ⊎ (suc a ≤ b)
    split a b l = ground arith

IsFirst-extend :
    (reserved : List ℕ) (next : ℕ) (r : Option (ℕ × ℕ))
    → mem next reserved ≡ true
    → IsFirst (suc next) reserved r
    → IsFirst next reserved r
IsFirst-extend reserved next none m h = Taken-extend reserved next (suc kc_dyn_max) m h
IsFirst-extend reserved next (some (slot, after)) m (e, l, u, f, h) =
    (e, omega arith, u, f, Taken-extend reserved next slot m h)

Taken-none : (reserved : List ℕ) (next to : ℕ) → to ≤ next → Taken reserved next to
Taken-none reserved next to h t l u = absurd (omega arith)

-- With fuel for the slots that are left, `takeSlot` gives the first slot that is not reserved, and
-- fails only where every slot that is left is reserved.
pub take_slot-IsFirst :
    (fuel next : ℕ) (reserved : List ℕ)
    → kc_dyn_max < fuel + next
    → IsFirst next reserved (take_slot fuel next reserved)
unfolding take_slot
take_slot-IsFirst zero next reserved h = Taken-none reserved next (suc kc_dyn_max) (omega arith)
take_slot-IsFirst (suc fuel) next reserved h = elim (Bool-cases (leb next kc_dyn_max)) [
  | inr e ↦ rw (e, IsFirst) (Taken-none reserved next (suc kc_dyn_max) (ground arith))
  | inl e ↦ elim (Bool-cases (mem next reserved)) [
    | inl m ↦
        rw (e, m, IsFirst)
          (IsFirst-extend reserved next _ m
            (take_slot-IsFirst fuel (suc next) reserved (omega arith)))
    | inr m ↦
        rw (e, m, IsFirst)
          (refl, omega arith, ground arith, m, Taken-none reserved next next (omega arith))
  ]
]

module _ {A : Type 0} (slot_of : A → Option ℕ) (reserved : List ℕ) where
  -- The pairs are of the items, in their order. An item that has a slot is with that slot; the
  -- others are with slots that are not reserved, in ascending order from `next`.
  abbrev pub Apart : ℕ → List A → List (A × ℕ) → Type 0
  Apart next [] [] = Unit
  Apart next [] (p ∷ l) = ⊥
  Apart next (item ∷ items) [] = ⊥
  Apart next (item ∷ items) ((a, slot) ∷ l) =
      (a ≡ item)
      × (((slot_of item ≡ some slot) × Apart next items l)
          ⊎ ((slot_of item ≡ none)
              × (next ≤ slot)
              × (slot ≤ kc_dyn_max)
              × (mem slot reserved ≡ false)
              × Apart (suc slot) items l))

  abbrev pub EachApart : ℕ → List A → Out (List (A × ℕ) × ℕ) → Type 0
  EachApart next items (done (l, after)) = Apart next items l
  EachApart next items (failed e) = Unit

  keep-EachApart :
      (a : A) (items : List A) (slot next : ℕ) (r : Out (List (A × ℕ) × ℕ))
      → slot_of a ≡ some slot
      → EachApart next items r
      → EachApart next (a ∷ items) (prepend_slot slot_of reserved a slot r)
  keep-EachApart a items slot next (done (l, after)) e h = (refl, inl (e, h))
  keep-EachApart a items slot next (failed x) e h = tt

  take-EachApart :
      (a : A) (items : List A) (slot next : ℕ) (r : Out (List (A × ℕ) × ℕ))
      → slot_of a ≡ none
      → next ≤ slot
      → slot ≤ kc_dyn_max
      → mem slot reserved ≡ false
      → EachApart (suc slot) items r
      → EachApart next (a ∷ items) (prepend_slot slot_of reserved a slot r)
  take-EachApart a items slot next (done (l, after)) e l1 l2 m h = (refl, inr (e, l1, l2, m, h))
  take-EachApart a items slot next (failed x) e l1 l2 m h = tt

  -- Where the allocation succeeds, from a slot on that is not before the first dynamic one, it
  -- gives the items in their order, each with a slot: an item that has a slot is with that one,
  -- and the others are with slots of the keymap from that slot on, in ascending order, none of
  -- them reserved, so that no two of these share a slot.
  pub assign-EachApart :
      (items : List A) (next : ℕ)
      → kc_dyn_base ≤ next
      → EachApart next items (assign slot_of reserved items next)
  unfolding assign
  assign-EachApart [] next h = tt
  assign-EachApart (a ∷ items) next h = elim (Option-cases (slot_of a)) [
    | inr (slot, e) ↦
        rw (e, EachApart) (keep-EachApart a items slot next _ e (assign-EachApart items next h))
    | inl e ↦ elim (Option-cases (take_slot slot_fuel next reserved)) [
      | inl f ↦ rw (e, f, EachApart) tt
      | inr ((slot, after), f) ↦
          let (q, l, u, m, _) = first slot after f in
          rw (e, f, q, EachApart)
            (take-EachApart a items slot next (assign slot_of reserved items (suc slot)) e l u m
              (assign-EachApart items (suc slot) (omega arith)))
    ]
  ]
    where
      first :
          (slot after : ℕ)
          → take_slot slot_fuel next reserved ≡ some (slot, after)
          → IsFirst next reserved (some (slot, after))
      first slot after f =
          subst (λ x. IsFirst next reserved x) f
            (take_slot-IsFirst slot_fuel next reserved (omega arith))
