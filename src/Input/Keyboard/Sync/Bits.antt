-- ===== src/Input/Keyboard/Sync/Bits.antt =====
-- input/wl_keyboard.go: the sets of held keys and the bits of the mask, as the check changes them.
use perfuncted.Prelude.{
  ℕ, ◌≡◌, ◌≢◌, refl, sym, subst, Bool, true, false, not, ◌&&◌, ◌||◌, List, [], ◌∷◌, is_some, ◌==◌,
  if◌then◌else◌, arith, Bool-cases, inl, inr, none, some,
}
use perfuncted.Prelude.Text.{Text, text_eq, text_eq-eq}
use perfuncted.Input.Keymap.{
  Key, shift, ctrl, alt, super, is_modifier, key_bit, from_string, named_key, mod_bit,
}
use perfuncted.Input.Mask
use perfuncted.Input.Keysend.{Modifiers}
use perfuncted.Input.Keyboard.Plan.{has_key, delete_key, sim_bit}

pub has_key-delete_key :
    (key other : Text) (l : List Text)
    → has_key key (delete_key other l) ≡ (not (text_eq other key) && has_key key l)
unfolding has_key delete_key
has_key-delete_key key other [] = ground arith
has_key-delete_key key other (k ∷ l) = elim (Bool-cases (text_eq k other)) [
  | inl e ↦
      rw (e, has_key-delete_key key other l, text_eq-eq k other e)
        (absorb (text_eq other key) (has_key key l))
  | inr e ↦
      rw (e, has_key-delete_key key other l)
        (spread (text_eq other key) (text_eq k key) (has_key key l) (λ t u.
          ground (arith, e, subst (λ x. text_eq k x ≡ true) (sym (text_eq-eq other key t)) u)))
]
  where
    absorb : (a c : Bool) → (not a && c) ≡ (not a && (a || c))
    absorb true c = refl
    absorb false c = refl

    spread : (a b c : Bool) → (a ≡ true → b ≢ true) → (b || (not a && c)) ≡ (not a && (b || c))
    spread true true c h = absurd (h refl refl)
    spread true false c h = refl
    spread false b c h = refl

-- The bits that the modifier keys have.
abbrev pub is_bit : ℕ → Bool
is_bit n = (n == 1) || ((n == 4) || ((n == 8) || (n == 64)))

key_bit-is_bit : (k : Key) → (key_bit k == 0) ≡ false → is_bit (key_bit k) ≡ true
key_bit-is_bit shift h = refl
key_bit-is_bit ctrl h = refl
key_bit-is_bit alt h = refl
key_bit-is_bit super h = refl
key_bit-is_bit _ h = absurd (ground (arith, h))

pub meets-minus :
    (m : Modifiers) (x y : ℕ)
    → Mask.meets (Mask.minus m (Mask.of_bit x)) (Mask.of_bit y)
      ≡ (not (x == y) && Mask.meets m (Mask.of_bit y))
meets-minus m x y = ground arith

pub meets-union :
    (m : Modifiers) (x y : ℕ)
    → is_bit y ≡ true
    → Mask.meets (Mask.union m (Mask.of_bit x)) (Mask.of_bit y)
      ≡ ((x == y) || Mask.meets m (Mask.of_bit y))
meets-union m x y h = ground (arith, h)

module _ (high : ℕ → ℕ) where
  mod_bit-is_bit : (key : Text) → (mod_bit high key == 0) ≡ false → is_bit (mod_bit high key) ≡ true
  unfolding mod_bit
  mod_bit-is_bit key =
      elim (from_string high key)
        as (λ o.
          ((elim o [ none ↦ 0 | some k ↦ if is_modifier k then key_bit k else 0 ]) == 0) ≡ false
          → is_bit (elim o [ none ↦ 0 | some k ↦ if is_modifier k then key_bit k else 0 ]) ≡ true) [
            | none ↦ λ h. absurd (ground (arith, h))
            | some k ↦ kept k (is_modifier k)
          ]
    where
      kept :
          (k : Key) (b : Bool)
          → ((if b then key_bit k else 0) == 0) ≡ false
          → is_bit (if b then key_bit k else 0) ≡ true
      kept k true h = key_bit-is_bit k h
      kept k false h = absurd (ground (arith, h))

  pub sim_bit-is_bit :
      (key : Text) → (sim_bit high key == 0) ≡ false → is_bit (sim_bit high key) ≡ true
  sim_bit-is_bit key = kept (is_some (named_key high key))
    where
      kept :
          (b : Bool)
          → ((if b then mod_bit high key else 0) == 0) ≡ false
          → is_bit (if b then mod_bit high key else 0) ≡ true
      kept true h = mod_bit-is_bit key h
      kept false h = absurd (ground (arith, h))
