-- ===== src/Input/Keyboard/Sync/Temporary.antt =====
-- The temporary modifiers of an action in input/wl_keyboard.go: what is left when they are cleared.
use perfuncted.Prelude.{
  ℕ, ◌≡◌, refl, Bool, true, false, not, ◌&&◌, ◌||◌, Option, ◌∷◌, ◌==◌, Bool-cases, inl, inr, arith,
}
use perfuncted.Prelude.Text.{Text}
use perfuncted.Input.Mask
use perfuncted.Input.Keysend.{Modifiers, no_modifiers}
use perfuncted.Input.Keyboard.{
  Kbd, done, send_modifiers, raise_mods, apply_temp_mods, clear_temp_mods,
}
use perfuncted.Input.Keyboard.Plan.{Sim, delete_key, sim_bit, sim_up, sim_down, sim_tap}
use perfuncted.Input.Keyboard.Layout.{names}
use perfuncted.Input.Keyboard.Sync.{mods_seen, Post, Ensures, Agrees, send_modifiers-Agrees}
use perfuncted.Input.Keyboard.Sync.Keys.{with_mods}

abbrev pub raised : Modifiers → Sim → Sim
raised a s = with_mods s (Mask.union s.mods (Mask.minus a s.mods))

-- In step, and in the state `s` once the mask `t` is cleared.
abbrev pub Under : Modifiers → Sim → Kbd → Type 0
Under t s k = (mods_seen k.sent ≡ k.mods) × (Mask.minus k.mods t ≡ s.mods) × (names k.held ≡ s.held)

bit-lift : (x y : Bool) → ((x || (y && not x)) && not (y && not x)) ≡ x
bit-lift true y = ground arith
bit-lift false y = ground arith

-- Temporary modifiers never clear one that was held.
pub lift : (m a : Modifiers) → Mask.minus (Mask.union m (Mask.minus a m)) (Mask.minus a m) ≡ m
lift m a = ground (
  arith,
  bit-lift m.ctrl a.ctrl,
  bit-lift m.alt a.alt,
  bit-lift m.shift a.shift,
  bit-lift m.super a.super,
)

bit-press : (x b : Bool) → (((x || (false && not x)) || b) && not (false && not x)) ≡ (x || b)
bit-press true b = ground arith
bit-press false b = ground arith

pub lift-press :
    (m b : Modifiers)
    → Mask.minus
        (Mask.union (Mask.union m (Mask.minus no_modifiers m)) b)
        (Mask.minus no_modifiers m)
      ≡ Mask.union m b
lift-press m b = ground (
  arith,
  bit-press m.ctrl b.ctrl,
  bit-press m.alt b.alt,
  bit-press m.shift b.shift,
  bit-press m.super b.super,
)

bit-release :
    (x b : Bool) → (((x || (false && not x)) && not b) && not (false && not x)) ≡ (x && not b)
bit-release true b = ground arith
bit-release false b = ground arith

pub lift-release :
    (m b : Modifiers)
    → Mask.minus
        (Mask.minus (Mask.union m (Mask.minus no_modifiers m)) b)
        (Mask.minus no_modifiers m)
      ≡ Mask.minus m b
lift-release m b = ground (
  arith,
  bit-release m.ctrl b.ctrl,
  bit-release m.alt b.alt,
  bit-release m.shift b.shift,
  bit-release m.super b.super,
)

bit-tap :
    (x y b : Bool)
    → (x && b) ≡ false
    → ((((x || (y && not x)) || b) && not b) && not (y && not x)) ≡ x
bit-tap true y true h = ground arith
bit-tap true true false h = refl
bit-tap true false false h = refl
bit-tap false true true h = refl
bit-tap false true false h = refl
bit-tap false false true h = refl
bit-tap false false false h = refl

meets-bits :
    (m b : Modifiers)
    → Mask.meets m b ≡ false
    → ((m.ctrl && b.ctrl) ≡ false)
      × ((m.alt && b.alt) ≡ false)
      × ((m.shift && b.shift) ≡ false)
      × ((m.super && b.super) ≡ false)
meets-bits m b h = ground arith

pub lift-tap :
    (m a b : Modifiers)
    → Mask.meets m b ≡ false
    → Mask.minus (Mask.minus (Mask.union (Mask.union m (Mask.minus a m)) b) b) (Mask.minus a m) ≡ m
lift-tap m a b h =
    let (c, d, e, f) = meets-bits m b h in
    ground (
      arith,
      bit-tap m.ctrl a.ctrl b.ctrl c,
      bit-tap m.alt a.alt b.alt d,
      bit-tap m.shift a.shift b.shift e,
      bit-tap m.super a.super b.super f,
    )

module _ (env : ℕ → Option ℕ) (s : Sim) where
  pub apply_temp_mods-Agrees :
      (mask : Modifiers)
      → Ensures
          (Agrees s)
          (apply_temp_mods env mask)
          (λ t k. (t ≡ Mask.minus mask s.mods) × Agrees (raised mask s) k)
  unfolding apply_temp_mods send_modifiers
  apply_temp_mods-Agrees mask k h = elim (Bool-cases (Mask.is_zero (Mask.minus mask k.mods))) [
    | inl e ↦ rw e (nothing k h e)
    | inr e ↦ rw e (added k h)
  ]
    where
      nothing :
          (k : Kbd)
          → Agrees s k
          → Mask.is_zero (Mask.minus mask k.mods) ≡ true
          → (no_modifiers ≡ Mask.minus mask s.mods) × Agrees (raised mask s) k
      nothing k h e = ground arith

      added :
          (k : Kbd)
          → Agrees s k
          → Post
              (λ t k. (t ≡ Mask.minus mask s.mods) × Agrees (raised mask s) k)
              (raise_mods env mask k).0
              (raise_mods env mask k).1
      added k h = ground arith

  pub clear_temp_mods-Agrees :
      (t : Modifiers) → Ensures (Under t s) (clear_temp_mods env t) (λ _. Agrees s)
  unfolding clear_temp_mods
  clear_temp_mods-Agrees t k h = elim (Bool-cases (Mask.is_zero t)) [
    | inl e ↦ rw (e, Post) (nothing k h e)
    | inr e ↦ rw e (send_modifiers-Agrees env s _ (h.1, h.2))
  ]
    where
      nothing : (k : Kbd) → Under t s k → Mask.is_zero t ≡ true → Agrees s k
      nothing k h e = ground arith

module _ (high : ℕ → ℕ) (key : Text) (s s' : Sim) where
  pub sim_up-plain :
      (sim_bit high key == 0) ≡ true
      → sim_up high key s ≡ done s'
      → (s.mods ≡ s'.mods) × (delete_key key s.held ≡ s'.held)
  unfolding sim_up
  sim_up-plain e h = ground arith

  pub sim_up-bit :
      (sim_bit high key == 0) ≡ false
      → sim_up high key s ≡ done s'
      → (Mask.minus s.mods (Mask.of_bit (sim_bit high key)) ≡ s'.mods) × (s.held ≡ s'.held)
  unfolding sim_up
  sim_up-bit e h = ground arith

  pub sim_down-plain :
      (sim_bit high key == 0) ≡ true
      → sim_down high key s ≡ done s'
      → (s.mods ≡ s'.mods) × (key ∷ delete_key key s.held ≡ s'.held)
  unfolding sim_down
  sim_down-plain e h = ground arith

  pub sim_down-bit :
      (sim_bit high key == 0) ≡ false
      → sim_down high key s ≡ done s'
      → (Mask.union s.mods (Mask.of_bit (sim_bit high key)) ≡ s'.mods) × (s.held ≡ s'.held)
  unfolding sim_down
  sim_down-bit e h = ground arith

  pub sim_tap-bit :
      (sim_bit high key == 0) ≡ false
      → sim_tap high key s ≡ done s'
      → (Mask.meets s.mods (Mask.of_bit (sim_bit high key)) ≡ false) × (s ≡ s')
  unfolding sim_tap
  sim_tap-bit e h = ground arith

  pub sim_tap-same : sim_tap high key s ≡ done s' → s ≡ s'
  unfolding sim_tap
  sim_tap-same h = ground arith
