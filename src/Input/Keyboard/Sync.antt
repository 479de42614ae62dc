-- ===== src/Input/Keyboard/Sync.antt =====
-- The messages of input/wl_keyboard.go keep the modifier mask and the held keys in step with the
-- compositor, as long as they succeed.
pub mod Keys
pub mod Temporary
pub mod Sequence
mod Stages
pub mod Outcome
mod Bits
mod Pressed
pub mod Refused
pub mod Calls
use perfuncted.Prelude.{
  ℕ, suc, ◌≡◌, refl, ◌⊎◌, Bool, true, false, not, ◌&&◌, ◌||◌, Option, none, some, List, [], ◌∷◌,
  Bool-cases, Option-cases, inl, inr, if◌then◌else◌, arith,
}
use perfuncted.Prelude.Text.{Text}
use perfuncted.Input.Mask
use perfuncted.Input.Keysend.{Modifiers, no_modifiers}
use perfuncted.Input.Keyboard.{
  Xkb, Msg, keymap_msg, key_msg, mods_msg, KbdErr, Kbd, Out, done, failed, Act, ◌>>=◌, follow,
  settle, on_error, fail_after, join_with, pause, write, send_key, is_last, install, send_modifiers,
  cleanup_send_key, tap, upload_keymap, upload_keymap_and_restore_mods, apply_temp_mods,
  clear_temp_mods,
}
use perfuncted.Input.Keyboard.Plan.{Sim}
use perfuncted.Input.Keyboard.Layout.{names}

-- The mask that the compositor has: a new keymap clears it.
abbrev pub mods_seen : List Msg → Modifiers
mods_seen [] = no_modifiers
mods_seen (keymap_msg _ ∷ sent) = no_modifiers
mods_seen (mods_msg m ∷ sent) = m
mods_seen (key_msg _ _ ∷ sent) = mods_seen sent

abbrev pub Post : {A : Type 0} → (A → Kbd → Type 0) → Out A → Kbd → Type 0
Post Q (done a) k = Q a k
Post Q (failed e) k = Unit

-- Where `P` holds before and the action succeeds, `Q` holds of its result and of the state after.
abbrev pub Ensures : {A : Type 0} → (Kbd → Type 0) → Act A → (A → Kbd → Type 0) → Type 0
Ensures P m Q = (k : Kbd) → P k → Post Q (m k).0 (m k).1

module _ {A B : Type 0} (P : Kbd → Type 0) (Q : A → Kbd → Type 0) (R : B → Kbd → Type 0) where
  follow-Ensures :
      (r : Out A) (f : A → Act B) (k : Kbd)
      → Post Q r k
      → ((a : A) → Ensures (Q a) (f a) R)
      → Post R (follow r f k).0 (follow r f k).1
  follow-Ensures (done a) f k q h = h a k q
  follow-Ensures (failed e) f k q h = tt

  pub bind-Ensures :
      (m : Act A) (f : A → Act B)
      → Ensures P m Q
      → ((a : A) → Ensures (Q a) (f a) R)
      → Ensures P (m >>= f) R
  bind-Ensures m f h g k p = follow-Ensures (m k).0 f (m k).1 (h k p) g

module _ {A : Type 0} (P : Kbd → Type 0) (Q : A → Kbd → Type 0) where
  -- An error handler that never succeeds changes nothing.
  pub on_error-Ensures :
      (m : Act A) (f : KbdErr → Act A)
      → Ensures P m Q
      → ((e : KbdErr) → Ensures (λ _. Unit {0}) (f e) (λ _ _. ⊥))
      → Ensures P (on_error m f) Q
  on_error-Ensures m f h g k p = go (m k).0 (m k).1 (h k p)
    where
      weaken : (r : Out A) (k : Kbd) → Post (λ _ _. ⊥) r k → Post Q r k
      weaken (done a) k h = absurd h
      weaken (failed e) k h = tt

      go : (r : Out A) (k : Kbd) → Post Q r k → Post Q (settle r f k).0 (settle r f k).1
      go (done a) k q = q
      go (failed e) k q = weaken (f e k).0 (f e k).1 (g e k tt)

pub fail_after-fails :
    (e : KbdErr) (m : Act (Unit {0}))
    → Ensures (λ _. Unit {0}) (fail_after {A = Unit {0}} e m) (λ _ _. ⊥)
fail_after-fails e m k p = go (m k).0 (m k).1
  where
    go : (r : Out (Unit {0})) (k : Kbd) → Post (λ (_ : Unit {0}) _. ⊥) (join_with e r) k
    go (done _) k = tt
    go (failed f) k = tt

-- In step with the compositor, with the mask and the held keys of `s`.
abbrev pub Agrees : Sim → Kbd → Type 0
Agrees s k = (mods_seen k.sent ≡ s.mods) × (k.mods ≡ s.mods) × (names k.held ≡ s.held)

-- The same, except that a new keymap may have cleared the mask of the compositor.
abbrev pub Cleared : Sim → Kbd → Type 0
Cleared s k =
    ((mods_seen k.sent ≡ s.mods) ⊎ (mods_seen k.sent ≡ no_modifiers))
    × (k.mods ≡ s.mods)
    × (names k.held ≡ s.held)

module _ (env : ℕ → Option ℕ) (s : Sim) where
  pub pause-Agrees : Ensures (Agrees s) (pause env) (λ _. Agrees s)
  unfolding pause
  pause-Agrees k h = elim (Option-cases (env k.clock)) [
    | inl e ↦ rw (e, Post) h
    | inr (x, e) ↦ rw (e, Post) tt
  ]

  pub send_key-Agrees : (c state : ℕ) → Ensures (Agrees s) (send_key env c state) (λ _. Agrees s)
  unfolding send_key
  send_key-Agrees c state k h = ground arith

  pub send_modifiers-Agrees :
      Ensures
        (λ k. (k.mods ≡ s.mods) × (names k.held ≡ s.held))
        (send_modifiers env)
        (λ _. Agrees s)
  unfolding send_modifiers
  send_modifiers-Agrees k h = ground arith

  pub tap-Agrees : (c : ℕ) → Ensures (Agrees s) (tap env c) (λ _. Agrees s)
  unfolding tap
  tap-Agrees c =
      bind-Ensures (Agrees s) (λ _. Agrees s) (λ _. Agrees s) (pause env) _ pause-Agrees
        λ _.
          bind-Ensures (Agrees s) (λ _. Agrees s) (λ _. Agrees s) (send_key env c 1) _
            (send_key-Agrees c 1)
            λ _.
              bind-Ensures (Agrees s) (λ _. Agrees s) (λ _. Agrees s) _ _ wait
                λ _.
                  bind-Ensures (Agrees s) (λ _. Agrees s) (λ _. Agrees s) _ _ wait
                    λ _.
                      on_error-Ensures (Agrees s) (λ _. Agrees s) _ _ (send_key-Agrees c 0)
                        (λ e. fail_after-fails e (cleanup_send_key env c))
    where
      wait :
          Ensures
            (Agrees s)
            (on_error (pause env) (λ e. fail_after e (cleanup_send_key env c)))
            (λ _. Agrees s)
      wait =
          on_error-Ensures (Agrees s) (λ _. Agrees s) _ _ pause-Agrees
            (λ e. fail_after-fails e (cleanup_send_key env c))

  install-Cleared : (x : Xkb) → Ensures (Agrees s) (install env x) (λ _. Cleared s)
  unfolding install
  install-Cleared x k h = ground arith

  pub upload_keymap-Cleared : (x : Xkb) → Ensures (Agrees s) (upload_keymap env x) (λ _. Cleared s)
  unfolding upload_keymap
  upload_keymap-Cleared x k h = elim (Bool-cases (is_last k.last_keymap x)) [
    | inl e ↦ rw (e, Post) (inl h.0, h.1, h.2)
    | inr e ↦ rw e (install-Cleared x k h)
  ]
