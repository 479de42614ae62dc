-- ===== src/Input/Keyboard/Sync/Keys.antt =====
-- The messages for one key in input/wl_keyboard.go keep the mask and the held keys in step.
use perfuncted.Prelude.{
  ℕ, ◌≡◌, refl, ap, ◌∙◌, true, Option, some, List, [], ◌∷◌, is_some, Bool-cases, Option-cases, inl,
  inr, if◌then◌else◌, arith,
}
use perfuncted.Prelude.Text.{Text}
use perfuncted.Input.Mask
use perfuncted.Input.Keysend.{Modifiers}
use perfuncted.Input.Keyboard.{
  Xkb, Kbd, done, Act, ◌>>◌, on_error, fail_after, pause, send_key, send_modifiers,
  cleanup_send_key, cleanup_modifier_key, upload_keymap_and_restore_mods,
}
use perfuncted.Input.Keyboard.Plan.{Sim, has_key, delete_key}
use perfuncted.Input.Keyboard.Layout.{names, held_slot}
use perfuncted.Input.Keyboard.Send.{
  delete_held, release_slot, mod_press, mod_release, release_held, press_and_hold, tap_named,
  type_text, rune_slot,
}
use perfuncted.Input.Keyboard.Sync.{
  Ensures, bind-Ensures, on_error-Ensures, fail_after-fails, Agrees, Cleared, pause-Agrees,
  send_key-Agrees, send_modifiers-Agrees, tap-Agrees, upload_keymap-Cleared,
}

abbrev pub Keeps : Sim → Act (Unit {0}) → Sim → Type 0
Keeps s m t = Ensures (Agrees s) m (λ _. Agrees t)

pub then-Keeps :
    (s t u : Sim) (m n : Act (Unit {0})) → Keeps s m t → Keeps t n u → Keeps s (m >> n) u
then-Keeps s t u m n h g =
    bind-Ensures (Agrees s) (λ _. Agrees t) (λ _. Agrees u) m (λ _. n) h (λ _. g)

pub guarded-Keeps :
    (s t : Sim) (m c : Act (Unit {0})) → Keeps s m t → Keeps s (on_error m (λ e. fail_after e c)) t
guarded-Keeps s t m c h =
    on_error-Ensures (Agrees s) (λ _. Agrees t) m (λ e. fail_after e c) h
      (λ e. fail_after-fails e c)

abbrev pub with_mods : Sim → Modifiers → Sim
with_mods s m = record s { mods = m }

abbrev pub without : Sim → Text → Sim
without s key = record s { held = delete_key key s.held }

abbrev pub with_key : Sim → Text → Sim
with_key s key = record s { held = key ∷ delete_key key s.held }

pub names-delete_held :
    (key : Text) (held : List (Text × ℕ))
    → names (delete_held key held) ≡ delete_key key (names held)
unfolding delete_key
names-delete_held key [] = refl
names-delete_held key ((k, slot) ∷ held) = ground (arith, names-delete_held key held)

pub has_key-names :
    (key : Text) (held : List (Text × ℕ)) → has_key key (names held) ≡ is_some (held_slot key held)
unfolding has_key held_slot
has_key-names key [] = refl
has_key-names key ((k, slot) ∷ held) = ground (arith, has_key-names key held)

module _ (env : ℕ → Option ℕ) (s : Sim) where
  pub upload_keymap_and_restore_mods-Agrees :
      (x : Xkb) → Keeps s (upload_keymap_and_restore_mods env x) s
  unfolding upload_keymap_and_restore_mods
  upload_keymap_and_restore_mods-Agrees x =
      bind-Ensures (Agrees s) (λ _. Cleared s) (λ _. Agrees s) _ _ (upload_keymap-Cleared env s x)
        (λ _ k h. restore k h)
    where
      zero : (k : Kbd) → Cleared s k → Mask.is_zero k.mods ≡ true → Agrees s k
      zero k h e = ground arith

      restore :
          Ensures
            (Cleared s)
            (λ k. (if Mask.is_zero k.mods then (λ k. (done tt, k)) else send_modifiers env) k)
            (λ _. Agrees s)
      restore k h = elim (Bool-cases (Mask.is_zero k.mods)) [
        | inl e ↦ rw e (zero k h e)
        | inr e ↦ rw e (send_modifiers-Agrees env s k (h.1, h.2))
      ]

  pub mod_press-Agrees :
      (c : ℕ) (bit : Modifiers)
      → Keeps s (mod_press env c bit) (with_mods s (Mask.union s.mods bit))
  unfolding mod_press
  mod_press-Agrees c bit = then-Keeps s s t _ _ (send_key-Agrees env s c 1) (λ k h.
      on_error-Ensures (λ k. (k.mods ≡ t.mods) × (names k.held ≡ t.held)) (λ _. Agrees t) _ _
        (send_modifiers-Agrees env t)
        (λ e k _. fail_after-fails e (cleanup_modifier_key env c bit) _ tt) _
        (ap (λ m. Mask.union m bit) h.1, h.2))
    where
      t : Sim
      t = with_mods s (Mask.union s.mods bit)

  pub mod_release-Agrees :
      (c : ℕ) (bit : Modifiers)
      → Keeps s (mod_release env c bit) (with_mods s (Mask.minus s.mods bit))
  unfolding mod_release
  mod_release-Agrees c bit =
      then-Keeps s s t _ _
        (guarded-Keeps s s (send_key env c 0) (cleanup_modifier_key env c bit)
          (send_key-Agrees env s c 0))
        (λ k h.
          on_error-Ensures (λ k. (k.mods ≡ t.mods) × (names k.held ≡ t.held)) (λ _. Agrees t) _ _
            (send_modifiers-Agrees env t)
            (λ e k _. fail_after-fails e (cleanup_modifier_key env c bit) _ tt) _
            (ap (λ m. Mask.minus m bit) h.1, h.2))
    where
      t : Sim
      t = with_mods s (Mask.minus s.mods bit)

  pub release_held-Agrees : (key : Text) → Keeps s (release_held env key) (without s key)
  unfolding release_held
  release_held-Agrees key k h = elim (Option-cases (held_slot key k.held)) [
    | inl e ↦ rw e tt
    | inr (slot, e) ↦ rw e (release slot k h)
  ]
    where
      release : (slot : ℕ) → Keeps s (release_slot env key (some slot)) (without s key)
      release slot =
          then-Keeps s s (without s key) _ _ (send_key-Agrees env s slot 0)
            (λ k h. (h.0, h.1, names-delete_held key k.held ∙ ap (delete_key key) h.2))

  pub press_and_hold-Agrees :
      (key : Text) (slot : ℕ) → Keeps s (press_and_hold env key slot) (with_key s key)
  unfolding press_and_hold
  press_and_hold-Agrees key slot = then-Keeps s s _ _ _ (send_key-Agrees env s slot 1) (λ k h.
      (h.0, h.1, ap (λ l. key ∷ l) (names-delete_held key k.held ∙ ap (delete_key key) h.2)))

  pub tap_named-Agrees : (slot : ℕ) → Keeps s (tap_named env slot) s
  unfolding tap_named
  tap_named-Agrees slot = then-Keeps s s s _ _ (send_key-Agrees env s slot 1) (
      then-Keeps s s s _ _
        (guarded-Keeps s s (pause env) (cleanup_send_key env slot) (pause-Agrees env s))
        (guarded-Keeps s s (send_key env slot 0) (cleanup_send_key env slot)
          (send_key-Agrees env s slot 0)))

  pub type_text-Agrees : (slots : List (ℕ × ℕ)) (text : Text) → Keeps s (type_text env slots text) s
  unfolding type_text
  type_text-Agrees slots [] = λ k h. h
  type_text-Agrees slots (r ∷ text) =
      then-Keeps s s s _ _ (tap-Agrees env s (rune_slot r slots))
        (then-Keeps s s s _ _ (pause-Agrees env s) (type_text-Agrees slots text))
