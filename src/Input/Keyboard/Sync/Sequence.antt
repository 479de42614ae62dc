-- ===== src/Input/Keyboard/Sync/Sequence.antt =====
-- A sequence of actions in input/wl_keyboard.go ends as the check of the held keys predicts.
use perfuncted.Prelude.{
  ℕ, ◌≡◌, refl, ap, ◌∙◌, sym, ◌⊎◌, Bool, true, false, Option, List, [], ◌∷◌, ◌==◌, Bool-cases, inl,
  inr, if◌then◌else◌,
}
use perfuncted.Prelude.Text.{Text}
use perfuncted.Input.Mask
use perfuncted.Input.Keymap.{mod_bit}
use perfuncted.Input.Keysend.{Modifiers, no_modifiers, KeySend}
use perfuncted.Input.Keyboard.{Kbd, Out, done, failed, Act, ◌>>◌}
use perfuncted.Input.Keyboard.Plan.{Sim, sim_bit, sim_up, sim_down, sim_tap}
use perfuncted.Input.Keyboard.Send.{
  mod_press, mod_release, checked_release, send_modifier_key, send_named_key, send_literal_key,
  hold_character, release_held, press_and_hold, tap_named, type_text, rune_slot,
}
use perfuncted.Input.Keyboard.Sync.{Post, Ensures, Agrees}
use perfuncted.Input.Keyboard.Sync.Keys.{
  Keeps, with_mods, without, with_key, then-Keeps, mod_press-Agrees, mod_release-Agrees,
  release_held-Agrees, press_and_hold-Agrees, tap_named-Agrees, type_text-Agrees,
}
use perfuncted.Input.Keyboard.Sync.Temporary.{
  raised, Under, lift, lift-press, lift-release, lift-tap, sim_up-plain, sim_up-bit, sim_down-plain,
  sim_down-bit, sim_tap-bit, sim_tap-same,
}

-- A key with modifiers of its own is not one of the four modifiers.
abbrev pub IsPlain : (ℕ → ℕ) → KeySend → Type 0
IsPlain high a = (a.modifiers ≡ no_modifiers) ⊎ (mod_bit high a.key ≡ 0)

abbrev pub added : KeySend → Sim → Modifiers
added a s = Mask.minus a.modifiers s.mods

module _ (a : KeySend) (s s' u : Sim) where
  -- A state that agrees with `u` is `s'` once the temporary modifiers are gone.
  under :
      (k : Kbd)
      → Agrees u k
      → Mask.minus u.mods (added a s) ≡ s'.mods
      → u.held ≡ s'.held
      → Under (added a s) s' k
  under k h m l = (h.0 ∙ sym h.1, ap (λ x. Mask.minus x (added a s)) h.1 ∙ m, h.2 ∙ l)

  Under-Ensures :
      (f : Act (Unit {0}))
      → Keeps (raised a.modifiers s) f u
      → Mask.minus u.mods (added a s) ≡ s'.mods
      → u.held ≡ s'.held
      → Ensures (Agrees (raised a.modifiers s)) f (λ _. Under (added a s) s')
  Under-Ensures f h m l k g = go (f k).0 (f k).1 (h k g)
    where
      go :
          (r : Out (Unit {0})) (k : Kbd)
          → Post (λ _. Agrees u) r k
          → Post (λ _. Under (added a s) s') r k
      go (done _) k p = under k p m l
      go (failed e) k p = tt

abbrev pub key_check : (ℕ → ℕ) → KeySend → Sim → Out Sim
key_check high a s =
    if a.up
    then sim_up high a.key s
    else if a.down
    then sim_down high a.key s
    else sim_tap high a.key s

module _ (env : ℕ → Option ℕ) (high : ℕ → ℕ) (a : KeySend) (s s' : Sim) where
  abbrev pub Sends : Act (Unit {0}) → Type 0
  Sends f = Ensures (Agrees (raised a.modifiers s)) f (λ _. Under (added a s) s')

  release-Sends :
      (sim_bit high a.key == 0) ≡ true
      → sim_up high a.key s ≡ done s'
      → Sends (release_held env a.key)
  release-Sends e h =
      let (p, q) = sim_up-plain high a.key s s' e h in
      Under-Ensures a s s' (without (raised a.modifiers s) a.key) _
        (release_held-Agrees env (raised a.modifiers s) a.key) (lift s.mods a.modifiers ∙ p) q

  hold-Sends :
      (slot : ℕ)
      → (sim_bit high a.key == 0) ≡ true
      → sim_down high a.key s ≡ done s'
      → Sends (press_and_hold env a.key slot)
  hold-Sends slot e h =
      let (p, q) = sim_down-plain high a.key s s' e h in
      Under-Ensures a s s' (with_key (raised a.modifiers s) a.key) _
        (press_and_hold-Agrees env (raised a.modifiers s) a.key slot) (lift s.mods a.modifiers ∙ p)
        q

  tap-Sends :
      (f : Act (Unit {0}))
      → Keeps (raised a.modifiers s) f (raised a.modifiers s)
      → sim_tap high a.key s ≡ done s'
      → Sends f
  tap-Sends f k h =
      let e = sim_tap-same high a.key s s' h in
      Under-Ensures a s s' (raised a.modifiers s) f k
        (lift s.mods a.modifiers ∙ ap (λ (x : Sim). x.mods) e) (ap (λ (x : Sim). x.held) e)

  choose-Sends :
      (up down : Bool) (x y z : Out Sim) (f g h : Act (Unit {0}))
      → (x ≡ done s' → Sends f)
      → (y ≡ done s' → Sends g)
      → (z ≡ done s' → Sends h)
      → (if up then x else if down then y else z) ≡ done s'
      → Sends (if up then f else if down then g else h)
  choose-Sends true down x y z f g h i j k e = i e
  choose-Sends false true x y z f g h i j k e = j e
  choose-Sends false false x y z f g h i j k e = k e

  pub send_named_key-Sends :
      (slot : ℕ)
      → (sim_bit high a.key == 0) ≡ true
      → key_check high a s ≡ done s'
      → Sends (send_named_key env a slot)
  unfolding send_named_key
  send_named_key-Sends slot e =
      choose-Sends a.up a.down _ _ _ _ _ _ (release-Sends e) (hold-Sends slot e)
        (tap-Sends (tap_named env slot) (tap_named-Agrees env (raised a.modifiers s) slot))

  hold_character-Sends :
      (slots : List (ℕ × ℕ)) (key : Text)
      → a.key ≡ key
      → (sim_bit high a.key == 0) ≡ true
      → sim_down high a.key s ≡ done s'
      → Sends (hold_character env slots key)
  hold_character-Sends slots [] q e h = λ k g. tt
  hold_character-Sends slots (r ∷ []) q e h = rw (← q) (hold-Sends (rune_slot r slots) e h)
  hold_character-Sends slots (r ∷ c ∷ key) q e h = λ k g. tt

  pub send_literal_key-Sends :
      (slots : List (ℕ × ℕ))
      → (sim_bit high a.key == 0) ≡ true
      → key_check high a s ≡ done s'
      → Sends (send_literal_key env a slots)
  unfolding send_literal_key
  send_literal_key-Sends slots e =
      choose-Sends a.up a.down _ _ _ _ _ _ (release-Sends e)
        (hold_character-Sends slots a.key refl e)
        (tap-Sends (type_text env slots a.key)
          (type_text-Agrees env (raised a.modifiers s) slots a.key))

  abbrev bit_of : Modifiers
  bit_of = Mask.of_bit (sim_bit high a.key)

  mod_up-Sends :
      (c : ℕ)
      → a.modifiers ≡ no_modifiers
      → (sim_bit high a.key == 0) ≡ false
      → sim_up high a.key s ≡ done s'
      → Sends (mod_release env c bit_of)
  mod_up-Sends c n e h =
      let (p, q) = sim_up-bit high a.key s s' e h in
      Under-Ensures a s s' (with_mods s (Mask.minus (Mask.union s.mods (added a s)) bit_of)) _
        (mod_release-Agrees env (raised a.modifiers s) c bit_of)
        (ap
            (λ x.
              Mask.minus (Mask.minus (Mask.union s.mods (Mask.minus x s.mods)) bit_of)
                (Mask.minus x s.mods))
            n
          ∙ lift-release s.mods bit_of
          ∙ p)
        q

  mod_down-Sends :
      (c : ℕ)
      → a.modifiers ≡ no_modifiers
      → (sim_bit high a.key == 0) ≡ false
      → sim_down high a.key s ≡ done s'
      → Sends (mod_press env c bit_of)
  mod_down-Sends c n e h =
      let (p, q) = sim_down-bit high a.key s s' e h in
      Under-Ensures a s s' (with_mods s (Mask.union (Mask.union s.mods (added a s)) bit_of)) _
        (mod_press-Agrees env (raised a.modifiers s) c bit_of)
        (ap
            (λ x.
              Mask.minus (Mask.union (Mask.union s.mods (Mask.minus x s.mods)) bit_of)
                (Mask.minus x s.mods))
            n
          ∙ lift-press s.mods bit_of
          ∙ p)
        q

  mod_tap-Sends :
      (c : ℕ)
      → (sim_bit high a.key == 0) ≡ false
      → sim_tap high a.key s ≡ done s'
      → Sends (mod_press env c bit_of >> mod_release env c bit_of)
  mod_tap-Sends c e h =
      let (p, q) = sim_tap-bit high a.key s s' e h in
      Under-Ensures a s s'
        (with_mods s (Mask.minus (Mask.union (Mask.union s.mods (added a s)) bit_of) bit_of)) _
        (then-Keeps _ _ _ _ _ (mod_press-Agrees env (raised a.modifiers s) c bit_of)
          (mod_release-Agrees env _ c bit_of))
        (lift-tap s.mods a.modifiers bit_of p ∙ ap (λ (x : Sim). x.mods) q)
        (ap (λ (x : Sim). x.held) q)

  checked_release-Sends :
      (c : ℕ) → Sends (mod_release env c bit_of) → Sends (checked_release env a c bit_of)
  checked_release-Sends c h k g = elim (Bool-cases (Mask.meets k.mods bit_of)) [
    | inl e ↦ rw e (h k g)
    | inr e ↦ rw e tt
  ]

  pub send_modifier_key-Sends :
      (c : ℕ)
      → a.modifiers ≡ no_modifiers
      → (sim_bit high a.key == 0) ≡ false
      → key_check high a s ≡ done s'
      → Sends (send_modifier_key env a c bit_of)
  unfolding send_modifier_key
  send_modifier_key-Sends c n e =
      choose-Sends a.up a.down _ _ _ _ _ _ (λ h. checked_release-Sends c (mod_up-Sends c n e h))
        (mod_down-Sends c n e) (mod_tap-Sends c e)
