-- ===== src/Input/Keyboard/Sync/Outcome.antt =====
-- `sendkeys` of input/wl_keyboard.go ends as `validateSendkeysSequence` predicts.
use perfuncted.Prelude.{
  ℕ, suc, ◌≡◌, ◌≢◌, refl, ap, ◌∙◌, sym, true, Option, some, List, [], ◌∷◌, All, is_empty, ◌==◌,
  Bool-cases, Option-cases, inl, inr, arith,
}
use perfuncted.Prelude.Text.{Text}
use perfuncted.Input.Keymap.{named_key, mod_bit}
use perfuncted.Input.Keysend.{Modifiers, KeySend}
use perfuncted.Input.Keyboard.{
  Kbd, KbdErr, Out, done, failed, follow, on_error, fail, ◌>>◌, clear_temp_mods,
  clear_temp_mods_best_effort,
}
use perfuncted.Input.Keyboard.Plan.{Sim, sim_bit, sim_action, sim_actions, then_sim}
use perfuncted.Input.Keyboard.Layout.{
  names, Layout, make_layout, checked_layout, sized_layout, check_actions, allocate_checked,
  layout_of, reserve, by_names, sort_names, held_runes, runes_of, add_named, keys_of, chosen_runes,
}
use perfuncted.Input.Keyboard.Send.{
  by_name, send_key_action, send_action, send_actions, sendkeys, with_layout,
}
use perfuncted.Input.Keyboard.Sync.{
  mods_seen, Post, Ensures, on_error-Ensures, bind-Ensures, Agrees, pause-Agrees,
}
use perfuncted.Input.Keyboard.Sync.Keys.{
  Keeps, then-Keeps, type_text-Agrees, upload_keymap_and_restore_mods-Agrees,
}
use perfuncted.Input.Keyboard.Sync.Temporary.{
  raised, Under, apply_temp_mods-Agrees, clear_temp_mods-Agrees,
}
use perfuncted.Input.Keyboard.Sync.Sequence.{
  IsPlain, added, key_check, Sends, send_named_key-Sends, send_literal_key-Sends,
  send_modifier_key-Sends,
}
use perfuncted.Input.Keyboard.Sync.Stages.{
  Out-cases, then-done, else-done, then-fails, sim_bit-named, sim_bit-unnamed, plain-modifiers,
  sim_action-key, sim_action-text,
}

module _ (env : ℕ → Option ℕ) (high : ℕ → ℕ) (l : Layout) where
  module _ (a : KeySend) (s s' : Sim) (p : IsPlain high a) where
    named-Sends :
        (c : ℕ) (symbol : Text)
        → named_key high a.key ≡ some (c, symbol)
        → key_check high a s ≡ done s'
        → Sends env high a s s' (by_name env high l a (some (c, symbol)))
    named-Sends c symbol e h = elim (Bool-cases (mod_bit high a.key == 0)) [
      | inl z ↦ rw z (send_named_key-Sends env high a s s' _ (ap (λ b. b == 0) q ∙ z) h)
      | inr z ↦
          rw (z, ← q)
            (send_modifier_key-Sends env high a s s' c (plain-modifiers high a p z)
              (ap (λ b. b == 0) q ∙ z) h)
    ]
      where
        q : sim_bit high a.key ≡ mod_bit high a.key
        q = sim_bit-named high a.key (c, symbol) e

    send_key_action-Sends :
        key_check high a s ≡ done s' → Sends env high a s s' (send_key_action env high l a)
    unfolding send_key_action
    send_key_action-Sends h = elim (Option-cases (named_key high a.key)) [
      | inl e ↦
          rw e
            (send_literal_key-Sends env high a s s' l.rune_slots (sim_bit-unnamed high a.key e) h)
      | inr ((c, symbol), e) ↦ rw e (named-Sends c symbol e h)
    ]

    key-Keeps :
        key_check high a s ≡ done s'
        → (t : Modifiers)
        → Ensures
            (λ k. (t ≡ added a s) × Agrees (raised a.modifiers s) k)
            (on_error
              (send_key_action env high l a >> clear_temp_mods env t)
              (λ e. clear_temp_mods_best_effort env t >> fail {A = Unit {0}} e))
            (λ _. Agrees s')
    key-Keeps h t k (e, g) = rw e (
        on_error-Ensures (Agrees (raised a.modifiers s)) (λ _. Agrees s') _ _
          (bind-Ensures (Agrees (raised a.modifiers s)) (λ _. Under (added a s) s') (λ _. Agrees s')
            _ _ (send_key_action-Sends h) (λ _. clear_temp_mods-Agrees env s' (added a s)))
          (λ e. then-fails (clear_temp_mods_best_effort env (added a s)) e) k g)

    send_action-Keeps : sim_action high a s ≡ done s' → Keeps s (send_action env high l a) s'
    unfolding send_action
    send_action-Keeps h = elim (Bool-cases (is_empty a.text)) [
      | inl e ↦ rw e (
          bind-Ensures (Agrees s) (λ t k. (t ≡ added a s) × Agrees (raised a.modifiers s) k)
            (λ _. Agrees s') _ _ (apply_temp_mods-Agrees env s a.modifiers)
            (key-Keeps (sim_action-key high a s s' e h)))
      | inr e ↦
          rw (e, ← sim_action-text high a s s' e h) (type_text-Agrees env s l.rune_slots a.text)
    ]

  done-injective : (s s' : Sim) (x : Out Sim) → x ≡ done s → x ≡ done s' → s ≡ s'
  done-injective s s' x g h = ground arith

  same : {s s' : Sim} → (k : Kbd) → s ≡ s' → Agrees s k → Agrees s' k
  same k e g = rw (← e) g

  rest-done :
      (a : KeySend) (actions : List KeySend) (s t s' : Sim)
      → sim_action high a s ≡ done t
      → then_sim (sim_action high a s) (sim_actions high actions) ≡ done s'
      → sim_actions high actions t ≡ done s'
  rest-done a actions s t s' e h = sym (rw e refl) ∙ h

  first-fails :
      (a : KeySend) (actions : List KeySend) (s s' : Sim) (x : KbdErr)
      → sim_action high a s ≡ failed x
      → then_sim (sim_action high a s) (sim_actions high actions) ≢ done s'
  first-fails a actions s s' x e h = ground arith

  send_actions-Keeps :
      (actions : List KeySend) (s s' : Sim)
      → All (IsPlain high) actions
      → sim_actions high actions s ≡ done s'
      → Keeps s (send_actions env high l actions) s'
  unfolding send_actions sim_actions
  send_actions-Keeps [] s s' p h = λ k g. same k (done-injective s s' _ refl h) g
  send_actions-Keeps (a ∷ actions) s s' (p, ps) h = elim (Out-cases (sim_action high a s)) [
    | inl (t, e) ↦ then-Keeps s s s' _ _ (pause-Agrees env s) (
        then-Keeps s t s' _ _ (send_action-Keeps a s t p e)
          (send_actions-Keeps actions t s' ps (rest-done a actions s t s' e h)))
    | inr (x, e) ↦ absurd (first-fails a actions s s' x e h)
  ]

abbrev pub start : Kbd → Sim
start k = record { mods = k.mods; held = names k.held }

module _ (env : ℕ → Option ℕ) (high : ℕ → ℕ) where
  abbrev pub Foreseen : List KeySend → Kbd → Kbd → Type 0
  Foreseen actions k k' =
      (mods_seen k'.sent ≡ k'.mods) × (sim_actions high actions (start k) ≡ done (start k'))

  checked_layout-sim_actions :
      (actions : List KeySend) (k : Kbd) (runes : List ℕ) (named : List Text) (l : Layout)
      → checked_layout high actions k.mods k.held runes named ≡ done l
      → (s : Sim) × (sim_actions high actions (start k) ≡ done s)
  unfolding checked_layout
  checked_layout-sim_actions actions k runes named l h =
      let (slots, _, g) =
        then-done (reserve (by_names (sort_names (names k.held)) k.held) [])
          (check_actions high actions k.mods k.held runes named) l h in
      let (s, e, _) =
        then-done (sim_actions high actions (start k)) (allocate_checked high k.held runes named) l
          g in
      (s, e)

  pub make_layout-sim_actions :
      (actions : List KeySend) (k : Kbd) (l : Layout)
      → make_layout high actions k.mods k.held ≡ done l
      → (s : Sim) × (sim_actions high actions (start k) ≡ done s)
  unfolding make_layout sized_layout
  make_layout-sim_actions actions k l h =
      let held_names = sort_names (names k.held) in
      let named = add_named high held_names (add_named high (keys_of actions) []) in
      let (runes, _, g) =
        then-done (held_runes high held_names (runes_of high actions []))
          (layout_of high actions k.mods k.held named) l h in
      checked_layout-sim_actions actions k (chosen_runes high runes named) named l
        (else-done _ _ _ l g)

  sent-Foreseen :
      (actions : List KeySend) (k : Kbd) (s : Sim) (r : Out (Unit {0})) (k' : Kbd)
      → sim_actions high actions (start k) ≡ done s
      → Post (λ _. Agrees s) r k'
      → Post (λ _. Foreseen actions k) r k'
  sent-Foreseen actions k s (done _) k' e g = (g.0 ∙ sym g.1, e ∙ ground arith)
  sent-Foreseen actions k s (failed x) k' e g = tt

  with_layout-Foreseen :
      (actions : List KeySend) (k : Kbd)
      → mods_seen k.sent ≡ k.mods
      → All (IsPlain high) actions
      → Post
          (λ _. Foreseen actions k)
          (with_layout env high actions k).0
          (with_layout env high actions k).1
  with_layout-Foreseen actions k m p = elim (Out-cases (make_layout high actions k.mods k.held)) [
    | inr (x, e) ↦ rw (e, Post) tt
    | inl (l, e) ↦
        let (s, d) = make_layout-sim_actions actions k l e in
        rw e (
          sent-Foreseen actions k s _ _ d (
            then-Keeps (start k) (start k) s _ _
              (upload_keymap_and_restore_mods-Agrees env (start k) l.keymap)
              (send_actions-Keeps env high l actions (start k) s p d) k (m, refl, refl)))
  ]

  -- Started where the compositor has the mask of the keyboard, a sequence whose modifiers carry no
  -- further modifiers either fails or ends with the compositor and the keyboard at one mask, and
  -- that mask and the held keys are those that the check of the sequence, which passed, works out.
  pub sendkeys-Foreseen :
      (actions : List KeySend) (k : Kbd)
      → mods_seen k.sent ≡ k.mods
      → All (IsPlain high) actions
      → Post
          (λ _. Foreseen actions k)
          (sendkeys env high actions k).0
          (sendkeys env high actions k).1
  unfolding sendkeys sim_actions
  sendkeys-Foreseen actions k m p = elim (Option-cases (env k.clock)) [
    | inr (x, e) ↦ rw (e, follow) tt
    | inl e ↦
        rw (e, follow)
          (elim (Bool-cases (is_empty actions)) [
            | inl z ↦ rw z (m, nothing actions z)
            | inr z ↦ rw z (with_layout-Foreseen actions (record k { clock = suc k.clock }) m p)
          ])
  ]
    where
      nothing :
          (l : List KeySend) → is_empty l ≡ true → sim_actions high l (start k) ≡ done (start k)
      nothing [] z = refl
      nothing (a ∷ l) z = ground arith
