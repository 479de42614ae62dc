-- ===== src/Input/Keyboard/Sync/Calls.antt =====
-- `pressKey` and `releaseKey` of input/wl_keyboard.go keep the mask in step with the compositor.
use perfuncted.Prelude.{
  ℕ, ◌≡◌, refl, ◌∙◌, sym, Bool, true, false, not, ◌&&◌, Option, none, some, List, [], ◌∷◌, is_empty,
  is_some, leb, ◌==◌, Bool-cases, Option-cases, inl, inr, arith,
}
use perfuncted.Prelude.Text.{Text}
use perfuncted.Input.Mask
use perfuncted.Input.Keymap.{named_key, mod_bit, kc_super, kc_dyn_base}
use perfuncted.Input.Keysend.{Modifiers, no_modifiers, KeySend}
use perfuncted.Input.Keyboard.{
  Xkb, Kbd, Out, done, failed, Act, follow, send_key, send_modifiers, upload_keymap,
  upload_keymap_and_restore_mods, cleanup_send_key, ◌>>◌,
}
use perfuncted.Input.Keyboard.Layout.{held_slot, xkb_with_rune, xkb_with_named}
use perfuncted.Input.Keyboard.Send.{forget, sendkeys}
use perfuncted.Input.Keyboard.Calls.{
  press_key, press_alone, press_named, press_character, drop_key, release_named_key,
  release_character, release_alone, release_key, needs_map, up_action, down_action,
}
use perfuncted.Input.Keyboard.Sync.{
  mods_seen, Post, Ensures, bind-Ensures, on_error-Ensures, Cleared, send_key-Agrees,
  send_modifiers-Agrees, upload_keymap-Cleared, fail_after-fails,
}
use perfuncted.Input.Keyboard.Sync.Keys.{upload_keymap_and_restore_mods-Agrees}
use perfuncted.Input.Keyboard.Sync.Refused.{asked}
use perfuncted.Input.Keyboard.Sync.Outcome.{start, sendkeys-Foreseen}

-- The compositor has the mask of the keyboard.
abbrev pub Synced : Kbd → Type 0
Synced k = mods_seen k.sent ≡ k.mods

weaken-Post :
    {P Q : Kbd → Type 0}
    → ((k : Kbd) → P k → Q k)
    → (r : Out (Unit {0})) (k : Kbd) → Post (λ _. P) r k
    → Post (λ _. Q) r k
weaken-Post f (done _) k h = f k h
weaken-Post f (failed e) k h = tt

module _ (env : ℕ → Option ℕ) (high : ℕ → ℕ) where
  send-Synced : Ensures (λ _. Unit {0}) (send_modifiers env) (λ _. Synced)
  send-Synced k h =
      weaken-Post (λ k g. g.0 ∙ sym g.1) (send_modifiers env k).0 (send_modifiers env k).1
        (send_modifiers-Agrees env (start k) k (refl, refl))

  send_key-Synced : (c state : ℕ) → Ensures Synced (send_key env c state) (λ _. Synced)
  send_key-Synced c state k h =
      weaken-Post (λ k g. g.0 ∙ sym g.1) (send_key env c state k).0 (send_key env c state k).1
        (send_key-Agrees env (start k) c state k (h, refl, refl))

  restore-Synced : (x : Xkb) → Ensures Synced (upload_keymap_and_restore_mods env x) (λ _. Synced)
  restore-Synced x k h =
      weaken-Post (λ k g. g.0 ∙ sym g.1) (upload_keymap_and_restore_mods env x k).0
        (upload_keymap_and_restore_mods env x k).1
        (upload_keymap_and_restore_mods-Agrees env (start k) x k (h, refl, refl))

  drop_key-Synced : (key : Text) (c : ℕ) → Ensures Synced (drop_key env high key c) (λ _. Synced)
  drop_key-Synced key c =
      bind-Ensures Synced (λ _. Synced) (λ _. Synced) _ _ (send_key-Synced c 0)
        (λ _ k h. elim (Bool-cases (mod_bit high key == 0)) [
          | inl e ↦ rw e h
          | inr e ↦
              rw e
                (on_error-Ensures (λ _. Unit {0}) (λ _. Synced) _ _ send-Synced (λ e k _. tt) _ tt)
        ])

  forget-Synced :
      (key : Text) (c : ℕ) → Ensures Synced (send_key env c 0 >> forget key) (λ _. Synced)
  forget-Synced key c =
      bind-Ensures Synced (λ _. Synced) (λ _. Synced) _ _ (send_key-Synced c 0) (λ _ k h. h)

  -- A keymap may be installed without sending the mask again where the mask is empty.
  upload_keymap-Synced :
      (x : Xkb)
      → Ensures (λ k. Synced k × (Mask.is_zero k.mods ≡ true)) (upload_keymap env x) (λ _. Synced)
  upload_keymap-Synced x k (h, z) =
      weaken-Post (λ k' g. zero k' g) (upload_keymap env x k).0 (upload_keymap env x k).1
        (upload_keymap-Cleared env (start k) x k (h, refl, refl))
    where
      zero : (k' : Kbd) → Cleared (start k) k' → Synced k'
      zero k' g = ground arith

  upload_and-Synced :
      (x : Xkb) (f : Act (Unit {0}))
      → Ensures Synced f (λ _. Synced)
      → Ensures
          (λ k. Synced k × (Mask.is_zero k.mods ≡ true))
          (upload_keymap env x >> f)
          (λ _. Synced)
  upload_and-Synced x f h =
      bind-Ensures (λ k. Synced k × (Mask.is_zero k.mods ≡ true)) (λ _. Synced) (λ _. Synced) _ _
        (upload_keymap-Synced x) (λ _. h)

  release_named_key-Synced :
      (key : Text) (c : ℕ) (symbol : Text)
      → Ensures
          (λ k. Synced k × ((is_some (held_slot key k.held) ≡ true) → (Mask.is_zero k.mods ≡ true)))
          (release_named_key env high key c symbol)
          (λ _. Synced)
  unfolding release_named_key
  release_named_key-Synced key c symbol k (h, z) = elim (Bool-cases (leb c kc_super)) [
    | inl e ↦ rw e (drop_key-Synced key c k h)
    | inr e ↦ elim (Bool-cases (is_some (held_slot key k.held))) [
      | inr m ↦ rw (e, m) tt
      | inl m ↦ rw (e, m) (upload_and-Synced _ _ (drop_key-Synced key c) k (h, z m))
    ]
  ]

  abbrev Ready : Text → Kbd → Type 0
  Ready key k = Synced k × ((is_some (held_slot key k.held) ≡ true) → (Mask.is_zero k.mods ≡ true))

  release_character-Synced :
      (key : Text) → Ensures (Ready key) (release_character env high key) (λ _. Synced)
  release_character-Synced [] = λ k h. tt
  release_character-Synced (r ∷ []) = λ k h.
      elim (Bool-cases (is_some (held_slot (r ∷ []) k.held))) [
        | inr m ↦ rw m tt
        | inl m ↦ rw m (upload_and-Synced _ _ (forget-Synced (r ∷ []) kc_dyn_base) k (h.0, h.1 m))
      ]
  release_character-Synced (r ∷ q ∷ key) = λ k h. tt

  release_alone-Synced :
      (key : Text) (name : Option (ℕ × Text))
      → Ensures (Ready key) (release_alone env high key name) (λ _. Synced)
  release_alone-Synced key none = release_character-Synced key
  release_alone-Synced key (some (c, symbol)) = release_named_key-Synced key c symbol

  no_map :
      (slot : Option ℕ) (name : Option (ℕ × Text)) (held : List (Text × ℕ)) (mods : Modifiers)
      → needs_map env high slot name held mods ≡ false
      → is_some slot ≡ true
      → Mask.is_zero mods ≡ true
  no_map none name held mods n m = ground arith
  no_map (some slot) name held mods n m = ground arith

  single-Synced :
      (a : KeySend)
      → a.modifiers ≡ no_modifiers
      → Ensures Synced (sendkeys env high (a ∷ [])) (λ _. Synced)
  single-Synced a e k h =
      weaken-Post (λ k' g. g.0) (sendkeys env high (a ∷ []) k).0 (sendkeys env high (a ∷ []) k).1
        (sendkeys-Foreseen env high (a ∷ []) k h (inl e, tt))

  -- Where the compositor has the mask of the keyboard before a release, and the release succeeds, it
  -- has the mask of the keyboard after it: the keymap is installed without sending the mask again
  -- only where no modifier is held.
  pub release_key-Synced :
      (key : Text) (k : Kbd)
      → Synced k
      → Post (λ _. Synced) (release_key env high key k).0 (release_key env high key k).1
  unfolding release_key
  release_key-Synced key k h = elim (Option-cases (env k.clock)) [
    | inr (x, e) ↦ rw (e, follow) tt
    | inl e ↦ elim (Bool-cases (unheld k)) [
      | inl g ↦ rw (e, follow, g) tt
      | inr g ↦
          elim (Bool-cases
            (needs_map env high (held_slot key k.held) (named_key high key) k.held k.mods)) [
              | inl n ↦ rw (e, follow, g, n) (single-Synced (up_action key) refl (asked k) h)
              | inr n ↦
                  rw (e, follow, g, n)
                    (release_alone-Synced key (named_key high key) (asked k)
                      (h, no_map (held_slot key k.held) (named_key high key) k.held k.mods n))
            ]
    ]
  ]
    where
      unheld : Kbd → Bool
      unheld k =
          not (mod_bit high key == 0) && not (Mask.meets k.mods (Mask.of_bit (mod_bit high key)))

  press_named-Synced :
      (key : Text) (c : ℕ) (symbol : Text)
      → Ensures Synced (press_named env high key c symbol) (λ _. Synced)
  press_named-Synced key c symbol =
      bind-Ensures Synced (λ _. Synced) (λ _. Synced) _ _ (restore-Synced (xkb_with_named c symbol))
        (λ _.
          bind-Ensures Synced (λ _. Synced) (λ _. Synced) _ _ (send_key-Synced c 1)
            (λ _ k h. elim (Bool-cases (mod_bit high key == 0)) [
              | inl e ↦ rw e h
              | inr e ↦ rw e (
                  on_error-Ensures (λ _. Unit {0}) (λ _. Synced) _ _ send-Synced
                    (λ e k _. fail_after-fails e (cleanup_send_key env c) _ tt) _ tt)
            ]))

  press_character-Synced :
      (key : Text) → Ensures Synced (press_character env high key) (λ _. Synced)
  press_character-Synced [] = λ k h. tt
  press_character-Synced (r ∷ []) =
      bind-Ensures Synced (λ _. Synced) (λ _. Synced) _ _ (restore-Synced (xkb_with_rune r))
        (λ _.
          bind-Ensures Synced (λ _. Synced) (λ _. Synced) _ _ (send_key-Synced kc_dyn_base 1)
            (λ _ k h. h))
  press_character-Synced (r ∷ q ∷ key) = λ k h. tt

  press_alone-Synced :
      (key : Text) (name : Option (ℕ × Text))
      → Ensures Synced (press_alone env high key name) (λ _. Synced)
  press_alone-Synced key none = press_character-Synced key
  press_alone-Synced key (some (c, symbol)) = press_named-Synced key c symbol

  -- Where the compositor has the mask of the keyboard before a press, and the press succeeds, it has
  -- the mask of the keyboard after it.
  pub press_key-Synced :
      (key : Text) (k : Kbd)
      → Synced k
      → Post (λ _. Synced) (press_key env high key k).0 (press_key env high key k).1
  unfolding press_key
  press_key-Synced key k h = elim (Option-cases (env k.clock)) [
    | inr (x, e) ↦ rw (e, follow) tt
    | inl e ↦ elim (Bool-cases (is_empty k.held)) [
      | inl n ↦ rw (e, follow, n) (press_alone-Synced key (named_key high key) (asked k) h)
      | inr n ↦ rw (e, follow, n) (single-Synced (down_action key) refl (asked k) h)
    ]
  ]
