-- ===== src/Input/Keyboard/Sync/Stages.antt =====
-- input/wl_keyboard.go: the stages of sendkeys, by their outcomes.
use perfuncted.Prelude.{
  ℕ, ◌≡◌, refl, ◌⊎◌, Bool, true, false, none, some, [], ◌∷◌, is_empty, ◌==◌, inl, inr,
  if◌then◌else◌, arith,
}
use perfuncted.Prelude.Text.{Text}
use perfuncted.Input.Keymap.{named_key, mod_bit}
use perfuncted.Input.Keysend.{no_modifiers, KeySend}
use perfuncted.Input.Keyboard.{Kbd, KbdErr, Out, done, failed, Act, follow, fail, ◌>>◌}
use perfuncted.Input.Keyboard.Plan.{Sim, sim_bit, sim_text, sim_action}
use perfuncted.Input.Keyboard.Layout.{◌then◌}
use perfuncted.Input.Keyboard.Sync.{Post, Ensures}
use perfuncted.Input.Keyboard.Sync.Sequence.{IsPlain, key_check}

pub Out-cases :
    {A : Type 0} → (x : Out A) → ((a : A) × (x ≡ done a)) ⊎ ((e : KbdErr) × (x ≡ failed e))
Out-cases (done a) = inl (a, refl)
Out-cases (failed e) = inr (e, refl)

pub then-done :
    {A B : Type 0}
    → (x : Out A) (f : A → Out B) (b : B) → (x then f) ≡ done b
    → (a : A) × (x ≡ done a) × (f a ≡ done b)
unfolding ◌then◌
then-done (done a) f b h = (a, refl, h)
then-done (failed e) f b h = ground arith

pub else-done :
    {A : Type 0}
    → (c : Bool) (e : KbdErr) (x : Out A) (a : A) → (if c then failed e else x) ≡ done a
    → x ≡ done a
else-done true e x a h = ground arith
else-done false e x a h = h

pub then-fails :
    (m : Act (Unit {0})) (e : KbdErr)
    → Ensures (λ _. Unit {0}) (m >> fail {A = Unit {0}} e) (λ _ _. ⊥)
then-fails m e k p = go (m k).0 (m k).1
  where
    go :
        (r : Out (Unit {0})) (k : Kbd)
        → Post
            (λ (_ : Unit {0}) _. ⊥)
            (follow r (λ _. fail {A = Unit {0}} e) k).0
            (follow r (λ _. fail {A = Unit {0}} e) k).1
    go (done _) k = tt
    go (failed f) k = tt

module _ (high : ℕ → ℕ) where
  pub sim_bit-named :
      (key : Text) (x : ℕ × Text)
      → named_key high key ≡ some x
      → sim_bit high key ≡ mod_bit high key
  sim_bit-named key x e = rw e refl

  pub sim_bit-unnamed : (key : Text) → named_key high key ≡ none → (sim_bit high key == 0) ≡ true
  sim_bit-unnamed key e = rw e refl

  pub plain-modifiers :
      (a : KeySend)
      → IsPlain high a
      → (mod_bit high a.key == 0) ≡ false
      → a.modifiers ≡ no_modifiers
  plain-modifiers a (inl e) z = e
  plain-modifiers a (inr e) z = ground arith

  pub sim_text-same : (text : Text) (s s' : Sim) → sim_text high text s ≡ done s' → s ≡ s'
  unfolding sim_text
  sim_text-same [] s s' h = ground arith
  sim_text-same (r ∷ text) s s' h = ground (arith, sim_text-same text s s')

  pub sim_action-key :
      (a : KeySend) (s s' : Sim)
      → is_empty a.text ≡ true
      → sim_action high a s ≡ done s'
      → key_check high a s ≡ done s'
  unfolding sim_action
  sim_action-key a s s' e h = ground arith

  pub sim_action-text :
      (a : KeySend) (s s' : Sim) → is_empty a.text ≡ false → sim_action high a s ≡ done s' → s ≡ s'
  unfolding sim_action
  sim_action-text a s s' e h = ground (arith, sim_text-same a.text s s')
