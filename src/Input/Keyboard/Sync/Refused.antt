-- ===== src/Input/Keyboard/Sync/Refused.antt =====
-- A sequence that `validateSendkeysSequence` of input/wl_keyboard.go refuses reaches no compositor.
use perfuncted.Prelude.{
  Bool, ◌==◌, ◌++◌, if◌then◌else◌, ℕ, suc, ◌≡◌, ◌≢◌, refl, true, Option, List, [], ◌∷◌, is_empty,
  Bool-cases, Option-cases, inl, inr, arith,
}
use perfuncted.Input.Keysend.{KeySend}
use perfuncted.Input.Keyboard.{Kbd, KbdErr, Out, done, failed, io, follow}
use perfuncted.Input.Mask
use perfuncted.Input.Keyboard.Sync.Pressed.{misuses, down_then, sim_actions-misuses}
use perfuncted.Input.Keyboard.Plan.{has_key, sim_bit, Sim, sim_actions}
use perfuncted.Prelude.Text.{Text}
use perfuncted.Input.Keyboard.Layout.{names, make_layout}
use perfuncted.Input.Keyboard.Send.{sendkeys, with_layout}
use perfuncted.Input.Keyboard.Sync.Stages.{Out-cases}
use perfuncted.Input.Keyboard.Sync.Outcome.{start, make_layout-sim_actions}

-- The keyboard after a call that fails at once: only the context was asked.
abbrev pub asked : Kbd → Kbd
asked k = record k { clock = suc k.clock }

module _ (env : ℕ → Option ℕ) (high : ℕ → ℕ) where
  done-failed : (x : Out Sim) (s : Sim) (e : KbdErr) → x ≡ done s → x ≢ failed e
  done-failed x s e p q = ground arith

  with_layout-refused :
      (actions : List KeySend) (k : Kbd) (e : KbdErr)
      → sim_actions high actions (start k) ≡ failed e
      → (x : KbdErr) × (with_layout env high actions k ≡ (failed x, k))
  with_layout-refused actions k e h = elim (Out-cases (make_layout high actions k.mods k.held)) [
    | inr (x, f) ↦ (x, rw f refl)
    | inl (l, f) ↦
        let (s, d) = make_layout-sim_actions env high actions k l f in
        absurd (done-failed (sim_actions high actions (start k)) s e d h)
  ]

  sim_refused :
      (actions : List KeySend) (k : Kbd) (e : KbdErr)
      → sim_actions high actions (start k) ≡ failed e
      → (x : KbdErr) × (sendkeys env high actions k ≡ (failed x, asked k))
  unfolding sendkeys sim_actions
  sim_refused actions k e h = elim (Option-cases (env k.clock)) [
    | inr (x, f) ↦ (io x, rw (f, follow) refl)
    | inl f ↦ elim (Bool-cases (is_empty actions)) [
      | inl z ↦ absurd (nothing actions z h)
      | inr z ↦ let (x, p) = with_layout-refused actions (asked k) e h in (x, rw (f, follow, z) p)
    ]
  ]
    where
      nothing : (l : List KeySend) → is_empty l ≡ true → sim_actions high l (start k) ≢ failed e
      nothing [] z q = ground arith
      nothing (a ∷ l) z q = ground arith

-- A key is down: a modifier in the mask, another key among the held ones.
abbrev pub is_down : (ℕ → ℕ) → Text → Kbd → Bool
is_down high key k =
    if sim_bit high key == 0
    then has_key key (names k.held)
    else Mask.meets k.mods (Mask.of_bit (sim_bit high key))

-- A sequence with a step for a key that taps or presses one that is down, or releases one that is
-- not, as the keyboard and the presses and releases before that step have it, fails as a whole:
-- no message is sent, and neither the mask nor the held keys nor the keymap change.
pub sendkeys-refused :
    (env : ℕ → Option ℕ) (high : ℕ → ℕ) (before : List KeySend) (a : KeySend) (later : List KeySend)
    (k : Kbd)
    → misuses high a (down_then high a.key before (is_down high a.key k)) ≡ true
    → (x : KbdErr) × (sendkeys env high (before ++ a ∷ later) k ≡ (failed x, asked k))
sendkeys-refused env high before a later k m =
    let (e, f) = sim_actions-misuses high before a later (start k) m in
    sim_refused env high (before ++ a ∷ later) k e f
