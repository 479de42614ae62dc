-- ===== src/Input/Keyboard/Sync/Pressed.antt =====
-- input/wl_keyboard.go: when a step of a sequence misuses a key, told from the steps before it, and
-- that `validateSendkeysSequence` refuses the sequence.
use perfuncted.Prelude.{
  ℕ, ◌≡◌, refl, sym, ap, subst, Bool, true, false, not, ◌&&◌, ◌||◌, List, [], ◌∷◌, ◌++◌, is_empty,
  is_some, length, ◌==◌, if◌then◌else◌, arith, Bool-cases, inl, inr,
}
use perfuncted.Prelude.Text.{Text, text_eq, text_eq-eq}
use perfuncted.Input.Keymap.{named_key}
use perfuncted.Input.Mask
use perfuncted.Input.Keysend.{KeySend}
use perfuncted.Input.Keyboard.Sync.Stages.{Out-cases}
use perfuncted.Input.Keyboard.{not_held, already_held, multi_character, KbdErr, Out, done, failed}
use perfuncted.Input.Keyboard.Plan.{
  has_key, delete_key, Sim, sim_bit, sim_text, sim_holds, sim_up, sim_down, sim_tap, sim_action,
  sim_actions,
}
use perfuncted.Input.Keyboard.Sync.Bits.{
  has_key-delete_key, meets-minus, meets-union, sim_bit-is_bit,
}

-- What a check that passes leaves.
abbrev Leaves : (Sim → Type 0) → Out Sim → Type 0
Leaves P (done s) = P s
Leaves P (failed e) = Unit

module _ (high : ℕ → ℕ) where
  -- Two names of one key: of the same modifier, or the same text.
  abbrev pub same_key : Text → Text → Bool
  same_key a b = if sim_bit high b == 0 then text_eq a b else sim_bit high a == sim_bit high b

  -- Whether a key is down after one step, and after some: a press puts it down, a release lifts it,
  -- and the steps for other keys, taps and texts leave it.
  abbrev pub down_after : Text → KeySend → Bool → Bool
  down_after key a now =
      if is_empty a.text && ((a.up || a.down) && same_key a.key key) then not a.up else now

  abbrev pub down_then : Text → List KeySend → Bool → Bool
  down_then key [] now = now
  down_then key (a ∷ actions) now = down_then key actions (down_after key a now)

  -- A step that releases a key that is not down, or presses or taps one that is.
  abbrev pub misuses : KeySend → Bool → Bool
  misuses a now = is_empty a.text && (if a.up then not now else now)

  module _ (a key : Text) (s : Sim) where
    no_name : (sim_bit high key == 0) ≡ true → (sim_bit high a == 0) ≡ false → text_eq a key ≡ false
    no_name k n = elim (Bool-cases (text_eq a key)) [
      | inr e ↦ e
      | inl e ↦
          let same : (sim_bit high a == 0) ≡ true =
            subst (λ t. (sim_bit high t == 0) ≡ true) (sym (text_eq-eq a key e)) k in
          absurd (ground (arith, same, n))
    ]

    delete-holds :
        (sim_bit high a == 0) ≡ true
        → sim_holds high key (record s { held = delete_key a s.held })
          ≡ (if same_key a key then false else sim_holds high key s)
    delete-holds n = elim (Bool-cases (sim_bit high key == 0)) [
      | inl k ↦ rw k (ground (arith, has_key-delete_key key a s.held))
      | inr k ↦ rw k (ground (arith, k, n))
    ]

    minus-holds :
        (sim_bit high a == 0) ≡ false
        → sim_holds high key (record s { mods = Mask.minus s.mods (Mask.of_bit (sim_bit high a)) })
          ≡ (if same_key a key then false else sim_holds high key s)
    minus-holds n = elim (Bool-cases (sim_bit high key == 0)) [
      | inl k ↦ rw (k, no_name k n) refl
      | inr k ↦ rw (k, meets-minus s.mods (sim_bit high a) (sim_bit high key)) (ground arith)
    ]

    add-holds :
        (sim_bit high a == 0) ≡ true
        → sim_holds high key (record s { held = a ∷ delete_key a s.held })
          ≡ (if same_key a key then true else sim_holds high key s)
    unfolding has_key
    add-holds n = elim (Bool-cases (sim_bit high key == 0)) [
      | inl k ↦ rw (k, has_key-delete_key key a s.held) (ground arith)
      | inr k ↦ rw k (ground (arith, k, n))
    ]

    union-holds :
        (sim_bit high a == 0) ≡ false
        → sim_holds high key (record s { mods = Mask.union s.mods (Mask.of_bit (sim_bit high a)) })
          ≡ (if same_key a key then true else sim_holds high key s)
    union-holds n = elim (Bool-cases (sim_bit high key == 0)) [
      | inl k ↦ rw (k, no_name k n) refl
      | inr k ↦
          rw (k, meets-union s.mods (sim_bit high a) (sim_bit high key) (sim_bit-is_bit high key k))
            (ground arith)
    ]

    sim_up-holds :
        Leaves
          (λ t. sim_holds high key t ≡ (if same_key a key then false else sim_holds high key s))
          (sim_up high a s)
    unfolding sim_up
    sim_up-holds = elim (Bool-cases (sim_holds high a s)) [
      | inr e ↦ rw e tt
      | inl e ↦ elim (Bool-cases (sim_bit high a == 0)) [
        | inl n ↦ rw (e, n) (delete-holds n)
        | inr n ↦ rw (e, n) (minus-holds n)
      ]
    ]

    sim_down-holds :
        Leaves
          (λ t. sim_holds high key t ≡ (if same_key a key then true else sim_holds high key s))
          (sim_down high a s)
    unfolding sim_down
    sim_down-holds = elim (Bool-cases (not (is_some (named_key high a)) && not (length a == 1))) [
      | inl m ↦ rw m tt
      | inr m ↦ elim (Bool-cases (sim_holds high a s)) [
        | inl e ↦ rw (m, e) tt
        | inr e ↦ elim (Bool-cases (sim_bit high a == 0)) [
          | inl n ↦ rw (m, e, n) (add-holds n)
          | inr n ↦ rw (m, e, n) (union-holds n)
        ]
      ]
    ]

  sim_text-same : (text : Text) (s : Sim) → Leaves (λ t. t ≡ s) (sim_text high text s)
  unfolding sim_text
  sim_text-same [] s = refl
  sim_text-same (r ∷ text) s = elim (Bool-cases (has_key (r ∷ []) s.held)) [
    | inl e ↦ rw e tt
    | inr e ↦ rw e (sim_text-same text s)
  ]

  Leaves-weaken :
      (P Q : Sim → Type 0) (r : Out Sim) → ((t : Sim) → P t → Q t) → Leaves P r → Leaves Q r
  Leaves-weaken P Q (done t) h p = h t p
  Leaves-weaken P Q (failed e) h p = tt

  -- One step of the check follows the key.
  sim_action-holds :
      (key : Text) (a : KeySend) (s : Sim)
      → Leaves
          (λ t. sim_holds high key t ≡ down_after key a (sim_holds high key s))
          (sim_action high a s)
  unfolding sim_action sim_tap
  sim_action-holds key a s = elim (Bool-cases (is_empty a.text)) [
    | inr e ↦ rw e (
        Leaves-weaken (λ t. t ≡ s) _ (sim_text high a.text s) (λ t p. ap (sim_holds high key) p)
          (sim_text-same a.text s))
    | inl e ↦ elim (Bool-cases a.up) [
      | inl u ↦ rw (e, u) (sim_up-holds a.key key s)
      | inr u ↦ elim (Bool-cases a.down) [
        | inl d ↦ rw (e, u, d) (sim_down-holds a.key key s)
        | inr d ↦ elim (Bool-cases (sim_holds high a.key s)) [
          | inl h ↦ rw (e, u, d, h) tt
          | inr h ↦ rw (e, u, d, h) refl
        ]
      ]
    ]
  ]

  -- A step that misuses its key is refused.
  sim_action-misuses :
      (a : KeySend) (s : Sim)
      → misuses a (sim_holds high a.key s) ≡ true
      → (e : KbdErr) × (sim_action high a s ≡ failed e)
  unfolding sim_action sim_up sim_down sim_tap
  sim_action-misuses a s m =
      let empty : is_empty a.text ≡ true = ground (arith, m) in
      elim (Bool-cases a.up) [
        | inl u ↦
            let free : sim_holds high a.key s ≡ false = ground (arith, m, u) in
            (not_held a.key, rw (empty, u, free) refl)
        | inr u ↦
            let held : sim_holds high a.key s ≡ true = ground (arith, m, u) in
            elim (Bool-cases a.down) [
              | inr d ↦ (already_held a.key, rw (empty, u, d, held) refl)
              | inl d ↦
                  elim (Bool-cases
                    (not (is_some (named_key high a.key)) && not (length a.key == 1))) [
                      | inl n ↦ (multi_character a.key, rw (empty, u, d, n) refl)
                      | inr n ↦ (already_held a.key, rw (empty, u, d, n, held) refl)
                    ]
            ]
      ]

  -- A sequence with a step that misuses its key, after the steps before it, is refused.
  pub sim_actions-misuses :
      (before : List KeySend) (a : KeySend) (later : List KeySend) (s : Sim)
      → misuses a (down_then a.key before (sim_holds high a.key s)) ≡ true
      → (e : KbdErr) × (sim_actions high (before ++ a ∷ later) s ≡ failed e)
  unfolding sim_actions
  sim_actions-misuses [] a later s m = let (e, f) = sim_action-misuses a s m in (e, rw f refl)
  sim_actions-misuses (b ∷ before) a later s m = elim (Out-cases (sim_action high b s)) [
    | inr (e, f) ↦ (e, rw f refl)
    | inl (t, f) ↦
        let moved : sim_holds high a.key t ≡ down_after a.key b (sim_holds high a.key s) =
          subst (Leaves (λ v. sim_holds high a.key v ≡ down_after a.key b (sim_holds high a.key s)))
            f (sim_action-holds a.key b s) in
        let (e, g) =
          sim_actions-misuses before a later t
            (subst (λ h. misuses a (down_then a.key before h) ≡ true) (sym moved) m) in
        (e, rw f g)
  ]
