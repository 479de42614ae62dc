-- ===== src/Input/Keyboard/Plan.antt =====
-- input/wl_keyboard.go: `validateSendkeysSequence`, the check of the held keys.
use perfuncted.Prelude.{
  ℕ, Bool, false, not, ◌&&◌, ◌||◌, List, [], ◌∷◌, is_empty, is_some, length, ◌==◌, if◌then◌else◌,
}
use perfuncted.Prelude.Text.{Text, text_eq}
use perfuncted.Input.Keymap.{named_key, mod_bit}
use perfuncted.Input.Mask
use perfuncted.Input.Keysend.{Modifiers, KeySend}
use perfuncted.Input.Keyboard.{not_held, already_held, multi_character, Out, done, failed}

-- Keys by name, as in the maps `held` and `seenNamed`.
unfoldable pub has_key : Text → List Text → Bool
has_key key [] = false
has_key key (k ∷ ks) = text_eq k key || has_key key ks

unfoldable pub delete_key : Text → List Text → List Text
delete_key key [] = []
delete_key key (k ∷ ks) = let rest = delete_key key ks in if text_eq k key then rest else k ∷ rest

-- The copies of `mods` and of the keys of `held` that the check works on.
pub record Sim : Type 0 where
  pub mods : Modifiers
  pub held : List Text

abbrev pub then_sim : Out Sim → (Sim → Out Sim) → Out Sim
then_sim (done s) f = f s
then_sim (failed e) f = failed e

module _ (high : ℕ → ℕ) where
  abbrev pub sim_bit : Text → ℕ
  sim_bit key = if is_some (named_key high key) then mod_bit high key else 0

  -- A text may not tap a character that is held.
  unfoldable pub sim_text : Text → Sim → Out Sim
  unfolding has_key
  sim_text [] s = done s
  sim_text (r ∷ text) s =
      let rest = sim_text text s in
      if has_key (r ∷ []) s.held then failed (already_held (r ∷ [])) else rest

  abbrev pub sim_holds : Text → Sim → Bool
  sim_holds key s =
      if sim_bit key == 0 then has_key key s.held else Mask.meets s.mods (Mask.of_bit (sim_bit key))

  unfoldable pub sim_up : Text → Sim → Out Sim
  unfolding has_key delete_key
  sim_up key s =
      if not (sim_holds key s)
      then failed (not_held key)
      else if sim_bit key == 0
      then done (record s { held = delete_key key s.held })
      else done (record s { mods = Mask.minus s.mods (Mask.of_bit (sim_bit key)) })

  unfoldable pub sim_down : Text → Sim → Out Sim
  unfolding has_key delete_key
  sim_down key s =
      if not (is_some (named_key high key)) && not (length key == 1)
      then failed (multi_character key)
      else if sim_holds key s
      then failed (already_held key)
      else if sim_bit key == 0
      then done (record s { held = key ∷ delete_key key s.held })
      else done (record s { mods = Mask.union s.mods (Mask.of_bit (sim_bit key)) })

  unfoldable pub sim_tap : Text → Sim → Out Sim
  sim_tap key s = if sim_holds key s then failed (already_held key) else done s

  -- One round of the loop of `validateSendkeysSequence`.
  unfoldable pub sim_action : KeySend → Sim → Out Sim
  unfolding sim_text sim_up sim_down sim_tap
  sim_action a s =
      if not (is_empty a.text)
      then sim_text a.text s
      else if a.up
      then sim_up a.key s
      else if a.down
      then sim_down a.key s
      else sim_tap a.key s

  unfoldable pub sim_actions : List KeySend → Sim → Out Sim
  sim_actions [] s = done s
  sim_actions (a ∷ actions) s = then_sim (sim_action a s) (sim_actions actions)
