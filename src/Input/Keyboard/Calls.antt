-- ===== src/Input/Keyboard/Calls.antt =====
-- input/wl_keyboard.go: `pressKey` and `releaseKey`.
use perfuncted.Prelude.{
  ℕ, Bool, true, false, not, ◌&&◌, ◌||◌, Option, none, some, List, [], ◌∷◌, is_empty, is_some,
  length, leb, ltb, ◌==◌, if◌then◌else◌,
}
use perfuncted.Prelude.Text.{Text}
use perfuncted.Input.Keymap.{named_key, mod_bit, kc_super, kc_dyn_base}
use perfuncted.Input.Mask
use perfuncted.Input.Keysend.{Modifiers, no_modifiers, KeySend}
use perfuncted.Input.Keyboard.{
  not_held, multi_character, Act, fail, ◌>>=◌, ◌>>◌, on_error, fail_after, set_mods, get_mods,
  pause, send_key, send_modifiers, cleanup_send_key, upload_keymap, upload_keymap_and_restore_mods,
}
use perfuncted.Input.Keyboard.Layout.{held_slot, xkb_with_rune, xkb_with_named}
use perfuncted.Input.Keyboard.Send.{forget, hold, get_held, sendkeys}

abbrev pub down_action : Text → KeySend
down_action key = record { text = []; key = key; down = true; up = false; modifiers = no_modifiers }

abbrev pub up_action : Text → KeySend
up_action key = record { text = []; key = key; down = false; up = true; modifiers = no_modifiers }

module _ (env : ℕ → Option ℕ) (high : ℕ → ℕ) where
  abbrev pub press_named : Text → ℕ → Text → Act (Unit {0})
  press_named key keycode symbol = do
    upload_keymap_and_restore_mods env (xkb_with_named keycode symbol)
    send_key env keycode 1
    if mod_bit high key == 0 then hold key keycode else (do
      previous_mods ← get_mods
      set_mods (Mask.union previous_mods (Mask.of_bit (mod_bit high key)))
      on_error (send_modifiers env)
          (λ e. do set_mods previous_mods; fail_after e (cleanup_send_key env keycode)))

  abbrev pub press_character : Text → Act (Unit {0})
  press_character [] = fail (multi_character [])
  press_character (r ∷ []) = do
    upload_keymap_and_restore_mods env (xkb_with_rune r)
    send_key env kc_dyn_base 1
    hold (r ∷ []) kc_dyn_base
  press_character (r ∷ q ∷ key) = fail (multi_character (r ∷ q ∷ key))

  abbrev pub press_alone : Text → Option (ℕ × Text) → Act (Unit {0})
  press_alone key none = press_character key
  press_alone key (some (keycode, symbol)) = press_named key keycode symbol

  unfoldable pub press_key : Text → Act (Unit {0})
  unfolding pause send_key send_modifiers cleanup_send_key upload_keymap_and_restore_mods
      xkb_with_rune xkb_with_named sendkeys
  press_key key = do
    pause env
    held ← get_held
    if is_empty held
        then press_alone key (named_key high key)
        else sendkeys env high (down_action key ∷ [])

  abbrev pub drop_key : Text → ℕ → Act (Unit {0})
  drop_key key keycode = do
    send_key env keycode 0
    if mod_bit high key == 0 then forget key else (do
      previous_mods ← get_mods
      set_mods (Mask.minus previous_mods (Mask.of_bit (mod_bit high key)))
      on_error (send_modifiers env) (λ e. do set_mods previous_mods; fail e))

  unfoldable pub release_named_key : Text → ℕ → Text → Act (Unit {0})
  unfolding send_key send_modifiers upload_keymap held_slot xkb_with_named
  release_named_key key keycode symbol = do
    held ← get_held
    if leb keycode kc_super
        then drop_key key keycode
        else if is_some (held_slot key held)
        then (do upload_keymap env (xkb_with_named keycode symbol); drop_key key keycode)
        else fail (not_held key)

  abbrev pub release_character : Text → Act (Unit {0})
  release_character [] = fail (multi_character [])
  release_character (r ∷ []) = do
    held ← get_held
    if is_some (held_slot (r ∷ []) held)
        then (do upload_keymap env (xkb_with_rune r); send_key env kc_dyn_base 0; forget (r ∷ []))
        else fail (not_held (r ∷ []))
  release_character (r ∷ q ∷ key) = fail (multi_character (r ∷ q ∷ key))

  abbrev pub release_alone : Text → Option (ℕ × Text) → Act (Unit {0})
  release_alone key none = release_character key
  release_alone key (some (keycode, symbol)) = release_named_key key keycode symbol

  abbrev own_slot : Option (ℕ × Text) → ℕ
  own_slot none = kc_dyn_base
  own_slot (some (keycode, symbol)) = keycode

  -- Whether a held key needs the full keymap to be released.
  abbrev pub needs_map : Option ℕ → Option (ℕ × Text) → List (Text × ℕ) → Modifiers → Bool
  needs_map none name held mods = false
  needs_map (some slot) name held mods =
      ltb 1 (length held) || not (Mask.is_zero mods) || not (slot == own_slot name)

  unfoldable pub release_key : Text → Act (Unit {0})
  unfolding pause send_key send_modifiers upload_keymap held_slot xkb_with_rune sendkeys
      release_named_key
  release_key key = do
    pause env
    mods ← get_mods
    held ← get_held
    if not (mod_bit high key == 0) && not (Mask.meets mods (Mask.of_bit (mod_bit high key)))
        then fail (not_held key)
        else if needs_map (held_slot key held) (named_key high key) held mods
        then sendkeys env high (up_action key ∷ [])
        else release_alone key (named_key high key)
