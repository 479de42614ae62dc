-- ===== src/Input/Keyboard/Send.antt =====
-- input/wl_keyboard.go: the second pass of `sendkeys`, which sends the actions one by one.
-- Where Go reports an error after `clearTempModsBestEffort`, that call stands once, around the
-- action: on every error path it is the last thing that is done.
use perfuncted.Prelude.{ℕ, not, Option, none, some, List, [], ◌∷◌, is_empty, ◌==◌, if◌then◌else◌}
use perfuncted.Prelude.Text.{Text, text_eq}
use perfuncted.Input.Keymap.{named_key, mod_bit}
use perfuncted.Input.Mask
use perfuncted.Input.Keysend.{Modifiers, KeySend}
use perfuncted.Input.Keyboard.{
  not_held, multi_character, Out, done, failed, Act, pure, fail, ◌>>=◌, ◌>>◌, on_error, fail_after,
  set_mods, get_mods, pause, send_key, send_modifiers, cleanup_send_key, cleanup_modifier_key, tap,
  upload_keymap_and_restore_mods, apply_temp_mods, clear_temp_mods, clear_temp_mods_best_effort,
}
use perfuncted.Input.Keyboard.Layout.{Layout, make_layout, held_slot, slot_or_zero}

-- `delete(k.held, key)` and `k.held[key] = slot`
abbrev pub delete_held : Text → List (Text × ℕ) → List (Text × ℕ)
delete_held key [] = []
delete_held key ((k, slot) ∷ held) =
    let rest = delete_held key held in if text_eq k key then rest else (k, slot) ∷ rest

abbrev pub forget : Text → Act (Unit {0})
forget key k = (done tt, record k { held = delete_held key k.held })

abbrev pub hold : Text → ℕ → Act (Unit {0})
hold key slot k = (done tt, record k { held = (key, slot) ∷ delete_held key k.held })

abbrev pub get_held : Act (List (Text × ℕ))
get_held k = (done k.held, k)

-- A missing key of a Go map reads as 0.
abbrev pub rune_slot : ℕ → List (ℕ × ℕ) → ℕ
rune_slot r [] = 0
rune_slot r ((q, slot) ∷ l) = if q == r then slot else rune_slot r l

module _ (env : ℕ → Option ℕ) where
  unfoldable pub mod_press : ℕ → Modifiers → Act (Unit {0})
  unfolding send_key send_modifiers cleanup_modifier_key
  mod_press keycode bit = do
    send_key env keycode 1
    mods ← get_mods
    set_mods (Mask.union mods bit)
    on_error (send_modifiers env) (λ e. do
      mods' ← get_mods
      set_mods (Mask.minus mods' bit)
      fail_after e (cleanup_modifier_key env keycode bit))

  unfoldable pub mod_release : ℕ → Modifiers → Act (Unit {0})
  unfolding send_key send_modifiers cleanup_modifier_key
  mod_release keycode bit = do
    on_error (send_key env keycode 0) (λ e. fail_after e (cleanup_modifier_key env keycode bit))
    mods ← get_mods
    set_mods (Mask.minus mods bit)
    on_error (send_modifiers env) (λ e. do
      mods' ← get_mods
      set_mods (Mask.union mods' bit)
      fail_after e (cleanup_modifier_key env keycode bit))

  abbrev pub checked_release : KeySend → ℕ → Modifiers → Act (Unit {0})
  checked_release a keycode bit = do
    mods ← get_mods
    if Mask.meets mods bit then mod_release keycode bit else fail (not_held a.key)

  unfoldable pub send_modifier_key : KeySend → ℕ → Modifiers → Act (Unit {0})
  unfolding mod_press mod_release
  send_modifier_key a keycode bit =
      if a.up
      then checked_release a keycode bit
      else if a.down
      then mod_press keycode bit
      else (do mod_press keycode bit; mod_release keycode bit)

  abbrev pub release_slot : Text → Option ℕ → Act (Unit {0})
  release_slot key none = fail (not_held key)
  release_slot key (some slot) = do send_key env slot 0; forget key

  unfoldable pub release_held : Text → Act (Unit {0})
  unfolding send_key held_slot
  release_held key = do held ← get_held; release_slot key (held_slot key held)

  unfoldable pub press_and_hold : Text → ℕ → Act (Unit {0})
  unfolding send_key
  press_and_hold key slot = do send_key env slot 1; hold key slot

  unfoldable pub tap_named : ℕ → Act (Unit {0})
  unfolding send_key pause cleanup_send_key
  tap_named slot = do
    send_key env slot 1
    on_error (pause env) (λ e. fail_after e (cleanup_send_key env slot))
    on_error (send_key env slot 0) (λ e. fail_after e (cleanup_send_key env slot))

  unfoldable pub send_named_key : KeySend → ℕ → Act (Unit {0})
  unfolding release_held press_and_hold tap_named
  send_named_key a slot =
      if a.up
      then release_held a.key
      else if a.down
      then press_and_hold a.key slot
      else tap_named slot

  unfoldable pub type_text : List (ℕ × ℕ) → Text → Act (Unit {0})
  unfolding tap pause
  type_text slots [] = pure tt
  type_text slots (r ∷ text) = do tap env (rune_slot r slots); pause env; type_text slots text

  abbrev pub hold_character : List (ℕ × ℕ) → Text → Act (Unit {0})
  hold_character slots [] = fail (multi_character [])
  hold_character slots (r ∷ []) = press_and_hold (r ∷ []) (rune_slot r slots)
  hold_character slots (r ∷ q ∷ key) = fail (multi_character (r ∷ q ∷ key))

  unfoldable pub send_literal_key : KeySend → List (ℕ × ℕ) → Act (Unit {0})
  unfolding release_held press_and_hold type_text
  send_literal_key a slots =
      if a.up
      then release_held a.key
      else if a.down
      then hold_character slots a.key
      else type_text slots a.key

module _ (env : ℕ → Option ℕ) (high : ℕ → ℕ) (l : Layout) where
  abbrev pub by_name : KeySend → Option (ℕ × Text) → Act (Unit {0})
  by_name a none = send_literal_key env a l.rune_slots
  by_name a (some (keycode, symbol)) =
      if mod_bit high a.key == 0
      then send_named_key env a (slot_or_zero (held_slot a.key l.named_slots))
      else send_modifier_key env a keycode (Mask.of_bit (mod_bit high a.key))

  unfoldable pub send_key_action : KeySend → Act (Unit {0})
  unfolding send_modifier_key send_named_key send_literal_key held_slot
  send_key_action a = by_name a (named_key high a.key)

  unfoldable pub send_action : KeySend → Act (Unit {0})
  unfolding send_key_action type_text apply_temp_mods clear_temp_mods clear_temp_mods_best_effort
  send_action a = if not (is_empty a.text) then type_text env l.rune_slots a.text else (do
    temporary ← apply_temp_mods env a.modifiers
    on_error (do send_key_action a; clear_temp_mods env temporary)
        (λ e. do clear_temp_mods_best_effort env temporary; fail e))

  unfoldable pub send_actions : List KeySend → Act (Unit {0})
  unfolding send_action pause
  send_actions [] = pure tt
  send_actions (a ∷ actions) = do pause env; send_action a; send_actions actions

module _ (env : ℕ → Option ℕ) (high : ℕ → ℕ) where
  abbrev pub upload_and_send : List KeySend → Out Layout → Act (Unit {0})
  upload_and_send actions (failed e) = fail e
  upload_and_send actions (done l) = do
    upload_keymap_and_restore_mods env l.keymap
    send_actions env high l actions

  abbrev pub with_layout : List KeySend → Act (Unit {0})
  with_layout actions k = upload_and_send actions (make_layout high actions k.mods k.held) k

  unfoldable pub sendkeys : List KeySend → Act (Unit {0})
  unfolding pause make_layout send_actions upload_keymap_and_restore_mods
  sendkeys actions = do pause env; if is_empty actions then pure tt else with_layout actions
