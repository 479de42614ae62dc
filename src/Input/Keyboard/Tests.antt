-- ===== src/Input/Keyboard/Tests.antt =====
-- Tests and examples for the slots, pressKey and releaseKey of input/wl_keyboard.go.
use perfuncted.Prelude.{ℕ, ◌≡◌, refl, true, Option, none, some, [], ◌∷◌, ◌==◌, if◌then◌else◌, arith}
use perfuncted.Prelude.Text.{codes}
use perfuncted.Input.Keysend.{no_modifiers}
use perfuncted.Input.Keymap.{named_key, mod_bit}
use perfuncted.Input.Keyboard.{Kbd, mods_msg, done}
use perfuncted.Input.Keyboard.Calls.{press_key, release_key}
use perfuncted.Input.Keyboard.Sync.{Post}
use perfuncted.Input.Keyboard.Sync.Calls.{Synced, press_key-Synced, release_key-Synced}
use perfuncted.Input.Keyboard.Layout.{take_slot, assign}
use perfuncted.Input.Keyboard.Slots.{IsFirst, EachApart, take_slot-IsFirst, assign-EachApart}

-- `é` is held at 38.
abbrev held_at : ℕ → Option ℕ
held_at r = if r == 233 then some 38 else none

assign_test :
    assign held_at (38 ∷ []) (8364 ∷ 233 ∷ 955 ∷ []) 37
    ≡ done ((8364, 37) ∷ (233, 38) ∷ (955, 39) ∷ [], 40)
unfolding assign
assign_test = refl

take_slot-IsFirst_test : IsFirst 37 (37 ∷ 38 ∷ []) (take_slot 220 37 (37 ∷ 38 ∷ []))
take_slot-IsFirst_test = take_slot-IsFirst 220 37 (37 ∷ 38 ∷ []) (omega arith)

assign-EachApart_example :
    EachApart held_at
      (38 ∷ [])
      37
      (8364 ∷ 233 ∷ 955 ∷ [])
      (assign held_at (38 ∷ []) (8364 ∷ 233 ∷ 955 ∷ []) 37)
assign-EachApart_example =
    assign-EachApart held_at (38 ∷ []) (8364 ∷ 233 ∷ 955 ∷ []) 37 (omega arith)

abbrev clean : ℕ → Option ℕ
clean n = none

abbrev same : ℕ → ℕ
same c = c

-- Ctrl is held.
abbrev ctrl_down : Kbd
ctrl_down = record {
  mods = record no_modifiers { ctrl = true };
  held = [];
  last_keymap = none;
  sent = mods_msg (record no_modifiers { ctrl = true }) ∷ [];
  clock = 7;
}

release_key_test : (release_key clean same (codes "ctrl") ctrl_down).1.mods ≡ no_modifiers
unfolding release_key named_key mod_bit
release_key_test = refl

press_key-Synced_example :
    Post
      (λ _. Synced)
      (press_key clean same (codes "F4") ctrl_down).0
      (press_key clean same (codes "F4") ctrl_down).1
press_key-Synced_example = press_key-Synced clean same (codes "F4") ctrl_down refl

release_key-Synced_example :
    Post
      (λ _. Synced)
      (release_key clean same (codes "ctrl") ctrl_down).0
      (release_key clean same (codes "ctrl") ctrl_down).1
release_key-Synced_example = release_key-Synced clean same (codes "ctrl") ctrl_down refl
