-- ===== src/Input/Keyboard/Examples.antt =====
-- Tests and examples for input/wl_keyboard.go.
use perfuncted.Prelude.{◌++◌, ℕ, ◌≡◌, refl, true, false, Option, none, List, [], ◌∷◌, inl, inr}
use perfuncted.Prelude.Text.{codes}
use perfuncted.Input.Keymap.{named_key, mod_bit}
use perfuncted.Input.Keysend.{no_modifiers, KeySend}
use perfuncted.Input.Keyboard.{Kbd, KbdErr, done, failed, not_held}
use perfuncted.Input.Keyboard.Plan.{sim_action, sim_actions}
use perfuncted.Input.Keyboard.Send.{sendkeys}
use perfuncted.Input.Keyboard.Sync.{Post}
use perfuncted.Input.Keyboard.Sync.Outcome.{start, Foreseen, sendkeys-Foreseen}
use perfuncted.Input.Keyboard.Sync.Refused.{asked, sendkeys-refused}

abbrev same : ℕ → ℕ
same c = c

abbrev clean : ℕ → Option ℕ
clean n = none

abbrev kbd : Kbd
kbd = record { mods = no_modifiers; held = []; last_keymap = none; sent = []; clock = 0 }

-- `{shift+enter}` and `{ctrl down}`
abbrev actions : List KeySend
actions =
    record {
      text = [];
      key = codes "enter";
      down = false;
      up = false;
      modifiers = record no_modifiers { shift = true };
    }
    ∷ record { text = []; key = codes "ctrl"; down = true; up = false; modifiers = no_modifiers }
    ∷ []

abbrev bad : List KeySend
bad =
    record { text = []; key = codes "enter"; down = false; up = true; modifiers = no_modifiers }
    ∷ []

sendkeys_test : (sendkeys clean same actions kbd).0 ≡ done tt
unfolding sendkeys named_key mod_bit sim_action
sendkeys_test = refl

sendkeys-Foreseen_example :
    Post
      (λ _. Foreseen clean same actions kbd)
      (sendkeys clean same actions kbd).0
      (sendkeys clean same actions kbd).1
unfolding mod_bit
sendkeys-Foreseen_example = sendkeys-Foreseen clean same actions kbd refl (inr refl, (inl refl, tt))

abbrev again : KeySend
again = record {
  text = [];
  key = codes "control";
  down = true;
  up = false;
  modifiers = no_modifiers;
}

bad_test : sim_actions same bad (start kbd) ≡ failed (not_held (codes "enter"))
unfolding sim_actions sim_action named_key mod_bit
bad_test = refl

-- `{control down}` after `{shift+enter}{ctrl down}`
sendkeys-refused_example :
    (x : KbdErr) × (sendkeys clean same (actions ++ again ∷ bad) kbd ≡ (failed x, asked kbd))
unfolding named_key mod_bit
sendkeys-refused_example = sendkeys-refused clean same actions again bad kbd refl
