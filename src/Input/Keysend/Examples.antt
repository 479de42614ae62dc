-- ===== src/Input/Keysend/Examples.antt =====
-- Key sequences at concrete texts.
use perfuncted.Prelude.{ℕ, ◌≡◌, ◌⊎◌, refl, Bool, true, false, List, [], ◌∷◌, All}
use perfuncted.Prelude.Text.{codes}
use perfuncted.Window.Spec.{cut}
use perfuncted.Input.Keysend.{
  KeySend, KeyErr, ok, err, literal, no_modifiers, parse_key_send, add_modifier, trim_space,
}
use perfuncted.Input.Keysend.Actions.{IsAction, parse_key_send-IsAction}

abbrev same : ℕ → ℕ
same c = c

abbrev no_space : ℕ → Bool
no_space c = false

hello :
    parse_key_send same no_space (codes "Hi{Ctrl + S}{up down}")
    ≡ ok (
        literal (codes "Hi")
        ∷ record {
          text = [];
          key = codes "s";
          down = false;
          up = false;
          modifiers = record no_modifiers { ctrl = true };
        }
        ∷ record { text = []; key = codes "up"; down = true; up = false; modifiers = no_modifiers }
        ∷ [])
unfolding parse_key_send cut add_modifier trim_space
hello = refl

parse_key_send-IsAction_example :
    ((e : KeyErr) × (parse_key_send same no_space (codes "a{ctrl+alt") ≡ err e))
    ⊎ ((l : List KeySend) × (parse_key_send same no_space (codes "a{ctrl+alt") ≡ ok l)
        × All IsAction l)
parse_key_send-IsAction_example = parse_key_send-IsAction same no_space (codes "a{ctrl+alt")
