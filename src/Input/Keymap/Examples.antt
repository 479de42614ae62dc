-- ===== src/Input/Keymap/Examples.antt =====
-- Key names at concrete texts.
use perfuncted.Prelude.{ℕ, ◌≡◌, ◌≢◌, ◌≤◌, ◌<◌, refl, none, some, if◌then◌else◌}
use perfuncted.Prelude.Text.{codes}
use perfuncted.Input.Keymap.{escape, kc_dyn_base, mod_bit}
use perfuncted.Input.Keysend.{no_modifiers, is_modifier_name, add_modifier}
use perfuncted.Input.Keymap.Modifiers.{
  keycode_injective, mod_bit-is_modifier_name, add_modifier_lem, set_bit,
}

abbrev same : ℕ → ℕ
same c = c

keycode_injective_test : (escape ≡ escape) × (8 ≤ 13) × (13 < kc_dyn_base)
keycode_injective_test =
    keycode_injective escape escape 13 (codes "Escape") (codes "Escape") refl refl

mod_bit-is_modifier_name_test : mod_bit same (codes "win") ≢ 0
unfolding is_modifier_name
mod_bit-is_modifier_name_test = mod_bit-is_modifier_name same (codes "win") refl

add_modifier_lem_example : add_modifier (codes "meta") no_modifiers ≡ (
    if is_modifier_name (codes "meta")
    then some (set_bit same (mod_bit same (codes "meta")) no_modifiers)
    else none)
add_modifier_lem_example = add_modifier_lem same (codes "meta") no_modifiers
