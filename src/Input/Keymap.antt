-- ===== src/Input/Keymap.antt =====
-- internal/keymap/keymap.go, and the lookup tables of input/wl_keyboard.go that stand on it.
pub mod Modifiers
mod Examples
use perfuncted.Prelude.{
  ℕ, ◌+◌, ◌-◌, ◌≡◌, ◌≢◌, refl, Bool, true, false, ◌||◌, Option, none, some, List, [], ◌∷◌, ◌==◌,
  if◌then◌else◌, arith,
}
use perfuncted.Prelude.Text.{Text, codes, text_eq}
use perfuncted.Window.Fold.{to_lower, lower}

pub data Key : Type 0 where
  unknown letter_a letter_b letter_c letter_d letter_e letter_f letter_g letter_h letter_i : Key
  letter_j letter_k letter_l letter_m letter_n letter_o letter_p letter_q letter_r letter_s : Key
  letter_t letter_u letter_v letter_w letter_x letter_y letter_z digit_0 digit_1 digit_2 : Key
  digit_3 digit_4 digit_5 digit_6 digit_7 digit_8 digit_9 space enter tab backspace escape ctrl :
      Key
  alt shift super up down left right home end page_up page_down insert delete f1 f2 f3 f4 f5 f6 :
      Key
  f7 f8 f9 f10 f11 f12 : Key

-- `nameToKey`, in the order of the source; its keys are distinct.
abbrev pub name_to_key : List (Text × Key)
name_to_key =
    (codes "a", letter_a)
    ∷ (codes "b", letter_b)
    ∷ (codes "c", letter_c)
    ∷ (codes "d", letter_d)
    ∷ (codes "e", letter_e)
    ∷ (codes "f", letter_f)
    ∷ (codes "g", letter_g)
    ∷ (codes "h", letter_h)
    ∷ (codes "i", letter_i)
    ∷ (codes "j", letter_j)
    ∷ (codes "k", letter_k)
    ∷ (codes "l", letter_l)
    ∷ (codes "m", letter_m)
    ∷ (codes "n", letter_n)
    ∷ (codes "o", letter_o)
    ∷ (codes "p", letter_p)
    ∷ (codes "q", letter_q)
    ∷ (codes "r", letter_r)
    ∷ (codes "s", letter_s)
    ∷ (codes "t", letter_t)
    ∷ (codes "u", letter_u)
    ∷ (codes "v", letter_v)
    ∷ (codes "w", letter_w)
    ∷ (codes "x", letter_x)
    ∷ (codes "y", letter_y)
    ∷ (codes "z", letter_z)
    ∷ (codes "0", digit_0)
    ∷ (codes "1", digit_1)
    ∷ (codes "2", digit_2)
    ∷ (codes "3", digit_3)
    ∷ (codes "4", digit_4)
    ∷ (codes "5", digit_5)
    ∷ (codes "6", digit_6)
    ∷ (codes "7", digit_7)
    ∷ (codes "8", digit_8)
    ∷ (codes "9", digit_9)
    ∷ (codes "space", space)
    ∷ (codes "enter", enter)
    ∷ (codes "return", enter)
    ∷ (codes "tab", tab)
    ∷ (codes "backspace", backspace)
    ∷ (codes "escape", escape)
    ∷ (codes "esc", escape)
    ∷ (codes "ctrl", ctrl)
    ∷ (codes "control", ctrl)
    ∷ (codes "control_l", ctrl)
    ∷ (codes "alt", alt)
    ∷ (codes "alt_l", alt)
    ∷ (codes "shift", shift)
    ∷ (codes "shift_l", shift)
    ∷ (codes "super", super)
    ∷ (codes "meta", super)
    ∷ (codes "logo", super)
    ∷ (codes "super_l", super)
    ∷ (codes "win", super)
    ∷ (codes "up", up)
    ∷ (codes "down", down)
    ∷ (codes "left", left)
    ∷ (codes "right", right)
    ∷ (codes "home", home)
    ∷ (codes "end", end)
    ∷ (codes "page_up", page_up)
    ∷ (codes "pageup", page_up)
    ∷ (codes "prior", page_up)
    ∷ (codes "page_down", page_down)
    ∷ (codes "pagedown", page_down)
    ∷ (codes "next", page_down)
    ∷ (codes "insert", insert)
    ∷ (codes "delete", delete)
    ∷ (codes "f1", f1)
    ∷ (codes "f2", f2)
    ∷ (codes "f3", f3)
    ∷ (codes "f4", f4)
    ∷ (codes "f5", f5)
    ∷ (codes "f6", f6)
    ∷ (codes "f7", f7)
    ∷ (codes "f8", f8)
    ∷ (codes "f9", f9)
    ∷ (codes "f10", f10)
    ∷ (codes "f11", f11)
    ∷ (codes "f12", f12)
    ∷ []

unfoldable pub lookup_name : Text → List (Text × Key) → Option Key
unfolding text_eq
lookup_name s [] = none
lookup_name s ((n, k) ∷ rest) = if text_eq n s then some k else lookup_name s rest

module _ (high : ℕ → ℕ) where
  unfoldable pub from_string : Text → Option Key
  unfolding lower lookup_name
  from_string s = lookup_name (to_lower high s) name_to_key

abbrev pub is_modifier : Key → Bool
is_modifier ctrl = true
is_modifier alt = true
is_modifier shift = true
is_modifier super = true
is_modifier _ = false

abbrev pub kc_super : ℕ
kc_super = 11

abbrev pub kc_f1 : ℕ
kc_f1 = 25

abbrev pub kc_dyn_base : ℕ
kc_dyn_base = 37

abbrev pub kc_dyn_max : ℕ
kc_dyn_max = 255

abbrev pub max_dynamic_key_slots : ℕ
max_dynamic_key_slots = kc_dyn_max - kc_dyn_base + 1

-- The `switch` of `namedKey`: the fixed keycode and the keysym of a key.
abbrev pub keycode : Key → Option (ℕ × Text)
keycode shift = some (8, codes "Shift_L")
keycode ctrl = some (9, codes "Control_L")
keycode alt = some (10, codes "Alt_L")
keycode super = some (11, codes "Super_L")
keycode enter = some (12, codes "Return")
keycode escape = some (13, codes "Escape")
keycode tab = some (14, codes "Tab")
keycode backspace = some (15, codes "BackSpace")
keycode delete = some (16, codes "Delete")
keycode home = some (17, codes "Home")
keycode end = some (18, codes "End")
keycode page_up = some (19, codes "Prior")
keycode page_down = some (20, codes "Next")
keycode left = some (21, codes "Left")
keycode right = some (22, codes "Right")
keycode up = some (23, codes "Up")
keycode down = some (24, codes "Down")
keycode f1 = some (25, codes "F1")
keycode f2 = some (26, codes "F2")
keycode f3 = some (27, codes "F3")
keycode f4 = some (28, codes "F4")
keycode f5 = some (29, codes "F5")
keycode f6 = some (30, codes "F6")
keycode f7 = some (31, codes "F7")
keycode f8 = some (32, codes "F8")
keycode f9 = some (33, codes "F9")
keycode f10 = some (34, codes "F10")
keycode f11 = some (35, codes "F11")
keycode f12 = some (36, codes "F12")
keycode _ = none

-- The bits of the modifier mask: 1, 4, 8 and 64.
abbrev pub key_bit : Key → ℕ
key_bit shift = 1
key_bit ctrl = 4
key_bit alt = 8
key_bit super = 64
key_bit _ = 0

module _ (high : ℕ → ℕ) where
  unfoldable pub named_key : Text → Option (ℕ × Text)
  unfolding from_string
  named_key s = elim (from_string high s) [ none ↦ none | some k ↦ keycode k ]

  unfoldable pub mod_bit : Text → ℕ
  unfolding from_string
  mod_bit s = elim (from_string high s) [
    | none ↦ 0
    | some k ↦ if is_modifier k then key_bit k else 0
  ]
