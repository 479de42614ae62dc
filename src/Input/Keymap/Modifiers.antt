-- ===== src/Input/Keymap/Modifiers.antt =====
-- The modifier names of the combination syntax against the key tables.
use perfuncted.Prelude.{
  ℕ, ◌+◌, ◌<◌, ◌≤◌, ◌≡◌, ◌≢◌, refl, Bool, true, false, ◌||◌, none, some, ◌==◌, if◌then◌else◌, arith,
}
use perfuncted.Prelude.Text.{Text, codes, text_eq-eq}
use perfuncted.Input.Keymap.{
  Key, unknown, shift, ctrl, alt, super, enter, escape, tab, backspace, delete, home, end, page_up,
  page_down, left, right, up, down, f1, f2, f3, f4, f5, f6, f7, f8, f9, f10, f11, f12, keycode,
  kc_dyn_base, mod_bit,
}
use perfuncted.Input.Keysend.{Modifiers, is_modifier_name, add_modifier}

-- The mask that the keyboard applies for the modifiers of a combination.
abbrev pub flag_bit : Bool → ℕ → ℕ
flag_bit true n = n
flag_bit false n = 0

abbrev pub modifiers_mask : Modifiers → ℕ
modifiers_mask m = flag_bit m.ctrl 4 + flag_bit m.alt 8 + flag_bit m.shift 1 + flag_bit m.super 64

-- The key that has a fixed keycode.
abbrev key_at : ℕ → Key
key_at c =
    if c == 8
    then shift
    else if c == 9
    then ctrl
    else if c == 10
    then alt
    else if c == 11
    then super
    else if c == 12
    then enter
    else if c == 13
    then escape
    else if c == 14
    then tab
    else if c == 15
    then backspace
    else if c == 16
    then delete
    else if c == 17
    then home
    else if c == 18
    then end
    else if c == 19
    then page_up
    else if c == 20
    then page_down
    else if c == 21
    then left
    else if c == 22
    then right
    else if c == 23
    then up
    else if c == 24
    then down
    else if c == 25
    then f1
    else if c == 26
    then f2
    else if c == 27
    then f3
    else if c == 28
    then f4
    else if c == 29
    then f5
    else if c == 30
    then f6
    else if c == 31
    then f7
    else if c == 32
    then f8
    else if c == 33
    then f9
    else if c == 34
    then f10
    else if c == 35
    then f11
    else if c == 36
    then f12
    else unknown

key_at-keycode :
    (k : Key) (c : ℕ) (s : Text)
    → keycode k ≡ some (c, s)
    → (key_at c ≡ k) × (8 ≤ c) × (c < kc_dyn_base)
key_at-keycode shift c s p = let e : 8 ≡ c = cc in rw (← e) (refl, omega arith, omega arith)
key_at-keycode _ c s p = ground arith

-- Two keys with one keycode are one key, and every fixed keycode lies below the dynamic slots.
pub keycode_injective :
    (j k : Key) (c : ℕ) (s t : Text)
    → keycode j ≡ some (c, s)
    → keycode k ≡ some (c, t)
    → (j ≡ k) × (8 ≤ c) × (c < kc_dyn_base)
keycode_injective j k c s t p q =
    let a = key_at-keycode j c s p in let b = key_at-keycode k c t q in (cc (a.0, b.0), a.1, a.2)

module _ (high : ℕ → ℕ) where
  bit_ctrl : mod_bit high (codes "ctrl") ≡ 4
  unfolding mod_bit
  bit_ctrl = refl

  bit_control : mod_bit high (codes "control") ≡ 4
  unfolding mod_bit
  bit_control = refl

  bit_alt : mod_bit high (codes "alt") ≡ 8
  unfolding mod_bit
  bit_alt = refl

  bit_shift : mod_bit high (codes "shift") ≡ 1
  unfolding mod_bit
  bit_shift = refl

  bit_super : mod_bit high (codes "super") ≡ 64
  unfolding mod_bit
  bit_super = refl

  bit_meta : mod_bit high (codes "meta") ≡ 64
  unfolding mod_bit
  bit_meta = refl

  bit_win : mod_bit high (codes "win") ≡ 64
  unfolding mod_bit
  bit_win = refl

  bit_logo : mod_bit high (codes "logo") ≡ 64
  unfolding mod_bit
  bit_logo = refl

  -- Every name that the combination syntax takes for a modifier is one to the key table, so that
  -- holding it is tracked in the modifier mask.
  pub mod_bit-is_modifier_name : (s : Text) → is_modifier_name s ≡ true → mod_bit high s ≢ 0
  unfolding is_modifier_name
  mod_bit-is_modifier_name s h z = ground (
    arith,
    text_eq-eq s (codes "ctrl"),
    bit_ctrl,
    text_eq-eq s (codes "control"),
    bit_control,
    text_eq-eq s (codes "alt"),
    bit_alt,
    text_eq-eq s (codes "shift"),
    bit_shift,
    text_eq-eq s (codes "super"),
    bit_super,
    text_eq-eq s (codes "meta"),
    bit_meta,
    text_eq-eq s (codes "win"),
    bit_win,
    text_eq-eq s (codes "logo"),
    bit_logo,
  )

  abbrev pub set_bit : ℕ → Modifiers → Modifiers
  set_bit b m = record {
    ctrl = (b == 4) || m.ctrl;
    alt = (b == 8) || m.alt;
    shift = (b == 1) || m.shift;
    super = (b == 64) || m.super;
  }

  -- A modifier name sets just the flag of the bit that the key table has for it; any other text is
  -- refused.
  pub add_modifier_lem :
      (s : Text) (m : Modifiers)
      → add_modifier s m ≡ (if is_modifier_name s then some (set_bit (mod_bit high s) m) else none)
  unfolding is_modifier_name add_modifier
  add_modifier_lem s m = ground (
    arith,
    text_eq-eq s (codes "ctrl"),
    bit_ctrl,
    text_eq-eq s (codes "control"),
    bit_control,
    text_eq-eq s (codes "alt"),
    bit_alt,
    text_eq-eq s (codes "shift"),
    bit_shift,
    text_eq-eq s (codes "super"),
    bit_super,
    text_eq-eq s (codes "meta"),
    bit_meta,
    text_eq-eq s (codes "win"),
    bit_win,
    text_eq-eq s (codes "logo"),
    bit_logo,
  )
