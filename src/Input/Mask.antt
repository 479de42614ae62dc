-- ===== src/Input/Mask.antt =====
-- The modifier mask of input/wl_keyboard.go: the four bits that the program uses, as flags.
use perfuncted.Prelude.{ℕ, Bool, not, ◌&&◌, ◌||◌, ◌==◌}
use perfuncted.Input.Keysend.{Modifiers}

abbrev pub union : Modifiers → Modifiers → Modifiers
union a b = record {
  ctrl = a.ctrl || b.ctrl;
  alt = a.alt || b.alt;
  shift = a.shift || b.shift;
  super = a.super || b.super;
}

-- Go's `a &^ b`
abbrev pub minus : Modifiers → Modifiers → Modifiers
minus a b = record {
  ctrl = a.ctrl && not b.ctrl;
  alt = a.alt && not b.alt;
  shift = a.shift && not b.shift;
  super = a.super && not b.super;
}

-- `a & b != 0`
abbrev pub meets : Modifiers → Modifiers → Bool
meets a b = (a.ctrl && b.ctrl) || (a.alt && b.alt) || (a.shift && b.shift) || (a.super && b.super)

abbrev pub is_zero : Modifiers → Bool
is_zero a = not a.ctrl && not a.alt && not a.shift && not a.super

-- One bit, by its number.
abbrev pub of_bit : ℕ → Modifiers
of_bit b = record { ctrl = b == 4; alt = b == 8; shift = b == 1; super = b == 64 }
