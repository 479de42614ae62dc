-- ===== src/Input/Keysend.antt =====
-- input/keysend.go: the key syntax of `Type`.
-- Texts are valid UTF-8, as code points; `high` is `unicode.ToLower` and `high_space`
-- `unicode.IsSpace` above ASCII. The two loops run on fuel, one round for each code point at most.
pub mod Actions
mod Examples
use perfuncted.Prelude.{
  ℕ, zero, suc, ◌+◌, ◌-◌, ◌≡◌, Bool, true, false, not, ◌&&◌, ◌||◌, Option, none, some, List, [],
  ◌∷◌, ◌++◌, is_empty, length, take, drop, leb, ltb, ◌==◌, if◌then◌else◌,
}
use mathlib.Core.List.{reverse}
use perfuncted.Prelude.Text.{Text, codes, text_eq}
use perfuncted.Window.Fold.{to_lower, lower}
use perfuncted.Window.Spec.{cut}

pub record Modifiers : Type 0 where
  pub ctrl : Bool
  pub alt : Bool
  pub shift : Bool
  pub super : Bool

abbrev pub no_modifiers : Modifiers
no_modifiers = record { ctrl = false; alt = false; shift = false; super = false }

pub record KeySend : Type 0 where
  pub text : Text
  pub key : Text
  pub down : Bool
  pub up : Bool
  pub modifiers : Modifiers

abbrev pub literal : Text → KeySend
literal t = record { text = t; key = []; down = false; up = false; modifiers = no_modifiers }

pub data KeyErr : Type 0 where
  unclosed_brace empty_name empty_combo_key modifier_last no_combo : KeyErr
  unknown_modifier : Text → KeyErr

-- `stuck` means that the fuel ran out.
pub data KeyResult (A : Type 0) : Type 0 where
  ok : A → KeyResult A
  err : KeyErr → KeyResult A
  stuck : KeyResult A

abbrev pub ascii_space : ℕ → Bool
ascii_space c = c == b' ' || (leb 9 c && leb c 13)

-- `strings.HasSuffix` with `strings.TrimSuffix`: what stands before the suffix.
unfoldable pub strip_suffix : Text → Text → Option Text
strip_suffix s suffix =
    let n = length s - length suffix in
    if leb (length suffix) (length s) && text_eq (drop n s) suffix then some (take n s) else none

unfoldable pub is_modifier_name : Text → Bool
unfolding text_eq
is_modifier_name s =
    text_eq s (codes "ctrl")
    || text_eq s (codes "control")
    || text_eq s (codes "alt")
    || text_eq s (codes "shift")
    || text_eq s (codes "super")
    || text_eq s (codes "meta")
    || text_eq s (codes "win")
    || text_eq s (codes "logo")

-- The `switch` of `parseCombo`.
unfoldable pub add_modifier : Text → Modifiers → Option Modifiers
unfolding text_eq
add_modifier p m =
    if text_eq p (codes "ctrl") || text_eq p (codes "control")
    then some (record m { ctrl = true })
    else if text_eq p (codes "alt")
    then some (record m { alt = true })
    else if text_eq p (codes "shift")
    then some (record m { shift = true })
    else if text_eq p (codes "super")
        || text_eq p (codes "meta")
        || text_eq p (codes "win")
        || text_eq p (codes "logo")
    then some (record m { super = true })
    else none

module _ (high : ℕ → ℕ) (high_space : ℕ → Bool) where
  is_space : ℕ → Bool
  is_space c = if ltb c 128 then ascii_space c else high_space c

  trim_left : Text → Text
  unfolding is_space
  trim_left [] = []
  trim_left (c ∷ s) = let rest = trim_left s in if is_space c then rest else c ∷ s

  -- `strings.TrimSpace`
  unfoldable pub trim_space : Text → Text
  unfolding trim_left
  trim_space s = reverse (trim_left (reverse (trim_left s)))

  -- The part of `parseCombo` after the last `+`.
  combo_key : Text → Bool → Bool → Modifiers → KeyResult KeySend
  unfolding is_modifier_name
  combo_key rest down up m =
      let key = trim_space rest in
      if is_empty key
      then err empty_combo_key
      else if is_modifier_name key
      then err modifier_last
      else ok (record { text = []; key = key; down = down; up = up; modifiers = m })

  -- The loop of `parseCombo`; `rest` is `name[start:]`.
  combo_loop : ℕ → Text → Bool → Bool → Modifiers → KeyResult KeySend
  unfolding combo_key
  combo_loop zero rest down up m = stuck
  combo_loop (suc fuel) rest down up m = elim (cut b'+' rest) [
    | none ↦ combo_key rest down up m
    | some (part, after) ↦ elim (add_modifier (trim_space part) m) [
      | none ↦ err (unknown_modifier (trim_space part))
      | some n ↦ combo_loop fuel after down up n
    ]
  ]

  unfoldable pub parse_combo : Text → Bool → Bool → KeyResult KeySend
  unfolding combo_loop
  parse_combo name down up = elim (cut b'+' name) [
    | none ↦ err no_combo
    | some _ ↦ combo_loop (suc (length name)) name down up no_modifiers
  ]

  -- The part of `parseBraced` from the test for an empty name on.
  braced_name : Text → Bool → Bool → KeyResult KeySend
  unfolding parse_combo
  braced_name name down up = if is_empty name then err empty_name else elim (cut b'+' name) [
    | some _ ↦ parse_combo name down up
    | none ↦ ok (record { text = []; key = name; down = down; up = up; modifiers = no_modifiers })
  ]

  unfoldable pub parse_braced : Text → KeyResult KeySend
  unfolding lower braced_name strip_suffix
  parse_braced expr =
      if is_empty (trim_space expr)
      then err empty_name
      else elim (strip_suffix (to_lower high (trim_space expr)) (codes " down")) [
        | some name ↦ braced_name (trim_space name) true false
        | none ↦ elim (strip_suffix (to_lower high (trim_space expr)) (codes " up")) [
          | some name ↦ braced_name (trim_space name) false true
          | none ↦ braced_name (to_lower high (trim_space expr)) false false
        ]
      ]

  abbrev prepend : KeySend → KeyResult (List KeySend) → KeyResult (List KeySend)
  prepend a (ok rest) = ok (a ∷ rest)
  prepend a (err e) = err e
  prepend a stuck = stuck

  abbrev prepend_result : KeyResult KeySend → KeyResult (List KeySend) → KeyResult (List KeySend)
  prepend_result (ok a) rest = prepend a rest
  prepend_result (err e) rest = err e
  prepend_result stuck rest = stuck

  -- The loop of `parseKeySend`; the list is `input[i:]`. What follows an action is parsed first
  -- here, so an error of the action goes before an error of the rest.
  send_loop : ℕ → Text → KeyResult (List KeySend)
  unfolding parse_braced
  send_loop zero input = stuck
  send_loop (suc fuel) [] = ok []
  send_loop (suc fuel) (c ∷ s) = elim (c == b'{') [
    | true ↦ elim (cut b'}' (c ∷ s)) [
      | none ↦ err unclosed_brace
      | some (before, after) ↦ prepend_result (parse_braced (drop 1 before)) (send_loop fuel after)
    ]
    | false ↦ elim (cut b'{' (c ∷ s)) [
      | none ↦ ok (literal (c ∷ s) ∷ [])
      | some (before, after) ↦ prepend (literal before) (send_loop fuel (b'{' ∷ after))
    ]
  ]

  unfoldable pub parse_key_send : Text → KeyResult (List KeySend)
  unfolding send_loop
  parse_key_send input = send_loop (suc (length input)) input
