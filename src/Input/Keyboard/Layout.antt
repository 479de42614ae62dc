-- ===== src/Input/Keyboard/Layout.antt =====
-- input/wl_keyboard.go: what `sendkeys` works out before it sends anything, which characters and
-- named keys the new keymap has and the slot of each.
use perfuncted.Prelude.{
  ℕ, zero, suc, ◌+◌, ◌-◌, ◌/◌, ◌%◌, Bool, true, false, not, ◌&&◌, ◌||◌, Option, none, some, List,
  [], ◌∷◌, ◌++◌, is_empty, is_some, length, ltb, leb, mem, ◌==◌, if◌then◌else◌,
}
use perfuncted.Prelude.Text.{Text, codes, text_eq}
use perfuncted.Input.Keymap.{
  named_key, mod_bit, kc_super, kc_dyn_base, kc_dyn_max, max_dynamic_key_slots,
}
use perfuncted.Input.Keysend.{Modifiers, KeySend}
use perfuncted.Input.Keyboard.{
  XkbEntry, slot_entry, named_entry, Xkb, multi_character, bad_slot, too_many, shared_slot,
  out_of_slots, Out, done, failed,
}
use perfuncted.Input.Keyboard.Plan.{has_key, Sim, sim_actions}

module _ (high : ℕ → ℕ) where
  -- The runes of the actions in the order of their first use.
  add_runes : Text → List ℕ → List ℕ
  add_runes [] seen = seen
  add_runes (r ∷ text) seen = add_runes text (if mem r seen then seen else seen ++ r ∷ [])

  unfoldable pub runes_of : List KeySend → List ℕ → List ℕ
  unfolding add_runes
  runes_of [] seen = seen
  runes_of (a ∷ actions) seen = runes_of actions (
      if not (is_empty a.text)
      then add_runes a.text seen
      else if is_some (named_key high a.key)
      then seen
      else add_runes a.key seen)

  -- The held keys that are no named keys are single characters. No held key is the empty text.
  unfoldable pub held_runes : List Text → List ℕ → Out (List ℕ)
  held_runes [] seen = done seen
  held_runes ([] ∷ names) seen = failed (multi_character [])
  held_runes ((r ∷ rest) ∷ names) seen = elim (is_some (named_key high (r ∷ rest))) [
    | true ↦ held_runes names seen
    | false ↦ elim (is_empty rest) [
      | true ↦ held_runes names (if mem r seen then seen else seen ++ r ∷ [])
      | false ↦ failed (multi_character (r ∷ rest))
    ]
  ]

  abbrev is_plain_named : Text → Bool
  is_plain_named key = is_some (named_key high key) && (mod_bit high key == 0)

  unfoldable pub add_named : List Text → List Text → List Text
  unfolding has_key
  add_named [] seen = seen
  add_named (key ∷ keys) seen =
      add_named keys
        (if is_plain_named key && not (has_key key seen) then seen ++ key ∷ [] else seen)

abbrev pub keys_of : List KeySend → List Text
keys_of [] = []
keys_of (a ∷ actions) = let rest = keys_of actions in if is_empty a.text then a.key ∷ rest else rest

abbrev accelerator_runes : Text
accelerator_runes = codes "abcdefghijklmnopqrstuvwxyzABCDEFGHIJKLMNOPQRSTUVWXYZ0123456789"

stable_runes : List ℕ → List ℕ → List ℕ
stable_runes [] seen = seen
stable_runes (r ∷ runes) seen = stable_runes runes (if mem r seen then seen else seen ++ r ∷ [])

-- `sort.Strings`, on code points: the order of valid UTF-8 texts.
text_leb : Text → Text → Bool
text_leb [] t = true
text_leb (c ∷ s) [] = false
text_leb (c ∷ s) (d ∷ t) = ltb c d || ((c == d) && text_leb s t)

insert_name : Text → List Text → List Text
unfolding text_leb
insert_name s [] = s ∷ []
insert_name s (t ∷ ts) =
    let later = t ∷ insert_name s ts in if text_leb s t then s ∷ t ∷ ts else later

unfoldable pub sort_names : List Text → List Text
unfolding insert_name
sort_names [] = []
sort_names (s ∷ ts) = insert_name s (sort_names ts)

unfoldable pub held_slot : Text → List (Text × ℕ) → Option ℕ
held_slot key [] = none
held_slot key ((k, slot) ∷ held) = if text_eq k key then some slot else held_slot key held

-- A missing key of a Go map reads as 0.
abbrev pub slot_or_zero : Option ℕ → ℕ
slot_or_zero none = 0
slot_or_zero (some slot) = slot

-- The slots of the held keys, each in range and none shared.
unfoldable pub reserve : List (Text × ℕ) → List ℕ → Out (List ℕ)
reserve [] slots = done slots
reserve ((key, slot) ∷ held) slots =
    let rest = reserve held (slot ∷ slots) in
    if ltb slot 8 || ltb kc_dyn_max slot
    then failed (bad_slot slot)
    else if mem slot slots
    then failed shared_slot
    else rest

-- `takeSlot`: the first slot from `next` on that is not reserved, and the next after it.
-- `fuel` is at least the number of slots that are left.
unfoldable pub take_slot : ℕ → ℕ → List ℕ → Option (ℕ × ℕ)
take_slot zero next reserved = none
take_slot (suc fuel) next reserved = elim (leb next kc_dyn_max) [
  | false ↦ none
  | true ↦ elim (mem next reserved) [
    | true ↦ take_slot fuel (suc next) reserved
    | false ↦ some (next, suc next)
  ]
]

abbrev pub slot_fuel : ℕ
slot_fuel = kc_dyn_max + 2 - kc_dyn_base

-- The allocation loops of `sendkeys`: a slot for each item, the slot that a held item has already
-- or the next free one. The second number is the next slot.
module _ {A : Type 0} (slot_of : A → Option ℕ) (reserved : List ℕ) where
  abbrev pub prepend_slot : A → ℕ → Out (List (A × ℕ) × ℕ) → Out (List (A × ℕ) × ℕ)
  prepend_slot a slot (done (l, next)) = done ((a, slot) ∷ l, next)
  prepend_slot a slot (failed e) = failed e

  unfoldable pub assign : List A → ℕ → Out (List (A × ℕ) × ℕ)
  unfolding take_slot
  assign [] next = done ([], next)
  assign (a ∷ as_) next = elim (slot_of a) [
    | some slot ↦ prepend_slot a slot (assign as_ next)
    | none ↦ elim (take_slot slot_fuel next reserved) [
      | none ↦ failed out_of_slots
      | some (slot, after) ↦ prepend_slot a slot (assign as_ after)
    ]
  ]

pub record Layout : Type 0 where
  pub keymap : Xkb
  pub rune_slots : List (ℕ × ℕ)
  pub named_slots : List (Text × ℕ)

abbrev max_slot : {A : Type 0} → List (A × ℕ) → ℕ → ℕ
max_slot [] m = m
max_slot ((a, slot) ∷ l) m = max_slot l (if ltb m slot then slot else m)

abbrev entries : {A : Type 0} → (A → Text) → List (A × ℕ) → List XkbEntry
entries symbol [] = []
entries symbol ((a, slot) ∷ l) = slot_entry slot (symbol a) ∷ entries symbol l

abbrev digit : ℕ → ℕ
digit n = if ltb n 10 then n + 48 else n + 55

-- `%04X`, for a code point
hex : ℕ → Text
hex r =
    let d = λ (k : ℕ). digit (r / k % 16) in
    let low = d 4096 ∷ d 256 ∷ d 16 ∷ d 1 ∷ [] in
    if ltb r 65536 then low else if ltb r 1048576 then d 65536 ∷ low else d 1048576 ∷ d 65536 ∷ low

unfoldable pub xkb_keysym : ℕ → Text
unfolding hex
xkb_keysym r =
    if (leb b'a' r && leb r b'z') || (leb b'A' r && leb r b'Z') || (leb b'0' r && leb r b'9')
    then r ∷ []
    else if r == b' '
    then codes "space"
    else b'U' ∷ hex r

-- `xkbWithRunes`, for one character, and `xkbWithNamed`. The four modifiers are in every keymap.
unfoldable pub xkb_with_rune : ℕ → Xkb
unfolding xkb_keysym
xkb_with_rune r = record {
  maximum = kc_dyn_base;
  entries = slot_entry kc_dyn_base (xkb_keysym r) ∷ [];
}

unfoldable pub xkb_with_named : ℕ → Text → Xkb
xkb_with_named keycode symbol =
    if leb keycode kc_super
    then record { maximum = kc_super; entries = [] }
    else record { maximum = keycode; entries = named_entry keycode symbol ∷ [] }

abbrev pub names : List (Text × ℕ) → List Text
names [] = []
names ((key, slot) ∷ held) = key ∷ names held

abbrev slots_of : List (Text × ℕ) → List ℕ
slots_of [] = []
slots_of ((key, slot) ∷ held) = slot ∷ slots_of held

-- `k.held[key]` for the keys in the order of their names
abbrev pub by_names : List Text → List (Text × ℕ) → List (Text × ℕ)
by_names [] held = []
by_names (key ∷ keys) held = (key, slot_or_zero (held_slot key held)) ∷ by_names keys held

infixl 5 ◌then◌
unfoldable pub ◌then◌ : {A B : Type 0} → Out A → (A → Out B) → Out B
done a then f = f a
failed e then f = failed e

module _ (high : ℕ → ℕ) where
  abbrev symbol_of : Option (ℕ × Text) → Text
  symbol_of none = []
  symbol_of (some (keycode, symbol)) = symbol

  -- The slot that a held character has.
  abbrev rune_slot_of : List (Text × ℕ) → ℕ → Option ℕ
  rune_slot_of held r = if is_some (named_key high (r ∷ [])) then none else held_slot (r ∷ []) held

  -- The characters of the keymap: with the accelerator characters where all fit.
  unfoldable pub chosen_runes : List ℕ → List Text → List ℕ
  unfolding stable_runes
  chosen_runes runes named =
      let stable = stable_runes runes accelerator_runes in
      if leb (length stable + length named) max_dynamic_key_slots then stable else runes

  -- The allocation, once the check of the actions passed.
  unfoldable pub allocate : List (Text × ℕ) → List ℕ → List Text → Out Layout
  unfolding assign xkb_keysym held_slot ◌then◌
  allocate held runes named =
      assign (rune_slot_of held) (slots_of held) runes kc_dyn_base then λ (rune_slots, next).
      assign (λ key. held_slot key held) (slots_of held) named next then λ (named_slots, _).
      done (record {
        keymap = record {
          maximum = max_slot named_slots (max_slot rune_slots kc_super);
          entries =
              entries xkb_keysym rune_slots
              ++ entries (λ key. symbol_of (named_key high key)) named_slots;
        };
        rune_slots = rune_slots;
        named_slots = named_slots;
      })

  abbrev pub allocate_checked : List (Text × ℕ) → List ℕ → List Text → Sim → Out Layout
  allocate_checked held runes named _ = allocate held runes named

  abbrev pub check_actions :
      List KeySend → Modifiers → List (Text × ℕ) → List ℕ → List Text → List ℕ → Out Layout
  check_actions actions mods held runes named _ =
      sim_actions high actions (record { mods = mods; held = names held })
      then allocate_checked held runes named

  -- The two checks of the held keys, and the allocation.
  unfoldable pub checked_layout :
      List KeySend → Modifiers → List (Text × ℕ) → List ℕ → List Text → Out Layout
  unfolding reserve allocate sim_actions sort_names held_slot ◌then◌
  checked_layout actions mods held runes named =
      reserve (by_names (sort_names (names held)) held) []
      then check_actions actions mods held runes named

  unfoldable pub sized_layout :
      List KeySend → Modifiers → List (Text × ℕ) → List ℕ → List Text → Out Layout
  unfolding checked_layout
  sized_layout actions mods held runes named =
      if ltb max_dynamic_key_slots (length runes)
      then failed (too_many (length runes))
      else checked_layout actions mods held runes named

  abbrev pub layout_of :
      List KeySend → Modifiers → List (Text × ℕ) → List Text → List ℕ → Out Layout
  layout_of actions mods held named runes =
      sized_layout actions mods held (chosen_runes runes named) named

  -- `sendkeys` up to the upload of the keymap.
  unfoldable pub make_layout : List KeySend → Modifiers → List (Text × ℕ) → Out Layout
  unfolding runes_of held_runes add_named sort_names chosen_runes sized_layout ◌then◌
  make_layout actions mods held =
      let held_names = sort_names (names held) in
      let named = add_named high held_names (add_named high (keys_of actions) []) in
      held_runes high held_names (runes_of high actions []) then layout_of actions mods held named
