-- ===== src/Input/Keysend/Actions.antt =====
-- What the parser of key sequences gives: it always ends, and its actions are well formed.
use perfuncted.Prelude.{
  ℕ, zero, suc, ◌+◌, ◌<◌, ◌≤◌, ◌≡◌, ◌≢◌, ◌⊎◌, inl, inr, refl, Bool, true, false, ◌&&◌, Option, none,
  some, List, [], ◌∷◌, is_empty, length, drop, ◌==◌, if◌then◌else◌, Option-cases, Bool-cases, All,
  arith,
}
use perfuncted.Prelude.Text.{Text, codes}
use perfuncted.Window.Fold.{to_lower}
use perfuncted.Window.Spec.{cut}
use perfuncted.Input.Keysend.{
  KeySend, Modifiers, no_modifiers, KeyResult, KeyErr, ok, err, stuck, is_modifier_name,
  add_modifier, strip_suffix, trim_space, combo_key, combo_loop, parse_combo, braced_name,
  parse_braced, send_loop, parse_key_send, prepend_result, prepend,
}

cut_step :
    (c x : ℕ) (s : Text) (r : Option (Text × Text)) (a b : Text)
    → ((u v : Text) → r ≡ some (u, v) → length u + length v + 1 ≡ length s)
    → if◌then◌else◌ {A = Option (Text × Text)}
        (x == c)
        (some ([], s))
        (elim r [ none ↦ none | some (u, v) ↦ some (x ∷ u, v) ])
      ≡ some (a, b)
    → length a + length b + 1 ≡ suc (length s)
cut_step c x s none a b rest h = ground arith
cut_step c x s (some (u, v)) a b rest h = ground (arith, rest u v refl)

-- What `cut` finds is the text, with the separator between.
length-cut : (c : ℕ) (s a b : Text) → cut c s ≡ some (a, b) → length a + length b + 1 ≡ length s
unfolding cut
length-cut c [] a b h = cc
length-cut c (x ∷ s) a b h = cut_step c x s (cut c s) a b (length-cut c s) h

-- A part that starts with another character than the separator is not empty.
cut_head : (c x : ℕ) (s a b : Text) → x ≢ c → cut c (x ∷ s) ≡ some (a, b) → is_empty a ≡ false
unfolding cut
cut_head c x s a b ne h = elim (Option-cases (cut c s)) [
  | inl e ↦ ground arith
  | inr ((u, v), e) ↦ ground arith
]

length_filled : (s : Text) → is_empty s ≡ false → 1 ≤ length s
length_filled [] h = cc
length_filled (c ∷ s) h = omega arith

-- An action is literal text, or a key with its modifiers; a key that goes both down and up is
-- neither, and a key with modifiers is not one of them.
abbrev pub IsText : KeySend → Type 0
IsText a =
    (is_empty a.text ≡ false)
    × (is_empty a.key ≡ true)
    × (a.down ≡ false)
    × (a.up ≡ false)
    × (a.modifiers ≡ no_modifiers)

abbrev pub IsKey : KeySend → Type 0
IsKey a =
    (is_empty a.text ≡ true)
    × (is_empty a.key ≡ false)
    × ((a.down && a.up) ≡ false)
    × ((a.modifiers ≡ no_modifiers) ⊎ (is_modifier_name a.key ≡ false))

abbrev pub IsAction : KeySend → Type 0
IsAction a = IsText a ⊎ IsKey a

abbrev EachKey : KeyResult KeySend → Type 0
EachKey (ok a) = IsKey a
EachKey (err e) = Unit
EachKey stuck = ⊥

abbrev EachAction : KeyResult (List KeySend) → Type 0
EachAction (ok l) = All IsAction l
EachAction (err e) = Unit
EachAction stuck = ⊥

module _ (high : ℕ → ℕ) (high_space : ℕ → Bool) where
  combo_key-EachKey :
      (rest : Text) (down up : Bool) (m : Modifiers)
      → (down && up) ≡ false
      → EachKey (combo_key high high_space rest down up m)
  unfolding combo_key
  combo_key-EachKey rest down up m h =
      elim (Bool-cases (is_empty (trim_space high high_space rest))) [
        | inl e ↦ rw e tt
        | inr e ↦ elim (Bool-cases (is_modifier_name (trim_space high high_space rest))) [
          | inl k ↦ rw e (rw k tt)
          | inr k ↦ rw e (rw k (refl, e, h, inr k))
        ]
      ]

  combo_loop-EachKey :
      (fuel : ℕ) (rest : Text) (down up : Bool) (m : Modifiers)
      → length rest < fuel
      → (down && up) ≡ false
      → EachKey (combo_loop high high_space fuel rest down up m)
  unfolding combo_loop
  combo_loop-EachKey zero rest down up m l h = absurd (omega arith)
  combo_loop-EachKey (suc fuel) rest down up m l h = elim (Option-cases (cut b'+' rest)) [
    | inl e ↦ rw (e, EachKey) (combo_key-EachKey rest down up m h)
    | inr ((part, after), e) ↦
        elim (Option-cases (add_modifier (trim_space high high_space part) m)) [
          | inl none_ ↦ rw (e, EachKey) (rw (none_, EachKey) tt)
          | inr (n, added) ↦
              rw (e, EachKey)
                (rw (added, EachKey)
                  (combo_loop-EachKey fuel after down up n
                    (omega (arith, length-cut b'+' rest part after e)) h))
        ]
  ]

  parse_combo-EachKey :
      (name : Text) (down up : Bool)
      → (down && up) ≡ false
      → EachKey (parse_combo high high_space name down up)
  unfolding parse_combo
  parse_combo-EachKey name down up h = elim (Option-cases (cut b'+' name)) [
    | inl c ↦ rw (c, EachKey) tt
    | inr (p, c) ↦
        rw (c, EachKey)
          (combo_loop-EachKey (suc (length name)) name down up no_modifiers (omega arith) h)
  ]

  braced_name-EachKey :
      (name : Text) (down up : Bool)
      → (down && up) ≡ false
      → EachKey (braced_name high high_space name down up)
  unfolding braced_name
  braced_name-EachKey name down up h = elim (Bool-cases (is_empty name)) [
    | inl e ↦ rw e tt
    | inr e ↦ elim (Option-cases (cut b'+' name)) [
      | inl c ↦ rw e (rw (c, EachKey) (refl, e, h, inl refl))
      | inr (p, c) ↦ rw e (rw (c, EachKey) (parse_combo-EachKey name down up h))
    ]
  ]

  parse_braced-EachKey : (expr : Text) → EachKey (parse_braced high high_space expr)
  unfolding parse_braced
  parse_braced-EachKey expr =
      let lowered = to_lower high (trim_space high high_space expr) in
      elim (Bool-cases (is_empty (trim_space high high_space expr))) [
        | inl e ↦ rw e tt
        | inr e ↦ elim (Option-cases (strip_suffix lowered (codes " down"))) [
          | inr (n, d) ↦ rw e (rw (d, EachKey) (braced_name-EachKey _ true false refl))
          | inl d ↦ elim (Option-cases (strip_suffix lowered (codes " up"))) [
            | inr (n, u) ↦
                rw e (rw (d, EachKey) (rw (u, EachKey) (braced_name-EachKey _ false true refl)))
            | inl u ↦
                rw e (rw (d, EachKey) (rw (u, EachKey) (braced_name-EachKey _ false false refl)))
          ]
        ]
      ]

  prepend_result-EachAction :
      (r : KeyResult KeySend) (rest : KeyResult (List KeySend))
      → EachKey r
      → EachAction rest
      → EachAction (prepend_result high high_space r rest)
  prepend_result-EachAction (ok a) (ok l) k h = (inr k, h)
  prepend_result-EachAction (ok a) (err e) k h = tt
  prepend_result-EachAction (ok a) stuck k h = h
  prepend_result-EachAction (err e) rest k h = tt
  prepend_result-EachAction stuck rest k h = absurd k

  prepend-EachAction :
      (a : KeySend) (rest : KeyResult (List KeySend))
      → IsAction a
      → EachAction rest
      → EachAction (prepend high high_space a rest)
  prepend-EachAction a (ok l) k h = (k, h)
  prepend-EachAction a (err e) k h = tt
  prepend-EachAction a stuck k h = h

  send_loop-EachAction :
      (fuel : ℕ) (input : Text)
      → length input < fuel
      → EachAction (send_loop high high_space fuel input)
  unfolding send_loop
  send_loop-EachAction zero input l = absurd (omega arith)
  send_loop-EachAction (suc fuel) [] l = tt
  send_loop-EachAction (suc fuel) (c ∷ s) l = elim (Bool-cases (c == b'{')) [
    | inl e ↦ elim (Option-cases (cut b'}' (c ∷ s))) [
      | inl n ↦ rw (e, EachAction) (rw (n, EachAction) tt)
      | inr ((before, after), f) ↦
          rw (e, EachAction)
            (rw (f, EachAction)
              (prepend_result-EachAction _ _ (parse_braced-EachKey (drop 1 before)) (
                send_loop-EachAction fuel after
                  (omega (arith, length-cut b'}' (c ∷ s) before after f)))))
    ]
    | inr e ↦ elim (Option-cases (cut b'{' (c ∷ s))) [
      | inl n ↦ rw (e, EachAction) (rw (n, EachAction) (inl (refl, refl, refl, refl, refl), tt))
      | inr ((before, after), f) ↦
          let filled : is_empty before ≡ false = cut_head b'{' c s before after (ground arith) f in
          rw (e, EachAction)
            (rw (f, EachAction)
              (prepend-EachAction _ _ (inl (filled, refl, refl, refl, refl)) (
                send_loop-EachAction fuel (b'{' ∷ after) (
                  omega
                    (arith, length-cut b'{' (c ∷ s) before after f, length_filled before filled)))))
    ]
  ]

  -- The parser never runs out of fuel, and each action that it gives is literal text or a key,
  -- never both; no key goes down and up at once, and a key that comes with modifiers is none of them.
  pub parse_key_send-IsAction :
      (input : Text)
      → ((e : KeyErr) × (parse_key_send high high_space input ≡ err e))
        ⊎ ((l : List KeySend) × (parse_key_send high high_space input ≡ ok l) × All IsAction l)
  unfolding parse_key_send
  parse_key_send-IsAction input =
      sum_up (send_loop high high_space (suc (length input)) input)
        (send_loop-EachAction (suc (length input)) input (omega arith))
    where
      sum_up :
          (r : KeyResult (List KeySend))
          → EachAction r
          → ((e : KeyErr) × (r ≡ err e)) ⊎ ((l : List KeySend) × (r ≡ ok l) × All IsAction l)
      sum_up (ok l) h = inr (l, refl, h)
      sum_up (err e) h = inl (e, refl)
      sum_up stuck h = absurd h
