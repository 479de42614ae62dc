-- ===== src/Window/Spec/Scan.antt =====
-- The scanner on what the printer writes.
use mathlib.Core.List.{append_assoc, append-nil}
use perfuncted.Prelude.{
  ℕ, ◌≡◌, refl, sym, ap, ◌∙◌, Bool, true, false, not, ◌&&◌, none, some, List, [], ◌∷◌, ◌++◌,
  is_empty, ◌==◌, if◌then◌else◌, Bool-cases, inl, inr, arith,
}
use perfuncted.Prelude.Text.{Text}
use perfuncted.Window.Spec.Lexer.{Strconv, Lexer, is_quote, is_separator, decode, lex_rune, lex}

-- No quote and no separator in a text.
unfoldable pub all_plain : Text → Bool
all_plain [] = true
all_plain (c ∷ s) = (not (is_quote c) && not (is_separator c)) && all_plain s

-- Every `"` of a text follows a backslash, and the text ends outside an escape.
unfoldable pub closed : Bool → Text → Bool
closed false [] = true
closed true [] = false
closed true (c ∷ s) = closed false s
closed false (c ∷ s) =
    let escape = closed true s in
    let on = closed false s in if c == b'\\' then escape else if c == b'"' then false else on

abbrev pub idle : List Text → Text → Lexer
idle toks buf = record { tokens = toks; buf = buf; quoted = []; quote = none; escaped = false }

abbrev inside : List Text → Text → Text → Bool → Lexer
inside toks buf quoted escaped = record {
  tokens = toks;
  buf = buf;
  quoted = quoted;
  quote = some b'"';
  escaped = escaped;
}

-- One more rune behind a text.
snoc_append : (s t : Text) (c : ℕ) → (s ++ c ∷ []) ++ t ≡ s ++ (c ∷ t)
snoc_append s t c = append_assoc s (c ∷ []) t

module _ (sc : Strconv) where
  pub lex-append : (s : Text) (st : Lexer) (t : Text) → lex sc st (s ++ t) ≡ lex sc (lex sc st s) t
  unfolding lex
  lex-append [] st t = refl
  lex-append (c ∷ s) st t = lex-append s (lex_rune sc st c) t

  rune-idle :
      (toks : List Text) (buf : Text) (c : ℕ)
      → is_quote c ≡ false
      → is_separator c ≡ false
      → lex_rune sc (idle toks buf) c ≡ idle toks (buf ++ c ∷ [])
  unfolding lex_rune
  rune-idle toks buf c q s = rw q (rw s)

  pub lex-idle :
      (toks : List Text) (buf s : Text)
      → all_plain s ≡ true
      → lex sc (idle toks buf) s ≡ idle toks (buf ++ s)
  unfolding lex all_plain
  lex-idle toks buf [] h = ap (idle toks) (sym (append-nil buf))
  lex-idle toks buf (c ∷ s) h =
      ap (λ st. lex sc st s) (rune-idle toks buf c (ground arith) (ground arith))
      ∙ lex-idle toks (buf ++ c ∷ []) s (ground arith)
      ∙ ap (idle toks) (snoc_append buf s c)

  rune-inside :
      (toks : List Text) (buf quoted : Text) (escaped : Bool) (c : ℕ) (s : Text)
      → closed escaped (c ∷ s) ≡ true
      → (e : Bool) × (lex_rune sc (inside toks buf quoted escaped) c
          ≡ inside toks buf (quoted ++ c ∷ []) e)
        × (closed e s ≡ true)
  unfolding lex_rune closed
  rune-inside toks buf quoted true c s h = (false, refl, h)
  rune-inside toks buf quoted false c s h = elim (Bool-cases (c == b'\\')) [
    | inl escape ↦ (true, rw escape, rw escape at h)
    | inr other ↦ elim (Bool-cases (c == b'"')) [
      | inl quote_ ↦ absurd (ground arith)
      | inr on ↦ (false, rw other (rw on), rw on at (rw other at h))
    ]
  ]

  pub lex-inside :
      (s : Text) (toks : List Text) (buf quoted : Text) (escaped : Bool)
      → closed escaped s ≡ true
      → lex sc (inside toks buf quoted escaped) s ≡ inside toks buf (quoted ++ s) false
  unfolding lex
  lex-inside [] toks buf quoted false h =
      ap (λ q. inside toks buf q false) (sym (append-nil quoted))
  lex-inside [] toks buf quoted true h = unfold closed in cc
  lex-inside (c ∷ s) toks buf quoted escaped h =
      let (e, step, rest) = rune-inside toks buf quoted escaped c s h in
      ap (λ st. lex sc st s) step
      ∙ lex-inside s toks buf (quoted ++ c ∷ []) e rest
      ∙ ap (λ q. inside toks buf q false) (snoc_append quoted s c)

  -- A part of a specification that the scanner reads as the text `t` behind what it has.
  abbrev pub LexesTo : Text → Text → Type 0
  LexesTo p t = (toks : List Text) (buf : Text) → lex sc (idle toks buf) p ≡ idle toks (buf ++ t)

  pub LexesTo-append : (p q t u : Text) → LexesTo p t → LexesTo q u → LexesTo (p ++ q) (t ++ u)
  LexesTo-append p q t u a b toks buf =
      lex-append p (idle toks buf) q
      ∙ ap (λ st. lex sc st q) (a toks buf)
      ∙ b toks (buf ++ t)
      ∙ ap (idle toks) (append_assoc buf t u)

  pub LexesTo-plain : (p : Text) → all_plain p ≡ true → LexesTo p p
  LexesTo-plain p h toks buf = lex-idle toks buf p h

  rune-close :
      (toks : List Text) (buf body s : Text)
      → sc.unquote b'"' body ≡ some s
      → lex_rune sc (inside toks buf body false) b'"' ≡ idle toks (buf ++ s)
  unfolding lex_rune
  rune-close toks buf body s u = rw (u, decode)

  pub LexesTo-quoted :
      (body s : Text)
      → closed false body ≡ true
      → sc.unquote b'"' body ≡ some s
      → LexesTo ((b'"' ∷ body) ++ (b'"' ∷ [])) s
  unfolding lex lex_rune
  LexesTo-quoted body s h u toks buf =
      lex-append body (inside toks buf [] false) (b'"' ∷ [])
      ∙ ap (λ st. lex sc st (b'"' ∷ [])) (lex-inside body toks buf [] false h)
      ∙ rune-close toks buf body s u

  -- The parts of a specification beside the tokens that they give.
  abbrev pub Lexes : List Text → List Text → Type 0
  Lexes [] [] = Unit
  Lexes [] (t ∷ ts) = ⊥
  Lexes (p ∷ ps) [] = ⊥
  Lexes (p ∷ ps) (t ∷ ts) = LexesTo p t × (is_empty t ≡ false) × Lexes ps ts

  pub Lexes-append :
      (ps ts qs us : List Text) → Lexes ps ts → Lexes qs us → Lexes (ps ++ qs) (ts ++ us)
  Lexes-append [] [] qs us a b = b
  Lexes-append [] (t ∷ ts) qs us a b = absurd a
  Lexes-append (p ∷ ps) [] qs us a b = absurd a
  Lexes-append (p ∷ ps) (t ∷ ts) qs us a b = (a.0, a.1, Lexes-append ps ts qs us a.2 b)
