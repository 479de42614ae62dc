-- ===== src/Window/Spec/Lexer.antt =====
-- `tokenizeMatchSpec` of window/match.go.
use perfuncted.Prelude.{
  ℕ, Bool, true, false, ◌||◌, Option, none, some, List, [], ◌∷◌, ◌++◌, is_empty, is_some, ◌==◌,
  if◌then◌else◌,
}
use perfuncted.Prelude.Int.{ℤ}
use perfuncted.Prelude.Text.{Text}

-- What the language uses of Go's strconv: `Quote` without the quotes it puts around, `Unquote` of a
-- text between two of the given quotes, and base 10.
pub record Strconv : Type 0 where
  pub quote_body : Text → Text
  pub unquote : ℕ → Text → Option Text
  pub format_int : ℤ → Text
  pub parse_int : Text → Option ℤ
  pub format_uint : ℕ → Text
  pub parse_uint : Text → Option ℕ

-- The variables of the scanner; `quote` is `none` for the rune 0.
pub record Lexer : Type 0 where
  pub tokens : List Text
  pub buf : Text
  pub quoted : Text
  pub quote : Option ℕ
  pub escaped : Bool

abbrev pub start : Lexer
start = record { tokens = []; buf = []; quoted = []; quote = none; escaped = false }

-- The fallback for a quoted text that is no Go literal: a backslash keeps what follows it.
unfoldable pub legacy : Bool → Text → Text
legacy false [] = []
legacy true [] = b'\\' ∷ []
legacy true (c ∷ s) = c ∷ legacy false s
legacy false (c ∷ s) =
    let kept = c ∷ legacy false s in
    let escape = legacy true s in if c == b'\\' then escape else kept

unfoldable pub flush : Lexer → Lexer
flush st = if is_empty st.buf then st else record st { tokens = st.tokens ++ st.buf ∷ []; buf = [] }

abbrev pub is_quote : ℕ → Bool
is_quote r = r == b'"' || r == b'\''

abbrev pub is_separator : ℕ → Bool
is_separator r = r == b' ' || r == b'\t' || r == b'\n' || r == b'\r' || r == b','

module _ (sc : Strconv) where
  unfoldable pub decode : ℕ → Text → Text
  unfolding legacy
  decode q content = elim (sc.unquote q content) [ some s ↦ s | none ↦ legacy false content ]

  unfoldable pub lex_quoted : ℕ → Lexer → ℕ → Lexer
  unfolding decode
  lex_quoted q st r =
      if st.escaped
      then record st { quoted = st.quoted ++ r ∷ []; escaped = false }
      else if r == b'\\'
      then record st { quoted = st.quoted ++ r ∷ []; escaped = true }
      else if r == q
      then record st { buf = st.buf ++ decode q st.quoted; quoted = []; quote = none }
      else record st { quoted = st.quoted ++ r ∷ [] }

  unfoldable pub lex_rune : Lexer → ℕ → Lexer
  unfolding lex_quoted flush
  lex_rune st r = elim st.quote [
    | some q ↦ lex_quoted q st r
    | none ↦
        if is_quote r
        then record st { quote = some r }
        else if is_separator r
        then flush st
        else record st { buf = st.buf ++ r ∷ [] }
  ]

  unfoldable pub lex : Lexer → Text → Lexer
  unfolding lex_rune
  lex st [] = st
  lex st (r ∷ s) = lex (lex_rune st r) s

  -- `none` for an unterminated quote.
  unfoldable pub tokenize : Text → Option (List Text)
  unfolding lex
  tokenize spec =
      let st = lex start spec in if is_some st.quote then none else some (flush st).tokens
