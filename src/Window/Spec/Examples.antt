-- ===== src/Window/Spec/Examples.antt =====
-- The specification language at concrete texts, with a printer and a reader that meet the laws.
use perfuncted.Prelude.{
  ℕ, zero, suc, ◌≡◌, refl, ap, Bool, true, false, ◌||◌, Option, none, some, [], ◌∷◌, length, ◌==◌,
  if◌then◌else◌, arith,
}
use perfuncted.Prelude.Int.{ℤ, pos, negsuc}
use perfuncted.Prelude.Text.{Text, codes, text_eq}
use perfuncted.Window.Fold.{lower}
use perfuncted.Window.Match.{Match, any_window}
use perfuncted.Window.Spec.{
  ok, err, multiple_titles, unterminated_quote, match_parts, match_string, parse_match_spec,
  apply_tokens, apply_token,
}
use perfuncted.Window.Spec.Lexer.{Strconv, tokenize}
use perfuncted.Window.Spec.Scan.{all_plain, closed}
use perfuncted.Window.Spec.Printed.{IsStrconv, IsTyped}
use perfuncted.Window.Spec.RoundTrip.{parse_match_spec-match_string}

escape : Text → Text
escape [] = []
escape (c ∷ s) = if c == b'"' || c == b'\\' then b'\\' ∷ c ∷ escape s else c ∷ escape s

unescape : Bool → Text → Text
unescape b [] = []
unescape true (c ∷ s) = c ∷ unescape false s
unescape false (c ∷ s) =
    let kept = c ∷ unescape false s in let on = unescape true s in if c == b'\\' then on else kept

ones : ℕ → Text
ones zero = []
ones (suc n) = b'1' ∷ ones n

abbrev format_int : ℤ → Text
format_int (pos n) = b'+' ∷ ones n
format_int (negsuc n) = b'-' ∷ ones n

abbrev parse_int : Text → Option ℤ
parse_int [] = none
parse_int (c ∷ s) = if c == b'+' then some (pos (length s)) else some (negsuc (length s))

abbrev small : Strconv
small = record {
  quote_body = escape;
  unquote = λ q s. some (unescape false s);
  format_int = format_int;
  parse_int = parse_int;
  format_uint = ones;
  parse_uint = λ s. some (length s);
}

unescape-escape : (s : Text) → unescape false (escape s) ≡ s
unfolding escape unescape
unescape-escape [] = refl
unescape-escape (c ∷ s) = ground (arith, unescape-escape s)

closed-escape : (s : Text) → closed false (escape s) ≡ true
unfolding escape closed
closed-escape [] = refl
closed-escape (c ∷ s) = ground (arith, closed-escape s)

length-ones : (n : ℕ) → length (ones n) ≡ n
unfolding ones
length-ones zero = refl
length-ones (suc n) = ap suc (length-ones n)

ones_plain : (n : ℕ) → all_plain (ones n) ≡ true
unfolding ones all_plain
ones_plain zero = refl
ones_plain (suc n) = ones_plain n

int_back : (v : ℤ) → parse_int (format_int v) ≡ some v
int_back (pos n) = ap (λ k. some (pos k)) (length-ones n)
int_back (negsuc n) = ap (λ k. some (negsuc k)) (length-ones n)

format_int_plain : (v : ℤ) → all_plain (format_int v) ≡ true
unfolding all_plain
format_int_plain (pos n) = ones_plain n
format_int_plain (negsuc n) = ones_plain n

small-IsStrconv : IsStrconv small
small-IsStrconv = record {
  unquote-quote = λ s. ap (λ t. some t) (unescape-escape s);
  quote_closed = closed-escape;
  parse-format_int = λ v t. int_back v;
  int_plain = format_int_plain;
  parse-format_uint = λ v t. ap (λ k. some k) (length-ones v);
  uint_plain = ones_plain;
}

abbrev sought : Match
sought = record any_window {
  title_contains = codes "say \"a, b\"";
  pid = some (negsuc 1);
  minimized = some false;
  visible_only = true;
}

sought-IsTyped : IsTyped sought
sought-IsTyped = record { pid = (omega arith, omega arith); id = tt }

parse_match_spec-match_string_example :
    parse_match_spec (λ c. c) small (match_string small sought) ≡ ok sought
unfolding match_parts
parse_match_spec-match_string_example =
    parse_match_spec-match_string (λ c. c) small small-IsStrconv sought sought-IsTyped refl

-- The form that is printed for the predicate with no field is not read back.
any_window_fails :
    parse_match_spec (λ c. c) small (match_string small any_window) ≡ err multiple_titles
unfolding parse_match_spec match_string match_parts tokenize apply_tokens apply_token lower text_eq
any_window_fails = refl

unterminated : parse_match_spec (λ c. c) small (codes "title=\"x") ≡ err unterminated_quote
unfolding parse_match_spec tokenize
unterminated = refl
