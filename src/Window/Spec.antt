-- ===== src/Window/Spec.antt =====
-- window/match.go: the specification language of window predicates, `ParseMatchSpec`, and its
-- printer, the method `String` of `Match`.
-- Errors keep what is wrong and leave the wording out.
pub mod Lexer
mod Scan
mod Printed
pub mod RoundTrip
mod Examples
use Lexer.{Strconv, tokenize}
use perfuncted.Prelude.{
  ℕ, ◌≡◌, Bool, true, false, not, ◌&&◌, ◌||◌, Option, none, some, List, [], ◌∷◌, ◌++◌, is_empty,
  ◌==◌, if◌then◌else◌,
}
use perfuncted.Prelude.Int.{ℤ}
use perfuncted.Prelude.Text.{Text, codes, text_eq}
use perfuncted.Window.Fold.{to_lower, lower}
use perfuncted.Window.Match.{Match, any_window}

pub data SpecErr : Type 0 where
  unterminated_quote multiple_titles : SpecErr
  bad_pid bad_id unknown_state unknown_key : Text → SpecErr
  bad_bool : Text → Text → SpecErr

pub data Parsed {ℓ} (A : Type ℓ) : Type ℓ where
  ok : A → Parsed A
  err : SpecErr → Parsed A

infixl 5 ◌>>=◌
abbrev pub ◌>>=◌ {ℓ κ} : {A : Type ℓ} {B : Type κ} → Parsed A → (A → Parsed B) → Parsed B
ok a >>= f = f a
err e >>= f = err e

-- `strings.Cut` at one character: `none` where it is not found.
unfoldable pub cut : ℕ → Text → Option (Text × Text)
cut sep [] = none
cut sep (c ∷ s) =
    let rest = cut sep s in
    if c == sep then some ([], s) else elim rest [ none ↦ none | some (a, b) ↦ some (c ∷ a, b) ]

-- `strings.HasSuffix(s, "~")` and `strings.TrimSuffix(s, "~")`.
has_tilde : Text → Bool
has_tilde [] = false
has_tilde (c ∷ []) = c == b'~'
has_tilde (c ∷ d ∷ s) = has_tilde (d ∷ s)

trim_tilde : Text → Text
trim_tilde [] = []
trim_tilde (c ∷ []) = if c == b'~' then [] else c ∷ []
trim_tilde (c ∷ d ∷ s) = c ∷ trim_tilde (d ∷ s)

abbrev is_word : Text → Text → Bool
is_word s w = text_eq s w

module _ (high : ℕ → ℕ) where
  unfoldable pub parse_match_bool : Text → Option Bool
  unfolding lower text_eq
  parse_match_bool v =
      let w = to_lower high v in
      if is_empty v
      then some true
      else if text_eq w (codes "1")
          || text_eq w (codes "t")
          || text_eq w (codes "true")
          || text_eq w (codes "yes")
          || text_eq w (codes "on")
      then some true
      else if text_eq w (codes "0")
          || text_eq w (codes "f")
          || text_eq w (codes "false")
          || text_eq w (codes "no")
          || text_eq w (codes "off")
      then some false
      else none

  -- `on` is the flag, `name` what follows the `-`.
  set_state : Match → Bool → Text → Text → Parsed Match
  unfolding lower text_eq
  set_state m on name raw =
      if text_eq name (codes "active")
      then ok (record m { active = some on })
      else if text_eq name (codes "minimized")
      then ok (record m { minimized = some on })
      else if text_eq name (codes "maximized")
      then ok (record m { maximized = some on })
      else if text_eq name (codes "fullscreen")
      then ok (record m { fullscreen = some on })
      else if text_eq name (codes "visible") || text_eq name (codes "visible-only")
      then ok (record m { visible_only = on })
      else err (unknown_state raw)

  unfoldable pub apply_match_state : Match → Text → Parsed Match
  unfolding set_state
  apply_match_state m [] = set_state m true [] []
  apply_match_state m (c ∷ s) =
      if c == b'-'
      then set_state m false (to_lower high s) (c ∷ s)
      else set_state m true (to_lower high (c ∷ s)) (c ∷ s)

  -- The branch of the loop of `ParseMatchSpec` for a token with no value.
  unfoldable pub apply_word : Match → Text → Parsed Match
  unfolding lower text_eq
  apply_word m tok =
      let w = to_lower high tok in
      if text_eq w (codes "active")
      then ok (record m { active = some true })
      else if text_eq w (codes "minimized")
      then ok (record m { minimized = some true })
      else if text_eq w (codes "maximized")
      then ok (record m { maximized = some true })
      else if text_eq w (codes "fullscreen")
      then ok (record m { fullscreen = some true })
      else if text_eq w (codes "visible") || text_eq w (codes "visible-only")
      then ok (record m { visible_only = true })
      else if not (is_empty m.title_contains)
      then err multiple_titles
      else ok (record m { title_contains = tok })

  abbrev flag : Text → Text → (Bool → Match) → Parsed Match
  flag key val set = elim (parse_match_bool val) [
    | none ↦ err (bad_bool key val)
    | some b ↦ ok (set b)
  ]

  module _ (sc : Strconv) where
    -- The branch for a token with a value; `k` is the key that the `switch` compares.
    apply_key : Match → Text → Text → Text → Parsed Match
    unfolding parse_match_bool has_tilde apply_match_state
    apply_key m k key val =
        if text_eq k (codes "title")
        then ok (
            if has_tilde key
            then record m { title_contains = val }
            else record m { title_exact = val })
        else if text_eq k (codes "app") || text_eq k (codes "app_id") || text_eq k (codes "appid")
        then ok (record m { app_id = val })
        else if text_eq k (codes "class")
        then ok (record m { class = val })
        else if text_eq k (codes "pid")
        then elim (sc.parse_int val) [
          | none ↦ err (bad_pid val)
          | some v ↦ ok (record m { pid = some v })
        ]
        else if text_eq k (codes "id")
        then elim (sc.parse_uint val) [
          | none ↦ err (bad_id val)
          | some v ↦ ok (record m { id = some v })
        ]
        else if text_eq k (codes "state")
        then apply_match_state m val
        else if text_eq k (codes "active")
        then flag k val (λ b. record m { active = some b })
        else if text_eq k (codes "minimized")
        then flag k val (λ b. record m { minimized = some b })
        else if text_eq k (codes "maximized")
        then flag k val (λ b. record m { maximized = some b })
        else if text_eq k (codes "fullscreen")
        then flag k val (λ b. record m { fullscreen = some b })
        else if text_eq k (codes "visible") || text_eq k (codes "visible-only")
        then flag k val (λ b. record m { visible_only = b })
        else err (unknown_key key)

    apply_value : Match → Text × Text → Parsed Match
    unfolding apply_key trim_tilde
    apply_value m (key, val) = apply_key m (to_lower high (trim_tilde key)) key val

    -- One round of the loop of `ParseMatchSpec`.
    unfoldable pub apply_token : Match → Text → Parsed Match
    unfolding apply_word apply_value cut
    apply_token m tok = elim (cut b'=' tok) [
      | some kv ↦ apply_value m kv
      | none ↦ elim (cut b':' tok) [ some kv ↦ apply_value m kv | none ↦ apply_word m tok ]
    ]

    unfoldable pub apply_tokens : Match → List Text → Parsed Match
    apply_tokens m [] = ok m
    apply_tokens m (tok ∷ toks) = apply_token m tok >>= λ n. apply_tokens n toks

    unfoldable pub parse_match_spec : Text → Parsed Match
    parse_match_spec spec = elim (tokenize sc spec) [
      | none ↦ err unterminated_quote
      | some toks ↦ apply_tokens any_window toks
    ]

-- The method `String` of `Match`: one part for each field that is set.
module _ (sc : Strconv) where
  abbrev pub text_part : Text → Text → List Text
  text_part prefix s =
      if is_empty s then [] else (prefix ++ (b'"' ∷ sc.quote_body s ++ b'"' ∷ [])) ∷ []

  abbrev pub int_part : Option ℤ → List Text
  int_part none = []
  int_part (some v) = (codes "pid=" ++ sc.format_int v) ∷ []

  abbrev pub id_part : Option ℕ → List Text
  id_part none = []
  id_part (some v) = (codes "id=" ++ sc.format_uint v) ∷ []

  abbrev pub bool_part : Text → Option Bool → List Text
  bool_part prefix none = []
  bool_part prefix (some true) = (prefix ++ codes "true") ∷ []
  bool_part prefix (some false) = (prefix ++ codes "false") ∷ []

  abbrev pub visible_part : Bool → List Text
  visible_part true = codes "visible-only" ∷ []
  visible_part false = []

  unfoldable pub match_parts : Match → List Text
  match_parts m =
      text_part (codes "title=") m.title_exact
      ++ (text_part (codes "title~=") m.title_contains
          ++ (text_part (codes "app_id=") m.app_id
              ++ (text_part (codes "class=") m.class
                  ++ (int_part m.pid
                      ++ (id_part m.id
                          ++ (bool_part (codes "active=") m.active
                              ++ (bool_part (codes "minimized=") m.minimized
                                  ++ (bool_part (codes "maximized=") m.maximized
                                      ++ (bool_part (codes "fullscreen=") m.fullscreen
                                          ++ visible_part m.visible_only)))))))))

  -- `strings.Join(parts, " ")`
  unfoldable pub join : List Text → Text
  join [] = []
  join (p ∷ []) = p
  join (p ∷ q ∷ ps) = p ++ b' ' ∷ join (q ∷ ps)

  unfoldable pub match_string : Match → Text
  match_string m = if is_empty (match_parts m) then codes "<any window>" else join (match_parts m)
