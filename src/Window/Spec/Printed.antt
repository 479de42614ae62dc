-- ===== src/Window/Spec/Printed.antt =====
-- window/match.go: the tokens of a printed predicate.
use perfuncted.Prelude.{
  ℕ, ◌-◌, ◌^◌, ◌<◌, ◌≡◌, refl, Bool, true, false, Option, none, some, List, [], ◌∷◌, ◌++◌, is_empty,
  if◌then◌else◌,
}
use perfuncted.Prelude.Int.{ℤ, pos, negsuc, ◌≤ℤ◌}
use perfuncted.Prelude.Text.{Text, codes}
use perfuncted.Window.Match.{Match}
use perfuncted.Window.Match.Meaning.{WhenSet}
use perfuncted.Window.Spec.{text_part, int_part, id_part, bool_part, visible_part, match_parts}
use perfuncted.Window.Spec.Lexer.{Strconv}
use perfuncted.Window.Spec.Scan.{
  all_plain, closed, Lexes, Lexes-append, LexesTo-append, LexesTo-plain, LexesTo-quoted,
}

abbrev pub IsInt32 : ℤ → Type 0
IsInt32 v = (negsuc (2 ^ 31 - 1) ≤ℤ v) × (v ≤ℤ pos (2 ^ 31 - 1))

-- What strconv documents: `Unquote` undoes `Quote`, whose output ends at its second bare quote;
-- `ParseInt` and `ParseUint` read the digits that are printed for a value of the type.
pub record IsStrconv (sc : Strconv) : Type 0 where
  pub unquote-quote : (s : Text) → sc.unquote b'"' (sc.quote_body s) ≡ some s
  pub quote_closed : (s : Text) → closed false (sc.quote_body s) ≡ true
  pub parse-format_int : (v : ℤ) → IsInt32 v → sc.parse_int (sc.format_int v) ≡ some v
  pub int_plain : (v : ℤ) → all_plain (sc.format_int v) ≡ true
  pub parse-format_uint : (v : ℕ) → v < 2 ^ 64 → sc.parse_uint (sc.format_uint v) ≡ some v
  pub uint_plain : (v : ℕ) → all_plain (sc.format_uint v) ≡ true

-- The pointer fields hold values of their types.
pub record IsTyped (m : Match) : Type 0 where
  pub pid : WhenSet m.pid IsInt32
  pub id : WhenSet m.id (λ v. v < 2 ^ 64)

-- What the scanner gives for the printed parts.
abbrev pub text_token : Text → Text → List Text
text_token prefix s = if is_empty s then [] else (prefix ++ s) ∷ []

module _ (sc : Strconv) where
  abbrev pub tokens_of : Match → List Text
  tokens_of m =
      text_token (codes "title=") m.title_exact
      ++ (text_token (codes "title~=") m.title_contains
          ++ (text_token (codes "app_id=") m.app_id
              ++ (text_token (codes "class=") m.class
                  ++ (int_part sc m.pid
                      ++ (id_part sc m.id
                          ++ (bool_part sc (codes "active=") m.active
                              ++ (bool_part sc (codes "minimized=") m.minimized
                                  ++ (bool_part sc (codes "maximized=") m.maximized
                                      ++ (bool_part sc (codes "fullscreen=") m.fullscreen
                                          ++ visible_part sc m.visible_only)))))))))

  module _ (h : IsStrconv sc) where
    Lexes-text :
        (c : ℕ) (prefix s : Text)
        → all_plain (c ∷ prefix) ≡ true
        → Lexes sc (text_part sc (c ∷ prefix) s) (text_token (c ∷ prefix) s)
    Lexes-text c prefix [] p = tt
    Lexes-text c prefix (x ∷ s) p = (
      LexesTo-append sc (c ∷ prefix) _ (c ∷ prefix) (x ∷ s) (LexesTo-plain sc (c ∷ prefix) p) (
          LexesTo-quoted sc (sc.quote_body (x ∷ s)) (x ∷ s) (h.quote_closed (x ∷ s))
            (h.unquote-quote (x ∷ s))),
      refl,
      tt,
    )

    Lexes-int : (o : Option ℤ) → Lexes sc (int_part sc o) (int_part sc o)
    unfolding all_plain
    Lexes-int none = tt
    Lexes-int (some v) =
        (LexesTo-plain sc (codes "pid=" ++ sc.format_int v) (h.int_plain v), refl, tt)

    Lexes-id : (o : Option ℕ) → Lexes sc (id_part sc o) (id_part sc o)
    unfolding all_plain
    Lexes-id none = tt
    Lexes-id (some v) =
        (LexesTo-plain sc (codes "id=" ++ sc.format_uint v) (h.uint_plain v), refl, tt)

    Lexes-bool :
        (c : ℕ) (prefix : Text) (o : Option Bool)
        → all_plain (c ∷ prefix) ≡ true
        → Lexes sc (bool_part sc (c ∷ prefix) o) (bool_part sc (c ∷ prefix) o)
    Lexes-bool c prefix none p = tt
    Lexes-bool c prefix (some true) p = (
      LexesTo-append sc (c ∷ prefix) (codes "true") (c ∷ prefix) (codes "true")
          (LexesTo-plain sc (c ∷ prefix) p)
          (LexesTo-plain sc (codes "true") (unfold all_plain in refl)),
      refl,
      tt,
    )
    Lexes-bool c prefix (some false) p = (
      LexesTo-append sc (c ∷ prefix) (codes "false") (c ∷ prefix) (codes "false")
          (LexesTo-plain sc (c ∷ prefix) p)
          (LexesTo-plain sc (codes "false") (unfold all_plain in refl)),
      refl,
      tt,
    )

    Lexes-visible : (b : Bool) → Lexes sc (visible_part sc b) (visible_part sc b)
    unfolding all_plain
    Lexes-visible true = (LexesTo-plain sc _ refl, refl, tt)
    Lexes-visible false = tt

    pub Lexes-parts : (m : Match) → Lexes sc (match_parts sc m) (tokens_of m)
    unfolding match_parts all_plain
    Lexes-parts m = Lexes-append sc _ _ _ _ (Lexes-text b't' (codes "itle=") m.title_exact refl) (
        Lexes-append sc _ _ _ _ (Lexes-text b't' (codes "itle~=") m.title_contains refl) (
          Lexes-append sc _ _ _ _ (Lexes-text b'a' (codes "pp_id=") m.app_id refl) (
            Lexes-append sc _ _ _ _ (Lexes-text b'c' (codes "lass=") m.class refl) (
              Lexes-append sc _ _ _ _ (Lexes-int m.pid) (
                Lexes-append sc _ _ _ _ (Lexes-id m.id) (
                  Lexes-append sc _ _ _ _ (Lexes-bool b'a' (codes "ctive=") m.active refl) (
                    Lexes-append sc _ _ _ _ (Lexes-bool b'm' (codes "inimized=") m.minimized refl) (
                      Lexes-append sc _ _ _ _ (Lexes-bool b'm' (codes "aximized=") m.maximized refl)
                        (Lexes-append sc _ _ _ _
                          (Lexes-bool b'f' (codes "ullscreen=") m.fullscreen refl)
                          (Lexes-visible m.visible_only))))))))))
