-- ===== src/Window/Spec/RoundTrip.antt =====
-- Parsing what `Match.String` prints.
use mathlib.Core.Path.{fun_ext}
use mathlib.Core.List.{append_assoc}
use perfuncted.Prelude.{
  ℕ, ◌^◌, ◌<◌, ◌≡◌, refl, sym, ap, ◌∙◌, Bool, true, false, Option, none, some, List, [], ◌∷◌, ◌++◌,
  is_empty, is_some, arith,
}
use perfuncted.Prelude.Int.{ℤ}
use perfuncted.Prelude.Text.{Text, codes, text_eq}
use perfuncted.Window.Fold.{lower}
use perfuncted.Window.Match.{Match, any_window}
use perfuncted.Window.Match.Meaning.{WhenSet}
use perfuncted.Window.Spec.{
  Parsed, ok, err, ◌>>=◌, apply_token, apply_tokens, parse_match_spec, int_part, id_part, bool_part,
  visible_part, match_parts, join, match_string,
}
use perfuncted.Window.Spec.Lexer.{Strconv, Lexer, flush, lex, tokenize}
use perfuncted.Window.Spec.Scan.{idle, Lexes, lex-append}
use perfuncted.Window.Spec.Printed.{IsStrconv, IsTyped, Lexes-parts, IsInt32, text_token, tokens_of}

-- Parts joined by blanks are read as their tokens.
module _ (sc : Strconv) where
  flush-idle :
      (toks : List Text) (t : Text)
      → is_empty t ≡ false
      → flush (idle toks t) ≡ idle (toks ++ t ∷ []) []
  unfolding flush
  flush-idle toks t e = rw e

  lex-blank :
      (toks : List Text) (t s : Text)
      → flush (lex sc (idle toks t) (b' ' ∷ s)) ≡ flush (lex sc (flush (idle toks t)) s)
  unfolding lex
  lex-blank toks t s = refl

  Lexes-join :
      (p : Text) (ps ts toks : List Text)
      → Lexes sc (p ∷ ps) ts
      → flush (lex sc (idle toks []) (join sc (p ∷ ps))) ≡ idle (toks ++ ts) []
  unfolding join
  Lexes-join p [] [] toks h = absurd h
  Lexes-join p (q ∷ ps) [] toks h = absurd h
  Lexes-join p [] (t ∷ []) toks h = ap flush (h.0 toks []) ∙ flush-idle toks t h.1
  Lexes-join p [] (t ∷ u ∷ ts) toks h = absurd h.2
  Lexes-join p (q ∷ ps) (t ∷ ts) toks h =
      ap flush (lex-append sc p (idle toks []) (b' ' ∷ join sc (q ∷ ps)))
      ∙ ap (λ st. flush (lex sc st (b' ' ∷ join sc (q ∷ ps)))) (h.0 toks [])
      ∙ lex-blank toks t (join sc (q ∷ ps))
      ∙ ap (λ st. flush (lex sc st (join sc (q ∷ ps)))) (flush-idle toks t h.1)
      ∙ Lexes-join q ps ts (toks ++ t ∷ []) h.2
      ∙ ap (λ l. idle l []) (append_assoc toks (t ∷ []) ts)

  quote-flush : (st : Lexer) → (flush st).quote ≡ st.quote
  unfolding flush
  quote-flush st = ground arith

  tokenize-join :
      (p : Text) (ps ts : List Text)
      → Lexes sc (p ∷ ps) ts
      → tokenize sc (join sc (p ∷ ps)) ≡ some ts
  unfolding tokenize
  tokenize-join p ps ts h =
      let e = Lexes-join p ps ts [] h in
      let done : is_some ((lex sc (idle [] []) (join sc (p ∷ ps))).quote) ≡ false =
        ap (λ o. is_some o) (sym (quote-flush _) ∙ ap (λ (st : Lexer). st.quote) e) in
      rw done (ap (λ (st : Lexer). some (st.tokens)) e)

-- Each printed field, read back into a predicate that does not have it yet.
module _ (high : ℕ → ℕ) (sc : Strconv) (h : IsStrconv sc) where
  abbrev Reads : Match → List Text → Match → Type 0
  Reads m toks n = apply_tokens high sc m toks ≡ ok n

  bind_assoc :
      (r : Parsed Match) (f g : Match → Parsed Match) → ((r >>= f) >>= g) ≡ (r >>= λ n. f n >>= g)
  bind_assoc (ok n) f g = refl
  bind_assoc (err e) f g = refl

  apply_tokens-append :
      (ts us : List Text) (m : Match)
      → apply_tokens high sc m (ts ++ us)
        ≡ (apply_tokens high sc m ts >>= λ n. apply_tokens high sc n us)
  unfolding apply_tokens
  apply_tokens-append [] us m = refl
  apply_tokens-append (t ∷ ts) us m =
      ap (λ f. apply_token high sc m t >>= f) (fun_ext λ n. apply_tokens-append ts us n)
      ∙ sym (bind_assoc (apply_token high sc m t) _ _)

  Reads-append :
      (ts us : List Text) (m n k : Match) → Reads m ts n → Reads n us k → Reads m (ts ++ us) k
  Reads-append ts us m n k a b =
      apply_tokens-append ts us m ∙ ap (λ r. r >>= λ l. apply_tokens high sc l us) a ∙ b

  read_title_exact :
      (m : Match) (s : Text)
      → m.title_exact ≡ []
      → Reads m (text_token (codes "title=") s) (record m { title_exact = s })
  unfolding apply_tokens apply_token lower text_eq
  read_title_exact m [] e = ap (λ t. ok (record m { title_exact = t })) e
  read_title_exact m (c ∷ s) e = refl

  read_title_contains :
      (m : Match) (s : Text)
      → m.title_contains ≡ []
      → Reads m (text_token (codes "title~=") s) (record m { title_contains = s })
  unfolding apply_tokens apply_token lower text_eq
  read_title_contains m [] e = ap (λ t. ok (record m { title_contains = t })) e
  read_title_contains m (c ∷ s) e = refl

  read_app_id :
      (m : Match) (s : Text)
      → m.app_id ≡ []
      → Reads m (text_token (codes "app_id=") s) (record m { app_id = s })
  unfolding apply_tokens apply_token lower text_eq
  read_app_id m [] e = ap (λ t. ok (record m { app_id = t })) e
  read_app_id m (c ∷ s) e = refl

  read_class :
      (m : Match) (s : Text)
      → m.class ≡ []
      → Reads m (text_token (codes "class=") s) (record m { class = s })
  unfolding apply_tokens apply_token lower text_eq
  read_class m [] e = ap (λ t. ok (record m { class = t })) e
  read_class m (c ∷ s) e = refl

  read_pid :
      (m : Match) (o : Option ℤ)
      → m.pid ≡ none
      → WhenSet o IsInt32
      → Reads m (int_part sc o) (record m { pid = o })
  unfolding apply_tokens apply_token lower text_eq
  read_pid m none e t = ap (λ p. ok (record m { pid = p })) e
  read_pid m (some v) e t = rw (h.parse-format_int v t)

  read_id :
      (m : Match) (o : Option ℕ)
      → m.id ≡ none
      → WhenSet o (λ v. v < 2 ^ 64)
      → Reads m (id_part sc o) (record m { id = o })
  unfolding apply_tokens apply_token lower text_eq
  read_id m none e t = ap (λ p. ok (record m { id = p })) e
  read_id m (some v) e t = rw (h.parse-format_uint v t)

  read_active :
      (m : Match) (o : Option Bool)
      → m.active ≡ none
      → Reads m (bool_part sc (codes "active=") o) (record m { active = o })
  unfolding apply_tokens apply_token lower text_eq
  read_active m none e = ap (λ p. ok (record m { active = p })) e
  read_active m (some true) e = refl
  read_active m (some false) e = refl

  read_minimized :
      (m : Match) (o : Option Bool)
      → m.minimized ≡ none
      → Reads m (bool_part sc (codes "minimized=") o) (record m { minimized = o })
  unfolding apply_tokens apply_token lower text_eq
  read_minimized m none e = ap (λ p. ok (record m { minimized = p })) e
  read_minimized m (some true) e = refl
  read_minimized m (some false) e = refl

  read_maximized :
      (m : Match) (o : Option Bool)
      → m.maximized ≡ none
      → Reads m (bool_part sc (codes "maximized=") o) (record m { maximized = o })
  unfolding apply_tokens apply_token lower text_eq
  read_maximized m none e = ap (λ p. ok (record m { maximized = p })) e
  read_maximized m (some true) e = refl
  read_maximized m (some false) e = refl

  read_fullscreen :
      (m : Match) (o : Option Bool)
      → m.fullscreen ≡ none
      → Reads m (bool_part sc (codes "fullscreen=") o) (record m { fullscreen = o })
  unfolding apply_tokens apply_token lower text_eq
  read_fullscreen m none e = ap (λ p. ok (record m { fullscreen = p })) e
  read_fullscreen m (some true) e = refl
  read_fullscreen m (some false) e = refl

  read_visible :
      (m : Match) (b : Bool)
      → m.visible_only ≡ false
      → Reads m (visible_part sc b) (record m { visible_only = b })
  unfolding apply_tokens apply_token lower text_eq
  read_visible m true e = refl
  read_visible m false e = ap (λ b. ok (record m { visible_only = b })) e

  apply_tokens-tokens_of : (m : Match) → IsTyped m → Reads any_window (tokens_of sc m) m
  apply_tokens-tokens_of m t =
      Reads-append _ _ any_window _ m (read_title_exact any_window m.title_exact refl) (
        Reads-append _ _ _ _ m (read_title_contains _ m.title_contains refl) (
          Reads-append _ _ _ _ m (read_app_id _ m.app_id refl) (
            Reads-append _ _ _ _ m (read_class _ m.class refl) (
              Reads-append _ _ _ _ m (read_pid _ m.pid refl t.pid) (
                Reads-append _ _ _ _ m (read_id _ m.id refl t.id) (
                  Reads-append _ _ _ _ m (read_active _ m.active refl) (
                    Reads-append _ _ _ _ m (read_minimized _ m.minimized refl) (
                      Reads-append _ _ _ _ m (read_maximized _ m.maximized refl) (
                        Reads-append _ _ _ _ m (read_fullscreen _ m.fullscreen refl)
                          (read_visible _ m.visible_only refl))))))))))

  tokenize-parts :
      (ps ts : List Text)
      → is_empty ps ≡ false
      → Lexes sc ps ts
      → tokenize sc (join sc ps) ≡ some ts
  tokenize-parts [] ts e l = cc
  tokenize-parts (p ∷ ps) ts e l = tokenize-join sc p ps ts l

  match_string-join :
      (m : Match)
      → is_empty (match_parts sc m) ≡ false
      → match_string sc m ≡ join sc (match_parts sc m)
  unfolding match_string
  match_string-join m e = rw e

  parse-tokens :
      (spec : Text) (toks : List Text) (n : Match)
      → tokenize sc spec ≡ some toks
      → Reads any_window toks n
      → parse_match_spec high sc spec ≡ ok n
  unfolding parse_match_spec
  parse-tokens spec toks n e r = rw (e, parse_match_spec) r

  -- Parsing the printed form of a predicate that asks for anything at all gives the predicate back.
  pub parse_match_spec-match_string :
      (m : Match)
      → IsTyped m
      → is_empty (match_parts sc m) ≡ false
      → parse_match_spec high sc (match_string sc m) ≡ ok m
  parse_match_spec-match_string m t e =
      parse-tokens (match_string sc m) (tokens_of sc m) m
        (ap (tokenize sc) (match_string-join m e)
          ∙ tokenize-parts (match_parts sc m) (tokens_of sc m) e (Lexes-parts sc h m))
        (apply_tokens-tokens_of m t)
