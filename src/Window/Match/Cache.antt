-- ===== src/Window/Match/Cache.antt =====
-- The cache of compiled predicates can not be told from no cache.
use mathlib.Core.Path.{subst₂}
use perfuncted.Prelude.{
  ℕ, ◌≤◌, ◌≡◌, refl, sym, ap, inl, inr, Bool, true, false, ◌&&◌, some, [], ◌∷◌, All, length,
  is_empty, ltb, Option-cases, Bool-cases, if◌then◌else◌, ==_iff, arith,
}
use perfuncted.Prelude.Int.{ℤ, eqb_ℤ}
use perfuncted.Prelude.Text.{text_eq-eq}
use perfuncted.Window.Fold.{to_lower}
use perfuncted.Window.Match.{
  Unicode, Match, Info, Matcher, MatchCacheKey, MatchCache, bool_eq, match_cache_key_from_match,
  clone_match, clone_matcher, key_eq, cached, compile, insert_compiled, compile_match,
  compiled_match_cache_limit, matches, match_matches,
}

-- Every entry is what compiling a predicate with its key gives.
abbrev Entry : (ℕ → ℕ) → MatchCacheKey × Matcher → Type 0
Entry high (k, c) =
    (match_cache_key_from_match c.of ≡ k)
    × (c.title_contains_lower ≡ to_lower high c.of.title_contains)

pub record IsCache (high : ℕ → ℕ) (cache : MatchCache) : Type 0 where
  pub entries : All (Entry high) cache
  pub bounded : length cache ≤ compiled_match_cache_limit

clone_match_lem : (m : Match) → clone_match m ≡ m
unfolding clone_match
clone_match_lem m = ground arith

-- The key determines the predicate.
key_injective : (m n : Match) → match_cache_key_from_match m ≡ match_cache_key_from_match n → m ≡ n
unfolding match_cache_key_from_match
key_injective m n h = ground arith

and_both : (a b : Bool) → (a && b) ≡ true → (a ≡ true) × (b ≡ true)
and_both true b h = (refl, h)
and_both false b h = cc

bool_eq-eq : (a b : Bool) → bool_eq a b ≡ true → a ≡ b
bool_eq-eq a b h = ground arith

eqb_ℤ-eq : (a b : ℤ) → eqb_ℤ a b ≡ true → a ≡ b
eqb_ℤ-eq a b h = ground arith

key_eq-eq : (a b : MatchCacheKey) → key_eq a b ≡ true → a ≡ b
unfolding key_eq
key_eq-eq a b h =
    let c16 = and_both _ _ h in
    let c15 = and_both _ _ c16.0 in
    let c14 = and_both _ _ c15.0 in
    let c13 = and_both _ _ c14.0 in
    let c12 = and_both _ _ c13.0 in
    let c11 = and_both _ _ c12.0 in
    let c10 = and_both _ _ c11.0 in
    let c9 = and_both _ _ c10.0 in
    let c8 = and_both _ _ c9.0 in
    let c7 = and_both _ _ c8.0 in
    let c6 = and_both _ _ c7.0 in
    let c5 = and_both _ _ c6.0 in
    let c4 = and_both _ _ c5.0 in
    let c3 = and_both _ _ c4.0 in
    let c2 = and_both _ _ c3.0 in
    let c1 = and_both _ _ c2.0 in
    cc (
      text_eq-eq a.title_contains b.title_contains c1.0,
      text_eq-eq a.title_exact b.title_exact c1.1,
      text_eq-eq a.app_id b.app_id c2.1,
      text_eq-eq a.class b.class c3.1,
      eqb_ℤ-eq a.pid b.pid c4.1,
      bool_eq-eq a.has_pid b.has_pid c5.1,
      (==_iff a.id b.id).0 c6.1,
      bool_eq-eq a.has_id b.has_id c7.1,
      bool_eq-eq a.active b.active c8.1,
      bool_eq-eq a.has_active b.has_active c9.1,
      bool_eq-eq a.minimized b.minimized c10.1,
      bool_eq-eq a.has_minimized b.has_minimized c11.1,
      bool_eq-eq a.maximized b.maximized c12.1,
      bool_eq-eq a.has_maximized b.has_maximized c13.1,
      bool_eq-eq a.fullscreen b.fullscreen c14.1,
      bool_eq-eq a.has_fullscreen b.has_fullscreen c15.1,
      bool_eq-eq a.visible_only b.visible_only c16.1,
    )

Entry-along :
    (high : ℕ → ℕ) (j k : MatchCacheKey) (m c : Matcher)
    → j ≡ k
    → m ≡ c
    → Entry high (j, m)
    → Entry high (k, c)
Entry-along high j k m c p q h = subst₂ (λ x y. Entry high (x, y)) p q h

cached-Entry :
    (high : ℕ → ℕ) (k : MatchCacheKey) (cache : MatchCache) (c : Matcher)
    → All (Entry high) cache
    → cached k cache ≡ some c
    → Entry high (k, c)
unfolding cached
cached-Entry high k [] c a e = cc
cached-Entry high k ((j, m) ∷ rest) c a e = elim (Bool-cases (key_eq j k)) [
  | inl same ↦
      let p : m ≡ c = cc (rw same at e) in Entry-along high j k m c (key_eq-eq j k same) p a.0
  | inr other ↦ cached-Entry high k rest c a.1 (rw other at e)
]

-- An entry for the key of `m` is what compiling `m` gives.
Entry-compile :
    (high : ℕ → ℕ) (m : Match) (c : Matcher)
    → Entry high (match_cache_key_from_match m, c)
    → clone_matcher c ≡ compile high m
unfolding clone_matcher compile
Entry-compile high m c h =
    ground (arith, key_injective c.of m, clone_match_lem c.of, clone_match_lem m)

compile-of : (high : ℕ → ℕ) (m : Match) → (compile high m).of ≡ m
unfolding compile
compile-of high m = clone_match_lem m

compile-Entry :
    (high : ℕ → ℕ) (m : Match) → Entry high (match_cache_key_from_match m, compile high m)
unfolding compile
compile-Entry high m = (
  ap match_cache_key_from_match (clone_match_lem m),
  ap (λ (n : Match). to_lower high n.title_contains) (sym (clone_match_lem m)),
)

insert-IsCache :
    (high : ℕ → ℕ) (m : Match) (cache : MatchCache)
    → IsCache high cache
    → IsCache high (
        if ltb (length cache) compiled_match_cache_limit
        then (match_cache_key_from_match m, compile high m) ∷ cache
        else cache)
insert-IsCache high m cache h = elim (Bool-cases (ltb (length cache) compiled_match_cache_limit)) [
  | inl room ↦
      rw room (record { entries = (compile-Entry high m, h.entries); bounded = ground arith })
  | inr full ↦ rw full h
]

insert_compiled-lem :
    (high : ℕ → ℕ) (m : Match) (cache : MatchCache)
    → IsCache high cache
    → ((insert_compiled (match_cache_key_from_match m) (compile high m) cache).1 ≡ compile high m)
      × IsCache high (insert_compiled (match_cache_key_from_match m) (compile high m) cache).0
unfolding insert_compiled
insert_compiled-lem high m cache h =
    elim (Option-cases (cached (match_cache_key_from_match m) cache)) [
      | inl miss ↦
          rw (miss, insert_compiled)
            (Entry-compile high m _ (compile-Entry high m), insert-IsCache high m cache h)
      | inr (c, hit) ↦
          rw (hit, insert_compiled)
            (Entry-compile high m c (cached-Entry high _ cache c h.entries hit), h)
    ]

-- Whatever other goroutines put into the cache meanwhile, `CompileMatch` gives what compiling afresh
-- gives, and the cache stays within its limit and in order.
pub compile_match-eq-compile :
    (high : ℕ → ℕ) (m : Match) (before later : MatchCache)
    → IsCache high before
    → IsCache high later
    → ((compile_match high m before later).1 ≡ compile high m)
      × IsCache high (compile_match high m before later).0
unfolding compile_match
compile_match-eq-compile high m before later b l =
    elim (Option-cases (cached (match_cache_key_from_match m) before)) [
      | inl miss ↦ rw (miss, compile_match) (insert_compiled-lem high m later l)
      | inr (c, hit) ↦
          rw (hit, compile_match)
            (Entry-compile high m c (cached-Entry high _ before c b.entries hit), l)
    ]

compile_lem :
    (high : ℕ → ℕ) (m : Match)
    → compile high m ≡ record { of = m; title_contains_lower = to_lower high m.title_contains }
unfolding compile
compile_lem high m =
    ap (λ n. record { of = n; title_contains_lower = to_lower high m.title_contains })
      (clone_match_lem m)

-- An empty substring is never looked at, lowered or not.
matches-lower :
    (u : Unicode) (m : Match) (i : Info)
    → matches u (record { of = m; title_contains_lower = to_lower u.high m.title_contains }) i
      ≡ match_matches u m i
unfolding match_matches
matches-lower u m i = elim (Bool-cases (is_empty m.title_contains)) [
  | inl empty ↦ rw empty
  | inr some_ ↦ rw some_
]

matches-compile :
    (u : Unicode) (m : Match) (i : Info) → matches u (compile u.high m) i ≡ match_matches u m i
matches-compile u m i = rw compile_lem (matches-lower u m i)

-- A matcher from the cache accepts the windows that the predicate itself accepts.
pub compile_match-matches :
    (u : Unicode) (m : Match) (i : Info) (before later : MatchCache)
    → IsCache u.high before
    → IsCache u.high later
    → matches u (compile_match u.high m before later).1 i ≡ match_matches u m i
compile_match-matches u m i before later b l =
    rw ((compile_match-eq-compile u.high m before later b l).0) (matches-compile u m i)
