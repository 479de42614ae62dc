-- ===== src/Window/Match.antt =====
-- window/match.go: window predicates, and the global cache of compiled ones.
-- Values stand for pointers: a pointer field is an `Option`, and `cloneMatch`, which keeps the cache
-- from sharing them, copies what the pointers hold.
pub mod Meaning
pub mod Cache
mod Examples
use perfuncted.Prelude.{
  ℕ, ◌<◌, ◌≡◌, Bool, true, false, not, ◌&&◌, ◌||◌, Option, none, some, List, [], ◌∷◌, length,
  is_empty, ltb, ◌==◌, if◌then◌else◌,
}
use perfuncted.Prelude.Int.{ℤ, pos, eqb_ℤ}
use perfuncted.Prelude.Text.{Text, text_eq}
use perfuncted.Window.Fold.{to_lower, contains_fold_lower}

-- What Unicode gives: `unicode.ToLower` above ASCII, and whether two code points are the same under
-- simple folding.
pub record Unicode : Type 0 where
  pub high : ℕ → ℕ
  pub same_fold : ℕ → ℕ → Bool

pub record Match : Type 0 where
  pub title_contains : Text
  pub title_exact : Text
  pub app_id : Text
  pub class : Text
  pub pid : Option ℤ
  pub id : Option ℕ
  pub active : Option Bool
  pub minimized : Option Bool
  pub maximized : Option Bool
  pub fullscreen : Option Bool
  pub visible_only : Bool

-- The fields of `Info` that a predicate reads.
pub record Info : Type 0 where
  pub title : Text
  pub app_id : Text
  pub class : Text
  pub pid : ℤ
  pub id : ℕ
  pub active : Bool
  pub minimized : Bool
  pub maximized : Bool
  pub fullscreen : Bool

pub record Matcher : Type 0 where
  pub of : Match
  pub title_contains_lower : Text

abbrev pub any_window : Match
any_window = record {
  title_contains = [];
  title_exact = [];
  app_id = [];
  class = [];
  pid = none;
  id = none;
  active = none;
  minimized = none;
  maximized = none;
  fullscreen = none;
  visible_only = false;
}

abbrev pub bool_eq : Bool → Bool → Bool
bool_eq true b = b
bool_eq false b = not b

-- `strings.EqualFold`
unfoldable pub equal_fold : (ℕ → ℕ → Bool) → Text → Text → Bool
equal_fold same [] [] = true
equal_fold same [] (d ∷ t) = false
equal_fold same (c ∷ s) [] = false
equal_fold same (c ∷ s) (d ∷ t) = same c d && equal_fold same s t

-- A pointer field that is set and differs.
abbrev pub differs_int : Option ℤ → ℤ → Bool
differs_int none v = false
differs_int (some w) v = not (eqb_ℤ v w)

abbrev pub differs_id : Option ℕ → ℕ → Bool
differs_id none v = false
differs_id (some w) v = not (v == w)

abbrev pub differs_bool : Option Bool → Bool → Bool
differs_bool none v = false
differs_bool (some w) v = not (bool_eq v w)

module _ (u : Unicode) where
  -- The method `matches` of `Matcher`, with `m` its `Match`.
  unfoldable pub matches : Matcher → Info → Bool
  matches matcher info =
      if not (is_empty m.title_contains)
        && not (contains_fold_lower u.high info.title matcher.title_contains_lower)
      then false
      else if not (is_empty m.title_exact) && not (equal_fold u.same_fold info.title m.title_exact)
      then false
      else if not (is_empty m.app_id) && not (equal_fold u.same_fold info.app_id m.app_id)
      then false
      else if not (is_empty m.class) && not (equal_fold u.same_fold info.class m.class)
      then false
      else if differs_int m.pid info.pid
      then false
      else if differs_id m.id info.id
      then false
      else if differs_bool m.active info.active
      then false
      else if differs_bool m.minimized info.minimized
      then false
      else if differs_bool m.maximized info.maximized
      then false
      else if differs_bool m.fullscreen info.fullscreen
      then false
      else if m.visible_only && info.minimized
      then false
      else true
    where
      open matcher use {of as m}

  -- The method `Matches` of `Match`.
  unfoldable pub match_matches : Match → Info → Bool
  unfolding matches
  match_matches m info =
      matches
        (record {
          of = m;
          title_contains_lower =
              if not (is_empty m.title_contains) then to_lower u.high m.title_contains else [];
        })
        info

-- A cache key: the pointer fields as a value and a flag.
pub record MatchCacheKey : Type 0 where
  pub title_contains : Text
  pub title_exact : Text
  pub app_id : Text
  pub class : Text
  pub pid : ℤ
  pub has_pid : Bool
  pub id : ℕ
  pub has_id : Bool
  pub active : Bool
  pub has_active : Bool
  pub minimized : Bool
  pub has_minimized : Bool
  pub maximized : Bool
  pub has_maximized : Bool
  pub fullscreen : Bool
  pub has_fullscreen : Bool
  pub visible_only : Bool

abbrev value_or {ℓ} : {A : Type ℓ} → A → Option A → A
value_or d none = d
value_or d (some v) = v

abbrev is_set {ℓ} : {A : Type ℓ} → Option A → Bool
is_set none = false
is_set (some v) = true

unfoldable pub match_cache_key_from_match : Match → MatchCacheKey
match_cache_key_from_match m = record {
  title_contains = m.title_contains;
  title_exact = m.title_exact;
  app_id = m.app_id;
  class = m.class;
  pid = value_or (pos 0) m.pid;
  has_pid = is_set m.pid;
  id = value_or 0 m.id;
  has_id = is_set m.id;
  active = value_or false m.active;
  has_active = is_set m.active;
  minimized = value_or false m.minimized;
  has_minimized = is_set m.minimized;
  maximized = value_or false m.maximized;
  has_maximized = is_set m.maximized;
  fullscreen = value_or false m.fullscreen;
  has_fullscreen = is_set m.fullscreen;
  visible_only = m.visible_only;
}

abbrev copy {ℓ} : {A : Type ℓ} → Option A → Option A
copy none = none
copy (some v) = some v

unfoldable pub clone_match : Match → Match
clone_match m = record m {
  pid = copy m.pid;
  id = copy m.id;
  active = copy m.active;
  minimized = copy m.minimized;
  maximized = copy m.maximized;
  fullscreen = copy m.fullscreen;
}

unfoldable pub clone_matcher : Matcher → Matcher
unfolding clone_match
clone_matcher m = record m { of = clone_match m.of }

-- Go's `==` on two keys.
unfoldable pub key_eq : MatchCacheKey → MatchCacheKey → Bool
key_eq a b =
    text_eq a.title_contains b.title_contains
    && text_eq a.title_exact b.title_exact
    && text_eq a.app_id b.app_id
    && text_eq a.class b.class
    && eqb_ℤ a.pid b.pid
    && bool_eq a.has_pid b.has_pid
    && (a.id == b.id)
    && bool_eq a.has_id b.has_id
    && bool_eq a.active b.active
    && bool_eq a.has_active b.has_active
    && bool_eq a.minimized b.minimized
    && bool_eq a.has_minimized b.has_minimized
    && bool_eq a.maximized b.maximized
    && bool_eq a.has_maximized b.has_maximized
    && bool_eq a.fullscreen b.fullscreen
    && bool_eq a.has_fullscreen b.has_fullscreen
    && bool_eq a.visible_only b.visible_only

-- The map `compiledMatchCache`, which no operation deletes from.
abbrev pub MatchCache : Type 0
MatchCache = List (MatchCacheKey × Matcher)

abbrev pub compiled_match_cache_limit : ℕ
compiled_match_cache_limit = 1024

unfoldable pub cached : MatchCacheKey → MatchCache → Option Matcher
unfolding key_eq
cached k [] = none
cached k ((j, m) ∷ rest) = if key_eq j k then some m else cached k rest

unfoldable pub compile : (ℕ → ℕ) → Match → Matcher
unfolding clone_match
compile high m = record {
  of = clone_match m;
  title_contains_lower = to_lower high m.title_contains;
}

-- The part of `CompileMatch` under the write lock.
unfoldable pub insert_compiled : MatchCacheKey → Matcher → MatchCache → MatchCache × Matcher
unfolding cached clone_matcher
insert_compiled key compiled cache = elim (cached key cache) [
  | some hit ↦ (cache, clone_matcher hit)
  | none ↦ (
    if ltb (length cache) compiled_match_cache_limit then (key, compiled) ∷ cache else cache,
    clone_matcher compiled,
  )
]

-- `CompileMatch`. Between the read lock and the write lock other goroutines may turn the cache
-- `before` into the cache `later`; the result has the cache as this call leaves it.
unfoldable pub compile_match : (ℕ → ℕ) → Match → MatchCache → MatchCache → MatchCache × Matcher
unfolding cached clone_matcher insert_compiled match_cache_key_from_match compile
compile_match high m before later = elim (cached (match_cache_key_from_match m) before) [
  | some hit ↦ (later, clone_matcher hit)
  | none ↦ insert_compiled (match_cache_key_from_match m) (compile high m) later
]
