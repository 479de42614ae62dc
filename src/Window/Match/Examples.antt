-- ===== src/Window/Match/Examples.antt =====
-- Predicates and the cache at concrete windows.
use perfuncted.Prelude.{◌≡◌, ◌↔◌, refl, true, false, some, [], ◌==◌, arith}
use perfuncted.Prelude.Int.{pos}
use perfuncted.Prelude.Text.{codes}
use perfuncted.Window.Fold.{contains_fold_lower}
use perfuncted.Window.Match.{
  Unicode, Match, Info, MatchCache, any_window, matches, match_matches, compile, compile_match,
}
use perfuncted.Window.Match.Meaning.{Meets, match_matches_iff}
use perfuncted.Window.Match.Cache.{IsCache, compile_match-eq-compile, compile_match-matches}

abbrev plain : Unicode
plain = record { high = λ c. c; same_fold = λ c d. c == d }

abbrev editor : Match
editor = record any_window { title_contains = codes "Edit"; pid = some (pos 7) }

abbrev shown : Info
shown = record {
  title = codes "my EDITOR";
  app_id = [];
  class = [];
  pid = pos 7;
  id = 3;
  active = true;
  minimized = false;
  maximized = false;
  fullscreen = false;
}

empty-IsCache : IsCache plain.high []
empty-IsCache = record { entries = tt; bounded = omega arith }

editor_matches : match_matches plain editor shown ≡ true
unfolding match_matches contains_fold_lower
editor_matches = refl

match_matches_iff_example : (match_matches plain editor shown ≡ true) ↔ Meets plain editor shown
match_matches_iff_example = match_matches_iff plain editor shown

-- Another goroutine has compiled a predicate meanwhile.
abbrev later : MatchCache
later = (compile_match plain.high any_window [] []).0

later-IsCache : IsCache plain.high later
later-IsCache = (compile_match-eq-compile plain.high any_window [] [] empty-IsCache empty-IsCache).1

compile_match-eq-compile_example :
    ((compile_match plain.high editor [] later).1 ≡ compile plain.high editor)
    × IsCache plain.high (compile_match plain.high editor [] later).0
compile_match-eq-compile_example =
    compile_match-eq-compile plain.high editor [] later empty-IsCache later-IsCache

compile_match-matches_test :
    matches plain (compile_match plain.high editor [] later).1 shown
    ≡ match_matches plain editor shown
compile_match-matches_test =
    compile_match-matches plain editor shown [] later empty-IsCache later-IsCache
