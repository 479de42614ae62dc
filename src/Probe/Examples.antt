-- ===== src/Probe/Examples.antt =====
-- Tests and examples for internal/probe/probe.go.
use perfuncted.Prelude.{◌≡◌, refl, true, false, List, [], ◌∷◌}
use perfuncted.Prelude.Text.{codes}
use perfuncted.Probe.{Result, select_from, select_best}
use perfuncted.Probe.Chosen.{first_available, selected_at, candidates, at_place, select_best-first}

abbrev backends : List Result
backends =
    record { name = codes "portal"; available = false; selected = true; reason = [] }
    ∷ record { name = codes "uinput"; available = true; selected = false; reason = [] }
    ∷ record { name = codes "xtest"; available = true; selected = true; reason = [] }
    ∷ []

second_selected : selected_at 0 (select_best backends) ≡ 1 ∷ []
unfolding select_best select_from
second_selected = refl

select_best-first_example :
    (selected_at 0 (select_best backends) ≡ at_place 0 (first_available backends))
    × (candidates (select_best backends) ≡ candidates backends)
select_best-first_example = select_best-first backends
