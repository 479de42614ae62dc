-- ===== src/Probe.antt =====
-- internal/probe/probe.go: which of the backends is chosen.
mod Chosen
mod Examples
use perfuncted.Prelude.{Bool, true, false, not, ◌&&◌, List, [], ◌∷◌, if◌then◌else◌}
use perfuncted.Prelude.Text.{Text}

pub record Result : Type 0 where
  pub name : Text
  pub available : Bool
  pub selected : Bool
  pub reason : Text

-- The loop, with whether a backend was selected before.
unfoldable pub select_from : Bool → List Result → List Result
select_from selected [] = []
select_from selected (r ∷ rs) =
    let chosen = r.available && not selected in
    record r { selected = chosen } ∷ select_from (if chosen then true else selected) rs

unfoldable pub select_best : List Result → List Result
unfolding select_from
select_best results = select_from false results
