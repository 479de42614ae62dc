-- ===== src/Window/Match/Meaning.antt =====
-- What a window predicate means.
use perfuncted.Prelude.{
  ℕ, ◌≡◌, refl, ◌↔◌, ◌⊎◌, Bool, true, false, not, ◌&&◌, Option, none, some, [], is_empty,
  if◌then◌else◌, arith,
}
use perfuncted.Prelude.Int.{ℤ}
use perfuncted.Prelude.Text.{Text}
use perfuncted.Window.Fold.{
  to_lower, contains, contains_fold_lower, contains_fold_lower-eq-contains,
}
use perfuncted.Window.Match.{
  Unicode, Match, Info, equal_fold, differs_int, differs_id, differs_bool, match_matches,
}

-- A text field that is empty, and a pointer field that is nil, asks for nothing.
abbrev pub WhenSet {ℓ} : {A : Type ℓ} → Option A → (A → Type 0) → Type 0
WhenSet none P = Unit
WhenSet (some v) P = P v

pub record Meets (u : Unicode) (m : Match) (i : Info) : Type 0 where
  pub title_contains :
      (m.title_contains ≡ [])
      ⊎ (contains (to_lower u.high i.title) (to_lower u.high m.title_contains) ≡ true)
  pub title_exact : (m.title_exact ≡ []) ⊎ (equal_fold u.same_fold i.title m.title_exact ≡ true)
  pub app_id : (m.app_id ≡ []) ⊎ (equal_fold u.same_fold i.app_id m.app_id ≡ true)
  pub class : (m.class ≡ []) ⊎ (equal_fold u.same_fold i.class m.class ≡ true)
  pub pid : WhenSet m.pid (λ v. i.pid ≡ v)
  pub id : WhenSet m.id (λ v. i.id ≡ v)
  pub active : WhenSet m.active (λ v. i.active ≡ v)
  pub minimized : WhenSet m.minimized (λ v. i.minimized ≡ v)
  pub maximized : WhenSet m.maximized (λ v. i.maximized ≡ v)
  pub fullscreen : WhenSet m.fullscreen (λ v. i.fullscreen ≡ v)
  pub visible : m.visible_only ≡ true → i.minimized ≡ false

-- One rung of the ladder of early returns.
peel : (b x : Bool) → (if b then false else x) ≡ true → (b ≡ false) × (x ≡ true)
peel true x h = cc
peel false x h = (refl, h)

unpeel : (b x : Bool) → b ≡ false → x ≡ true → (if b then false else x) ≡ true
unpeel true x e h = cc
unpeel false x e h = h

text_rung : (t : Text) (b : Bool) → (not (is_empty t) && not b) ≡ false → (t ≡ []) ⊎ (b ≡ true)
text_rung t b h = ground arith

rung_text : (t : Text) (b : Bool) → (t ≡ []) ⊎ (b ≡ true) → (not (is_empty t) && not b) ≡ false
rung_text t b h = ground arith

int_rung : (o : Option ℤ) (v : ℤ) → (differs_int o v ≡ false) ↔ WhenSet o (λ w. v ≡ w)
int_rung none v = (λ e. tt, λ e. refl)
int_rung (some w) v = (λ e. ground arith, λ e. ground arith)

id_rung : (o : Option ℕ) (v : ℕ) → (differs_id o v ≡ false) ↔ WhenSet o (λ w. v ≡ w)
id_rung none v = (λ e. tt, λ e. refl)
id_rung (some w) v = (λ e. ground arith, λ e. ground arith)

bool_rung : (o : Option Bool) (v : Bool) → (differs_bool o v ≡ false) ↔ WhenSet o (λ w. v ≡ w)
bool_rung none v = (λ e. tt, λ e. refl)
bool_rung (some w) v = (λ e. ground arith, λ e. ground arith)

visible_rung : (a b : Bool) → ((a && b) ≡ false) ↔ (a ≡ true → b ≡ false)
visible_rung true b = (λ e _. e, λ f. f refl)
visible_rung false b = (λ e f. cc, λ f. refl)

module _ (u : Unicode) (m : Match) (i : Info) where
  abbrev wanted : Text
  wanted = if not (is_empty m.title_contains) then to_lower u.high m.title_contains else []

  title_rung :
      (not (is_empty m.title_contains) && not (contains_fold_lower u.high i.title wanted)) ≡ false
      → (m.title_contains ≡ [])
        ⊎ (contains (to_lower u.high i.title) (to_lower u.high m.title_contains) ≡ true)
  title_rung h =
      ground
        (arith, contains_fold_lower-eq-contains u.high i.title (to_lower u.high m.title_contains))

  rung_title :
      (m.title_contains ≡ [])
        ⊎ (contains (to_lower u.high i.title) (to_lower u.high m.title_contains) ≡ true)
      → (not (is_empty m.title_contains) && not (contains_fold_lower u.high i.title wanted)) ≡ false
  rung_title h =
      ground
        (arith, contains_fold_lower-eq-contains u.high i.title (to_lower u.high m.title_contains))

  Meets-match_matches : match_matches u m i ≡ true → Meets u m i
  unfolding match_matches
  Meets-match_matches h =
      let p1 = peel _ _ h in
      let p2 = peel _ _ p1.1 in
      let p3 = peel _ _ p2.1 in
      let p4 = peel _ _ p3.1 in
      let p5 = peel _ _ p4.1 in
      let p6 = peel _ _ p5.1 in
      let p7 = peel _ _ p6.1 in
      let p8 = peel _ _ p7.1 in
      let p9 = peel _ _ p8.1 in
      let p10 = peel _ _ p9.1 in
      let p11 = peel _ _ p10.1 in
      record {
        title_contains = title_rung p1.0;
        title_exact = text_rung _ _ p2.0;
        app_id = text_rung _ _ p3.0;
        class = text_rung _ _ p4.0;
        pid = (int_rung m.pid i.pid).0 p5.0;
        id = (id_rung m.id i.id).0 p6.0;
        active = (bool_rung m.active i.active).0 p7.0;
        minimized = (bool_rung m.minimized i.minimized).0 p8.0;
        maximized = (bool_rung m.maximized i.maximized).0 p9.0;
        fullscreen = (bool_rung m.fullscreen i.fullscreen).0 p10.0;
        visible = (visible_rung m.visible_only i.minimized).0 p11.0;
      }

  match_matches-Meets : Meets u m i → match_matches u m i ≡ true
  unfolding match_matches
  match_matches-Meets h = unpeel _ _ (rung_title h.title_contains) (
      unpeel _ _ (rung_text _ _ h.title_exact) (
        unpeel _ _ (rung_text _ _ h.app_id) (
          unpeel _ _ (rung_text _ _ h.class) (
            unpeel _ _ ((int_rung m.pid i.pid).1 h.pid) (
              unpeel _ _ ((id_rung m.id i.id).1 h.id) (
                unpeel _ _ ((bool_rung m.active i.active).1 h.active) (
                  unpeel _ _ ((bool_rung m.minimized i.minimized).1 h.minimized) (
                    unpeel _ _ ((bool_rung m.maximized i.maximized).1 h.maximized) (
                      unpeel _ _ ((bool_rung m.fullscreen i.fullscreen).1 h.fullscreen) (
                        unpeel _ _ ((visible_rung m.visible_only i.minimized).1 h.visible)
                          refl))))))))))

  -- A predicate matches a window exactly if each of its fields that is set agrees with the window:
  -- the title contains the wanted substring when both are lowered, the other texts are equal under
  -- simple folding, the numbers and flags are equal, and a window wanted visible is not minimized.
  pub match_matches_iff : (match_matches u m i ≡ true) ↔ Meets u m i
  match_matches_iff = (Meets-match_matches, match_matches-Meets)
