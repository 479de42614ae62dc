-- ===== src/Tracker/Inv.antt =====
-- What holds of a tracker between two steps, with the lemmas on lists of calls.
use perfuncted.Prelude.{
  ℕ, zero, suc, ◌+◌, ◌<◌, ◌≤◌, ◌≡◌, refl, ap, Bool, true, false, not, ◌&&◌, Option, none, some,
  List, [], ◌∷◌, is_empty, get_elem?, set, mem, remove, All, total, total-get, leb, ◌==◌, arith,
}
use perfuncted.Tracker.{Call, draining, released, waiting, returned, World, zero_tracker}

-- A call that will publish the close error, and one that will run `release`.
abbrev pub publishes : Call → ℕ
publishes (draining _ _ _) = 1
publishes (released _ _) = 1
publishes _ = 0

abbrev pub releases_later : Call → ℕ
releases_later (draining _ _ _) = 1
releases_later _ = 0

-- The channel of the active operations is there, and open, exactly while there are any.
abbrev pub ActiveOk : World → Option ℕ → Type 0
ActiveOk w none = is_empty w.active ≡ true
ActiveOk w (some c) = (is_empty w.active ≡ false) × (c < w.chans) × (mem c w.shut ≡ false)

abbrev pub is_chan : Option ℕ → ℕ → Bool
is_chan none d = false
is_chan (some c) d = c == d

abbrev pub CloseOk : World → Option ℕ → Type 0
CloseOk w none = w.closed ≡ false
CloseOk w (some d) = (w.closed ≡ true) × (d < w.chans) × (is_chan w.active_done d ≡ false)

abbrev pub is_published : World → Option ℕ → Bool
is_published w none = false
is_published w (some d) = mem d w.shut

-- What a draining call waits on is closed exactly when no operation is left.
abbrev pub Covers : World → Option ℕ → Type 0
Covers w none = is_empty w.active ≡ true
Covers w (some c) =
    (is_empty w.active ≡ false → w.active_done ≡ some c)
    × (is_empty w.active ≡ true → mem c w.shut ≡ true)

abbrev pub CallOk : World → Call → Type 0
CallOk w (draining d wait _) = (w.close_done ≡ some d) × (mem d w.shut ≡ false) × Covers w wait
CallOk w (released d _) =
    (w.close_done ≡ some d) × (mem d w.shut ≡ false) × (is_empty w.active ≡ true)
CallOk w (waiting d) = w.close_done ≡ some d
CallOk w (returned e) = (is_published w w.close_done ≡ true) × (e ≡ w.close_err)

pub record Inv (w : World) : Type 0 where
  pub active_ok : ActiveOk w w.active_done
  pub close_ok : CloseOk w w.close_done
  pub shut_old : All (λ c. c < w.chans) w.shut
  pub finished_old : (id : ℕ) → mem id w.finished ≡ true → id ≤ w.next
  pub ids_ok : (id : ℕ) → mem id w.active ≡ (leb 1 id && leb id w.next && not (mem id w.finished))
  pub calls_ok : All (CallOk w) w.calls
  pub one_publisher : total publishes w.calls ≤ 1
  pub one_release : w.releases + total releases_later w.calls ≤ 1
  pub none_before : w.closed ≡ false → w.releases + total publishes w.calls ≡ 0
  pub no_panic : w.panicked ≡ false

-- A tracker that nobody has used is in order.
pub zero_tracker-Inv : Inv zero_tracker
zero_tracker-Inv = record {
  active_ok = refl;
  close_ok = refl;
  shut_old = tt;
  finished_old = λ id h. ground arith;
  ids_ok = λ id. ground arith;
  calls_ok = tt;
  one_publisher = omega arith;
  one_release = omega arith;
  none_before = λ h. refl;
  no_panic = refl;
}

pub mem-remove : (a b : ℕ) (xs : List ℕ) → mem b (remove a xs) ≡ (mem b xs && not (a == b))
mem-remove a b [] = refl
mem-remove a b (x ∷ xs) = ground (arith, mem-remove a b xs)

-- A number above every element is not in the list.
pub mem_fresh : (n : ℕ) (xs : List ℕ) → All (λ c. c < n) xs → mem n xs ≡ false
mem_fresh n [] h = refl
mem_fresh n (x ∷ xs) h = ground (arith, mem_fresh n xs h.1)

pub All-lt_mono : (n m : ℕ) (xs : List ℕ) → n ≤ m → All (λ c. c < n) xs → All (λ c. c < m) xs
All-lt_mono n m [] le h = tt
All-lt_mono n m (x ∷ xs) le h = (omega arith, All-lt_mono n m xs le h.1)

pub All-imp :
    {P Q : Call → Type 0} (cs : List Call) → ((c : Call) → P c → Q c) → All P cs → All Q cs
All-imp [] f h = tt
All-imp (c ∷ cs) f h = (f c h.0, All-imp cs f h.1)

pub All-get :
    (P : Call → Type 0) (cs : List Call) (i : ℕ) (c : Call)
    → get_elem? cs i ≡ some c
    → All P cs
    → P c
All-get P [] i c e h = cc
All-get P (x ∷ cs) zero c e h = let p : x ≡ c = cc in rw p at (h.0)
All-get P (x ∷ cs) (suc i) c e h = All-get P cs i c e h.1

pub All-set :
    (P : Call → Type 0) (cs : List Call) (i : ℕ) (c : Call) → All P cs → P c → All P (set cs i c)
All-set P [] i c h p = tt
All-set P (x ∷ cs) zero c h p = (p, h.1)
All-set P (x ∷ cs) (suc i) c h p = (h.0, All-set P cs i c h.1 p)

pub releases_later-le-publishes : (cs : List Call) → total releases_later cs ≤ total publishes cs
releases_later-le-publishes [] = omega arith
releases_later-le-publishes (c ∷ cs) = ground (arith, releases_later-le-publishes cs)

-- From `P` of calls of no weight, where the whole weight is that of the call replaced.
module _ {P Q : Call → Type 0} (f : Call → ℕ) (others : (c : Call) → P c → f c ≡ 0 → Q c) where
  All-weightless : (cs : List Call) → total f cs ≡ 0 → All P cs → All Q cs
  All-weightless [] e h = tt
  All-weightless (c ∷ cs) e h = (others c h.0 (omega arith), All-weightless cs (omega arith) h.1)

  pub All-set_single :
      (cs : List Call) (i : ℕ) (c d : Call)
      → get_elem? cs i ≡ some c
      → f c ≡ 1
      → total f cs ≤ 1
      → All P cs
      → Q d
      → All Q (set cs i d)
  All-set_single [] i c d e one le h q = tt
  All-set_single (x ∷ cs) zero c d e one le h q =
      let p : x ≡ c = cc in (q, All-weightless cs (omega (arith, ap f p)) h.1)
  All-set_single (x ∷ cs) (suc i) c d e one le h q = (
    others x h.0 (omega (arith, total-get f cs i c e)),
    All-set_single cs i c d e one (omega arith) h.1 q,
  )
