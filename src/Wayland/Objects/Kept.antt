-- ===== src/Wayland/Objects/Kept.antt =====
-- internal/wl/wl.go: no call takes an object from its owner.
use perfuncted.Prelude.{
  ℕ, ◌+◌, ◌≡◌, ◌∙◌, refl, ◌⊎◌, inl, inr, none, some, List, [], ◌∷◌, length, is_some, ◌==◌,
  if◌then◌else◌, arith, Bool-cases, Option-cases,
}
use perfuncted.Wayland.Objects.{
  Objects, lookup, delete, next_free, register, set_proxy, unregister, is_proxy, Call, registers,
  sets, unregisters, Run, here, next,
}
use perfuncted.Wayland.Objects.Fresh.{found_free}

pub lookup-delete :
    (id k : ℕ) (os : List (ℕ × ℕ))
    → lookup k (delete id os) ≡ (if id == k then none else lookup k os)
lookup-delete id k [] = ground arith
lookup-delete id k ((key, p) ∷ os) = ground (arith, lookup-delete id k os)

-- What a call of `Register` does.
pub register-cases :
    (p id : ℕ) (o o' : Objects)
    → register p o ≡ some (id, o')
    → (o'.objects ≡ (id, p) ∷ o.objects) × (lookup id o.objects ≡ none) × (id ≡ 0 → ⊥)
unfolding register
register-cases p id o o' h =
    elim (Option-cases (next_free (length o.objects + 2) o.objects o.next_id)) [
      | inl e ↦ ground (arith, h, e)
      | inr (k, e) ↦
          let (a, b, c) = found_free (length o.objects + 2) o.objects o.next_id k e in
          (ground (arith, h, e), ground (arith, h, e, c), ground (arith, h, e, a))
    ]

lookup-set_proxy :
    (id p k : ℕ) (o : Objects)
    → lookup k (set_proxy id p o).objects ≡ (
        if id == 0
        then lookup k o.objects
        else if is_some (lookup id o.objects)
        then lookup k o.objects
        else if id == k
        then some p
        else lookup k o.objects)
unfolding set_proxy
lookup-set_proxy id p k o = ground arith

lookup-unregister :
    (id p k q : ℕ) (o : Objects)
    → lookup k o.objects ≡ some q
    → (lookup k (unregister id p o).objects ≡ some q)
      ⊎ ((k ≡ id) × (q ≡ p) × (lookup k (unregister id p o).objects ≡ none))
unfolding unregister
lookup-unregister id p k q o h = elim (Bool-cases (is_proxy (lookup id o.objects) p)) [
  | inl e ↦ elim (Bool-cases (id == k)) [
    | inl f ↦ inr (
      ground (arith, f),
      ground (arith, e, f, h),
      rw e (lookup-delete id k o.objects ∙ rw f refl),
    )
    | inr f ↦ inl (rw e (lookup-delete id k o.objects ∙ rw f h))
  ]
  | inr e ↦ inl (rw e h)
]

-- The call removes the proxy.
abbrev pub Revokes : {o o' : Objects} → Call o o' → ℕ → ℕ → Type 0
Revokes (registers p id e) k q = ⊥
Revokes (sets id p) k q = ⊥
Revokes (unregisters id p) k q = (k ≡ id) × (q ≡ p)

Call-keeps :
    {o o' : Objects} (c : Call o o') (k q : ℕ)
    → lookup k o.objects ≡ some q
    → (lookup k o'.objects ≡ some q) ⊎ (Revokes c k q × (lookup k o'.objects ≡ none))
Call-keeps {o = o} {o' = o'} (registers p id e) k q h =
    let (a, b, c) = register-cases p id o o' e in inl (ground (arith, a, b, h))
Call-keeps {o = o} (sets id p) k q h = inl (lookup-set_proxy id p k o ∙ ground (arith, h))
Call-keeps {o = o} (unregisters id p) k q h = elim (lookup-unregister id p k q o h) [
  | inl e ↦ inl e
  | inr (e, f, g) ↦ inr ((e, f), g)
]

-- A call of the run removes the proxy.
abbrev pub IsRevoked : {o o' : Objects} → Run o o' → ℕ → ℕ → Type 0
IsRevoked here k q = ⊥
IsRevoked (next r c) k q = IsRevoked r k q ⊎ Revokes c k q

-- Whatever is registered and removed, an object keeps its identifier until a call removes this very
-- proxy under it: neither a new object nor one that the compositor made takes its place.
pub Run-keeps :
    {o o' : Objects} (r : Run o o') (k q : ℕ)
    → lookup k o.objects ≡ some q
    → (lookup k o'.objects ≡ some q) ⊎ IsRevoked r k q
Run-keeps here k q h = inl h
Run-keeps (next r c) k q h = elim (Run-keeps r k q h) [
  | inl e ↦ elim (Call-keeps c k q e) [ inl f ↦ inl f | inr (f, g) ↦ inr (inr f) ]
  | inr e ↦ inr (inl e)
]
