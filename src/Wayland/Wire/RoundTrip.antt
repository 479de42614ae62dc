-- ===== src/Wayland/Wire/RoundTrip.antt =====
-- internal/wl/wl.go: the events of the registry and the requests of the client, there and back.
use mathlib.Core.List.{append_assoc}
use perfuncted.Prelude.{
  ℕ, suc, ◌+◌, ◌-◌, ◌^◌, ◌<◌, ◌≤◌, ◌≡◌, refl, sym, ◌∙◌, ap, subst, Bool, true, false, ◌||◌, Option,
  some, [], ◌∷◌, ◌++◌, length, zeros, length-zeros, length-append, get_elem?, get_elem?-middle,
  take, take_through, drop, drop-append, drop-add, get_elem?-drop, ltb, ◌==◌, arith,
}
use perfuncted.Wayland.Globals.{GlobalEvent, global}
use perfuncted.Wayland.Wire.{
  Bytes, put_uint32, uint32, put_str, trim_right, decoded, decode_version, decode_string,
  decode_name, registry_dispatch,
}
use perfuncted.Wayland.Wire.Strings.{uint32-put, padding, put_str-eq, trim_right-zero}

-- The body of a `wl_registry.global` event.
abbrev pub global_body : GlobalEvent → Bytes
global_body ev = put_uint32 ev.name ++ (put_str ev.interface ++ put_uint32 ev.version)

-- A global that the protocol can carry: its interface does not end in a NUL.
pub record IsGlobal (ev : GlobalEvent) : Type 0 where
  pub name_fits : ev.name < 2 ^ 32
  pub version_fits : ev.version < 2 ^ 32
  pub has_version : 1 ≤ ev.version
  pub interface_fits : length ev.interface + 4 < 2 ^ 32
  pub no_nul : trim_right ev.interface ≡ ev.interface

module _ (s tail : Bytes) where
  -- What follows the length of a string.
  abbrev rest : Bytes
  rest = s ++ (zeros (suc (padding (length s + 1))) ++ tail)

  length-rest : length rest ≡ length s + (suc (padding (length s + 1)) + length tail)
  length-rest = omega (
    arith,
    length-append s (zeros (suc (padding (length s + 1))) ++ tail),
    length-append (zeros (suc (padding (length s + 1)))) tail,
    length-zeros (suc (padding (length s + 1))),
  )

  rest-last : get_elem? rest (length s) ≡ some 0
  rest-last = get_elem?-middle s (zeros (padding (length s + 1)) ++ tail) 0

  rest-string : take (length s + 1) rest ≡ s ++ (0 ∷ [])
  rest-string =
      subst (λ n. take n rest ≡ s ++ (0 ∷ [])) {x = suc (length s)} (omega arith)
        (take_through s (zeros (padding (length s + 1)) ++ tail) 0)

  rest-tail : drop (length s + 1 + padding (length s + 1)) rest ≡ tail
  rest-tail =
      subst (λ r. drop (length s + 1 + padding (length s + 1)) r ≡ tail)
        (append_assoc s (zeros (suc (padding (length s + 1)))) tail)
        (drop-append (s ++ zeros (suc (padding (length s + 1)))) tail _ (
          omega (
            arith,
            length-append s (zeros (suc (padding (length s + 1)))),
            length-zeros (suc (padding (length s + 1))),
          )))

module _ (a b c d e f g h : ℕ) (t : Bytes) where
  -- After the name and the length.
  abbrev past : Bytes
  past = a ∷ (b ∷ (c ∷ (d ∷ (e ∷ (f ∷ (g ∷ (h ∷ t)))))))

  past-get : (i : ℕ) → get_elem? past (8 + i) ≡ get_elem? t i
  past-get i = sym (get_elem?-drop 8 i past)

  past-drop : (n : ℕ) → drop (8 + n) past ≡ drop n t
  past-drop n = drop-add 8 n past

  length-past : length past ≡ 8 + length t
  length-past = omega arith

no_extra :
    (l s v : ℕ)
    → l ≡ 8 + (s + (suc (padding (s + 1)) + v))
    → ltb (l - 8 - (s + 1)) (padding (s + 1)) ≡ false
no_extra l s v e = ground (arith, e)

no_more :
    (l s v : ℕ)
    → l ≡ 8 + (s + (suc (padding (s + 1)) + v))
    → 4 ≤ v
    → ltb l (8 + (s + 1 + padding (s + 1)) + 4) ≡ false
no_more l s v e f = ground (arith, e, f)

decode-string :
    (name : ℕ) (bytes s v : Bytes)
    → length bytes ≡ 8 + length (rest s v)
    → drop 8 bytes ≡ rest s v
    → 4 ≤ length v
    → trim_right s ≡ s
    → decode_string name (length s + 1) bytes (some 0) ≡ decode_version name s (uint32 v)
unfolding decode_string
decode-string name bytes s v l d four t =
    let e : length bytes ≡ 8 + (length s + (suc (padding (length s + 1)) + length v)) =
      l ∙ ap (λ n. 8 + n) (length-rest s v) in
    rw
      (
        no_extra (length bytes) (length s) (length v) e,
        no_more (length bytes) (length s) (length v) e four,
        drop-add 8 (length s + 1 + padding (length s + 1)) bytes,
        d,
        rest-string s v,
        rest-tail s v,
        trim_right-zero s,
        t,
      )
      refl

name_test :
    (s l r v : ℕ)
    → l ≡ 8 + r
    → r ≡ s + (suc (padding (s + 1)) + v)
    → (((s + 1) == 0) || ltb (l - 8) (s + 1)) ≡ false
name_test s l r v e f = ground (arith, e, f)

last_index :
    (bytes s v : Bytes)
    → drop 8 bytes ≡ rest s v
    → get_elem? bytes (8 + (length s + 1) - 1) ≡ some 0
last_index bytes s v d =
    subst (λ i. get_elem? bytes i ≡ some 0) {x = 8 + length s} (omega arith)
      (sym (get_elem?-drop 8 (length s) bytes) ∙ ap (λ b. get_elem? b (length s)) d ∙ rest-last s v)

decode-name :
    (name : ℕ) (bytes s v : Bytes)
    → length bytes ≡ 8 + length (rest s v)
    → drop 8 bytes ≡ rest s v
    → 4 ≤ length v
    → trim_right s ≡ s
    → decode_name bytes (some name) (some (length s + 1)) ≡ decode_version name s (uint32 v)
unfolding decode_name
decode-name name bytes s v l d four t =
    rw
      (
        name_test (length s) (length bytes) (length (rest s v)) (length v) l (length-rest s v),
        last_index bytes s v d,
      )
      (decode-string name bytes s v l d four t)

-- The body of an event and what follows it, as the registry reads it.
abbrev shape : ℕ → Bytes → Bytes → Bytes
shape name s v = put_uint32 name ++ (put_uint32 (length s + 1) ++ rest s v)

body-shape :
    (ev : GlobalEvent) (more : Bytes)
    → IsGlobal ev
    → global_body ev ++ more ≡ shape ev.name ev.interface (put_uint32 ev.version ++ more)
body-shape ev more g =
    rw
      (
        put_str-eq ev.interface g.interface_fits,
        append_assoc (ev.interface ++ zeros (suc (padding (length ev.interface + 1))))
            (put_uint32 ev.version) more,
        append_assoc ev.interface (zeros (suc (padding (length ev.interface + 1))))
            (put_uint32 ev.version ++ more),
      )
      refl

not_short : (n : ℕ) → ltb (suc (suc (suc (suc (suc (suc (suc (suc n)))))))) 8 ≡ false
not_short n = ground arith

dispatch-shape :
    (r : Bool) (name : ℕ) (s v : Bytes)
    → name < 2 ^ 32
    → length s + 4 < 2 ^ 32
    → 4 ≤ length v
    → trim_right s ≡ s
    → registry_dispatch true r 0 (shape name s v) ≡ decode_version name s (uint32 v)
unfolding registry_dispatch
dispatch-shape r name s v p q four t =
    rw
      (
        not_short (length (rest s v)),
        uint32-put name (put_uint32 (length s + 1) ++ rest s v) p,
        uint32-put (length s + 1) (rest s v) (omega (arith, q)),
      )
      (decode-name name (shape name s v) s v (omega arith) refl four t)

version_read :
    (ev : GlobalEvent) (o : Option ℕ)
    → IsGlobal ev
    → o ≡ some ev.version
    → decode_version ev.name ev.interface o ≡ decoded (global ev)
unfolding decode_version
version_read ev o g e = rw e (ground (arith, g.has_version))

-- A global event that the compositor encodes, whatever follows it, is the event that the handler of
-- the registry gets, with its name, its interface and its version.
pub registry_dispatch-global_body :
    (on_remove : Bool) (ev : GlobalEvent) (more : Bytes)
    → IsGlobal ev
    → registry_dispatch true on_remove 0 (global_body ev ++ more) ≡ decoded (global ev)
unfolding registry_dispatch
registry_dispatch-global_body r ev more g =
    subst (λ b. registry_dispatch true r 0 b ≡ decoded (global ev)) (sym (body-shape ev more g))
      (dispatch-shape r ev.name ev.interface (put_uint32 ev.version ++ more) g.name_fits
          g.interface_fits (omega arith) g.no_nul
        ∙ version_read ev (uint32 (put_uint32 ev.version ++ more)) g
            (uint32-put ev.version more g.version_fits))
