-- ===== src/Wayland/Wire/Total.antt =====
-- internal/wl/wl.go: the registry reads no byte that is not there.
use perfuncted.Prelude.{
  ℕ, ◌+◌, ◌-◌, ◌*◌, ◌%◌, ◌≤◌, ◌≡◌, ◌≢◌, refl, Bool, true, false, ◌||◌, Option, none, some, [], ◌∷◌,
  length, length-drop, get_elem?_total, get_elem?, take, drop, ltb, leb, ◌==◌, arith, Bool-cases,
  inl, inr,
}
use perfuncted.Wayland.Wire.{
  Bytes, uint32, trim_right, panics, decode_version, decode_string, decode_name, decode_removed,
  registry_dispatch,
}

uint32_total : (bytes : Bytes) → 4 ≤ length bytes → (v : ℕ) × (uint32 bytes ≡ some v)
unfolding uint32
uint32_total [] h = absurd (omega arith)
uint32_total (a ∷ []) h = absurd (omega arith)
uint32_total (a ∷ (b ∷ [])) h = absurd (omega arith)
uint32_total (a ∷ (b ∷ (c ∷ []))) h = absurd (omega arith)
uint32_total (a ∷ (b ∷ (c ∷ (d ∷ bs)))) h = (a + b * 256 + c * 65536 + d * 16777216, refl)

decode_version-total :
    (name : ℕ) (s : Bytes) (o : Option ℕ) (v : ℕ) → o ≡ some v → decode_version name s o ≢ panics
unfolding decode_version
decode_version-total name s none v e p = ground arith
decode_version-total name s (some w) v e p = ground arith

enough :
    (off : ℕ) (bytes : Bytes) → ltb (length bytes) (off + 4) ≡ false → 4 ≤ length (drop off bytes)
enough off bytes q = ground (arith, q, length-drop off bytes)

decode_string-total :
    (name slen : ℕ) (bytes : Bytes) (o : Option ℕ) (c : ℕ)
    → o ≡ some c
    → decode_string name slen bytes o ≢ panics
unfolding decode_string
decode_string-total name slen bytes none c e p = ground arith
decode_string-total name slen bytes (some d) c e p =
    let off = 8 + (slen + (4 - slen % 4) % 4) in
    elim (Bool-cases (ltb (length bytes) (off + 4))) [
      | inl q ↦ ground (arith, p, q)
      | inr q ↦
          let (v, f) = uint32_total (drop off bytes) (enough off bytes q) in
          ground (
            arith,
            p,
            q,
            decode_version-total name (trim_right (take slen (drop 8 bytes)))
                (uint32 (drop off bytes)) v f,
          )
    ]

decode_name-total :
    (bytes : Bytes) (x y : Option ℕ) (name slen : ℕ)
    → x ≡ some name
    → y ≡ some slen
    → decode_name bytes x y ≢ panics
unfolding decode_name
decode_name-total bytes none y name slen e f p = ground arith
decode_name-total bytes (some n) none name slen e f p = ground arith
decode_name-total bytes (some n) (some l) name slen e f p =
    elim (Bool-cases ((l == 0) || ltb (length bytes - 8) l)) [
      | inl q ↦ ground (arith, p, q)
      | inr q ↦
          let (c, g) = get_elem?_total (8 + l - 1) bytes (ground (arith, q)) in
          ground (arith, p, q, decode_string-total n l bytes (get_elem? bytes (8 + l - 1)) c g)
    ]

decode_removed-total : (x : Option ℕ) (name : ℕ) → x ≡ some name → decode_removed x ≢ panics
unfolding decode_removed
decode_removed-total none name e p = ground arith
decode_removed-total (some n) name e p = ground arith

global_total :
    (bytes : Bytes)
    → ltb (length bytes) 8 ≡ false
    → decode_name bytes (uint32 bytes) (uint32 (drop 4 bytes)) ≢ panics
global_total bytes q =
    let (n, e) = uint32_total bytes (ground (arith, q)) in
    let (l, f) = uint32_total (drop 4 bytes) (ground (arith, q, length-drop 4 bytes)) in
    decode_name-total bytes (uint32 bytes) (uint32 (drop 4 bytes)) n l e f

removed_total :
    (bytes : Bytes) → leb 4 (length bytes) ≡ true → decode_removed (uint32 bytes) ≢ panics
removed_total bytes q =
    let (n, e) = uint32_total bytes (ground (arith, q)) in decode_removed-total (uint32 bytes) n e

-- No event makes the registry read a byte that is not there.
pub registry_dispatch_total :
    (on_global on_remove : Bool) (opcode : ℕ) (bytes : Bytes)
    → registry_dispatch on_global on_remove opcode bytes ≢ panics
unfolding registry_dispatch
registry_dispatch_total a b opcode bytes p =
    ground (arith, p, global_total bytes, removed_total bytes)
