-- ===== src/Wayland/Wire/Strings.antt =====
-- internal/wl/wl.go: what was put is read again.
use perfuncted.Prelude.{
  ℕ, suc, ◌+◌, ◌-◌, ◌%◌, ◌^◌, ◌<◌, ◌≡◌, refl, ap, some, [], ◌∷◌, ◌++◌, length, zeros, length-zeros,
  length-append, arith,
}
use perfuncted.Wayland.Wire.{Bytes, put_uint32, uint32, put_str, trim_right}

pub uint32-put : (v : ℕ) (bs : Bytes) → v < 2 ^ 32 → uint32 (put_uint32 v ++ bs) ≡ some v
unfolding uint32
uint32-put v bs h = ap some (omega (arith, h))

-- The bytes after the NUL that fill up a string's last four.
abbrev pub padding : ℕ → ℕ
padding slen = (4 - slen % 4) % 4

put_str-zeros :
    (n : ℕ)
    → n + 4 < 2 ^ 32
    → ((n + 1) % 2 ^ 32 + 3) % 2 ^ 32 - ((n + 1) % 2 ^ 32 + 3) % 2 ^ 32 % 4 - n
      ≡ suc (padding (n + 1))
put_str-zeros n h = omega (arith, h)

put_str-size : (n : ℕ) → n + 4 < 2 ^ 32 → (n + 1) % 2 ^ 32 ≡ n + 1
put_str-size n h = omega (arith, h)

pub put_str-eq :
    (s : Bytes)
    → length s + 4 < 2 ^ 32
    → put_str s ≡ put_uint32 (length s + 1) ++ (s ++ zeros (suc (padding (length s + 1))))
unfolding put_str
put_str-eq s h = rw (put_str-zeros (length s) h, put_str-size (length s) h) refl

-- A string takes a multiple of four bytes.
pub length-put_str :
    (s : Bytes)
    → length s + 4 < 2 ^ 32
    → (length (put_str s) % 4 ≡ 0) × (length (put_str s) < length s + 9)
length-put_str s h =
    let n = suc (padding (length s + 1)) in
    rw (put_str-eq s h) (
      omega (arith, length-append s (zeros n), length-zeros n),
      omega (arith, length-append s (zeros n), length-zeros n),
    )

pub trim_right-zero : (s : Bytes) → trim_right (s ++ (0 ∷ [])) ≡ trim_right s
unfolding trim_right
trim_right-zero [] = refl
trim_right-zero (c ∷ cs) = ground (arith, trim_right-zero cs)
