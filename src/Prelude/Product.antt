-- ===== src/Prelude/Product.antt =====
-- Products of natural numbers, for the sizes and offsets of images.
use Prim.Native.Nat.{ℕ, ◌+◌, ◌*◌, ◌/◌, ◌≤◌, ◌<◌}
use native.Mathlib.Omega.{arith}

pub *_le : (a b c d : ℕ) → a ≤ c → b ≤ d → a * b ≤ c * d
*_le a b c d p q = grind arith

-- The last row of a buffer ends where the buffer does.
pub row_fits : (r h s n : ℕ) → r < h → n ≤ s → r * s + n ≤ s * h
row_fits r h s n p q = grind arith

pub /_le : (v m s : ℕ) → 1 ≤ s → v ≤ m / s → v * s ≤ m
/_le v m s p q = grind arith

pub /_lt : (v m s : ℕ) → 1 ≤ s → m / s < v → m < v * s
/_lt v m s p q = grind arith

-- A row begins after the rows above it.
pub row_before : (y z n : ℕ) → y < z → y * n + n ≤ z * n
row_before y z n p = grind arith

pub row_mono : (y z n : ℕ) → y ≤ z → y * n ≤ z * n
row_mono y z n p = grind arith

pub le_/ : (h n m : ℕ) → 1 ≤ n → h * n ≤ m → h ≤ m / n
le_/ h n m p q = grind arith
