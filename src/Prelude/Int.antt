-- ===== src/Prelude/Int.antt =====
-- Signed integers over the native numbers, for Go's `int` and `int64`, whose range the program's
-- values stay far below.
use vergo.Prelude.Tests.{ltb, leb, if◌then◌else◌}
use Prim.Native.Nat.{ℕ, suc, ◌+◌, ◌*◌, ◌%◌, ◌^◌, ◌-◌}
use mathlib.Core.Bool.{Bool, true, false}

-- `negsuc n` is -(n + 1).
pub data ℤ : Type 0 where
  pos : ℕ → ℤ
  negsuc : ℕ → ℤ

-- a < b and a ≤ b
abbrev pub ltb_ℤ : ℤ → ℤ → Bool
ltb_ℤ (pos a) (pos b) = ltb a b
ltb_ℤ (pos a) (negsuc b) = false
ltb_ℤ (negsuc a) (pos b) = true
ltb_ℤ (negsuc a) (negsuc b) = ltb b a

abbrev pub leb_ℤ : ℤ → ℤ → Bool
leb_ℤ (pos a) (pos b) = leb a b
leb_ℤ (pos a) (negsuc b) = false
leb_ℤ (negsuc a) (pos b) = true
leb_ℤ (negsuc a) (negsuc b) = leb b a

-- The conversion int32(n) of a value that is not negative.
abbrev pub int32 : ℕ → ℤ
int32 n = if ltb (n % 2 ^ 32) (2 ^ 31) then pos (n % 2 ^ 32) else negsuc (2 ^ 32 - 1 - n % 2 ^ 32)

-- The conversion of an int to int32: a value that is not negative may wrap. (Those below zero are
-- replaced before every conversion in the program.)
abbrev pub to_int32 : ℤ → ℤ
to_int32 (pos n) = int32 n
to_int32 (negsuc n) = negsuc n

-- The conversion of a product that is not negative to an int of 64 bits.
abbrev pub int64 : ℕ → ℤ
int64 n = if ltb (n % 2 ^ 64) (2 ^ 63) then pos (n % 2 ^ 64) else negsuc (2 ^ 64 - 1 - n % 2 ^ 64)

-- a + n
abbrev pub add_len : ℤ → ℕ → ℤ
add_len (pos a) n = pos (a + n)
add_len (negsuc a) n = if ltb a n then pos (n - a - 1) else negsuc (a - n)

-- t.Add(time.Duration(n) * unit): an instant before the epoch is the epoch.
abbrev pub add_units : ℕ → ℤ → ℕ → ℕ
add_units t (pos n) unit = t + n * unit
add_units t (negsuc n) unit = t - suc n * unit
