-- ===== src/Common/Int64.antt =====
-- A Go int64 as its bit pattern, a number below 2 ^ 64.
use Prim.Native.Nat.{ℕ, ◌+◌, ◌-◌, ◌%◌, ◌^◌, ◌<◌}
use mathlib.Core.Path.{◌≡◌}
use mathlib.Core.Bool.{Bool}
use native.Mathlib.Omega.{arith}
use go.Common.Tests.{ltb, leb}

-- `int64(n)`
abbrev pub wrap : ℕ → ℕ
wrap n = n % 2 ^ 64

abbrev pub add : ℕ → ℕ → ℕ
add a b = (a + b) % 2 ^ 64

abbrev pub sub : ℕ → ℕ → ℕ
sub a b = (a + (2 ^ 64 - b % 2 ^ 64)) % 2 ^ 64

-- The signed orders: a pattern from 2 ^ 63 on is negative.
abbrev pub lt : ℕ → ℕ → Bool
lt a b = ltb ((a + 2 ^ 63) % 2 ^ 64) ((b + 2 ^ 63) % 2 ^ 64)

abbrev pub le : ℕ → ℕ → Bool
le a b = leb ((a + 2 ^ 63) % 2 ^ 64) ((b + 2 ^ 63) % 2 ^ 64)

pub lt-eq-ltb : (a b : ℕ) → a < 2 ^ 63 → b < 2 ^ 63 → lt a b ≡ ltb a b
lt-eq-ltb a b ha hb = ground arith

pub le-eq-leb : (a b : ℕ) → a < 2 ^ 63 → b < 2 ^ 63 → le a b ≡ leb a b
le-eq-leb a b ha hb = ground arith
