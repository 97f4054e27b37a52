-- ===== src/Common/Words.antt =====
-- `uint64_t` and `size_t` arithmetic.
use Prim.Native.Nat.{ℕ, ◌+◌, ◌-◌, ◌^◌}
use apexstorm.Common.Tests.{leb, if◌then◌else◌}

-- `a - b`, which wraps below 0.
abbrev pub sub64 : ℕ → ℕ → ℕ
sub64 a b = if leb b a then a - b else a + 2 ^ 64 - b

-- `~0ull`
abbrev pub max64 : ℕ
max64 = 2 ^ 64 - 1
