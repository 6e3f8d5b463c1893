-- ===== src/Base/Words.antt =====
-- uint64_t: sums and differences wrap at 2 ^ 64, and a flag is one binary digit.
use Prim.Native.Nat.{ℕ, ◌+◌, ◌-◌, ◌*◌, ◌/◌, ◌%◌, ◌^◌}
use mathlib.Core.Bool.{Bool}
use softgpu.Base.Tests.{◌==◌, if◌then◌else◌}

abbrev pub u64_mod : ℕ
u64_mod = 2 ^ 64

-- ~0ull
abbrev pub u64_max : ℕ
u64_max = 2 ^ 64 - 1

abbrev pub add64 : ℕ → ℕ → ℕ
add64 a b = (a + b) % u64_mod

abbrev pub sub64 : ℕ → ℕ → ℕ
sub64 a b = (a + u64_mod - b) % u64_mod

abbrev pub mul64 : ℕ → ℕ → ℕ
mul64 a b = (a * b) % u64_mod

-- The four flags of a word by their weights 1, 2, 4, 8: `x & w`, `x | w`, `x & ~w`.
abbrev pub has : ℕ → ℕ → Bool
has w x = (x / w) % 2 == 1

abbrev pub with_flag : ℕ → ℕ → ℕ
with_flag w x = if has w x then x else x + w

abbrev pub without : ℕ → ℕ → ℕ
without w x = if has w x then x - w else x
