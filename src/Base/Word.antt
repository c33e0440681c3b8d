-- ===== src/Base/Word.antt =====
-- Machine words: the unsigned types of the source as native numbers with their wrap-around.
use Prim.Native.Nat.{ℕ, ◌+◌, ◌-◌, ◌%◌, ◌^◌, ◌≤◌, ◌<◌}
use mathlib.Core.Path.{◌≡◌}
use native.Mathlib.Omega.{arith}
use xdp.Base.Tests.{ltb, if◌then◌else◌}
use xdp.Base.Int.{ℤ, pos, negsuc}

-- The number of values of a `size_t`.
abbrev pub size_mod : ℕ
size_mod = 2 ^ 64

-- `a - b` on `size_t`.
unfoldable pub sub_size : ℕ → ℕ → ℕ
sub_size a b = (a + size_mod - b) % size_mod

-- A `ssize_t` read as a `size_t`, as in a comparison of the two.
unfoldable pub as_size : ℤ → ℕ
as_size (pos n) = n
as_size (negsuc n) = size_mod - 1 - n

-- An `int` as an `unsigned int`.
unfoldable pub as_uint : ℤ → ℕ
as_uint (pos n) = n
as_uint (negsuc n) = 2 ^ 32 - 1 - n

-- A `size_t` as an `int`.
unfoldable pub to_int : ℕ → ℤ
to_int n = if ltb (n % 2 ^ 32) (2 ^ 31) then pos (n % 2 ^ 32) else negsuc (2 ^ 32 - 1 - n % 2 ^ 32)

pub sub_size_exact : (a b : ℕ) → b ≤ a → a < size_mod → sub_size a b ≡ a - b
unfolding sub_size
sub_size_exact a b h k = omega arith

pub sub_size-lt : (a b : ℕ) → sub_size a b < size_mod
unfolding sub_size
sub_size-lt a b = omega arith

-- A `size_t` returned as a `ssize_t`.
unfoldable pub to_ssize : ℕ → ℤ
to_ssize n = if ltb n (2 ^ 63) then pos n else negsuc (size_mod - 1 - n)

-- An `int` stored in an `__s8`.
unfoldable pub to_s8 : ℤ → ℤ
to_s8 (pos n) = if ltb (n % 256) 128 then pos (n % 256) else negsuc (255 - n % 256)
to_s8 (negsuc n) = if ltb (n % 256) 128 then negsuc (n % 256) else pos (255 - n % 256)
