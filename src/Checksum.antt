-- ===== src/Checksum.antt =====
-- The Internet checksum: src/include/xdp2/checksum.h. `x & 0xffff` is `x % 2 ^ 16` and `x >> 16` is
-- `x / 2 ^ 16`; a word in memory is read on a little-endian machine.
pub mod Sum
mod Tests
use xdp.Base.{ℕ, ◌+◌, ◌-◌, ◌*◌, ◌/◌, ◌%◌, ◌^◌, List, [], ◌∷◌}

-- __xdp2_checksum_fold32
unfoldable pub fold32 : ℕ → ℕ
fold32 val =
    let val1 = (val % 2 ^ 16 + val / 2 ^ 16) % 2 ^ 32 in
    let val2 = (val1 + val1 / 2 ^ 16) % 2 ^ 32 in val2 % 2 ^ 16

-- __xdp2_checksum_fold64
unfoldable pub fold64 : ℕ → ℕ
fold64 val =
    let val1 = (val % 2 ^ 32 + val / 2 ^ 32) % 2 ^ 64 in
    let val2 = (val1 + val1 / 2 ^ 32) % 2 ^ 64 in fold32 (val2 % 2 ^ 32)

-- __xdp2_checksum_add16
unfoldable pub add16 : ℕ → ℕ → ℕ
add16 val1 val2 =
    let sum = (val1 % 2 ^ 16 + val2) % 2 ^ 32 in
    let sum' = (sum + sum / 2 ^ 16) % 2 ^ 32 in val1 - val1 % 2 ^ 16 + sum' % 2 ^ 16

-- __xdp2_checksum_add32
unfoldable pub add32 : ℕ → ℕ → ℕ
add32 val1 val2 =
    let sum = (val1 % 2 ^ 32 + val2) % 2 ^ 64 in
    let sum' = (sum + sum / 2 ^ 32) % 2 ^ 64 in val1 - val1 % 2 ^ 32 + sum' % 2 ^ 32

-- __xdp2_checksum_add64
unfoldable pub add64 : ℕ → ℕ → ℕ
add64 val1 val2 =
    let sum = (val1 % 2 ^ 32 + val2 % 2 ^ 32) % 2 ^ 64 in
    (sum + (val1 / 2 ^ 32 + val2 / 2 ^ 32)) % 2 ^ 64

-- The loop of __xdp2_checksum_compute over 32-bit words, then two bytes and one byte of the rest.
unfoldable pub sum_words : List ℕ → ℕ → ℕ
sum_words [] sum = sum
sum_words (a ∷ []) sum = (sum + a) % 2 ^ 64
sum_words (a ∷ b ∷ []) sum = (sum + (a + 256 * b)) % 2 ^ 64
sum_words (a ∷ b ∷ c ∷ []) sum = ((sum + (a + 256 * b)) % 2 ^ 64 + c) % 2 ^ 64
sum_words (a ∷ b ∷ c ∷ d ∷ rest) sum =
    sum_words rest ((sum + (a + 256 * b + 65536 * c + 16777216 * d)) % 2 ^ 64)

-- __xdp2_checksum_compute, behind its assertion that there are less than 2^32 bytes
unfoldable pub compute : List ℕ → ℕ
compute bytes = fold64 (sum_words bytes 0)
