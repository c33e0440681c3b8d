-- ===== src/Checksum/Sum.antt =====
-- What the checksum functions compute: sums of 16-bit words modulo 2^16 - 1.
use xdp.Base.{ℕ, ◌+◌, ◌*◌, ◌/◌, ◌%◌, ◌^◌, ◌<◌, List, [], ◌∷◌, ◌≡◌, ◌∙◌, length, All, arith}
use xdp.Checksum.{fold32, fold64, add16, add32, add64, sum_words, compute}

-- The sum of the 16-bit words of a block, with a zero byte behind an odd one.
unfoldable pub sum16 : List ℕ → ℕ
sum16 [] = 0
sum16 (a ∷ []) = a
sum16 (a ∷ b ∷ rest) = a + 256 * b + sum16 rest

-- Folding 32 bits to 16 keeps the value modulo 2^16 - 1.
pub fold32_mod :
    (val : ℕ) → val < 2 ^ 32 → (fold32 val % 65535 ≡ val % 65535) × (fold32 val < 65536)
unfolding fold32
fold32_mod val h = omega arith

-- Folding 64 bits to 16 keeps the value modulo 2^16 - 1.
pub fold64_mod :
    (val : ℕ) → val < 2 ^ 64 → (fold64 val % 65535 ≡ val % 65535) × (fold64 val < 65536)
unfolding fold64
fold64_mod val h =
    let val1 = (val % 2 ^ 32 + val / 2 ^ 32) % 2 ^ 64 in
    let val2 = (val1 + val1 / 2 ^ 32) % 2 ^ 64 in
    let folded = fold32_mod (val2 % 2 ^ 32) (omega arith) in (folded.0 ∙ omega arith, folded.1)

-- Adding a 16-bit word to the low word of a sum keeps the other words, and adds modulo 2^16 - 1.
pub add16_mod :
    (val1 val2 : ℕ)
    → val1 < 2 ^ 64
    → val2 < 2 ^ 16
    → (add16 val1 val2 / 2 ^ 16 ≡ val1 / 2 ^ 16) × (add16 val1 val2 % 65535 ≡ (val1 + val2) % 65535)
unfolding add16
add16_mod val1 val2 h k = omega arith

-- Adding a 32-bit word to the low word of a sum keeps the other word, and adds modulo 2^16 - 1.
pub add32_mod :
    (val1 val2 : ℕ)
    → val1 < 2 ^ 64
    → val2 < 2 ^ 32
    → (add32 val1 val2 / 2 ^ 32 ≡ val1 / 2 ^ 32) × (add32 val1 val2 % 65535 ≡ (val1 + val2) % 65535)
unfolding add32
add32_mod val1 val2 h k = omega arith

-- Adding two sums of 64 bits each gives their sum modulo 2^16 - 1.
pub add64_mod :
    (val1 val2 : ℕ)
    → val1 < 2 ^ 64
    → val2 < 2 ^ 64
    → add64 val1 val2 % 65535 ≡ (val1 + val2) % 65535
unfolding add64
add64_mod val1 val2 h k = omega arith

-- A byte.
abbrev pub IsByte : ℕ → Type 0
IsByte b = b < 256

sum_words_mod :
    (bytes : List ℕ) (sum : ℕ)
    → All IsByte bytes
    → sum + 2 ^ 32 * length bytes < 2 ^ 64
    → (sum_words bytes sum % 65535 ≡ (sum + sum16 bytes) % 65535) × (sum_words bytes sum < 2 ^ 64)
unfolding sum_words sum16
sum_words_mod [] sum all h = omega arith
sum_words_mod (a ∷ []) sum all h = omega arith
sum_words_mod (a ∷ b ∷ []) sum all h = omega arith
sum_words_mod (a ∷ b ∷ c ∷ []) sum all h = omega arith
sum_words_mod (a ∷ b ∷ c ∷ d ∷ rest) sum all h =
    let word = a + 256 * b + 65536 * c + 16777216 * d in
    let fits : sum + word < 2 ^ 64 = omega arith in
    let small : (sum + word) % 2 ^ 64 ≡ sum + word = omega (arith, fits) in
    let more = sum_words_mod rest ((sum + word) % 2 ^ 64) all.1.1.1.1 (omega (arith, small)) in
    (more.0 ∙ omega (arith, small), more.1)

-- The checksum of a block of less than 2^32 bytes is the sum of its 16-bit words modulo 2^16 - 1.
pub compute_mod :
    (bytes : List ℕ)
    → All IsByte bytes
    → length bytes < 2 ^ 32
    → (compute bytes % 65535 ≡ sum16 bytes % 65535) × (compute bytes < 65536)
unfolding compute
compute_mod bytes all h =
    let sum = sum_words_mod bytes 0 all (omega arith) in
    let folded = fold64_mod (sum_words bytes 0) sum.1 in (folded.0 ∙ sum.0 ∙ omega arith, folded.1)
