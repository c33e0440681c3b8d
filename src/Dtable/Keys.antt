-- ===== src/Dtable/Keys.antt =====
-- Comparing keys: xdp2_compare_equal, xdp2_compare_tern and xdp2_compare_prefix of
-- src/include/xdp2/switch.h, on lists of bytes. A byte outside a list, which the program may not read,
-- is never the same as another one, and is 0 for the bits that xdp2_compare_prefix has left to compare.
use Prim.Native.Nat.{bit_and, bit_xor}
use xdp.Base.{
  ℕ, zero, suc, ◌-◌, ◌*◌, ◌/◌, ◌%◌, ◌^◌, Bool, true, false, ◌&&◌, not, List, [], ◌∷◌, ◌≡◌, refl, ap,
  ◌==◌, if◌then◌else◌, Bool-cases, inl, inr, length, get_or, arith,
}

-- memcpy of a key into an entry: its first bytes.
unfoldable pub copy_bytes : ℕ → List ℕ → List ℕ
copy_bytes zero key = []
copy_bytes (suc n) [] = []
copy_bytes (suc n) (b ∷ bs) = b ∷ copy_bytes n bs

-- xdp2_compare_equal: `memcmp` gives 0 where all bytes are equal.
unfoldable pub compare_equal : List ℕ → List ℕ → ℕ → Bool
compare_equal f1 f2 zero = true
compare_equal [] f2 (suc len) = false
compare_equal (c1 ∷ f1) [] (suc len) = false
compare_equal (c1 ∷ f1) (c2 ∷ f2) (suc len) = (c1 == c2) && compare_equal f1 f2 len

-- xdp2_compare_tern
unfoldable pub compare_tern : List ℕ → List ℕ → List ℕ → ℕ → Bool
compare_tern f1 f2 mask zero = true
compare_tern (c1 ∷ f1) (c2 ∷ f2) (m ∷ mask) (suc len) =
    let rest = compare_tern f1 f2 mask len in if bit_and (bit_xor c1 c2) m == 0 then rest else false
compare_tern _ _ _ (suc len) = false

-- xdp2_compare_prefix; the mask is cut to a byte.
unfoldable pub compare_prefix : List ℕ → List ℕ → ℕ → Bool
compare_prefix f1 f2 prefix_len =
    let div = prefix_len / 8 in
    let bits = prefix_len % 8 in
    let mask = (255 * 2 ^ (8 - bits)) % 2 ^ 8 in
    if not (compare_equal f1 f2 div)
    then false
    else if bits == 0
    then true
    else (bit_and (bit_xor (get_or f1 div 0) (get_or f2 div 0)) mask == 0)

pub copy_bytes-length : (key : List ℕ) → copy_bytes (length key) key ≡ key
unfolding copy_bytes
copy_bytes-length [] = refl
copy_bytes-length (b ∷ bs) = ap (◌∷◌ b) (copy_bytes-length bs)

pub compare_equal_refl : (f : List ℕ) → compare_equal f f (length f) ≡ true
unfolding compare_equal
compare_equal_refl [] = refl
compare_equal_refl (c ∷ f) =
    let same : (c == c) ≡ true = ground arith in rw (same) (compare_equal_refl f)

-- Two keys of the length that is compared are found equal only if they are the same bytes.
pub compare_equal-≡ :
    (f1 f2 : List ℕ) → length f1 ≡ length f2 → compare_equal f1 f2 (length f1) ≡ true → f1 ≡ f2
unfolding compare_equal
compare_equal-≡ [] [] l h = refl
compare_equal-≡ [] (c ∷ f) l h = absurd (omega (arith, l))
compare_equal-≡ (c ∷ f) [] l h = absurd (omega (arith, l))
compare_equal-≡ (c1 ∷ f1) (c2 ∷ f2) l h = elim (Bool-cases (c1 == c2)) [
  | inl same ↦
      let e : c1 ≡ c2 = ground (arith, same) in
      rw e (ap (◌∷◌ c2) (compare_equal-≡ f1 f2 (omega (arith, l)) (rw same at h)))
  | inr other ↦ let impossible = rw other at h in cc
]
