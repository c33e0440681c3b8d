-- ===== src/ObjAllocator/Bytes.antt =====
-- The pointers that the free objects hold: 8 bytes of the memory each, which those of objects at least 8
-- bytes apart do not share.
use xdp.Base.{
  ℕ, zero, suc, ◌+◌, ◌*◌, ◌/◌, ◌%◌, ◌≤◌, ◌<◌, true, false, ◌≡◌, refl, ◌⊎◌, inl, inr, ◌==◌, size_mod,
  arith,
}
use xdp.ObjAllocator.{Addr, read_bytes, write_bytes, load}

-- The number of values of so many bytes.
unfoldable values : ℕ → ℕ
values zero = 1
values (suc k) = 256 * values k

read_bytes-same :
    (k : ℕ) (mem mem' : Addr → ℕ) (x : Addr)
    → ((y : Addr) → x ≤ y → y < x + k → mem y ≡ mem' y)
    → read_bytes k mem x ≡ read_bytes k mem' x
unfolding read_bytes
read_bytes-same zero mem mem' x h = refl
read_bytes-same (suc k) mem mem' x h =
    let rest =
      read_bytes-same k mem mem' (x + 1) (λ y l u. h y (omega (arith, l)) (omega (arith, u))) in
    rw (h x (omega arith) (omega arith), rest) refl

-- A write leaves the bytes before and behind it.
pub write_bytes-other :
    (k : ℕ) (obj word : Addr) (mem : Addr → ℕ) (x : Addr)
    → (x < obj) ⊎ (obj + k ≤ x)
    → write_bytes k obj word mem x ≡ mem x
unfolding write_bytes
write_bytes-other zero obj word mem x h = refl
write_bytes-other (suc k) obj word mem x (inl h) =
    let other : (x == obj) ≡ false = ground arith in
    rw other (write_bytes-other k (obj + 1) (word / 256) mem x (inl (omega arith)))
write_bytes-other (suc k) obj word mem x (inr h) =
    let other : (x == obj) ≡ false = ground arith in
    rw other (write_bytes-other k (obj + 1) (word / 256) mem x (inr (omega arith)))

read-write_bytes :
    (k : ℕ) (obj word : Addr) (mem : Addr → ℕ)
    → word < values k
    → read_bytes k (write_bytes k obj word mem) obj ≡ word
unfolding read_bytes write_bytes values
read-write_bytes zero obj word mem h = omega arith
read-write_bytes (suc k) obj word mem h =
    let written = write_bytes (suc k) obj word mem in
    let rest = write_bytes k (obj + 1) (word / 256) mem in
    let behind : read_bytes k written (obj + 1) ≡ read_bytes k rest (obj + 1) =
      read_bytes-same k written rest (obj + 1)
        (λ y l u. let other : (y == obj) ≡ false = ground (arith, l) in rw other refl) in
    let again = read-write_bytes k (obj + 1) (word / 256) mem (omega arith) in
    let same : (obj == obj) ≡ true = ground arith in
    let first : written obj ≡ word % 256 = rw same refl in rw (first, behind, again) (omega arith)

-- A pointer that was written is read.
pub load-write_bytes :
    (obj word : Addr) (mem : Addr → ℕ)
    → word < size_mod
    → load (write_bytes 8 obj word mem) obj ≡ word
unfolding load values
load-write_bytes obj word mem h = read-write_bytes 8 obj word mem h

-- A pointer is read as before where its bytes are the same.
pub load-same :
    (mem mem' : Addr → ℕ) (x : Addr)
    → ((y : Addr) → x ≤ y → y < x + 8 → mem y ≡ mem' y)
    → load mem x ≡ load mem' x
unfolding load
load-same mem mem' x h = read_bytes-same 8 mem mem' x h

-- A pointer at least 8 bytes away from one that is written is read as before.
pub load-write_bytes_other :
    (obj word : Addr) (mem : Addr → ℕ) (x : Addr)
    → (x + 8 ≤ obj) ⊎ (obj + 8 ≤ x)
    → load (write_bytes 8 obj word mem) x ≡ load mem x
load-write_bytes_other obj word mem x (inl h) =
    load-same (write_bytes 8 obj word mem) mem x
      (λ y l u. write_bytes-other 8 obj word mem y (inl (omega (arith, u))))
load-write_bytes_other obj word mem x (inr h) =
    load-same (write_bytes 8 obj word mem) mem x
      (λ y l u. write_bytes-other 8 obj word mem y (inr (omega (arith, l))))
