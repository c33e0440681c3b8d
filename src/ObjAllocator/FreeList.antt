-- ===== src/ObjAllocator/FreeList.antt =====
-- The free list: which objects are free, and what allocating and freeing do to it.
use xdp.Base.{
  ◌≢◌, sym, ◌⊎◌, inl, inr, Bool-cases, ltb, Avoids, ℕ, ◌+◌, ◌-◌, ◌*◌, ◌%◌, ◌≤◌, ◌<◌, true, false,
  List, [], ◌∷◌, none, some, ◌≡◌, refl, ◌==◌, sub_size, size_mod, length, arith,
}
use xdp.ObjAllocator.{
  Addr, Xlat, Allocator, done, translate, reverse_translate, store, load, write_bytes,
  free_list_alloc, free_list_free,
}
use xdp.ObjAllocator.Bytes.{load-write_bytes, load-write_bytes_other}
use xdp.ObjAllocator.Index.{object, Placed, obj_to_index-object}

-- From a relative address on, the pointers in the memory link the objects with these numbers; `at` is
-- where an object lies.
abbrev pub Chain : (Addr → ℕ) → Xlat → (ℕ → Addr) → Addr → List ℕ → Type 0
Chain mem xlat at head [] = head ≡ 0
Chain mem xlat at head (i ∷ is) =
    (head ≡ reverse_translate xlat (at i)) × Chain mem xlat at (load mem (at i)) is

-- Numbers below a bound, none twice.
abbrev pub Distinct : ℕ → List ℕ → Type 0
Distinct bound [] = Unit
Distinct bound (i ∷ is) = (i < bound) × Avoids i is × Distinct bound is

-- The free list links the objects `free`, each once, and their number is right.
pub record FreeObjects (a : Allocator) (free : List ℕ) : Type 0 where
  pub placed : Placed a
  pub chain : Chain a.mem a.xlat (object a) a.free_list free
  pub distinct : Distinct a.max_objs free
  pub count : a.num_free ≡ length free
  pub bound : length free ≤ a.max_objs

pub translate-reverse_translate :
    (xlat : Xlat) (addr : Addr)
    → addr < size_mod
    → ((fbase : Addr) → xlat ≡ some fbase → fbase < addr)
    → (translate xlat (reverse_translate xlat addr) ≡ addr)
unfolding translate reverse_translate sub_size
translate-reverse_translate none addr h k = refl
translate-reverse_translate (some fbase) addr h k = ground (arith, k fbase refl)

object_place :
    (a : Allocator) (i : ℕ) → i < a.max_objs → i * a.obj_size + a.obj_size ≤ a.max_objs * a.obj_size
object_place a i h = grind arith

pub object_back :
    (a : Allocator) (i : ℕ)
    → Placed a
    → i < a.max_objs
    → (translate a.xlat (reverse_translate a.xlat (object a i)) ≡ object a i) × (0 < object a i)
object_back a i p h =
    let inside = object_place a i h in
    (
      translate-reverse_translate a.xlat (object a i) (omega (arith, inside, p.space, p.size))
          (λ fbase e. omega (arith, p.behind fbase e)),
      omega (arith, p.positive),
    )

below_apart : (i j size : ℕ) → i < j → i * size + size ≤ j * size
below_apart i j size h = grind arith

pub object_inj : (a : Allocator) (i j : ℕ) → 0 < a.obj_size → object a i ≡ object a j → i ≡ j
object_inj a i j h e = grind arith

-- The allocator without the object with number `i`, the head of its free list.
abbrev pub without_head : ℕ → Allocator → Allocator
without_head i a = record a {
  free_list = load a.mem (object a i);
  num_free = a.num_free - 1;
  allocs = (a.allocs + 1) % size_mod;
}

-- With a free object: the one at the head of the list is handed out with its index, and it is free no
-- longer.
pub free_list_alloc-head :
    (a : Allocator) (i : ℕ) (free : List ℕ)
    → FreeObjects a (i ∷ free)
    → (free_list_alloc a ≡ done (some (object a i, i + a.base_index), without_head i a))
      × FreeObjects (without_head i a) free
unfolding free_list_alloc
free_list_alloc-head a i free v =
    let back = object_back a i v.placed v.distinct.0 in
    let here : translate a.xlat a.free_list ≡ object a i = rw v.chain.0 (back.0) in
    let some_free : (a.num_free == 0) ≡ false = ground (arith, v.count) in
    let there : (object a i == 0) ≡ false = ground (arith, back.1) in
    (
      rw (some_free, free_list_alloc, here, there, obj_to_index-object a i v.placed v.distinct.0),
      record {
        placed = record {
          size = v.placed.size;
          space = v.placed.space;
          positive = v.placed.positive;
          behind = v.placed.behind;
          indices = v.placed.indices;
        };
        chain = v.chain.1;
        distinct = v.distinct.2;
        count = omega (arith, v.count);
        bound = omega (arith, v.bound);
      },
    )

-- With no free object: NULL is handed out, the failure is counted, and the list stays as it is.
pub free_list_alloc-empty :
    (a : Allocator)
    → FreeObjects a []
    → free_list_alloc a ≡ done (none, record a { alloc_fails = (a.alloc_fails + 1) % size_mod })
unfolding free_list_alloc
free_list_alloc-empty a v =
    let no_free : (a.num_free == 0) ≡ true = ground (arith, v.count) in
    rw (no_free, free_list_alloc)

-- Objects that can hold a pointer do not share the bytes of it.
object_apart :
    (a : Allocator) (i j : ℕ)
    → 8 ≤ a.obj_size
    → j ≢ i
    → (object a j + 8 ≤ object a i) ⊎ (object a i + 8 ≤ object a j)
object_apart a i j h d = elim (Bool-cases (ltb j i)) [
  | inl below ↦
      let apart = below_apart j i a.obj_size (ground (arith, below)) in inl (omega (arith, apart))
  | inr above ↦
      let apart = below_apart i j a.obj_size (ground (arith, above, d)) in
      inr (omega (arith, apart))
]

pub reverse_translate-lt :
    (xlat : Xlat) (addr : Addr) → addr < size_mod → reverse_translate xlat addr < size_mod
unfolding reverse_translate sub_size
reverse_translate-lt none addr h = h
reverse_translate-lt (some fbase) addr h = ground (arith)

-- The head of a free list is an address.
head-lt : (a : Allocator) (free : List ℕ) → FreeObjects a free → a.free_list < size_mod
head-lt a [] v = let empty : a.free_list ≡ 0 = v.chain in omega arith
head-lt a (i ∷ is) v =
    let inside = object_place a i v.distinct.0 in
    let head : a.free_list ≡ reverse_translate a.xlat (object a i) = v.chain.0 in
    rw head (
      reverse_translate-lt a.xlat (object a i)
        (omega (arith, inside, v.placed.space, v.placed.size)))

-- A write to an object that is not in the list leaves the chain.
Chain-store :
    (mem : Addr → ℕ) (xlat : Xlat) (at : ℕ → Addr) (i word : ℕ) (head : Addr) (is : List ℕ)
    → ((j : ℕ) → j ≢ i → (at j + 8 ≤ at i) ⊎ (at i + 8 ≤ at j))
    → Avoids i is
    → Chain mem xlat at head is
    → Chain (write_bytes 8 (at i) word mem) xlat at head is
Chain-store mem xlat at i word head [] apart avoids h = h
Chain-store mem xlat at i word head (j ∷ js) apart avoids h =
    let kept = load-write_bytes_other (at i) word mem (at j) (apart j (λ e. avoids.0 (sym e))) in
    (h.0, rw kept (Chain-store mem xlat at i word (load mem (at j)) js apart avoids.1 h.1))

-- An object of at least 8 bytes that is handed back and was not free is the head of the list from then on.
pub free_list_free-FreeObjects :
    (a : Allocator) (i : ℕ) (free : List ℕ)
    → FreeObjects a free
    → 8 ≤ a.obj_size
    → i < a.max_objs
    → Avoids i free
    → length free < a.max_objs
    → FreeObjects (free_list_free (object a i) a) (i ∷ free)
unfolding free_list_free store
free_list_free-FreeObjects a i free v wide h avoids room = record {
  placed = record {
    size = v.placed.size;
    space = v.placed.space;
    positive = v.placed.positive;
    behind = v.placed.behind;
    indices = v.placed.indices;
  };
  chain = (
    refl,
    rw (load-write_bytes (object a i) a.free_list a.mem (head-lt a free v)) (
        Chain-store a.mem a.xlat (object a) i a.free_list a.free_list free
          (λ j d. object_apart a i j wide d) avoids v.chain),
  );
  distinct = (h, avoids, v.distinct);
  count = omega (arith, v.count, v.placed.indices);
  bound = omega arith;
}
