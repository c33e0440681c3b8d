-- ===== src/ObjAllocator/Debug.antt =====
-- The checks of a debug build: __xdp2_obj_alloc_validate and __xdp2_obj_alloc_check_freed of
-- src/lib/xdp2/obj_allocator.c. `fuel` bounds their walks over the free list.
use xdp.Base.{
  Avoids, ℕ, zero, suc, ◌+◌, ◌%◌, ◌^◌, ◌<◌, Bool, true, false, ◌&&◌, List, [], ◌∷◌, Option, none,
  some, ◌≡◌, refl, ◌∙◌, ◌==◌, leb, length, arith,
}
use xdp.ObjAllocator.{Addr, Xlat, Allocator, load, translate, reverse_translate}
use xdp.ObjAllocator.Index.{object, Placed}
use xdp.ObjAllocator.FreeList.{FreeObjects, Chain, Distinct, object_back, object_inj}

-- The loop of __xdp2_obj_alloc_validate: it reads through the links as they stand, untranslated.
unfoldable pub count_free : ℕ → (Addr → ℕ) → Addr → ℕ → Option ℕ
count_free zero mem obj count = none
count_free (suc fuel) mem obj count = elim (obj == 0) [
  | true ↦ some count
  | false ↦ count_free fuel mem (load mem obj) ((count + 1) % 2 ^ 32)
]

-- __xdp2_obj_alloc_validate: do its assertions hold?
unfoldable pub validate : ℕ → Allocator → Option Bool
validate fuel a = elim (count_free fuel a.mem a.free_list 0) [
  | none ↦ none
  | some count ↦ some (leb count a.max_objs && (count == a.num_free))
]

-- The loop of __xdp2_obj_alloc_check_freed: does its assertion hold for each object of the list?
unfoldable pub avoids_free : ℕ → Xlat → (Addr → ℕ) → Addr → Addr → Option Bool
avoids_free zero xlat mem cobj obj = none
avoids_free (suc fuel) xlat mem cobj obj = elim (obj == 0) [
  | true ↦ some true
  | false ↦ elim (obj == cobj) [
    | true ↦ some false
    | false ↦ avoids_free fuel xlat mem cobj (translate xlat (load mem obj))
  ]
]

-- __xdp2_obj_alloc_check_freed
unfoldable pub check_freed : ℕ → Addr → Allocator → Option Bool
check_freed fuel cobj a = avoids_free fuel a.xlat a.mem cobj (translate a.xlat a.free_list)

untranslated : (xlat : Xlat) (addr : Addr) → xlat ≡ none → reverse_translate xlat addr ≡ addr
unfolding reverse_translate
untranslated none addr e = refl
untranslated (some fbase) addr e = absurd (ground arith)

translate_null : (xlat : Xlat) → translate xlat 0 ≡ 0
unfolding translate
translate_null none = refl
translate_null (some fbase) = refl

count_free-length :
    (fuel : ℕ) (mem : Addr → ℕ) (xlat : Xlat) (at : ℕ → Addr) (head count : ℕ) (is : List ℕ)
    → xlat ≡ none
    → ((i : ℕ) → 0 < at i)
    → Chain mem xlat at head is
    → length is < fuel
    → count + length is < 2 ^ 32
    → count_free fuel mem head count ≡ some (count + length is)
unfolding count_free
count_free-length zero mem xlat at head count is plain pos chain f h = absurd (omega arith)
count_free-length (suc fuel) mem xlat at head count [] plain pos chain f h =
    rw (chain, count_free) (ground arith)
count_free-length (suc fuel) mem xlat at head count (i ∷ is) plain pos chain f h =
    let here : head ≡ at i = chain.0 ∙ untranslated xlat (at i) plain in
    let more : (head == 0) ≡ false = ground (arith, pos i, here) in
    let next : (count + 1) % 2 ^ 32 ≡ count + 1 = omega arith in
    let rest =
      count_free-length fuel mem xlat at (load mem head) (count + 1) is plain pos (rw here chain.1)
        (omega arith) (omega arith) in
    rw (more, count_free, next) (rest ∙ ground arith)

-- On a well-formed allocator whose addresses need no translation the assertions on the free list
-- hold, and the walk ends within as many steps as there are objects and one more.
pub validate_lem :
    (a : Allocator) (free : List ℕ) (fuel : ℕ)
    → FreeObjects a free
    → a.xlat ≡ none
    → a.max_objs < fuel
    → validate fuel a ≡ some true
unfolding validate
validate_lem a free fuel v plain f =
    let walk =
      count_free-length fuel a.mem a.xlat (object a) a.free_list 0 free plain
        (λ i. omega (arith, v.placed.positive)) v.chain (omega (arith, v.bound))
        (omega (arith, v.bound, v.placed.indices)) in
    rw (walk, validate) (ground (arith, v.count, v.bound))

avoids_free-true :
    (fuel : ℕ) (a : Allocator) (i : ℕ) (head : Addr) (is : List ℕ)
    → Placed a
    → Chain a.mem a.xlat (object a) head is
    → Distinct a.max_objs is
    → Avoids i is
    → length is < fuel
    → avoids_free fuel a.xlat a.mem (object a i) (translate a.xlat head) ≡ some true
unfolding avoids_free
avoids_free-true zero a i head is p chain d avoids f = absurd (omega arith)
avoids_free-true (suc fuel) a i head [] p chain d avoids f =
    rw (chain, translate_null a.xlat, avoids_free)
avoids_free-true (suc fuel) a i head (j ∷ js) p chain d avoids f =
    let back = object_back a j p d.0 in
    let here : translate a.xlat head ≡ object a j = rw chain.0 (back.0) in
    let more : (translate a.xlat head == 0) ≡ false = ground (arith, back.1, here) in
    let other : (translate a.xlat head == object a i) ≡ false =
      ground (arith, object_inj a j i p.size, avoids.0, here) in
    rw (more, avoids_free, other)
      (rw here (
        avoids_free-true fuel a i (load a.mem (object a j)) js p chain.1 d.2 avoids.1
          (omega arith)))

-- On a well-formed allocator the check passes for an object that is not free, and ends within as many
-- steps as there are objects and one more.
pub check_freed_lem :
    (a : Allocator) (free : List ℕ) (i fuel : ℕ)
    → FreeObjects a free
    → Avoids i free
    → a.max_objs < fuel
    → check_freed fuel (object a i) a ≡ some true
unfolding check_freed
check_freed_lem a free i fuel v avoids f =
    avoids_free-true fuel a i a.free_list free v.placed v.chain v.distinct avoids
      (omega (arith, v.bound))
