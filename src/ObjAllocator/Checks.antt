-- ===== src/ObjAllocator/Checks.antt =====
-- The allocator with its assertions.
use xdp.Base.{
  Avoids, ℕ, ◌+◌, ◌≤◌, ◌<◌, true, false, List, ◌∷◌, some, ◌≡◌, ◌==◌, ltb, leb, ◌&&◌, length, arith,
}
use xdp.ObjAllocator.{Allocator, done, failed, free_list_free, alloc, store, free}
use xdp.ObjAllocator.Index.{object, obj_to_index-object, check-object}
use xdp.ObjAllocator.FreeList.{
  FreeObjects, without_head, free_list_alloc-head, free_list_free-FreeObjects,
}

-- With base index 1, an allocation hands out the object at the head of the free list, and no
-- assertion fails.
pub alloc-head :
    (a : Allocator) (i : ℕ) (rest : List ℕ)
    → FreeObjects a (i ∷ rest)
    → a.base_index ≡ 1
    → (alloc a ≡ done (some (object a i, i + 1), without_head i a))
      × FreeObjects (without_head i a) rest
unfolding alloc
alloc-head a i rest v one =
    let taken = free_list_alloc-head a i rest v in
    let index = obj_to_index-object (without_head i a) i taken.1.placed v.distinct.0 in
    let fine = check-object (without_head i a) i taken.1.placed v.distinct.0 in
    let within : (ltb 0 (i + 1) && leb (i + 1) a.max_objs) ≡ true = ground (arith, v.distinct.0) in
    let same : ((i + 1) == (i + 1)) ≡ true = ground arith in
    (rw (taken.0, alloc, fine, index, one, within, same), taken.1)

-- With any base index, an allocation of the object with number `i` fails an assertion where its index
-- is 0 or above `max_objs`.
pub alloc_failed :
    (a : Allocator) (i : ℕ) (rest : List ℕ)
    → FreeObjects a (i ∷ rest)
    → (ltb 0 (i + a.base_index) && leb (i + a.base_index) a.max_objs) ≡ false
    → alloc a ≡ failed
unfolding alloc
alloc_failed a i rest v out =
    let taken = free_list_alloc-head a i rest v in
    let fine = check-object (without_head i a) i taken.1.placed v.distinct.0 in
    rw (taken.0, alloc, fine, out)

-- With base index 1, an object of at least 8 bytes that is handed back and was not free is free again,
-- and the next allocation hands it out.
pub free-alloc :
    (a : Allocator) (i : ℕ) (rest : List ℕ)
    → FreeObjects a rest
    → 8 ≤ a.obj_size
    → a.base_index ≡ 1
    → i < a.max_objs
    → Avoids i rest
    → length rest < a.max_objs
    → (b : Allocator) × (free (object a i) a ≡ done b)
      × (alloc b ≡ done (some (object a i, i + 1), without_head i b))
      × FreeObjects (without_head i b) rest
unfolding free free_list_free store
free-alloc a i rest v wide one h avoids room =
    let within : (ltb 0 (i + 1) && leb (i + 1) a.max_objs) ≡ true = ground arith in
    let fine = check-object a i v.placed h in
    let freed = free_list_free-FreeObjects a i rest v wide h avoids room in
    let again = alloc-head (free_list_free (object a i) a) i rest freed one in
    (free_list_free (object a i) a, rw (fine, one, within), again.0, again.1)
