-- ===== src/ObjAllocator/Tests.antt =====
-- The object allocator at concrete inputs.
use xdp.Base.{true, [], ◌∷◌, none, some, ◌≡◌, refl, arith}
use xdp.ObjAllocator.{
  Allocator, load, read_bytes, done, translate, reverse_translate, check, free_list_alloc,
  free_list_free, alloc, free,
}
use xdp.ObjAllocator.Index.{object, Placed, check-object}
use xdp.ObjAllocator.FreeList.{
  FreeObjects, without_head, free_list_alloc-head, free_list_free-FreeObjects,
}
use xdp.ObjAllocator.Checks.{alloc-head, free-alloc}

-- Two objects of 8 bytes, behind a translator with base 32.
abbrev blank : Allocator
blank = record {
  max_objs = 2;
  obj_size = 8;
  base_index = 1;
  xlat = some 32;
  base = 0;
  free_list = 0;
  num_free = 0;
  allocs = 0;
  alloc_fails = 0;
  mem = λ x. 0;
}

-- Both objects handed out; their addresses need no translation.
abbrev exhausted : Allocator
exhausted = record blank { xlat = none; base = 64 }

exhausted-Placed : Placed exhausted
unfolding translate
exhausted-Placed = record {
  size = omega arith;
  space = omega arith;
  positive = omega arith;
  behind = λ fbase e. absurd (ground arith);
  indices = omega arith;
}

exhausted_free : FreeObjects exhausted []
exhausted_free = record {
  placed = exhausted-Placed;
  chain = refl;
  distinct = tt;
  count = refl;
  bound = omega arith;
}

-- The second object free.
abbrev one_free : Allocator
one_free = record exhausted { free_list = 72; num_free = 1 }

one_free-Placed : Placed one_free
unfolding translate
one_free-Placed = record {
  size = omega arith;
  space = omega arith;
  positive = omega arith;
  behind = λ fbase e. absurd (ground arith);
  indices = omega arith;
}

one_free_free : FreeObjects one_free (1 ∷ [])
unfolding translate reverse_translate load read_bytes
one_free_free = record {
  placed = one_free-Placed;
  chain = (refl, refl);
  distinct = (omega arith, tt, tt);
  count = refl;
  bound = omega arith;
}

check-object_example : check exhausted (object exhausted 1) ≡ true
check-object_example = check-object exhausted 1 exhausted-Placed (omega arith)

free_list_alloc-head_example :
    (free_list_alloc one_free ≡ done (some (object one_free 1, 2), without_head 1 one_free))
    × FreeObjects (without_head 1 one_free) []
free_list_alloc-head_example = free_list_alloc-head one_free 1 [] one_free_free

free_list_free-FreeObjects_example :
    FreeObjects (free_list_free (object exhausted 1) exhausted) (1 ∷ [])
free_list_free-FreeObjects_example =
    free_list_free-FreeObjects exhausted 1 [] exhausted_free (omega arith) (omega arith) tt
      (omega arith)

alloc-head_example :
    (alloc one_free ≡ done (some (object one_free 1, 2), without_head 1 one_free))
    × FreeObjects (without_head 1 one_free) []
alloc-head_example = alloc-head one_free 1 [] one_free_free refl

free-alloc_example :
    (b : Allocator) × (free (object exhausted 1) exhausted ≡ done b)
    × (alloc b ≡ done (some (object exhausted 1, 2), without_head 1 b))
    × FreeObjects (without_head 1 b) []
free-alloc_example =
    free-alloc exhausted 1 [] exhausted_free (omega arith) refl (omega arith) tt (omega arith)

-- The same object where indices start at 2.
abbrev shifted : Allocator
shifted = record one_free { base_index = 2 }

shifted-Placed : Placed shifted
unfolding translate
shifted-Placed = record {
  size = omega arith;
  space = omega arith;
  positive = omega arith;
  behind = λ fbase e. absurd (ground arith);
  indices = omega arith;
}

shifted_free : FreeObjects shifted (1 ∷ [])
unfolding translate reverse_translate load read_bytes
shifted_free = record {
  placed = shifted-Placed;
  chain = (refl, refl);
  distinct = (omega arith, tt, tt);
  count = refl;
  bound = omega arith;
}
