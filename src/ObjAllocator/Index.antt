-- ===== src/ObjAllocator/Index.antt =====
-- Objects and their indices.
use xdp.Base.{
  ℕ, ◌+◌, ◌-◌, ◌*◌, ◌/◌, ◌%◌, ◌^◌, ◌≤◌, ◌<◌, ◌&&◌, some, ◌≡◌, ltb, leb, sub_size, size_mod, arith,
}
use xdp.ObjAllocator.{
  Addr, Allocator, done, translate, index_to_offset, index_to_obj, obj_to_index, check,
}

-- The address of the object with number `i`, from 0 on.
abbrev pub object : Allocator → ℕ → Addr
object a i = translate a.xlat a.base + i * a.obj_size

-- The objects lie in memory, behind address 0 and behind what addresses are relative to, and the
-- indices are `unsigned int`s.
pub record Placed (a : Allocator) : Type 0 where
  pub size : 0 < a.obj_size
  pub space : translate a.xlat a.base + a.max_objs * a.obj_size < size_mod
  pub positive : 0 < translate a.xlat a.base
  pub behind : (fbase : Addr) → a.xlat ≡ some fbase → fbase < translate a.xlat a.base
  pub indices : a.max_objs + a.base_index < 2 ^ 32

object_inside :
    (a : Allocator) (i : ℕ) → i < a.max_objs → i * a.obj_size + a.obj_size ≤ a.max_objs * a.obj_size
object_inside a i h = grind arith

offset_div : (i size : ℕ) → 0 < size → i * size / size ≡ i
offset_div i size h = grind arith

-- The index of an object that lies in memory is its number, counted from the base index.
pub obj_to_index-object :
    (a : Allocator) (i : ℕ)
    → Placed a
    → i < a.max_objs
    → obj_to_index a (object a i) ≡ i + a.base_index
unfolding obj_to_index sub_size
obj_to_index-object a i p h =
    let inside = object_inside a i h in
    let e : (translate a.xlat a.base + i * a.obj_size + size_mod - translate a.xlat a.base)
          % size_mod
        ≡ i * a.obj_size =
      omega (arith, inside, p.space) in
    rw (e, offset_div i a.obj_size p.size) (omega (arith, p.indices))

-- An object that lies in memory is found by its index.
pub index_to_obj-object :
    (a : Allocator) (i : ℕ)
    → Placed a
    → i < a.max_objs
    → index_to_obj a (i + a.base_index) ≡ done (object a i)
unfolding index_to_obj index_to_offset
index_to_obj-object a i p h =
    let inside = object_inside a i h in
    let e : (i + a.base_index + 2 ^ 32 - a.base_index) % 2 ^ 32 ≡ i = omega (arith, p.indices) in
    rw e (ground (arith, inside, p.space, p.indices))

-- The check of an object compares the index with `max_objs` whatever the base index is: the object
-- with number `i` passes if and only if its index lies between 1 and `max_objs`.
pub check-object :
    (a : Allocator) (i : ℕ)
    → Placed a
    → i < a.max_objs
    → check a (object a i) ≡ (ltb 0 (i + a.base_index) && leb (i + a.base_index) a.max_objs)
unfolding check
check-object a i p h = rw (obj_to_index-object a i p h) (ground arith)
