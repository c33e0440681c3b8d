-- ===== src/ObjAllocator.antt =====
-- The object allocator: src/include/xdp2/obj_allocator.h and src/lib/xdp2/obj_allocator.c, with the
-- address translation of src/include/xdp2/addr_xlat.h.
-- An address is a number, 0 is NULL, and the memory gives the byte at an address. Addresses are below
-- 2^64, and a pointer in memory has 8 bytes, the least first. The magic number and the name, which assertions and output read only, and the mutex, under which
-- each operation runs as a whole, are left out.
pub mod Bytes
pub mod Index
pub mod FreeList
pub mod Setup
pub mod Checks
pub mod Debug
mod Tests
use xdp.Base.{
  ℕ, zero, suc, ◌+◌, ◌-◌, ◌*◌, ◌/◌, ◌%◌, ◌^◌, Bool, true, false, ◌&&◌, ◌||◌, not, Option, none,
  some, ◌==◌, ltb, leb, if◌then◌else◌, sub_size, size_mod,
}

abbrev pub Addr : Type 0
Addr = ℕ

-- What an address is relative to: `none` for `addr_xlat_num < 0`, else the base of the translator.
abbrev pub Xlat : Type 0
Xlat = Option Addr

-- xdp2_addr_xlat_translate: from a relative address to an absolute one
unfoldable pub translate : Xlat → Addr → Addr
translate none addr = addr
translate (some fbase) addr = if addr == 0 then 0 else (fbase + addr) % size_mod

-- xdp2_addr_xlat_reverse_translate
unfoldable pub reverse_translate : Xlat → Addr → Addr
reverse_translate none addr = addr
reverse_translate (some fbase) addr = if addr == 0 then 0 else sub_size addr fbase

-- `struct xdp2_obj_allocator` with its `struct xdp2_obj_allocator_free_list`, and the memory
pub record Allocator : Type 0 where
  pub max_objs : ℕ
  pub obj_size : ℕ
  pub base_index : ℕ
  pub xlat : Xlat
  pub base : Addr
  pub free_list : Addr
  pub num_free : ℕ
  pub allocs : ℕ
  pub alloc_fails : ℕ
  pub mem : Addr → ℕ

-- An operation returns, or one of its assertions fails.
pub data Checked (A : Type 0) : Type 0 where
  done : A → Checked A
  failed : Checked A

-- The bytes from an address on, as a number.
unfoldable pub read_bytes : ℕ → (Addr → ℕ) → Addr → ℕ
read_bytes zero mem x = 0
read_bytes (suc k) mem x = mem x + 256 * read_bytes k mem (x + 1)

-- The memory with the bytes of a number from an address on.
unfoldable pub write_bytes : ℕ → Addr → ℕ → (Addr → ℕ) → Addr → ℕ
write_bytes zero obj word mem x = mem x
write_bytes (suc k) obj word mem x =
    if x == obj then word % 256 else write_bytes k (obj + 1) (word / 256) mem x

-- `*(void **)obj`
unfoldable pub load : (Addr → ℕ) → Addr → Addr
load mem obj = read_bytes 8 mem obj

-- `*(void **)obj = word`
unfoldable pub store : Addr → Addr → Allocator → Allocator
store obj word a = record a { mem = write_bytes 8 obj word a.mem }

-- xdp2_obj_alloc_index_to_offset: `unsigned int` minus `unsigned int`, then times a `size_t`
unfoldable pub index_to_offset : Allocator → ℕ → ℕ
index_to_offset a index = (index + 2 ^ 32 - a.base_index) % 2 ^ 32 * a.obj_size % size_mod

-- xdp2_obj_alloc_index_to_obj
unfoldable pub index_to_obj : Allocator → ℕ → Checked Addr
index_to_obj a index =
    if leb a.base_index index && ltb index ((a.max_objs + a.base_index) % 2 ^ 32)
    then done ((translate a.xlat a.base + index_to_offset a index) % size_mod)
    else failed

-- xdp2_obj_alloc_obj_to_index
unfoldable pub obj_to_index : Allocator → Addr → ℕ
obj_to_index a obj = (sub_size obj (translate a.xlat a.base) / a.obj_size + a.base_index) % 2 ^ 32

-- XDP2_OBJ_ALLOC_CHECK
unfoldable pub check : Allocator → Addr → Bool
check a obj = let index = obj_to_index a obj in not (index == 0) && leb index a.max_objs

-- __xdp2_obj_alloc_free_list_alloc: the object and its index, or NULL. A free list that is at its
-- end while objects are counted as free fails an assertion.
unfoldable pub free_list_alloc : Allocator → Checked (Option (Addr × ℕ) × Allocator)
free_list_alloc a =
    if a.num_free == 0
    then done (none, record a { alloc_fails = (a.alloc_fails + 1) % size_mod })
    else (let obj = translate a.xlat a.free_list in
        if obj == 0
        then failed
        else done (
          some (obj, obj_to_index a obj),
          record a {
            free_list = load a.mem obj;
            num_free = a.num_free - 1;
            allocs = (a.allocs + 1) % size_mod;
          },
        ))

-- __xdp2_obj_alloc_free_list_free
unfoldable pub free_list_free : Addr → Allocator → Allocator
free_list_free obj a = record (store obj a.free_list a) {
  free_list = reverse_translate a.xlat obj;
  num_free = (a.num_free + 1) % 2 ^ 32;
}

-- __xdp2_obj_alloc_alloc, the check and the assertion on the index included
unfoldable pub alloc : Allocator → Checked (Option (Addr × ℕ) × Allocator)
alloc a = elim (free_list_alloc a) [
  | failed ↦ failed
  | done (none, a') ↦ done (none, a')
  | done (some (obj, index), a') ↦
      if check a' obj && (obj_to_index a' obj == index)
      then done (some (obj, index), a')
      else failed
]

-- xdp2_obj_alloc_free
unfoldable pub free : Addr → Allocator → Checked Allocator
free obj a = if check a obj then done (free_list_free obj a) else failed

-- xdp2_obj_alloc_free_by_index, which checks the index only
unfoldable pub free_by_index : ℕ → Allocator → Checked Allocator
free_by_index index a = elim (index_to_obj a index) [
  | failed ↦ failed
  | done obj ↦ done (free_list_free obj a)
]

-- The loop of __xdp2_obj_alloc_free_list_init over `left` further objects.
unfoldable pub link : ℕ → Addr → Allocator → Allocator
link zero obj a = store obj 0 a
link (suc left) obj a =
    link left (obj + a.obj_size) (store obj (reverse_translate a.xlat (obj + a.obj_size)) a)

-- __xdp2_obj_alloc_free_list_init on at least one object, which its callers see to.
unfoldable pub free_list_init : Addr → Allocator → Allocator
free_list_init base a = record (link (a.max_objs - 1) base a) {
  base = reverse_translate a.xlat base;
  num_free = a.max_objs;
  free_list = reverse_translate a.xlat base;
}

-- alloc_objects: an object has to hold a pointer, of 8 bytes. `calloc` is the one of the C library.
unfoldable pub alloc_objects : (ℕ → ℕ → Addr) → ℕ → ℕ → Addr
alloc_objects calloc num_objs obj_size =
    if ltb obj_size 8 || (num_objs == 0) then 0 else calloc num_objs obj_size

-- xdp2_obj_alloc_free_list_init: was there memory, and the allocator. The number and the size of the
-- objects and the translator stand in the allocator that is given.
unfoldable pub free_list_create : (ℕ → ℕ → Addr) → Allocator → Bool × Allocator
free_list_create calloc a =
    let base = alloc_objects calloc a.max_objs a.obj_size in
    if base == 0 then (false, a) else (true, free_list_init base (record a { base_index = 1 }))

-- __xdp2_obj_alloc_init: indices start at 1.
unfoldable pub init : Addr → Allocator → Allocator
init base a = free_list_init base (record a { base_index = 1 })

-- __xdp2_obj_alloc_init_base_index
unfoldable pub init_base_index : Addr → ℕ → Allocator → Allocator
init_base_index base base_index a = free_list_init base (record a { base_index = base_index })
