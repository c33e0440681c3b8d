-- ===== src/ObjAllocator/Setup.antt =====
-- The free list that __xdp2_obj_alloc_free_list_init sets up.
use xdp.Base.{
  inl, ◌≤◌, Avoids, ℕ, zero, suc, ◌+◌, ◌-◌, ◌*◌, ◌^◌, ◌<◌, List, [], ◌∷◌, some, ◌≡◌, refl, ◌∙◌,
  size_mod, length, arith,
}
use xdp.ObjAllocator.{Addr, Xlat, Allocator, reverse_translate, store, load, link, free_list_init}
use xdp.ObjAllocator.FreeList.{
  Chain, Distinct, FreeObjects, translate-reverse_translate, reverse_translate-lt,
}
use xdp.ObjAllocator.Bytes.{write_bytes-other, load-write_bytes, load-same}

-- The numbers from `k` to `k + left`.
unfoldable pub range : ℕ → ℕ → List ℕ
range k zero = k ∷ []
range k (suc left) = k ∷ range (k + 1) left

-- Linking writes at the first object and behind it only.
link_below :
    (left : ℕ) (obj : Addr) (a : Allocator) (x : Addr) → x < obj → (link left obj a).mem x ≡ a.mem x
unfolding link store
link_below zero obj a x h = write_bytes-other 8 obj 0 a.mem x (inl h)
link_below (suc left) obj a x h =
    link_below left (obj + a.obj_size) _ x (omega arith)
    ∙ write_bytes-other 8 obj (reverse_translate a.xlat (obj + a.obj_size)) a.mem x (inl h)

-- Linking leads from the first object on over so many further ones.
link-Chain :
    (left k : ℕ) (base obj : Addr) (a : Allocator)
    → 8 ≤ a.obj_size
    → obj ≡ base + k * a.obj_size
    → obj + left * a.obj_size < size_mod
    → Chain
        (link left obj a).mem
        a.xlat
        (λ i. base + i * a.obj_size)
        (reverse_translate a.xlat obj)
        (range k left)
unfolding link store range
link-Chain zero k base obj a z e space =
    (rw e refl, rw (← e) (load-write_bytes obj 0 a.mem (omega arith)))
link-Chain (suc left) k base obj a z e space =
    let next : obj + a.obj_size ≡ base + (k + 1) * a.obj_size = grind arith in
    let more : obj + a.obj_size + left * a.obj_size < size_mod = grind arith in
    let word = reverse_translate a.xlat (obj + a.obj_size) in
    let linked = store obj word a in
    let kept =
      load-same (link left (obj + a.obj_size) linked).mem linked.mem obj
        (λ y l u. link_below left (obj + a.obj_size) linked y (omega (arith, u))) in
    let read : load (link (suc left) obj a).mem (base + k * a.obj_size) ≡ word = rw (← e) (
      kept
      ∙ load-write_bytes obj word a.mem
          (reverse_translate-lt a.xlat (obj + a.obj_size) (omega (arith, more)))) in
    (rw e refl, rw read (link-Chain left (k + 1) base (obj + a.obj_size) linked z next more))

range-Avoids : (left i k : ℕ) → i < k → Avoids i (range k left)
unfolding range
range-Avoids zero i k h = (λ e. omega arith, tt)
range-Avoids (suc left) i k h = (λ e. omega arith, range-Avoids left i (k + 1) (omega arith))

range-Distinct : (left k bound : ℕ) → k + left < bound → Distinct bound (range k left)
unfolding range
range-Distinct zero k bound h = (omega arith, tt, tt)
range-Distinct (suc left) k bound h = (
  omega arith,
  range-Avoids left k (k + 1) (omega arith),
  range-Distinct left (k + 1) bound (omega arith),
)

length-range : (left k : ℕ) → length (range k left) ≡ left + 1
unfolding range
length-range zero k = refl
length-range (suc left) k = omega (arith, length-range left (k + 1))

link_same :
    (left : ℕ) (obj : Addr) (a : Allocator)
    → ((link left obj a).max_objs ≡ a.max_objs)
      × ((link left obj a).obj_size ≡ a.obj_size)
      × ((link left obj a).base_index ≡ a.base_index)
      × ((link left obj a).xlat ≡ a.xlat)
unfolding link store
link_same zero obj a = (refl, refl, refl, refl)
link_same (suc left) obj a = link_same left (obj + a.obj_size) _

Chain-at :
    (mem : Addr → ℕ) (xlat : Xlat) (at at' : ℕ → Addr) (head : Addr) (is : List ℕ)
    → ((i : ℕ) → at' i ≡ at i)
    → Chain mem xlat at head is
    → Chain mem xlat at' head is
Chain-at mem xlat at at' head [] same h = h
Chain-at mem xlat at at' head (i ∷ is) same h =
    (rw (same i) h.0, rw (same i) (Chain-at mem xlat at at' (load mem (at i)) is same h.1))

-- After the set-up of at least one object, of at least 8 bytes each, all of them are free, in the order of their indices, if they
-- lie in memory behind what addresses are relative to and their indices fit an `unsigned int`.
pub free_list_init-FreeObjects :
    (base : Addr) (a : Allocator)
    → 0 < a.max_objs
    → 8 ≤ a.obj_size
    → 0 < base
    → base + a.max_objs * a.obj_size < size_mod
    → ((fbase : Addr) → a.xlat ≡ some fbase → fbase < base)
    → a.max_objs + a.base_index < 2 ^ 32
    → FreeObjects (free_list_init base a) (range 0 (a.max_objs - 1))
unfolding free_list_init
free_list_init-FreeObjects base a some_objs z positive space behind indices =
    let same = link_same (a.max_objs - 1) base a in
    let back = translate-reverse_translate a.xlat base (omega arith) behind in
    let inside : base + (a.max_objs - 1) * a.obj_size < size_mod = grind arith in
    let n = length-range (a.max_objs - 1) 0 in
    record {
      placed = record {
        size = rw same.1 (omega arith);
        space = rw (same.3, back, same.0, same.1) space;
        positive = rw (same.3, back) positive;
        behind = rw (same.3, back) behind;
        indices = rw (same.0, same.2) indices;
      };
      chain = rw same.3 (
          Chain-at (link (a.max_objs - 1) base a).mem a.xlat (λ i. base + i * a.obj_size) _
            (reverse_translate a.xlat base) (range 0 (a.max_objs - 1)) (λ i. rw (same.1, back))
            (link-Chain (a.max_objs - 1) 0 base base a z (omega arith) inside));
      distinct = rw same.0 (range-Distinct (a.max_objs - 1) 0 a.max_objs (omega arith));
      count = omega (arith, n);
      bound = rw same.0 (omega (arith, n));
    }
