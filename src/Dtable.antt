-- ===== src/Dtable.antt =====
-- Dynamic tables: src/include/xdp2/dtable.h and src/lib/xdp2/dtable.c, what the three kinds share.
-- An entry is an object that two lists of its table link, by its address; the heap gives the object.
-- The lists are those of sys/queue.h, from the head on. What `malloc` gives is an argument, `none` for
-- NULL. A target is a value that `memcpy` copies.
pub mod Idents
pub mod Dictionary
pub mod Updates
pub mod Changes
pub mod Steps
pub mod Ordered
pub mod Find
pub mod Best
pub mod Order
pub mod Keys
pub mod Plain
pub mod Tern
pub mod Lpm
pub mod Tables
mod Tests
use xdp.Base.{
  as_uint, ltb, int_succ, remove, ℕ, zero, suc, ◌+◌, ◌^◌, ℤ, pos, negsuc, Bool, true, false, List,
  [], ◌∷◌, Option, none, some, ◌==◌, ◌==ℤ◌, ltb_ℤ, if◌then◌else◌,
}

abbrev pub Ref : Type 0
Ref = ℕ

-- `struct xdp2_dtable_entry`: `data` holds the target and the key with what belongs to it.
pub record Entry (I T : Type 0) : Type 0 where
  pub ident : ℤ
  pub target : T
  pub key : I

-- `struct xdp2_dtable_table` with the objects that its entries are, less `constant` and `config`, which
-- no function reads
pub record Table (I T : Type 0) : Type 0 where
  pub name : ℕ
  pub key_len : ℕ
  pub targ_len : ℕ
  pub entry_len : ℕ
  pub ident : ℤ
  pub default_target : T
  pub entries : List Ref
  pub entries_lookup : List Ref
  pub heap : Ref → Entry I T

abbrev pub base_ident : ℤ
base_ident = pos 1000000

abbrev pub ealready : ℤ
ealready = negsuc 113

abbrev pub enomem : ℤ
enomem = negsuc 11

abbrev pub enoent : ℤ
enoent = negsuc 1

abbrev pub einval : ℤ
einval = negsuc 21

-- LIST_INSERT_HEAD and LIST_INSERT_AFTER: after nothing is at the head.
unfoldable pub insert_after : Option Ref → Ref → List Ref → List Ref
insert_after none new xs = new ∷ xs
insert_after (some prev) new [] = []
insert_after (some prev) new (x ∷ xs) =
    if x == prev then x ∷ new ∷ xs else x ∷ insert_after (some prev) new xs

-- What the loop of xdp2_dtable_add ends with: `*ident`, `want_ident` and `pentry`.
pub record Place : Type 0 where
  pub ident : ℤ
  pub want : ℤ
  pub prev : Option Ref

module _ {I T : Type 0} where
  -- A write to one object.
  unfoldable pub write : Ref → Entry I T → (Ref → Entry I T) → Ref → Entry I T
  write r e heap x = if x == r then e else heap x

  -- The loop that __xdp2_dtable_find_plain, _tern and _lpm are: the entry that is found, and the one
  -- before the place where the loop ended.
  unfoldable pub find_entry :
      (I → Bool) → (I → Bool) → (Ref → Entry I T) → Option Ref → List Ref → Option Ref × Option Ref
  find_entry stop hit heap prev [] = (none, prev)
  find_entry stop hit heap prev (x ∷ xs) =
      let rest = find_entry stop hit heap (some x) xs in
      if stop (heap x).key then (none, prev) else if hit (heap x).key then (some x, prev) else rest

  -- The loop of the three lookups: the target of the entry that is found.
  unfoldable pub lookup_target : (I → Bool) → (I → Bool) → (Ref → Entry I T) → T → List Ref → T
  lookup_target stop hit heap default [] = default
  lookup_target stop hit heap default (x ∷ xs) =
      let rest = lookup_target stop hit heap default xs in
      if stop (heap x).key then default else if hit (heap x).key then (heap x).target else rest

  -- xdp2_dtable_find_ent_by_id: its identifier is an `unsigned int`, with which those of the entries,
  -- which are `int`s, are compared as such.
  unfoldable pub find_ent_by_id : ℕ → (Ref → Entry I T) → List Ref → Option Ref
  find_ent_by_id ident heap [] = none
  find_ent_by_id ident heap (x ∷ xs) =
      let rest = find_ent_by_id ident heap xs in
      if ltb ident (as_uint (heap x).ident)
      then none
      else if as_uint (heap x).ident == ident
      then some x
      else rest

  -- The search of an identifier in a list in order, with the identifiers compared as integers.
  unfoldable pub find_by_ident : ℤ → (Ref → Entry I T) → List Ref → Option Ref
  find_by_ident ident heap [] = none
  find_by_ident ident heap (x ∷ xs) =
      let rest = find_by_ident ident heap xs in
      if ltb_ℤ ident (heap x).ident then none else if (heap x).ident ==ℤ ident then some x else rest

  -- The loop of xdp2_dtable_add; `none` is the return for an identifier that is taken.
  unfoldable pub find_place : ℤ → ℤ → Option Ref → (Ref → Entry I T) → List Ref → Option Place
  find_place ident want prev heap [] = some (record { ident = ident; want = want; prev = prev })
  find_place ident want prev heap (x ∷ xs) = elim (ident ==ℤ pos 0) [
    | true ↦ elim (ltb_ℤ (heap x).ident base_ident) [
      | true ↦ find_place ident want prev heap xs
      | false ↦ elim ((heap x).ident ==ℤ want) [
        | true ↦ find_place ident (int_succ want) (some x) heap xs
        | false ↦ some (record { ident = want; want = want; prev = prev })
      ]
    ]
    | false ↦ elim ((heap x).ident ==ℤ ident) [
      | true ↦ none
      | false ↦ elim (ltb_ℤ ident (heap x).ident) [
        | true ↦ some (record { ident = ident; want = want; prev = prev })
        | false ↦ find_place ident want (some x) heap xs
      ]
    ]
  ]

  -- xdp2_dtable_add, with the key that its callers write into the new entry behind it
  unfoldable pub add : Option Ref → Option Ref → ℤ → T → I → Table I T → Option (ℤ × Table I T)
  add malloc plentry ident target key t = elim (find_place ident base_ident none t.heap t.entries) [
    | none ↦ none
    | some place ↦ if ltb_ℤ place.want (pos 0) then none else elim malloc [
      | none ↦ none
      | some new ↦
          let ident' = if place.ident ==ℤ pos 0 then place.want else place.ident in
          some (
            ident',
            record t {
              entries = insert_after place.prev new t.entries;
              entries_lookup = insert_after plentry new t.entries_lookup;
              heap = write new (record { ident = ident'; target = target; key = key }) t.heap;
            },
          )
    ]
  ]

  -- xdp2_dtable_del
  unfoldable pub del : Ref → Table I T → Table I T
  del r t = record t { entries = remove r t.entries; entries_lookup = remove r t.entries_lookup }

  -- xdp2_dtable_del_by_id
  unfoldable pub del_by_id : ℕ → Table I T → Table I T
  del_by_id ident t = elim (find_ent_by_id ident t.heap t.entries) [ none ↦ t | some r ↦ del r t ]

  -- xdp2_dtable_change
  unfoldable pub change : Ref → T → Table I T → Table I T
  change r target t = record t { heap = write r (record (t.heap r) { target = target }) t.heap }

  -- xdp2_dtable_change_by_id
  unfoldable pub change_by_id : ℕ → T → Table I T → ℤ × Table I T
  change_by_id ident target t = elim (find_ent_by_id ident t.heap t.entries) [
    | none ↦ (enoent, t)
    | some r ↦ (pos 0, change r target t)
  ]
