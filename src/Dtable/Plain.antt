-- ===== src/Dtable/Plain.antt =====
-- Dynamic plain tables: src/lib/xdp2/dtable.c, from xdp2_dtable_create_plain to
-- xdp2_dtable_lookup_plain. `siphash` stands for the function of the vendored siphash; it is given a
-- key and the number of its bytes.
pub mod Map
pub mod Steps
use xdp.Base.{as_uint, ℕ, ℤ, pos, Bool, ◌&&◌, List, Option, none, some, ◌==◌, ltb}
use xdp.Dtable.{
  Ref, Entry, Table, find_entry, lookup_target, add, del, del_by_id, change, change_by_id, ealready,
  enomem, enoent,
}
use xdp.Dtable.Keys.{copy_bytes, compare_equal}

-- `struct xdp2_plain_entry_key`
pub record PlainKey : Type 0 where
  pub hash : ℕ
  pub key : List ℕ

-- The entries are in the order of their hashes.
unfoldable pub plain_gt : PlainKey → PlainKey → Bool
plain_gt a b = ltb b.hash a.hash

-- The test of both loops for the entry that is wanted.
unfoldable pub plain_hit : ℕ → PlainKey → PlainKey → Bool
plain_hit key_len wanted keyinfo =
    (keyinfo.hash == wanted.hash) && compare_equal keyinfo.key wanted.key key_len

-- What the loops look for.
abbrev pub wanted : (List ℕ → ℕ → ℕ) → ℕ → List ℕ → PlainKey
wanted siphash key_len key = record { hash = siphash key key_len; key = key }

module _ {T : Type 0} (siphash : List ℕ → ℕ → ℕ) where
  -- __xdp2_dtable_find_plain: the entry, and `*pprev`.
  unfoldable pub find_plain : Table PlainKey T → List ℕ → Option Ref × Option Ref
  find_plain t key =
      find_entry (λ keyinfo. plain_gt keyinfo (wanted siphash t.key_len key))
        (plain_hit t.key_len (wanted siphash t.key_len key)) t.heap none t.entries_lookup

  -- xdp2_dtable_add_plain
  unfoldable pub add_plain : Option Ref → Table PlainKey T → ℤ → List ℕ → T → ℤ × Table PlainKey T
  add_plain malloc t ident key target = elim (find_plain t key).0 [
    | some entry ↦ (ealready, t)
    | none ↦
        elim (add malloc (find_plain t key).1 ident target
          (record { hash = siphash key t.key_len; key = copy_bytes t.key_len key }) t) [
            | none ↦ (enomem, t)
            | some added ↦ added
          ]
  ]

  -- xdp2_dtable_del_plain
  unfoldable pub del_plain : Table PlainKey T → List ℕ → Table PlainKey T
  del_plain t key = elim (find_plain t key).0 [ none ↦ t | some entry ↦ del entry t ]

  -- xdp2_dtable_del_plain_by_id
  unfoldable pub del_plain_by_id : Table PlainKey T → ℤ → Table PlainKey T
  del_plain_by_id t ident = del_by_id (as_uint ident) t

  -- xdp2_dtable_change_plain
  unfoldable pub change_plain : Table PlainKey T → List ℕ → T → ℤ × Table PlainKey T
  change_plain t key target = elim (find_plain t key).0 [
    | none ↦ (enoent, t)
    | some entry ↦ (pos 0, change entry target t)
  ]

  -- xdp2_dtable_change_plain_by_id
  unfoldable pub change_plain_by_id : Table PlainKey T → ℤ → T → ℤ × Table PlainKey T
  change_plain_by_id t ident target = change_by_id (as_uint ident) target t

  -- xdp2_dtable_lookup_plain
  unfoldable pub lookup_plain : Table PlainKey T → List ℕ → T
  lookup_plain t key =
      lookup_target (λ keyinfo. plain_gt keyinfo (wanted siphash t.key_len key))
        (plain_hit t.key_len (wanted siphash t.key_len key)) t.heap t.default_target
        t.entries_lookup
