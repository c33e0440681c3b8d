-- ===== src/Dtable/Tern.antt =====
-- Dynamic ternary tables: src/lib/xdp2/dtable.c, from xdp2_dtable_create_tern to
-- xdp2_dtable_lookup_tern.
pub mod Positions
use xdp.Base.{as_uint, ℕ, ℤ, pos, Bool, false, ◌&&◌, List, Option, none, some, ltb}
use xdp.Dtable.{
  Ref, Table, find_entry, lookup_target, add, del, del_by_id, change, change_by_id, ealready,
  enomem, enoent,
}
use xdp.Dtable.Keys.{copy_bytes, compare_equal, compare_tern}

-- `struct xdp2_tern_entry_key`, whose `key` holds the key and the mask behind it
pub record TernKey : Type 0 where
  pub place : ℕ
  pub key : List ℕ
  pub mask : List ℕ

-- The entries are in the order of their positions.
unfoldable pub tern_gt : TernKey → TernKey → Bool
tern_gt a b = ltb b.place a.place

-- The test of the search for the entry that is wanted: the position is not compared.
unfoldable pub tern_hit : ℕ → TernKey → TernKey → Bool
tern_hit key_len wanted keyinfo =
    (compare_equal keyinfo.key wanted.key key_len) && compare_equal keyinfo.mask wanted.mask key_len

-- The test of the lookup.
unfoldable pub tern_match : ℕ → List ℕ → TernKey → Bool
tern_match key_len key keyinfo = compare_tern keyinfo.key key keyinfo.mask key_len

module _ {T : Type 0} where
  -- __xdp2_dtable_find_tern: the entry, and `*pprev`.
  unfoldable pub find_tern : Table TernKey T → List ℕ → List ℕ → ℕ → Option Ref × Option Ref
  find_tern t key key_mask place =
      find_entry (λ keyinfo. tern_gt keyinfo (record { place = place; key = key; mask = key_mask }))
        (tern_hit t.key_len (record { place = place; key = key; mask = key_mask })) t.heap none
        t.entries_lookup

  -- xdp2_dtable_add_tern
  unfoldable pub add_tern :
      Option Ref → Table TernKey T → ℤ → List ℕ → List ℕ → ℕ → T → ℤ × Table TernKey T
  add_tern malloc t ident key key_mask place target = elim (find_tern t key key_mask place).0 [
    | some entry ↦ (ealready, t)
    | none ↦
        elim (add malloc (find_tern t key key_mask place).1 ident target
          (record {
            place = place;
            key = copy_bytes t.key_len key;
            mask = copy_bytes t.key_len key_mask;
          })
          t) [ none ↦ (enomem, t) | some added ↦ (pos 0, added.1) ]
  ]

  -- xdp2_dtable_del_tern
  unfoldable pub del_tern : Table TernKey T → List ℕ → List ℕ → ℕ → Table TernKey T
  del_tern t key key_mask place = elim (find_tern t key key_mask place).0 [
    | none ↦ t
    | some entry ↦ del entry t
  ]

  -- xdp2_dtable_del_tern_by_id
  unfoldable pub del_tern_by_id : Table TernKey T → ℤ → Table TernKey T
  del_tern_by_id t ident = del_by_id (as_uint ident) t

  -- xdp2_dtable_change_tern
  unfoldable pub change_tern : Table TernKey T → List ℕ → List ℕ → ℕ → T → ℤ × Table TernKey T
  change_tern t key key_mask place target = elim (find_tern t key key_mask place).0 [
    | none ↦ (enoent, t)
    | some entry ↦ (pos 0, change entry target t)
  ]

  -- xdp2_dtable_change_tern_by_id
  unfoldable pub change_tern_by_id : Table TernKey T → ℤ → T → ℤ × Table TernKey T
  change_tern_by_id t ident target = change_by_id (as_uint ident) target t

  -- xdp2_dtable_lookup_tern: its loop has no early exit but the match.
  unfoldable pub lookup_tern : Table TernKey T → List ℕ → T
  lookup_tern t key =
      lookup_target (λ keyinfo. false) (tern_match t.key_len key) t.heap t.default_target
        t.entries_lookup
