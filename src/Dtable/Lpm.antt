-- ===== src/Dtable/Lpm.antt =====
-- Dynamic longest prefix match tables: src/lib/xdp2/dtable.c, from xdp2_dtable_create_lpm to
-- xdp2_dtable_lookup_lpm.
pub mod Longest
pub mod Map
use xdp.Base.{as_uint, ℕ, ℤ, pos, Bool, false, ◌&&◌, List, Option, none, some, ◌==◌, ltb}
use xdp.Dtable.{
  Ref, Table, find_entry, lookup_target, add, del, del_by_id, change, change_by_id, ealready,
  enomem, enoent,
}
use xdp.Dtable.Keys.{copy_bytes, compare_equal, compare_prefix}

-- `struct xdp2_lpm_entry_key`
pub record LpmKey : Type 0 where
  pub prefix_len : ℕ
  pub key : List ℕ

-- The longer prefixes come first.
unfoldable pub lpm_gt : LpmKey → LpmKey → Bool
lpm_gt a b = ltb a.prefix_len b.prefix_len

-- The test of the search for the entry that is wanted.
unfoldable pub lpm_hit : ℕ → LpmKey → LpmKey → Bool
lpm_hit key_len wanted keyinfo =
    (compare_equal keyinfo.key wanted.key key_len) && (keyinfo.prefix_len == wanted.prefix_len)

-- The test of the lookup.
unfoldable pub lpm_match : List ℕ → LpmKey → Bool
lpm_match key keyinfo = compare_prefix keyinfo.key key keyinfo.prefix_len

module _ {T : Type 0} where
  -- __xdp2_dtable_find_lpm: the entry, and `*pprev`.
  unfoldable pub find_lpm : Table LpmKey T → List ℕ → ℕ → Option Ref × Option Ref
  find_lpm t key prefix_len =
      find_entry (λ keyinfo. lpm_gt keyinfo (record { prefix_len = prefix_len; key = key }))
        (lpm_hit t.key_len (record { prefix_len = prefix_len; key = key })) t.heap none
        t.entries_lookup

  -- xdp2_dtable_add_lpm
  unfoldable pub add_lpm : Option Ref → Table LpmKey T → ℤ → List ℕ → ℕ → T → ℤ × Table LpmKey T
  add_lpm malloc t ident key prefix_len target = elim (find_lpm t key prefix_len).0 [
    | some entry ↦ (ealready, t)
    | none ↦
        elim (add malloc (find_lpm t key prefix_len).1 ident target
          (record { prefix_len = prefix_len; key = copy_bytes t.key_len key }) t) [
            | none ↦ (enomem, t)
            | some added ↦ (pos 0, added.1)
          ]
  ]

  -- xdp2_dtable_del_lpm
  unfoldable pub del_lpm : Table LpmKey T → List ℕ → ℕ → Table LpmKey T
  del_lpm t key prefix_len = elim (find_lpm t key prefix_len).0 [
    | none ↦ t
    | some entry ↦ del entry t
  ]

  -- xdp2_dtable_del_lpm_by_id
  unfoldable pub del_lpm_by_id : Table LpmKey T → ℤ → Table LpmKey T
  del_lpm_by_id t ident = del_by_id (as_uint ident) t

  -- xdp2_dtable_change_lpm
  unfoldable pub change_lpm : Table LpmKey T → List ℕ → ℕ → T → ℤ × Table LpmKey T
  change_lpm t key prefix_len target = elim (find_lpm t key prefix_len).0 [
    | none ↦ (enoent, t)
    | some entry ↦ (pos 0, change entry target t)
  ]

  -- xdp2_dtable_change_lpm_by_id
  unfoldable pub change_lpm_by_id : Table LpmKey T → ℤ → T → ℤ × Table LpmKey T
  change_lpm_by_id t ident target = change_by_id (as_uint ident) target t

  -- xdp2_dtable_lookup_lpm: its loop has no early exit but the match.
  unfoldable pub lookup_lpm : Table LpmKey T → List ℕ → T
  lookup_lpm t key =
      lookup_target (λ keyinfo. false) (lpm_match key) t.heap t.default_target t.entries_lookup
