-- ===== src/Dtable/Lpm/Longest.antt =====
-- A lookup in a longest prefix match table, and the order of the entries that it rests on:
-- src/lib/xdp2/dtable.c.
use xdp.Base.{
  ℕ, ◌≤◌, ℤ, true, false, List, Option, ◌⊎◌, Member, ◌≡◌, ltb_irrefl, ltb_trans, ltb_asym,
  Option-cases, inl, inr, All, All-map, arith,
}
use xdp.Dtable.{Ref, Table, add}
use xdp.Dtable.Keys.{compare_prefix, copy_bytes}
use xdp.Dtable.Order.{KeyOrder}
use xdp.Dtable.Best.{lookup-least}
use xdp.Dtable.Ordered.{Ordered, Fresh, add-Ordered, del-Ordered}
use xdp.Dtable.Lpm.{LpmKey, lpm_gt, lpm_hit, lpm_match, find_lpm, add_lpm, del_lpm, lookup_lpm}

unfoldable pub lpm_order : KeyOrder LpmKey
unfolding lpm_gt
lpm_order = record {
  gt = lpm_gt;
  refl_gt = λ a. ltb_irrefl a.prefix_len;
  trans = λ a b c h k. ltb_trans c.prefix_len b.prefix_len a.prefix_len k h;
  asym = λ a b h. ltb_asym b.prefix_len a.prefix_len h;
}

module _ {T : Type 0} where
  -- A lookup gives the target of an entry whose prefix is one of the key, and no longer prefix in the
  -- table is; where no prefix is, it gives the default target.
  pub lookup_lpm-longest :
      (t : Table LpmKey T) (key : List ℕ)
      → Ordered lpm_order t
      → (All
            (λ y. compare_prefix (t.heap y).key.key key (t.heap y).key.prefix_len ≡ false)
            t.entries_lookup
          × (lookup_lpm t key ≡ t.default_target))
        ⊎ ((r : Ref) × Member r t.entries_lookup
            × (compare_prefix (t.heap r).key.key key (t.heap r).key.prefix_len ≡ true)
            × (lookup_lpm t key ≡ (t.heap r).target)
            × All
                (λ y.
                  compare_prefix (t.heap y).key.key key (t.heap y).key.prefix_len ≡ true
                  → (t.heap y).key.prefix_len ≤ (t.heap r).key.prefix_len)
                t.entries_lookup)
  unfolding lookup_lpm lpm_match lpm_order lpm_gt
  lookup_lpm-longest t key w =
      elim (lookup-least lpm_order (lpm_match key) t.heap t.default_target t.entries_lookup w.0) [
        | inl missed ↦ inl missed
        | inr found ↦ inr (
          found.0,
          found.3,
          found.1,
          found.2,
          All-map (λ y least hit. let near = least hit in ground arith) t.entries_lookup found.4,
        )
      ]

  -- Adding a prefix, whatever comes of it, keeps the order.
  pub add_lpm-Ordered :
      (t : Table LpmKey T) (malloc : Option Ref) (ident : ℤ) (key : List ℕ) (prefix_len : ℕ)
      (target : T)
      → Ordered lpm_order t
      → Fresh lpm_order malloc t
      → Ordered lpm_order (add_lpm malloc t ident key prefix_len target).1
  unfolding add_lpm find_lpm lpm_order lpm_gt
  add_lpm-Ordered t malloc ident key prefix_len target w fresh =
      let stored : LpmKey = record { prefix_len = prefix_len; key = copy_bytes t.key_len key } in
      elim (Option-cases (find_lpm t key prefix_len).0) [
        | inr (r, f) ↦ rw (add_lpm, f) w
        | inl missing ↦
            elim (Option-cases (add malloc (find_lpm t key prefix_len).1 ident target stored t)) [
              | inl n ↦ rw (add_lpm, missing, n) w
              | inr (res, e) ↦
                  rw (add_lpm, missing, e)
                    (add-Ordered lpm_order malloc
                      (lpm_hit t.key_len (record { prefix_len = prefix_len; key = key })) ident
                      target stored t res w fresh missing e)
            ]
      ]

  -- Deleting keeps the order.
  pub del_lpm-Ordered :
      (t : Table LpmKey T) (key : List ℕ) (prefix_len : ℕ)
      → Ordered lpm_order t
      → Ordered lpm_order (del_lpm t key prefix_len)
  unfolding del_lpm
  del_lpm-Ordered t key prefix_len w = elim (Option-cases (find_lpm t key prefix_len).0) [
    | inl missing ↦ rw (del_lpm, missing) w
    | inr (r, f) ↦ rw (del_lpm, f) (del-Ordered lpm_order r t w)
  ]
