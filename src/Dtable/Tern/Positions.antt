-- ===== src/Dtable/Tern/Positions.antt =====
-- A lookup in a ternary table, and the order of the entries that it rests on: src/lib/xdp2/dtable.c.
use xdp.Base.{
  ℕ, ◌≤◌, ℤ, true, false, List, Option, ◌⊎◌, Member, ◌≡◌, ltb_irrefl, ltb_trans, ltb_asym,
  Option-cases, inl, inr, All, All-map, arith,
}
use xdp.Dtable.{Ref, Table, add}
use xdp.Dtable.Keys.{compare_tern, copy_bytes}
use xdp.Dtable.Order.{KeyOrder}
use xdp.Dtable.Best.{lookup-least}
use xdp.Dtable.Ordered.{Ordered, Fresh, add-Ordered, del-Ordered}
use xdp.Dtable.Tern.{
  TernKey, tern_gt, tern_hit, tern_match, find_tern, add_tern, del_tern, lookup_tern,
}

unfoldable pub tern_order : KeyOrder TernKey
unfolding tern_gt
tern_order = record {
  gt = tern_gt;
  refl_gt = λ a. ltb_irrefl a.place;
  trans = λ a b c h k. ltb_trans a.place b.place c.place h k;
  asym = λ a b h. ltb_asym a.place b.place h;
}

module _ {T : Type 0} where
  -- A lookup gives the target of an entry that the key matches under the entry's mask, and no entry with
  -- a smaller position matches; where no entry matches, it gives the default target.
  pub lookup_tern-smallest :
      (t : Table TernKey T) (key : List ℕ)
      → Ordered tern_order t
      → (All
            (λ y. compare_tern (t.heap y).key.key key (t.heap y).key.mask t.key_len ≡ false)
            t.entries_lookup
          × (lookup_tern t key ≡ t.default_target))
        ⊎ ((r : Ref) × Member r t.entries_lookup
            × (compare_tern (t.heap r).key.key key (t.heap r).key.mask t.key_len ≡ true)
            × (lookup_tern t key ≡ (t.heap r).target)
            × All
                (λ y.
                  compare_tern (t.heap y).key.key key (t.heap y).key.mask t.key_len ≡ true
                  → (t.heap r).key.place ≤ (t.heap y).key.place)
                t.entries_lookup)
  unfolding lookup_tern tern_match tern_order tern_gt
  lookup_tern-smallest t key w =
      elim (lookup-least tern_order (tern_match t.key_len key) t.heap t.default_target
        t.entries_lookup w.0) [
          | inl missed ↦ inl missed
          | inr found ↦ inr (
            found.0,
            found.3,
            found.1,
            found.2,
            All-map (λ y least hit. let near = least hit in ground arith) t.entries_lookup found.4,
          )
        ]

  -- Adding an entry, whatever comes of it, keeps the order.
  pub add_tern-Ordered :
      (t : Table TernKey T) (malloc : Option Ref) (ident : ℤ) (key key_mask : List ℕ) (place : ℕ)
      (target : T)
      → Ordered tern_order t
      → Fresh tern_order malloc t
      → Ordered tern_order (add_tern malloc t ident key key_mask place target).1
  unfolding add_tern find_tern tern_order tern_gt
  add_tern-Ordered t malloc ident key key_mask place target w fresh =
      let stored : TernKey = record {
        place = place;
        key = copy_bytes t.key_len key;
        mask = copy_bytes t.key_len key_mask;
      } in
      elim (Option-cases (find_tern t key key_mask place).0) [
        | inr (r, f) ↦ rw (add_tern, f) w
        | inl missing ↦
            elim (Option-cases
              (add malloc (find_tern t key key_mask place).1 ident target stored t)) [
                | inl n ↦ rw (add_tern, missing, n) w
                | inr (res, e) ↦
                    rw (add_tern, missing, e)
                      (add-Ordered tern_order malloc
                        (tern_hit t.key_len (record { place = place; key = key; mask = key_mask }))
                        ident target stored t res w fresh missing e)
              ]
      ]

  -- Deleting keeps the order.
  pub del_tern-Ordered :
      (t : Table TernKey T) (key key_mask : List ℕ) (place : ℕ)
      → Ordered tern_order t
      → Ordered tern_order (del_tern t key key_mask place)
  unfolding del_tern
  del_tern-Ordered t key key_mask place w = elim (Option-cases (find_tern t key key_mask place).0) [
    | inl missing ↦ rw (del_tern, missing) w
    | inr (r, f) ↦ rw (del_tern, f) (del-Ordered tern_order r t w)
  ]
