-- ===== src/Dtable/Ordered.antt =====
-- The order of a table's entries, kept by xdp2_dtable_add, xdp2_dtable_del and xdp2_dtable_change of
-- src/lib/xdp2/dtable.c.
use xdp.Base.{
  NoDup-remove, ℤ, pos, Bool, Option, none, some, ◌≡◌, refl, sym, subst, ltb_ℤ, Bool-cases,
  Option-cases, inl, inr, Avoids, NoDup,
}
use xdp.Dtable.{Ref, Table, find_entry, find_place, base_ident, add, del}
use xdp.Dtable.Order.{KeyOrder, Sorted}
use xdp.Dtable.Best.{insert-Sorted}
use xdp.Dtable.Updates.{Sorted-remove}
use xdp.Dtable.Steps.{add-with_entry, added_entry}

module _ {I T : Type 0} (o : KeyOrder I) where
  -- Sorted, and no entry twice.
  abbrev pub Ordered : Table I T → Type 0
  Ordered t = Sorted o t.heap t.entries_lookup × NoDup t.entries_lookup

  -- A new object is not one of the table's.
  abbrev pub Fresh : Option Ref → Table I T → Type 0
  Fresh none t = Unit
  Fresh (some new) t = Avoids new t.entries_lookup

  -- Without memory, nothing is added.
  add-no_memory :
      (prev : Option Ref) (ident : ℤ) (target : T) (key : I) (t : Table I T)
      → add none prev ident target key t ≡ none
  unfolding add
  add-no_memory prev ident target key t =
      elim (Option-cases (find_place ident base_ident none t.heap t.entries)) [
        | inl n ↦ rw (add, n) refl
        | inr (place, f) ↦ elim (Bool-cases (ltb_ℤ place.want (pos 0))) [
          | inl negative ↦ rw (add, f, negative) refl
          | inr fine ↦ rw (add, f, fine) refl
        ]
      ]

  pub add-Ordered :
      (malloc : Option Ref) (hit : I → Bool) (ident : ℤ) (target : T) (key : I) (t : Table I T)
      (res : ℤ × Table I T)
      → Ordered t
      → Fresh malloc t
      → (find_entry (λ i. o.gt i key) hit t.heap none t.entries_lookup).0 ≡ none
      → add malloc
          (find_entry (λ i. o.gt i key) hit t.heap none t.entries_lookup).1
          ident
          target
          key
          t
        ≡ some res
      → Ordered res.1
  add-Ordered none hit ident target key t res w fresh n h =
      let nothing =
        add-no_memory (find_entry (λ i. o.gt i key) hit t.heap none t.entries_lookup).1 ident target
          key t in
      absurd (cc)
  add-Ordered (some new) hit ident target key t res w fresh n h =
      let entered =
        add-with_entry new (find_entry (λ i. o.gt i key) hit t.heap none t.entries_lookup).1 ident
          target key t res h in
      subst Ordered (sym entered.1) (
        insert-Sorted o hit t.heap new (added_entry res.0 target key) t.entries_lookup fresh w.1 w.0
          n)

  pub del-Ordered : (r : Ref) (t : Table I T) → Ordered t → Ordered (del r t)
  unfolding del
  del-Ordered r t w =
      (Sorted-remove o t.heap r t.entries_lookup w.0, NoDup-remove r t.entries_lookup w.1)
