-- ===== src/Dtable/Idents/Given.antt =====
-- Adding, deleting and changing by identifier: xdp2_dtable_add, xdp2_dtable_del_by_id and
-- xdp2_dtable_change_by_id of src/lib/xdp2/dtable.c.
use xdp.Base.{
  as_uint, ltb_ℤ, All-remove, ℕ, remove, ℤ, pos, false, List, Option, none, some, ◌≡◌, ◌≢◌, refl,
  sym, ap, ◌∙◌, ◌==◌, ◌==ℤ◌, ==ℤ_iff, Bool-cases, Option-cases, inl, inr, Avoids, arith,
}
use xdp.Dtable.{
  Ref, Entry, Table, find_place, base_ident, find_by_ident, write, insert_after, add, del,
  del_by_id, find_ent_by_id,
}
use xdp.Dtable.Order.{first, first_hit, first-remove, first-write, insert_sorted}
use xdp.Dtable.Find.{first-insert_other, first-insert_new, insert_after-find_entry}
use xdp.Dtable.Dictionary.{find-first, WellFormed-write, WellFormed-insert}
use xdp.Dtable.Updates.{WellFormed-remove, first-remove_self}
use xdp.Dtable.Steps.{with_entry, added_entry}
use xdp.Dtable.Idents.Search.{
  ident_order, ident_matching, by_ident, IdentsWellFormed, search, find_by_ident-first,
  find_by_ident-search, taken_place, free_place, find_place-search,
}
use xdp.Dtable.Idents.Unsigned.{NotNegative, FindsById, find_ent_by_id-ident}

other_ident : (a b : ℤ) → a ≢ b → (a ==ℤ b) ≡ false
other_ident a b d = elim (Bool-cases (a ==ℤ b)) [
  | inl same ↦ absurd (d ((==ℤ_iff a b).0 same))
  | inr apart ↦ apart
]

module _ {I T : Type 0} where
  -- The identifiers of a heap where one object is written.
  by_ident_here :
      (heap : Ref → Entry I T) (new : Ref) (e : Entry I T) (x : Ref)
      → by_ident (write new e heap) x
        ≡ write new (record { ident = e.ident; target = new; key = e.ident }) (by_ident heap) x
  unfolding write
  by_ident_here heap new e x = elim (Bool-cases (x == new)) [
    | inl here ↦ let at_new : x ≡ new = ground (arith, here) in rw (here, at_new) refl
    | inr there ↦ rw there refl
  ]

  by_ident-write :
      (heap : Ref → Entry I T) (new : Ref) (e : Entry I T)
      → by_ident (write new e heap)
        ≡ write new (record { ident = e.ident; target = new; key = e.ident }) (by_ident heap)
  by_ident-write heap new e = λ j x. by_ident_here heap new e x j

  -- An object that is not one of the entries can change.
  pub IdentsWellFormed-write :
      (heap : Ref → Entry I T) (new : Ref) (e : Entry I T) (xs : List Ref)
      → Avoids new xs
      → IdentsWellFormed heap xs
      → IdentsWellFormed (write new e heap) xs
        × ((i : ℤ) → find_by_ident i (write new e heap) xs ≡ find_by_ident i heap xs)
  IdentsWellFormed-write heap new e xs a w =
      let e' : Entry ℤ Ref = record { ident = e.ident; target = new; key = e.ident } in
      let heaps = by_ident-write heap new e in
      let after : IdentsWellFormed (write new e heap) xs =
        rw heaps (WellFormed-write ident_order ident_matching (by_ident heap) new e' xs a w) in
      (
        after,
        λ i.
            find_by_ident-first i (write new e heap) xs after
            ∙ (ap (λ h. first (λ k. k ==ℤ i) h xs) heaps
                ∙ (first-write (by_ident heap) (λ k. k ==ℤ i) new e' xs a
                    ∙ sym (find_by_ident-first i heap xs w))),
      )

  -- A list where `i` is the identifier of `new`, and the others are found as in `xs`.
  abbrev pub Finds :
      (Ref → Entry I T) → List Ref → (Ref → Entry I T) → List Ref → ℤ → Option Ref → Type 0
  Finds heap xs heap' xs' i found =
      IdentsWellFormed heap' xs'
      × (find_by_ident i heap' xs' ≡ found)
      × ((i' : ℤ) → i' ≢ i → find_by_ident i' heap' xs' ≡ find_by_ident i' heap xs)

  -- Inserting behind the place where the search of the identifier has ended.
  pub insert-Finds :
      (heap : Ref → Entry I T) (xs : List Ref) (new : Ref) (e : Entry I T) (place : Option Ref)
      → IdentsWellFormed heap xs
      → Avoids new xs
      → search e.ident heap none xs ≡ (none, place)
      → Finds heap xs (write new e heap) (insert_after place new xs) e.ident (some new)
  unfolding ident_order ident_matching
  insert-Finds heap xs new e place w a h =
      let e' : Entry ℤ Ref = record { ident = e.ident; target = new; key = e.ident } in
      let missing =
        sym (find-first ident_order ident_matching (by_ident heap) e.ident xs tt w)
        ∙ ap (λ f. f.0) h in
      let placed : insert_after place new xs
          ≡ insert_sorted ident_order (by_ident heap) e.ident new xs =
        ap (λ f. insert_after f.1 new xs) (sym h)
        ∙ insert_after-find_entry ident_order e.ident (λ i. i ==ℤ e.ident) (by_ident heap) new xs
            w.nodup (ap (λ f. f.0) h) in
      let heaps = by_ident-write heap new e in
      let fine : IdentsWellFormed (write new e heap) (insert_after place new xs) =
        rw (placed, heaps)
          (WellFormed-insert ident_order ident_matching (by_ident heap) new e' xs w tt a missing) in
      (
        fine,
        find_by_ident-first e.ident (write new e heap) (insert_after place new xs) fine
            ∙ rw (placed, heaps)
                (first-insert_new ident_order (by_ident heap) (λ i. i ==ℤ e.ident) new e' xs a
                  ((==ℤ_iff e.ident e.ident).1 refl) missing),
        λ i' d.
            find_by_ident-first i' (write new e heap) (insert_after place new xs) fine
            ∙ (rw (placed, heaps)
                  (first-insert_other ident_order (by_ident heap) (λ i. i ==ℤ i') new e' xs a
                    (other_ident e.ident i' (λ q. d (sym q))))
                ∙ sym (find_by_ident-first i' heap xs w)),
      )

  -- With memory, an identifier that is given, positive and not in use is the new entry's, and the others
  -- are found as before.
  pub add-given :
      (t : Table I T) (new : Ref) (prev : Option Ref) (ident : ℤ) (target : T) (key : I)
      → IdentsWellFormed t.heap t.entries
      → Avoids new t.entries
      → (ident ==ℤ pos 0) ≡ false
      → find_by_ident ident t.heap t.entries ≡ none
      → (t' : Table I T) × (add (some new) prev ident target key t ≡ some (ident, t'))
        × Finds t.heap t.entries t'.heap t'.entries ident (some new)
  unfolding add
  add-given t new prev ident target key w a given h =
      let searched = sym (find_by_ident-search ident t.heap none t.entries) ∙ h in
      let place = (search ident t.heap none t.entries).1 in
      let placed : find_place ident base_ident none t.heap t.entries
          ≡ some (record { ident = ident; want = base_ident; prev = place }) =
        find_place-search ident base_ident none t.heap t.entries given
        ∙ free_place ident base_ident (search ident t.heap none t.entries) searched in
      (
        with_entry new place prev (added_entry ident target key) t,
        rw (add, placed, given) refl,
        insert-Finds t.heap t.entries new (added_entry ident target key) place w a
            (λ j. (searched j, place)),
      )

  -- An identifier that is in use is not given again, whatever the memory.
  pub add-taken :
      (t : Table I T) (malloc prev : Option Ref) (ident : ℤ) (target : T) (key : I) (r : Ref)
      → IdentsWellFormed t.heap t.entries
      → (ident ==ℤ pos 0) ≡ false
      → find_by_ident ident t.heap t.entries ≡ some r
      → add malloc prev ident target key t ≡ none
  unfolding add
  add-taken t malloc prev ident target key r w given h =
      let searched = sym (find_by_ident-search ident t.heap none t.entries) ∙ h in
      let placed = find_place-search ident base_ident none t.heap t.entries given in
      let nowhere : find_place ident base_ident none t.heap t.entries ≡ none =
        placed ∙ taken_place ident base_ident (search ident t.heap none t.entries) r searched in
      rw (add, nowhere) refl

  removed-Finds :
      (heap : Ref → Entry I T) (xs : List Ref) (ident : ℤ) (r : Ref)
      → IdentsWellFormed heap xs
      → find_by_ident ident heap xs ≡ some r
      → Finds heap xs heap (remove r xs) ident none
  unfolding ident_matching ident_order
  removed-Finds heap xs ident r w f =
      let found = sym (find_by_ident-first ident heap xs w) ∙ f in
      let after = WellFormed-remove ident_order ident_matching (by_ident heap) r xs w in
      let at_r =
        (==ℤ_iff (heap r).ident ident).0
          (first_hit (by_ident heap) (λ i. i ==ℤ ident) xs r found) in
      (
        after,
        find_by_ident-first ident heap (remove r xs) after
            ∙ first-remove_self ident_order ident_matching (by_ident heap) ident xs r tt w.good
                w.unique found,
        λ i' d.
            find_by_ident-first i' heap (remove r xs) after
            ∙ (first-remove (by_ident heap) (λ i. i ==ℤ i') r xs
                  (other_ident (heap r).ident i' (λ q. d (sym q ∙ at_r)))
                ∙ sym (find_by_ident-first i' heap xs w)),
      )

  -- Where no identifier is negative before and after, what is found by the integers is found by the
  -- `unsigned int`s.
  pub Finds-FindsById :
      (heap : Ref → Entry I T) (xs : List Ref) (heap' : Ref → Entry I T) (xs' : List Ref) (n : ℕ)
      (found : Option Ref)
      → NotNegative heap xs
      → NotNegative heap' xs'
      → Finds heap xs heap' xs' (pos n) found
      → FindsById heap xs heap' xs' n found
  unfolding as_uint
  Finds-FindsById heap xs heap' xs' n found before after f = (
    f.0,
    find_ent_by_id-ident n heap' xs' after ∙ f.1,
    λ m d.
        find_ent_by_id-ident m heap' xs' after
        ∙ (f.2 (pos m) (λ q. d (ap as_uint q)) ∙ sym (find_ent_by_id-ident m heap xs before)),
  )

  -- Deleting by identifier, where the identifiers are in order, none twice and none negative: it is found
  -- no longer, the others are found as before, and they are in order still.
  pub del_by_id-Finds :
      (t : Table I T) (ident : ℕ)
      → IdentsWellFormed t.heap t.entries
      → NotNegative t.heap t.entries
      → FindsById t.heap t.entries (del_by_id ident t).heap (del_by_id ident t).entries ident none
  unfolding del_by_id del
  del_by_id-Finds t ident w h = elim (Option-cases (find_ent_by_id ident t.heap t.entries)) [
    | inl n ↦ rw (del_by_id, n) (w, n, λ m d. refl)
    | inr (r, f) ↦
        let found = sym (find_ent_by_id-ident ident t.heap t.entries h) ∙ f in
        rw (del_by_id, f)
          (Finds-FindsById t.heap t.entries t.heap (remove r t.entries) ident none h
            (All-remove (λ x. ltb_ℤ (t.heap x).ident (pos 0) ≡ false) r t.entries h)
            (removed-Finds t.heap t.entries (pos ident) r w found))
  ]

  -- Deleting an entry that was found by its key: the identifiers are in order still.
  pub del-IdentsWellFormed :
      (r : Ref) (t : Table I T)
      → IdentsWellFormed t.heap t.entries
      → IdentsWellFormed (del r t).heap (del r t).entries
  unfolding del
  del-IdentsWellFormed r t w =
      WellFormed-remove ident_order ident_matching (by_ident t.heap) r t.entries w
