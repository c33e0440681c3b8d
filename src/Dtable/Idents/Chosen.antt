-- ===== src/Dtable/Idents/Chosen.antt =====
-- The identifier that xdp2_dtable_add of src/lib/xdp2/dtable.c chooses, where it is to choose one.
use xdp.Base.{
  as_uint, ltb, All-map, ℕ, ◌≤◌, ◌<◌, length, pos, true, false, List, [], ◌∷◌, Option, none, some,
  ◌≡◌, refl, ap, ◌∙◌, ◌==◌, ltb_ℤ, inl, All, Avoids, arith,
}
use xdp.Dtable.{Ref, Entry, Table, find_place, base_ident, find_ent_by_id, write, insert_after, add}
use xdp.Dtable.Idents.{add_place}
use xdp.Dtable.Steps.{with_entry, added_entry}
use xdp.Dtable.Idents.Search.{IdentsWellFormed, find_place-chosen, find_by_ident-search}
use xdp.Dtable.Idents.Given.{Finds-FindsById, insert-Finds}
use xdp.Dtable.Idents.Unsigned.{NotNegative, FindsById, find_ent_by_id-ident, All-insert_after}

module _ {I T : Type 0} where
  NotNegative-large :
      (heap : Ref → Entry I T) (xs : List Ref)
      → All (λ x. ltb_ℤ (heap x).ident base_ident ≡ false) xs
      → NotNegative heap xs
  NotNegative-large heap = All-map (λ x h. ground (arith, h))

  NotNegative-write :
      (heap : Ref → Entry I T) (new : Ref) (e : Entry I T) (xs : List Ref)
      → Avoids new xs
      → NotNegative heap xs
      → NotNegative (write new e heap) xs
  unfolding write
  NotNegative-write heap new e [] a h = tt
  NotNegative-write heap new e (x ∷ xs) a h =
      let other : (x == new) ≡ false = ground (arith, a.0) in
      (rw other h.0, NotNegative-write heap new e xs a.1 h.1)

  NotNegative-insert :
      (heap : Ref → Entry I T) (new : Ref) (e : Entry I T) (n : ℕ) (xs : List Ref)
      (place : Option Ref)
      → Avoids new xs
      → e.ident ≡ pos n
      → NotNegative heap xs
      → NotNegative (write new e heap) (insert_after place new xs)
  unfolding write
  NotNegative-insert heap new e n xs place a at_n before =
      let here : (new == new) ≡ true = ground arith in
      let natural : ltb_ℤ (pos n) (pos 0) ≡ false = ground arith in
      All-insert_after (λ x. ltb_ℤ (write new e heap x).ident (pos 0) ≡ false) place new xs
        (rw (here, at_n) natural) (NotNegative-write heap new e xs a before)

  -- Where all identifiers were chosen or are larger: the new entry gets one from 1000000 on that was not
  -- in use, by which it is found, and the others are found as before.
  pub add-chosen :
      (t : Table I T) (new : Ref) (prev : Option Ref) (target : T) (key : I)
      → IdentsWellFormed t.heap t.entries
      → Avoids new t.entries
      → length t.entries < 2000000000
      → All (λ x. ltb_ℤ (t.heap x).ident base_ident ≡ false) t.entries
      → (v : ℕ) × (t' : Table I T) × (add (some new) prev (pos 0) target key t ≡ some (pos v, t'))
        × (1000000 ≤ v)
        × (find_ent_by_id v t.heap t.entries ≡ none)
        × FindsById t.heap t.entries t'.heap t'.entries v (some new)
  add-chosen t new prev target key w a room large =
      let found =
        find_place-chosen 1000000 none t.heap t.entries (omega arith) (omega arith) large w in
      let v = found.1 in
      let e = added_entry (pos v) target key in
      let natural = NotNegative-large t.heap t.entries large in
      (
        v,
        with_entry new found.0.prev prev e t,
        add_place new prev target key t found.0 v found.2 found.3,
        found.4,
        find_ent_by_id-ident v t.heap t.entries natural
            ∙ (find_by_ident-search (pos v) t.heap none t.entries ∙ ap (λ f. f.0) found.5),
        Finds-FindsById t.heap t.entries (write new e t.heap)
            (insert_after found.0.prev new t.entries) v (some new) natural
            (NotNegative-insert t.heap new e v t.entries found.0.prev a refl natural)
            (insert-Finds t.heap t.entries new e found.0.prev w a found.5),
      )

  find_place-small :
      (heap : Ref → Entry I T) (xs : List Ref)
      → All (λ x. ltb_ℤ (heap x).ident base_ident ≡ true) xs
      → find_place (pos 0) base_ident none heap xs
        ≡ some (record { ident = pos 0; want = base_ident; prev = none })
  unfolding find_place
  find_place-small heap [] h = refl
  find_place-small heap (x ∷ xs) h = rw (find_place, h.0) (find_place-small heap xs h.1)

  -- Where all identifiers are smaller than 1000000: the new entry, with the identifier 1000000, stands
  -- before all of them, and none of them is found by its identifier any more.
  pub add-shadows :
      (t : Table I T) (new : Ref) (prev : Option Ref) (target : T) (key : I)
      → All (λ x. ltb_ℤ (t.heap x).ident base_ident ≡ true) t.entries
      → (t' : Table I T) × (add (some new) prev (pos 0) target key t ≡ some (base_ident, t'))
        × (t'.entries ≡ new ∷ t.entries)
        × ((n : ℕ) → n < 1000000 → find_ent_by_id n t'.heap t'.entries ≡ none)
  unfolding insert_after write find_ent_by_id as_uint
  add-shadows t new prev target key small =
      let first_place = find_place-small t.heap t.entries small in
      let same : (new == new) ≡ true = ground arith in
      (
        with_entry new none prev (added_entry base_ident target key) t,
        add_place new prev target key t (record { ident = pos 0; want = base_ident; prev = none })
            1000000 first_place (refl, inl refl),
        refl,
        λ n less.
            let below : ltb n 1000000 ≡ true = ground arith in
            rw (find_ent_by_id, write, same, below) refl,
      )
