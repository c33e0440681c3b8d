-- ===== src/Dtable/Best.antt =====
-- The lookups that take the first entry which matches, of src/lib/xdp2/dtable.c: for ternary and for longest
-- prefix match tables.
use xdp.Base.{
  Bool, true, false, List, [], ◌∷◌, none, some, some-injective, ◌⊎◌, Member, ◌≡◌, refl, Bool-cases,
  Option-cases, inl, inr, All, Avoids, NoDup,
}
use xdp.Dtable.{Ref, Entry, insert_after, find_entry, lookup_target, write}
use xdp.Dtable.Order.{
  KeyOrder, first, none-first, first_hit, Sorted, insert_sorted-Sorted, NoDup-insert,
}
use xdp.Dtable.Find.{target_of, first_least, insert_after-find_entry}

-- What a lookup without another exit than its match gives, in a list in order: the target of an entry that
-- matches and that stands before all that match, or the default where none does.
abbrev pub Best :
    {I T : Type 0} → KeyOrder I → (I → Bool) → (Ref → Entry I T) → T → List Ref → T → Type 0
Best o hit heap default xs result =
    (All (λ y. hit (heap y).key ≡ false) xs × (result ≡ default))
    ⊎ ((r : Ref) × (hit (heap r).key ≡ true)
        × (result ≡ (heap r).target)
        × Member r xs
        × All (λ y. hit (heap y).key ≡ true → o.gt (heap r).key (heap y).key ≡ false) xs)

module _ {I T : Type 0} (o : KeyOrder I) (hit : I → Bool) (heap : Ref → Entry I T) where
  lookup_target-target_of :
      (default : T) (xs : List Ref)
      → lookup_target (λ i. false) hit heap default xs ≡ target_of heap default (first hit heap xs)
  unfolding lookup_target first target_of
  lookup_target-target_of default [] = refl
  lookup_target-target_of default (x ∷ xs) = elim (Bool-cases (hit (heap x).key)) [
    | inl yes_x ↦ rw yes_x refl
    | inr no_x ↦ rw no_x (lookup_target-target_of default xs)
  ]

  first-Member : (xs : List Ref) (r : Ref) → first hit heap xs ≡ some r → Member r xs
  unfolding first
  first-Member [] r h = absurd (cc)
  first-Member (x ∷ xs) r h = elim (Bool-cases (hit (heap x).key)) [
    | inl yes_x ↦ inl (some-injective (rw yes_x at h))
    | inr no_x ↦ inr (first-Member xs r (rw no_x at h))
  ]

  pub lookup-least :
      (default : T) (xs : List Ref)
      → Sorted o heap xs
      → Best o hit heap default xs (lookup_target (λ i. false) hit heap default xs)
  unfolding target_of
  lookup-least default xs s =
      let same = lookup_target-target_of default xs in
      elim (Option-cases (first hit heap xs)) [
        | inl n ↦ inl (none-first heap hit xs n, rw (same, n) refl)
        | inr (r, f) ↦ inr (
          r,
          first_hit heap hit xs r f,
          rw (same, f) refl,
          first-Member xs r f,
          first_least o heap hit xs r s f,
        )
      ]

-- Inserting where a search has found nothing keeps the order, and no entry is there twice.
pub insert-Sorted :
    {I T : Type 0} (o : KeyOrder I) (hit : I → Bool) (heap : Ref → Entry I T) (new : Ref)
    (e : Entry I T) (xs : List Ref)
    → Avoids new xs
    → NoDup xs
    → Sorted o heap xs
    → (find_entry (λ i. o.gt i e.key) hit heap none xs).0 ≡ none
    → Sorted o
        (write new e heap)
        (insert_after (find_entry (λ i. o.gt i e.key) hit heap none xs).1 new xs)
      × NoDup (insert_after (find_entry (λ i. o.gt i e.key) hit heap none xs).1 new xs)
insert-Sorted o hit heap new e xs a d s n =
    rw (insert_after-find_entry o e.key hit heap new xs d n)
      (insert_sorted-Sorted o heap new e xs a s, NoDup-insert o heap e.key new xs a d)
