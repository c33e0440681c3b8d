-- ===== src/Dtable/Find.antt =====
-- The search loops of the tables: how the early exit at the first entry that stands too far behind
-- relates to a search of all entries, and where the place for a new entry is.
use xdp.Base.{
  Bool, true, false, List, [], ◌∷◌, Option, none, some, ◌≡◌, ◌≢◌, refl, sym, ap, ◌∙◌, ◌==◌,
  if◌then◌else◌, Bool-cases, inl, inr, All, All-map, subst, Avoids, NoDup, arith,
}
use xdp.Dtable.{Ref, Entry, insert_after, find_entry, lookup_target, write}
use xdp.Dtable.Order.{
  KeyOrder, first, first-none, none-first, first-write, Sorted, insert_sorted, All-gt, write-here,
  write-other,
}

-- The target of what a search found.
unfoldable pub target_of : {I T : Type 0} → (Ref → Entry I T) → T → Option Ref → T
target_of heap default none = default
target_of heap default (some r) = (heap r).target

-- The test that a search with the early exit comes to.
unfoldable pub within : {I : Type 0} → KeyOrder I → I → (I → Bool) → I → Bool
within o k hit i = if o.gt i k then false else hit i

module _ {I T : Type 0} (o : KeyOrder I) (k : I) (hit : I → Bool) (heap : Ref → Entry I T) where
  no_within :
      (xs : List Ref)
      → All (λ y. o.gt (heap y).key k ≡ true) xs
      → All (λ y. within o k hit (heap y).key ≡ false) xs
  unfolding within
  no_within [] h = tt
  no_within (x ∷ xs) h = (rw (within, h.0) refl, no_within xs h.1)

  -- Behind the first entry that is too far, nothing passes.
  nothing_behind :
      (x : Ref) (xs : List Ref)
      → Sorted o heap (x ∷ xs)
      → o.gt (heap x).key k ≡ true
      → first (within o k hit) heap (x ∷ xs) ≡ none
  nothing_behind x xs s far =
      first-none heap (within o k hit) (x ∷ xs)
        (no_within (x ∷ xs) (far, All-gt o heap k x xs s.0 far))

  -- The search with the early exit finds what a search of all entries finds.
  pub find_entry-first :
      (prev : Option Ref) (xs : List Ref)
      → Sorted o heap xs
      → ((find_entry (λ i. o.gt i k) hit heap prev xs).0 ≡ first (within o k hit) heap xs)
  unfolding find_entry first within
  find_entry-first prev [] s = refl
  find_entry-first prev (x ∷ xs) s = elim (Bool-cases (o.gt (heap x).key k)) [
    | inl far ↦
        let here : (find_entry (λ i. o.gt i k) hit heap prev (x ∷ xs)).0 ≡ none = rw far refl in
        here ∙ sym (nothing_behind x xs s far)
    | inr near ↦ elim (Bool-cases (hit (heap x).key)) [
      | inl yes_x ↦ rw (near, yes_x) refl
      | inr no_x ↦ rw (near, no_x) (find_entry-first (some x) xs s.1)
    ]
  ]

  pub lookup_target-first :
      (default : T) (xs : List Ref)
      → Sorted o heap xs
      → (lookup_target (λ i. o.gt i k) hit heap default xs
          ≡ target_of heap default (first (within o k hit) heap xs))
  unfolding lookup_target first within target_of
  lookup_target-first default [] s = refl
  lookup_target-first default (x ∷ xs) s = elim (Bool-cases (o.gt (heap x).key k)) [
    | inl far ↦
        let here : lookup_target (λ i. o.gt i k) hit heap default (x ∷ xs) ≡ default =
          rw far refl in
        here ∙ ap (target_of heap default) (sym (nothing_behind x xs s far))
    | inr near ↦ elim (Bool-cases (hit (heap x).key)) [
      | inl yes_x ↦ rw (near, yes_x) refl
      | inr no_x ↦ rw (near, no_x) (lookup_target-first default xs s.1)
    ]
  ]

  -- The place that a search ends at lies behind the entries that it has passed.
  passed :
      (r x : Ref) (xs : List Ref)
      → Avoids r (x ∷ xs)
      → (q : Ref) × ((find_entry (λ i. o.gt i k) hit heap (some x) xs).1 ≡ some q) × (q ≢ r)
  unfolding find_entry
  passed r x [] a = (x, refl, λ e. ground (arith, e, a.0))
  passed r x (y ∷ ys) a = elim (Bool-cases (o.gt (heap y).key k)) [
    | inl far ↦ (x, rw far refl, λ e. ground (arith, e, a.0))
    | inr near ↦ elim (Bool-cases (hit (heap y).key)) [
      | inl yes_y ↦ (x, rw (near, yes_y) refl, λ e. ground (arith, e, a.0))
      | inr no_y ↦ let later = passed r y ys a.1 in (later.0, rw (near, no_y) later.1, later.2)
    ]
  ]

  place_behind :
      (new x : Ref) (xs : List Ref)
      → NoDup (x ∷ xs)
      → (find_entry (λ i. o.gt i k) hit heap (some x) xs).0 ≡ none
      → (insert_after (find_entry (λ i. o.gt i k) hit heap (some x) xs).1 new (x ∷ xs)
          ≡ x ∷ insert_sorted o heap k new xs)
  unfolding find_entry insert_after insert_sorted
  place_behind new x [] d h = let same : (x == x) ≡ true = ground arith in rw same refl
  place_behind new x (y ∷ ys) d h = elim (Bool-cases (o.gt (heap y).key k)) [
    | inl far ↦ let same : (x == x) ≡ true = ground arith in rw (far, same) refl
    | inr near ↦ elim (Bool-cases (hit (heap y).key)) [
      | inl yes_y ↦ let impossible = rw (near, yes_y) at h in cc
      | inr no_y ↦
          let later = passed x y ys d.0 in
          let other : (x == later.0) ≡ false = ground (arith, later.2) in
          let below = place_behind new y ys d.1 (rw (near, no_y) at h) in
          rw (near, no_y, later.1, other) (ap (◌∷◌ x) (rw later.1 at below))
    ]
  ]

  -- Where the search has found nothing, inserting behind its place is inserting in order.
  pub insert_after-find_entry :
      (new : Ref) (xs : List Ref)
      → NoDup xs
      → (find_entry (λ i. o.gt i k) hit heap none xs).0 ≡ none
      → (insert_after (find_entry (λ i. o.gt i k) hit heap none xs).1 new xs
          ≡ insert_sorted o heap k new xs)
  unfolding find_entry insert_after insert_sorted
  insert_after-find_entry new [] d h = refl
  insert_after-find_entry new (x ∷ xs) d h = elim (Bool-cases (o.gt (heap x).key k)) [
    | inl far ↦ rw far refl
    | inr near ↦ elim (Bool-cases (hit (heap x).key)) [
      | inl yes_x ↦ let impossible = rw (near, yes_x) at h in cc
      | inr no_x ↦ rw (near, no_x) (place_behind new x xs d (rw (near, no_x) at h))
    ]
  ]

-- Searches over the list with the new entry.
module _ {I T : Type 0} (o : KeyOrder I) (heap : Ref → Entry I T) (p : I → Bool) where
  first-here :
      (new : Ref) (e : Entry I T) (xs : List Ref)
      → p e.key ≡ true
      → first p (write new e heap) (new ∷ xs) ≡ some new
  unfolding first
  first-here new e xs h = rw (write-here o heap new e, h) refl

  -- A search that the new entry does not concern finds what it found.
  pub first-insert_other :
      (new : Ref) (e : Entry I T) (xs : List Ref)
      → Avoids new xs
      → p e.key ≡ false
      → first p (write new e heap) (insert_sorted o heap e.key new xs) ≡ first p heap xs
  unfolding first insert_sorted
  first-insert_other new e [] a h = rw (write-here o heap new e, h) refl
  first-insert_other new e (x ∷ xs) a h =
      let other : x ≢ new = λ q. ground (arith, q, a.0) in
      elim (Bool-cases (o.gt (heap x).key e.key)) [
        | inl far ↦
            rw (far, first, write-here o heap new e, h) (first-write heap p new e (x ∷ xs) a)
        | inr near ↦
            rw (near, first, write-other o heap x new e other, first-insert_other new e xs a.1 h)
              refl
      ]

  -- A search that failed before finds the new entry.
  pub first-insert_new :
      (new : Ref) (e : Entry I T) (xs : List Ref)
      → Avoids new xs
      → p e.key ≡ true
      → first p heap xs ≡ none
      → first p (write new e heap) (insert_sorted o heap e.key new xs) ≡ some new
  unfolding first insert_sorted
  first-insert_new new e [] a h n = rw (write-here o heap new e, h) refl
  first-insert_new new e (x ∷ xs) a h n =
      let other : x ≢ new = λ q. ground (arith, q, a.0) in
      let all = none-first heap p (x ∷ xs) n in
      elim (Bool-cases (o.gt (heap x).key e.key)) [
        | inl far ↦ rw (far, first, write-here o heap new e, h) refl
        | inr near ↦
            rw (near, first, write-other o heap x new e other, all.0)
              (first-insert_new new e xs a.1 h (first-none heap p xs all.1))
      ]

  -- What a search finds stands before everything else that passes.
  pub first_least :
      (xs : List Ref) (r : Ref)
      → Sorted o heap xs
      → first p heap xs ≡ some r
      → All (λ y. p (heap y).key ≡ true → o.gt (heap r).key (heap y).key ≡ false) xs
  unfolding first
  first_least [] r s h = tt
  first_least (x ∷ xs) r s h = elim (Bool-cases (p (heap x).key)) [
    | inl yes_x ↦
        let same : x ≡ r = let e = rw (first, yes_x) at h in ground (arith, e) in
        subst
          (λ y. All (λ z. p (heap z).key ≡ true → o.gt (heap y).key (heap z).key ≡ false) (x ∷ xs))
          same ((λ q. o.refl_gt (heap x).key), All-map (λ z far q. far) xs s.0)
    | inr no_x ↦ (λ q. absurd (cc), first_least xs r s.1 (rw (first, no_x) at h))
  ]
