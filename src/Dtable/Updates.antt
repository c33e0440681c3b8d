-- ===== src/Dtable/Updates.antt =====
-- What adding, deleting and changing an entry do to the dictionary that a table is.
use xdp.Base.{
  remove, remove, All-remove, NoDup-remove, Bool, true, false, List, [], ◌∷◌, none, some, ◌≡◌, ◌≢◌,
  refl, sym, ◌∙◌, subst, ◌==◌, if◌then◌else◌, Bool-cases, Option-cases, inl, inr, All, All-map,
  All-zip, Avoids, Avoids→All, arith,
}
use xdp.Dtable.{Ref, Entry, write}
use xdp.Dtable.Order.{
  KeyOrder, first, first_hit, first-none, Sorted, insert_sorted, first-remove, write-here,
  write-other,
}
use xdp.Dtable.Find.{first-insert_other, first-insert_new}
use xdp.Dtable.Dictionary.{Matching, Unique, WellFormed, content, entry_target, hit_other}

module _ {I T : Type 0} (heap : Ref → Entry I T) where
  -- What holds of all entries holds of the one that is found.
  pub first_inside {ℓ} :
      (P : Ref → Type ℓ) (p : I → Bool) (xs : List Ref) (r : Ref)
      → All P xs
      → first p heap xs ≡ some r
      → P r
  unfolding first
  first_inside P p [] r a h = absurd (cc)
  first_inside P p (x ∷ xs) r a h = elim (Bool-cases (p (heap x).key)) [
    | inl yes_x ↦ let same : x ≡ r = let e = rw yes_x at h in ground (arith, e) in subst P same a.0
    | inr no_x ↦ first_inside P p xs r a.1 (rw no_x at h)
  ]

pub Sorted-remove :
    {I T : Type 0} (o : KeyOrder I) (heap : Ref → Entry I T) (r : Ref) (xs : List Ref)
    → Sorted o heap xs
    → Sorted o heap (remove r xs)
unfolding remove
Sorted-remove o heap r [] h = tt
Sorted-remove o heap r (x ∷ xs) h = elim (Bool-cases (x == r)) [
  | inl same ↦ rw same h.1
  | inr other ↦ rw other (
    All-remove (λ y. o.gt (heap x).key (heap y).key ≡ false) r xs h.0,
    Sorted-remove o heap r xs h.1,
  )
]

module _ {I T : Type 0} (o : KeyOrder I) (m : Matching I o) (heap : Ref → Entry I T) where
  Unique-remove : (r : Ref) (xs : List Ref) → Unique o m heap xs → Unique o m heap (remove r xs)
  unfolding remove
  Unique-remove r [] h = tt
  Unique-remove r (x ∷ xs) h = elim (Bool-cases (x == r)) [
    | inl same ↦ rw same h.1
    | inr other ↦
        rw other (All-remove (λ y. (heap x).key ≢ (heap y).key) r xs h.0, Unique-remove r xs h.1)
  ]

  pub WellFormed-remove :
      (r : Ref) (xs : List Ref) → WellFormed o m heap xs → WellFormed o m heap (remove r xs)
  WellFormed-remove r xs w = record {
    sorted = Sorted-remove o heap r xs w.sorted;
    nodup = NoDup-remove r xs w.nodup;
    good = All-remove (λ x. m.Good (heap x).key) r xs w.good;
    unique = Unique-remove r xs w.unique;
  }

  -- A new key: it has its target, and the others have theirs.
  pub content-insert :
      (new : Ref) (e : Entry I T) (xs : List Ref) (k : I)
      → WellFormed o m heap xs
      → m.Good e.key
      → m.Good k
      → Avoids new xs
      → first (m.hit e.key) heap xs ≡ none
      → content o m (write new e heap) (insert_sorted o heap e.key new xs) k
        ≡ (if m.hit k e.key then some e.target else content o m heap xs k)
  unfolding entry_target
  content-insert new e xs k w g gk a h = elim (Bool-cases (m.hit k e.key)) [
    | inl yes_k ↦
        let same : e.key ≡ k = m.hit_≡ k e.key gk g yes_k in
        rw
          (
            yes_k,
            first-insert_new o heap (m.hit k) new e xs a yes_k (rw same at h),
            write-here o heap new e,
          )
          refl
    | inr no_k ↦ elim (Option-cases (first (m.hit k) heap xs)) [
      | inl n ↦ rw (no_k, first-insert_other o heap (m.hit k) new e xs a no_k, n) refl
      | inr (r, f) ↦
          let other : new ≢ r =
            first_inside heap (λ y. new ≢ y) (m.hit k) xs r (Avoids→All new xs a) f in
          rw
            (
              no_k,
              first-insert_other o heap (m.hit k) new e xs a no_k,
              f,
              write-other o heap r new e (λ q. other (sym q)),
            )
            refl
    ]
  ]

  found_key :
      (k : I) (xs : List Ref) (r : Ref)
      → WellFormed o m heap xs
      → m.Good k
      → first (m.hit k) heap xs ≡ some r
      → (heap r).key ≡ k
  found_key k xs r w g f =
      m.hit_≡ k (heap r).key g
        (first_inside heap (λ x. m.Good (heap x).key) (m.hit k) xs r w.good f)
        (first_hit heap (m.hit k) xs r f)

  -- Without the only entry with its key, the key is not found.
  pub first-remove_self :
      (k : I) (xs : List Ref) (r : Ref)
      → m.Good k
      → All (λ x. m.Good (heap x).key) xs
      → Unique o m heap xs
      → first (m.hit k) heap xs ≡ some r
      → first (m.hit k) heap (remove r xs) ≡ none
  unfolding first remove
  first-remove_self k [] r g a u f = refl
  first-remove_self k (x ∷ xs) r g a u f = elim (Bool-cases (m.hit k (heap x).key)) [
    | inl yes_x ↦
        let same : x ≡ r = let e = rw yes_x at f in ground (arith, e) in
        let same' : (x == r) ≡ true = ground (arith, same) in
        rw same' (
          first-none heap (m.hit k) xs (
            All-map
              (λ y gy.
                hit_other m k (heap y).key g gy.0
                  (λ e. gy.1 (m.hit_≡ k (heap x).key g a.0 yes_x ∙ sym e)))
              xs
              (All-zip (λ y. m.Good (heap y).key) (λ y. (heap x).key ≢ (heap y).key) xs a.1 u.0)))
    | inr no_x ↦
        let hits = first_hit heap (m.hit k) xs r (rw no_x at f) in
        elim (Bool-cases (x == r)) [
          | inl same ↦
              let e : x ≡ r = ground (arith, same) in let miss = rw e at no_x in absurd (cc)
          | inr other ↦ rw (other, first, no_x) (first-remove_self k xs r g a.1 u.1 (rw no_x at f))
        ]
  ]

  -- Deleting a key: it has nothing, and the others have what they had.
  pub content-remove :
      (k : I) (xs : List Ref) (r : Ref) (k' : I)
      → WellFormed o m heap xs
      → m.Good k
      → m.Good k'
      → first (m.hit k) heap xs ≡ some r
      → content o m heap (remove r xs) k' ≡ (if m.hit k' k then none else content o m heap xs k')
  unfolding entry_target
  content-remove k xs r k' w g g' f =
      let at_r = found_key k xs r w g f in
      elim (Bool-cases (m.hit k' k)) [
        | inl yes_k ↦
            let same : k ≡ k' = m.hit_≡ k' k g' g yes_k in
            let gone = first-remove_self k xs r g w.good w.unique f in rw (yes_k, ← same, gone) refl
        | inr no_k ↦ rw (no_k, first-remove heap (m.hit k') r xs (rw at_r no_k)) refl
      ]
