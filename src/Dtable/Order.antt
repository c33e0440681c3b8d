-- ===== src/Dtable/Order.antt =====
-- Lists of entries in the order of their keys: what the three kinds of table need of that order, and
-- what follows for any of them.
use xdp.Base.{
  remove, Bool, true, false, List, [], ◌∷◌, Option, none, some, ◌≡◌, ◌≢◌, refl, ◌==◌, if◌then◌else◌,
  Bool-cases, inl, inr, All, Avoids, NoDup, All→Avoids, Avoids→All, arith,
}
use xdp.Dtable.{Ref, Entry, write}

-- `gt a b`: an entry with the key `a` stands behind one with the key `b`.
pub record KeyOrder (I : Type 0) : Type 0 where
  pub gt : I → I → Bool
  pub refl_gt : (a : I) → gt a a ≡ false
  pub trans : (a b c : I) → gt a b ≡ false → gt b c ≡ false → gt a c ≡ false
  pub asym : (a b : I) → gt a b ≡ true → gt b a ≡ false

-- Linear search, over all entries.
unfoldable pub first : {I T : Type 0} → (I → Bool) → (Ref → Entry I T) → List Ref → Option Ref
first p heap [] = none
first p heap (x ∷ xs) = if p (heap x).key then some x else first p heap xs

module _ {I T : Type 0} (heap : Ref → Entry I T) where
  pub first-none :
      (p : I → Bool) (xs : List Ref) → All (λ x. p (heap x).key ≡ false) xs → first p heap xs ≡ none
  unfolding first
  first-none p [] h = refl
  first-none p (x ∷ xs) h = rw (first, h.0) (first-none p xs h.1)

  -- A search that fails has failed everywhere.
  pub none-first :
      (p : I → Bool) (xs : List Ref) → first p heap xs ≡ none → All (λ x. p (heap x).key ≡ false) xs
  unfolding first
  none-first p [] h = tt
  none-first p (x ∷ xs) h = elim (Bool-cases (p (heap x).key)) [
    | inl yes_x ↦ let impossible = rw (first, yes_x) at h in cc
    | inr no_x ↦ (no_x, none-first p xs (rw (first, no_x) at h))
  ]

  -- What a search finds passes the test.
  pub first_hit :
      (p : I → Bool) (xs : List Ref) (r : Ref) → first p heap xs ≡ some r → p (heap r).key ≡ true
  unfolding first
  first_hit p [] r h = cc
  first_hit p (x ∷ xs) r h = elim (Bool-cases (p (heap x).key)) [
    | inl yes_x ↦ let same = rw (first, yes_x) at h in ground (arith, yes_x, same)
    | inr no_x ↦ first_hit p xs r (rw (first, no_x) at h)
  ]

  -- An object that is not in the list can change.
  pub first-write :
      (p : I → Bool) (new : Ref) (e : Entry I T) (xs : List Ref)
      → Avoids new xs
      → first p (write new e heap) xs ≡ first p heap xs
  unfolding first write
  first-write p new e [] a = refl
  first-write p new e (x ∷ xs) a =
      let other : (x == new) ≡ false = ground (arith, a.0) in
      rw (first, other, first-write p new e xs a.1)

  -- Without an entry that does not pass the test, the search finds the same.
  pub first-remove :
      (p : I → Bool) (r : Ref) (xs : List Ref)
      → p (heap r).key ≡ false
      → first p heap (remove r xs) ≡ first p heap xs
  unfolding first remove
  first-remove p r [] h = refl
  first-remove p r (x ∷ xs) h = elim (Bool-cases (x == r)) [
    | inl same ↦ let e : x ≡ r = ground (arith, same) in rw (same, remove, first, e, h)
    | inr other ↦ rw (other, remove, first, first-remove p r xs h)
  ]

module _ {I T : Type 0} (o : KeyOrder I) where
  -- Each entry stands before those that follow.
  abbrev pub Sorted : (Ref → Entry I T) → List Ref → Type 0
  Sorted heap [] = Unit
  Sorted heap (x ∷ xs) = All (λ y. o.gt (heap x).key (heap y).key ≡ false) xs × Sorted heap xs

  -- The new entry before the first one that has to stand behind it.
  unfoldable pub insert_sorted : (Ref → Entry I T) → I → Ref → List Ref → List Ref
  insert_sorted heap k new [] = new ∷ []
  insert_sorted heap k new (x ∷ xs) =
      if o.gt (heap x).key k then new ∷ x ∷ xs else x ∷ insert_sorted heap k new xs

  module _ (heap : Ref → Entry I T) where
    -- Behind an entry that is too far stand entries that are too far.
    pub All-gt :
        (k : I) (x : Ref) (xs : List Ref)
        → All (λ y. o.gt (heap x).key (heap y).key ≡ false) xs
        → o.gt (heap x).key k ≡ true
        → All (λ y. o.gt (heap y).key k ≡ true) xs
    All-gt k x [] h far = tt
    All-gt k x (y ∷ ys) h far = elim (Bool-cases (o.gt (heap y).key k)) [
      | inl yes_y ↦ (yes_y, All-gt k x ys h.1 far)
      | inr no_y ↦ let near = o.trans (heap x).key (heap y).key k h.0 no_y in cc
    ]

    pub write-here : (new : Ref) (e : Entry I T) → write new e heap new ≡ e
    unfolding write
    write-here new e = let same : (new == new) ≡ true = ground arith in rw same refl

    pub write-other : (x new : Ref) (e : Entry I T) → x ≢ new → write new e heap x ≡ heap x
    unfolding write
    write-other x new e d = let other : (x == new) ≡ false = ground (arith, d) in rw other refl

    -- What holds of entries that are not written still holds.
    pub All-write :
        (P : Entry I T → Type 0) (new : Ref) (e : Entry I T) (xs : List Ref)
        → Avoids new xs
        → All (λ y. P (heap y)) xs
        → All (λ y. P (write new e heap y)) xs
    All-write P new e [] a h = tt
    All-write P new e (y ∷ ys) a h =
        (rw (write-other y new e (λ q. ground (arith, q, a.0))) h.0, All-write P new e ys a.1 h.1)

    All-gt-write :
        (x new : Ref) (e : Entry I T) (xs : List Ref)
        → x ≢ new
        → Avoids new xs
        → All (λ y. o.gt (heap x).key (heap y).key ≡ false) xs
        → All (λ y. o.gt (write new e heap x).key (write new e heap y).key ≡ false) xs
    All-gt-write x new e xs d a h =
        rw (write-other x new e d) (All-write (λ f. o.gt (heap x).key f.key ≡ false) new e xs a h)

    All-gt-new :
        (new : Ref) (e : Entry I T) (xs : List Ref)
        → Avoids new xs
        → All (λ y. o.gt e.key (heap y).key ≡ false) xs
        → All (λ y. o.gt (write new e heap new).key (write new e heap y).key ≡ false) xs
    All-gt-new new e xs a h =
        rw (write-here new e) (All-write (λ f. o.gt e.key f.key ≡ false) new e xs a h)

    pub Sorted-write :
        (new : Ref) (e : Entry I T) (xs : List Ref)
        → Avoids new xs
        → Sorted heap xs
        → Sorted (write new e heap) xs
    Sorted-write new e [] a s = tt
    Sorted-write new e (x ∷ xs) a s = (
      All-gt-write x new e xs (λ q. ground (arith, q, a.0)) a.1 s.0,
      Sorted-write new e xs a.1 s.1,
    )

    -- All entries of a sorted rest behind `x`, seen from a new key that stands before `x`.
    All-before :
        (k : I) (x : Ref) (xs : List Ref)
        → o.gt (heap x).key k ≡ true
        → All (λ y. o.gt (heap x).key (heap y).key ≡ false) xs
        → All (λ y. o.gt k (heap y).key ≡ false) xs
    All-before k x [] far h = tt
    All-before k x (y ∷ ys) far h = (
      o.trans k (heap x).key (heap y).key (o.asym (heap x).key k far) h.0,
      All-before k x ys far h.1,
    )

    All-gt-insert :
        (x : Ref) (k : I) (new : Ref) (xs : List Ref) (heap' : Ref → Entry I T)
        → o.gt (heap' x).key (heap' new).key ≡ false
        → All (λ y. o.gt (heap' x).key (heap' y).key ≡ false) xs
        → All (λ y. o.gt (heap' x).key (heap' y).key ≡ false) (insert_sorted heap k new xs)
    unfolding insert_sorted
    All-gt-insert x k new [] heap' n h = (n, tt)
    All-gt-insert x k new (y ∷ ys) heap' n h = elim (Bool-cases (o.gt (heap y).key k)) [
      | inl far ↦ rw (far, insert_sorted) (n, h)
      | inr near ↦ rw (near, insert_sorted) (h.0, All-gt-insert x k new ys heap' n h.1)
    ]

    -- Inserting keeps the order.
    pub insert_sorted-Sorted :
        (new : Ref) (e : Entry I T) (xs : List Ref)
        → Avoids new xs
        → Sorted heap xs
        → Sorted (write new e heap) (insert_sorted heap e.key new xs)
    unfolding insert_sorted
    insert_sorted-Sorted new e [] a s = (tt, tt)
    insert_sorted-Sorted new e (x ∷ xs) a s = elim (Bool-cases (o.gt (heap x).key e.key)) [
      | inl far ↦
          rw (far, insert_sorted)
            (
              All-gt-new new e (x ∷ xs) a
                  (o.asym (heap x).key e.key far, All-before e.key x xs far s.0),
              Sorted-write new e (x ∷ xs) a s,
            )
      | inr near ↦
          let apart : x ≢ new = λ q. ground (arith, q, a.0) in
          rw (near, insert_sorted)
            (
              All-gt-insert x e.key new xs (write new e heap)
                  (rw (write-here new e, write-other x new e apart) near)
                  (All-gt-write x new e xs apart a.1 s.0),
              insert_sorted-Sorted new e xs a.1 s.1,
            )
    ]

    pub All-insert :
        (P : Ref → Type 0) (k : I) (new : Ref) (xs : List Ref)
        → P new
        → All P xs
        → All P (insert_sorted heap k new xs)
    unfolding insert_sorted
    All-insert P k new [] n h = (n, tt)
    All-insert P k new (x ∷ xs) n h = elim (Bool-cases (o.gt (heap x).key k)) [
      | inl far ↦ rw far (n, h)
      | inr near ↦ rw near (h.0, All-insert P k new xs n h.1)
    ]

    pub NoDup-insert :
        (k : I) (new : Ref) (xs : List Ref)
        → Avoids new xs
        → NoDup xs
        → NoDup (insert_sorted heap k new xs)
    unfolding insert_sorted
    NoDup-insert k new [] a d = (tt, tt)
    NoDup-insert k new (x ∷ xs) a d = elim (Bool-cases (o.gt (heap x).key k)) [
      | inl far ↦ rw far (a, d)
      | inr near ↦ rw near (
        All→Avoids x (insert_sorted heap k new xs)
            (All-insert (λ y. x ≢ y) k new xs (λ e. ground (arith, e, a.0)) (Avoids→All x xs d.0)),
        NoDup-insert k new xs a.1 d.1,
      )
    ]
