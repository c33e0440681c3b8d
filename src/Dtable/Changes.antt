-- ===== src/Dtable/Changes.antt =====
-- What changing a target does to the dictionary that a table is: no key changes.
use xdp.Base.{
  Bool, false, List, [], ◌∷◌, some, ◌≡◌, ◌≢◌, refl, ◌==◌, if◌then◌else◌, Bool-cases, Option-cases,
  inl, inr, All, arith,
}
use xdp.Dtable.{Ref, Entry, write}
use xdp.Dtable.Order.{KeyOrder, first, first_hit, Sorted, write-here, write-other}
use xdp.Dtable.Dictionary.{Matching, Unique, WellFormed, content, entry_target}
use xdp.Dtable.Updates.{first_inside}

-- The heap where the object `r` has another target.
abbrev pub changed : {I T : Type 0} → Ref → T → (Ref → Entry I T) → Ref → Entry I T
changed r target heap = write r (record (heap r) { target = target }) heap

module _ {I T : Type 0} (o : KeyOrder I) (m : Matching I o) (heap heap' : Ref → Entry I T)
    (kept : (x : Ref) → (heap' x).key ≡ (heap x).key) where
  All-keys :
      (P : I → Type 0) (xs : List Ref)
      → All (λ x. P (heap x).key) xs
      → All (λ x. P (heap' x).key) xs
  All-keys P [] h = tt
  All-keys P (x ∷ xs) h = (rw (kept x) h.0, All-keys P xs h.1)

  pub Sorted-keys : (xs : List Ref) → Sorted o heap xs → Sorted o heap' xs
  Sorted-keys [] s = tt
  Sorted-keys (x ∷ xs) s =
      (rw (kept x) (All-keys (λ k. o.gt (heap x).key k ≡ false) xs s.0), Sorted-keys xs s.1)

  Unique-keys : (xs : List Ref) → Unique o m heap xs → Unique o m heap' xs
  Unique-keys [] u = tt
  Unique-keys (x ∷ xs) u =
      (rw (kept x) (All-keys (λ k. (heap x).key ≢ k) xs u.0), Unique-keys xs u.1)

  pub WellFormed-keys : (xs : List Ref) → WellFormed o m heap xs → WellFormed o m heap' xs
  WellFormed-keys xs w = record {
    sorted = Sorted-keys xs w.sorted;
    nodup = w.nodup;
    good = All-keys m.Good xs w.good;
    unique = Unique-keys xs w.unique;
  }

  pub first-keys : (p : I → Bool) (xs : List Ref) → first p heap' xs ≡ first p heap xs
  unfolding first
  first-keys p [] = refl
  first-keys p (x ∷ xs) = rw (kept x, first-keys p xs) refl

module _ {I T : Type 0} (o : KeyOrder I) (m : Matching I o) (heap : Ref → Entry I T) where
  pub key-changed : (r : Ref) (target : T) (x : Ref) → (changed r target heap x).key ≡ (heap x).key
  unfolding write
  key-changed r target x = elim (Bool-cases (x == r)) [
    | inl same ↦ let e : x ≡ r = ground (arith, same) in rw (same, e) refl
    | inr other ↦ rw other refl
  ]

  -- The key of the entry has the new target, and the others have theirs.
  pub content-change :
      (k : I) (target : T) (xs : List Ref) (r : Ref) (k' : I)
      → WellFormed o m heap xs
      → m.Good k
      → m.Good k'
      → first (m.hit k) heap xs ≡ some r
      → content o m (changed r target heap) xs k'
        ≡ (if m.hit k' k then some target else content o m heap xs k')
  unfolding entry_target
  content-change k target xs r k' w g g' f =
      let same_keys =
        first-keys o m heap (changed r target heap) (key-changed r target) (m.hit k') xs in
      let at_r : (heap r).key ≡ k =
        m.hit_≡ k (heap r).key g
          (first_inside heap (λ x. m.Good (heap x).key) (m.hit k) xs r w.good f)
          (first_hit heap (m.hit k) xs r f) in
      elim (Bool-cases (m.hit k' k)) [
        | inl yes_k ↦
            let same : k ≡ k' = m.hit_≡ k' k g' g yes_k in
            let found : first (m.hit k') heap xs ≡ some r = rw (← same) f in
            rw (yes_k, same_keys, found, write-here o heap r (record (heap r) { target = target }))
              refl
        | inr no_k ↦ elim (Option-cases (first (m.hit k') heap xs)) [
          | inl n ↦ rw (no_k, same_keys, n) refl
          | inr (s, f') ↦
              let hits = first_hit heap (m.hit k') xs s f' in
              let other : s ≢ r = λ e. let bad = rw (e, at_r) at hits in cc in
              rw
                (
                  no_k,
                  same_keys,
                  f',
                  write-other o heap s r (record (heap r) { target = target }) other,
                )
                refl
        ]
      ]
