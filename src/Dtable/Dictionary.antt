-- ===== src/Dtable/Dictionary.antt =====
-- A table as a dictionary: keys that are looked up for equality, whatever else orders the entries. The
-- plain table and, with the prefix length as a part of the key, the one for longest prefixes are
-- such tables as far as add, delete and change go.
use xdp.Base.{
  Bool, true, false, List, [], ◌∷◌, Option, none, some, ◌≡◌, ◌≢◌, refl, sym, ◌∙◌, Bool-cases, inl,
  inr, All, All-map, Avoids, NoDup, arith,
}
use xdp.Dtable.{Ref, Entry, write, find_entry}
use xdp.Dtable.Order.{
  KeyOrder, first, none-first, Sorted, insert_sorted, All-insert, NoDup-insert,
  insert_sorted-Sorted, All-write, Sorted-write, write-here, write-other,
}
use xdp.Dtable.Find.{within, find_entry-first}

-- A test for the key that is wanted, which on good keys is equality.
pub record Matching (I : Type 0) (o : KeyOrder I) : Type 1 where
  pub Good : I → Type 0
  pub hit : I → I → Bool
  pub hit_≡ : (k i : I) → Good k → Good i → hit k i ≡ true → i ≡ k
  pub hit_refl : (k : I) → Good k → hit k k ≡ true

-- The target of the entry that is found.
unfoldable pub entry_target : {I T : Type 0} → (Ref → Entry I T) → Option Ref → Option T
entry_target heap none = none
entry_target heap (some r) = some (heap r).target

pub no_entry :
    {I T : Type 0} (heap : Ref → Entry I T) (found : Option Ref)
    → entry_target heap found ≡ none
    → found ≡ none
unfolding entry_target
no_entry heap none h = refl
no_entry heap (some r) h = absurd (cc)

pub an_entry :
    {I T : Type 0} (heap : Ref → Entry I T) (found : Option Ref) (target : T)
    → entry_target heap found ≡ some target
    → (r : Ref) × (found ≡ some r)
unfolding entry_target
an_entry heap none target h = absurd (cc)
an_entry heap (some r) target h = (r, refl)

pub hit_other :
    {I : Type 0} {o : KeyOrder I} (m : Matching I o) (k i : I)
    → m.Good k
    → m.Good i
    → i ≢ k
    → m.hit k i ≡ false
hit_other m k i gk gi d = elim (Bool-cases (m.hit k i)) [
  | inl yes_k ↦ absurd (d (m.hit_≡ k i gk gi yes_k))
  | inr no_k ↦ no_k
]

module _ {I T : Type 0} (o : KeyOrder I) (m : Matching I o) where
  -- No key twice.
  abbrev pub Unique : (Ref → Entry I T) → List Ref → Type 0
  Unique heap [] = Unit
  Unique heap (x ∷ xs) = All (λ y. (heap x).key ≢ (heap y).key) xs × Unique heap xs

  pub record WellFormed (heap : Ref → Entry I T) (xs : List Ref) : Type 0 where
    pub sorted : Sorted o heap xs
    pub nodup : NoDup xs
    pub good : All (λ x. m.Good (heap x).key) xs
    pub unique : Unique heap xs

  -- What the dictionary has for a key.
  abbrev pub content : (Ref → Entry I T) → List Ref → I → Option T
  content heap xs k = entry_target heap (first (m.hit k) heap xs)

  module _ (heap : Ref → Entry I T) where
    -- The early exit leaves nothing out.
    pub first-within :
        (k : I) (xs : List Ref)
        → m.Good k
        → All (λ x. m.Good (heap x).key) xs
        → first (within o k (m.hit k)) heap xs ≡ first (m.hit k) heap xs
    unfolding first within
    first-within k [] g h = refl
    first-within k (x ∷ xs) g h = elim (Bool-cases (o.gt (heap x).key k)) [
      | inl far ↦
          let other =
            hit_other m k (heap x).key g h.0
              (λ e. let near = o.refl_gt k in let far' = rw e at far in cc) in
          rw (far, other) (first-within k xs g h.1)
      | inr near ↦ rw (near, first-within k xs g h.1) refl
    ]

    pub find-first :
        (k : I) (xs : List Ref)
        → m.Good k
        → WellFormed heap xs
        → ((find_entry (λ i. o.gt i k) (m.hit k) heap none xs).0 ≡ first (m.hit k) heap xs)
    find-first k xs g w =
        find_entry-first o k (m.hit k) heap none xs w.sorted ∙ first-within k xs g w.good

    new_apart :
        (new : Ref) (e : Entry I T) (xs : List Ref)
        → Avoids new xs
        → All (λ x. e.key ≢ (heap x).key) xs
        → All (λ x. (write new e heap new).key ≢ (write new e heap x).key) xs
    new_apart new e xs a n =
        rw (write-here o heap new e) (All-write o heap (λ f. e.key ≢ f.key) new e xs a n)

    apart-write :
        (x new : Ref) (e : Entry I T) (xs : List Ref)
        → x ≢ new
        → Avoids new xs
        → All (λ y. (heap x).key ≢ (heap y).key) xs
        → All (λ y. (write new e heap x).key ≢ (write new e heap y).key) xs
    apart-write x new e xs d a h =
        rw (write-other o heap x new e d)
          (All-write o heap (λ f. (heap x).key ≢ f.key) new e xs a h)

    Unique-write :
        (new : Ref) (e : Entry I T) (xs : List Ref)
        → Avoids new xs
        → Unique heap xs
        → Unique (write new e heap) xs
    Unique-write new e [] a u = tt
    Unique-write new e (x ∷ xs) a u = (
      apart-write x new e xs (λ q. ground (arith, q, a.0)) a.1 u.0,
      Unique-write new e xs a.1 u.1,
    )

    Unique-insert :
        (new : Ref) (e : Entry I T) (xs : List Ref)
        → Avoids new xs
        → All (λ x. e.key ≢ (heap x).key) xs
        → Unique heap xs
        → Unique (write new e heap) (insert_sorted o heap e.key new xs)
    unfolding insert_sorted
    Unique-insert new e [] a n u = (tt, tt)
    Unique-insert new e (x ∷ xs) a n u =
        let apart : x ≢ new = λ q. ground (arith, q, a.0) in
        elim (Bool-cases (o.gt (heap x).key e.key)) [
          | inl far ↦ rw far (new_apart new e (x ∷ xs) a n, Unique-write new e (x ∷ xs) a u)
          | inr near ↦ rw near (
            All-insert o heap (λ y. (write new e heap x).key ≢ (write new e heap y).key) e.key new
                xs
                (rw (write-here o heap new e, write-other o heap x new e apart) (λ q. n.0 (sym q)))
                (apart-write x new e xs apart a.1 u.0),
            Unique-insert new e xs a.1 n.1 u.1,
          )
        ]

    -- An object that is not one of the entries can change.
    pub WellFormed-write :
        (new : Ref) (e : Entry I T) (xs : List Ref)
        → Avoids new xs
        → WellFormed heap xs
        → WellFormed (write new e heap) xs
    WellFormed-write new e xs a w = record {
      sorted = Sorted-write o heap new e xs a w.sorted;
      nodup = w.nodup;
      good = All-write o heap (λ f. m.Good f.key) new e xs a w.good;
      unique = Unique-write new e xs a w.unique;
    }

    -- Inserting a key that is not there.
    pub WellFormed-insert :
        (new : Ref) (e : Entry I T) (xs : List Ref)
        → WellFormed heap xs
        → m.Good e.key
        → Avoids new xs
        → first (m.hit e.key) heap xs ≡ none
        → WellFormed (write new e heap) (insert_sorted o heap e.key new xs)
    WellFormed-insert new e xs w g a h =
        let fresh : All (λ x. e.key ≢ (heap x).key) xs =
          All-map
            (λ x miss same.
              let found = m.hit_refl e.key g in let miss' = rw (← same) at miss in absurd (cc))
            xs (none-first heap (m.hit e.key) xs h) in
        record {
          sorted = insert_sorted-Sorted o heap new e xs a w.sorted;
          nodup = NoDup-insert o heap e.key new xs a w.nodup;
          good =
              All-insert o heap (λ x. m.Good (write new e heap x).key) e.key new xs
                (rw (write-here o heap new e) g)
                (All-write o heap (λ f. m.Good f.key) new e xs a w.good);
          unique = Unique-insert new e xs a fresh w.unique;
        }
