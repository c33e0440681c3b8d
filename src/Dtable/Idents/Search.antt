-- ===== src/Dtable/Idents/Search.antt =====
-- The identifiers of a table as a dictionary of their own: xdp2_dtable_find_ent_by_id and the search of
-- xdp2_dtable_add, of src/lib/xdp2/dtable.c, are searches of a list in order.
use xdp.Base.{
  int_succ, ℕ, ◌+◌, ◌^◌, ◌≤◌, ◌<◌, length, ℤ, pos, negsuc, true, false, List, [], ◌∷◌, Option, none,
  some, ◌≡◌, ◌≢◌, refl, sym, ap, ◌∙◌, ◌==◌, ◌==ℤ◌, ==ℤ_iff, ltb_ℤ, Bool-cases, inl, inr, All,
  All-map, All-zip, arith,
}
use xdp.Dtable.Idents.{Gives}
use xdp.Dtable.{Ref, Entry, Place, base_ident, find_place, find_by_ident, find_entry}
use xdp.Dtable.Order.{KeyOrder, first}
use xdp.Dtable.Dictionary.{Matching, WellFormed, find-first}

pub ident_irrefl : (a : ℤ) → ltb_ℤ a a ≡ false
ident_irrefl a = ground arith

pub ident_trans : (a b c : ℤ) → ltb_ℤ b a ≡ false → ltb_ℤ c b ≡ false → ltb_ℤ c a ≡ false
ident_trans a b c h k = ground (arith, h, k)

pub ident_asym : (a b : ℤ) → ltb_ℤ b a ≡ true → ltb_ℤ a b ≡ false
ident_asym a b h = ground (arith, h)

unfoldable pub ident_order : KeyOrder ℤ
ident_order = record {
  gt = λ a b. ltb_ℤ b a;
  refl_gt = ident_irrefl;
  trans = ident_trans;
  asym = ident_asym;
}

unfoldable pub ident_matching : Matching ℤ ident_order
ident_matching = record {
  Good = λ k. Unit;
  hit = λ k i. i ==ℤ k;
  hit_≡ = λ k i gk gi h. (==ℤ_iff i k).0 h;
  hit_refl = λ k g. (==ℤ_iff k k).1 refl;
}

next_ident :
    (a b : ℤ) (w : ℕ) → a ≡ pos w → ltb_ℤ b a ≡ false → a ≢ b → ltb_ℤ b (pos (w + 1)) ≡ false
next_ident a (pos b) w e near apart =
    let near' : ltb_ℤ (pos b) (pos w) ≡ false = rw e at near in
    let other : w ≢ b = λ q. apart (e ∙ ap pos q) in ground (arith, near', other)
next_ident a (negsuc b) w e near apart =
    let near' : ltb_ℤ (negsuc b) (pos w) ≡ false = rw e at near in ground (arith, near')

-- The objects, each as an entry of the dictionary of identifiers.
abbrev pub by_ident : {I T : Type 0} → (Ref → Entry I T) → Ref → Entry ℤ Ref
by_ident heap r = record { ident = (heap r).ident; target = r; key = (heap r).ident }

-- What the search gives as a place for the identifier.
abbrev pub to_place : ℤ → ℤ → Option Ref × Option Ref → Option Place
to_place ident want found = elim found.0 [
  | some r ↦ none
  | none ↦ some (record { ident = ident; want = want; prev = found.1 })
]

pub taken_place :
    (ident want : ℤ) (found : Option Ref × Option Ref) (r : Ref)
    → found.0 ≡ some r
    → to_place ident want found ≡ none
taken_place ident want (none, p) r h = absurd (cc)
taken_place ident want (some r', p) r h = refl

pub free_place :
    (ident want : ℤ) (found : Option Ref × Option Ref)
    → found.0 ≡ none
    → to_place ident want found ≡ some (record { ident = ident; want = want; prev = found.1 })
free_place ident want (none, p) h = refl
free_place ident want (some r', p) h = absurd (cc)

module _ {I T : Type 0} where
  -- The entries are in the order of their identifiers, and no identifier is there twice.
  abbrev pub IdentsWellFormed : (Ref → Entry I T) → List Ref → Type 0
  IdentsWellFormed heap xs = WellFormed ident_order ident_matching (by_ident heap) xs

  -- The search of the identifier.
  abbrev pub search : ℤ → (Ref → Entry I T) → Option Ref → List Ref → Option Ref × Option Ref
  search ident heap prev xs =
      find_entry (λ i. ltb_ℤ ident i) (λ i. i ==ℤ ident) (by_ident heap) prev xs

  pub find_by_ident-search :
      (ident : ℤ) (heap : Ref → Entry I T) (prev : Option Ref) (xs : List Ref)
      → find_by_ident ident heap xs ≡ (search ident heap prev xs).0
  unfolding find_by_ident find_entry
  find_by_ident-search ident heap prev [] = refl
  find_by_ident-search ident heap prev (x ∷ xs) = elim (Bool-cases (ltb_ℤ ident (heap x).ident)) [
    | inl far ↦ rw (find_by_ident, find_entry, far) refl
    | inr near ↦ elim (Bool-cases ((heap x).ident ==ℤ ident)) [
      | inl here ↦ rw (find_by_ident, find_entry, near, here) refl
      | inr there ↦
          rw (find_by_ident, find_entry, near, there) (find_by_ident-search ident heap (some x) xs)
    ]
  ]

  -- It finds what a search of all entries finds.
  pub find_by_ident-first :
      (ident : ℤ) (heap : Ref → Entry I T) (xs : List Ref)
      → IdentsWellFormed heap xs
      → find_by_ident ident heap xs ≡ first (λ i. i ==ℤ ident) (by_ident heap) xs
  unfolding ident_order ident_matching
  find_by_ident-first ident heap xs w =
      find_by_ident-search ident heap none xs
      ∙ find-first ident_order ident_matching (by_ident heap) ident xs tt w

  -- With an identifier that is given, the search for a place is the search of the identifier.
  pub find_place-search :
      (ident want : ℤ) (prev : Option Ref) (heap : Ref → Entry I T) (xs : List Ref)
      → (ident ==ℤ pos 0) ≡ false
      → find_place ident want prev heap xs ≡ to_place ident want (search ident heap prev xs)
  unfolding find_place find_entry
  find_place-search ident want prev heap [] given = refl
  find_place-search ident want prev heap (x ∷ xs) given =
      elim (Bool-cases (ltb_ℤ ident (heap x).ident)) [
        | inl far ↦
            let there : ((heap x).ident ==ℤ ident) ≡ false = ground (arith, far) in
            let ended : search ident heap prev (x ∷ xs) ≡ (none, prev) =
              rw (find_entry, far) refl in
            let placed : find_place ident want prev heap (x ∷ xs)
                ≡ some (record { ident = ident; want = want; prev = prev }) =
              rw (find_place, given, there, far) refl in
            placed ∙ ap (to_place ident want) (sym ended)
        | inr near ↦ elim (Bool-cases ((heap x).ident ==ℤ ident)) [
          | inl here ↦ rw (find_place, find_entry, given, near, here) refl
          | inr there ↦
              let ended : search ident heap prev (x ∷ xs) ≡ search ident heap (some x) xs =
                rw (find_entry, near, there) refl in
              let placed : find_place ident want prev heap (x ∷ xs)
                  ≡ find_place ident want (some x) heap xs =
                rw (find_place, given, there, near) refl in
              placed
              ∙ (find_place-search ident want (some x) heap xs given
                  ∙ ap (to_place ident want) (sym ended))
        ]
      ]

  WellFormed-tail :
      (heap : Ref → Entry I T) (x : Ref) (xs : List Ref)
      → IdentsWellFormed heap (x ∷ xs)
      → IdentsWellFormed heap xs
  WellFormed-tail heap x xs w = record {
    sorted = w.sorted.1;
    nodup = w.nodup.1;
    good = w.good.1;
    unique = w.unique.1;
  }

  -- A place for an identifier that is to be chosen is where the search of that identifier ends.
  pub find_place-chosen :
      (w : ℕ) (prev : Option Ref) (heap : Ref → Entry I T) (xs : List Ref)
      → 1000000 ≤ w
      → w + length xs < 2 ^ 31
      → All (λ x. ltb_ℤ (heap x).ident (pos w) ≡ false) xs
      → IdentsWellFormed heap xs
      → (place : Place) × (v : ℕ) × (find_place (pos 0) (pos w) prev heap xs ≡ some place)
        × Gives place v
        × (w ≤ v)
        × (search (pos v) heap prev xs ≡ (none, place.prev))
  unfolding find_place find_entry int_succ ident_order ident_matching
  find_place-chosen w prev heap [] low high above wf = (
    record { ident = pos 0; want = pos w; prev = prev },
    w,
    refl,
    (refl, inl refl),
    omega arith,
    refl,
  )
  find_place-chosen w prev heap (x ∷ xs) low high above wf =
      let large : ltb_ℤ (heap x).ident base_ident ≡ false = ground (arith, above.0) in
      elim (Bool-cases ((heap x).ident ==ℤ pos w)) [
        | inl used ↦
            let at_w : (heap x).ident ≡ pos w = (==ℤ_iff (heap x).ident (pos w)).0 used in
            let rest =
              find_place-chosen (w + 1) (some x) heap xs (omega arith) (omega arith)
                (All-map
                  (λ y after. next_ident (heap x).ident (heap y).ident w at_w after.0 after.1) xs
                  (All-zip (λ y. ltb_ℤ (heap y).ident (heap x).ident ≡ false)
                    (λ y. (heap x).ident ≢ (heap y).ident) xs wf.sorted.0 wf.unique.0))
                (WellFormed-tail heap x xs wf) in
            let fits : (w == 2147483647) ≡ false = ground arith in
            let near : ltb_ℤ (pos rest.1) (heap x).ident ≡ false =
              rw at_w (ground (arith, rest.4)) in
            let other : ((heap x).ident ==ℤ pos rest.1) ≡ false =
              rw at_w (ground (arith, rest.4)) in
            (
              rest.0,
              rest.1,
              rw (find_place, large, used, int_succ, fits) rest.2,
              rest.3,
              omega (arith, rest.4),
              rw (find_entry, near, other) rest.5,
            )
        | inr free ↦
            let far : ltb_ℤ (pos w) (heap x).ident ≡ true = ground (arith, above.0, free) in
            (
              record { ident = pos w; want = pos w; prev = prev },
              w,
              rw (find_place, large, free) refl,
              (refl, inr refl),
              omega arith,
              rw (find_entry, far) refl,
            )
      ]
