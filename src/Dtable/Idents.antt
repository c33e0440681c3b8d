-- ===== src/Dtable/Idents.antt =====
-- The identifiers of entries: xdp2_dtable_add's search for a place, and xdp2_dtable_find_ent_by_id, of
-- src/lib/xdp2/dtable.c.
pub mod Search
pub mod Unsigned
pub mod Negative
pub mod Given
pub mod Chosen
use xdp.Base.{
  int_succ, ℕ, suc, ◌+◌, ◌^◌, ◌≤◌, ◌<◌, ℤ, pos, negsuc, Bool, true, false, List, [], ◌∷◌, Option,
  none, some, ◌≡◌, ◌≢◌, refl, sym, ap, ◌∙◌, subst, ◌==◌, ◌==ℤ◌, ltb_ℤ, if◌then◌else◌, Bool-cases,
  Option-cases, ◌⊎◌, inl, inr, All, Avoids, length, arith,
}
use xdp.Dtable.{
  Ref, Entry, Table, Place, base_ident, find_place, insert_after, find_by_ident, write, add,
}
use xdp.Dtable.Steps.{with_entry, added_entry}

-- What a place for a new entry comes to: the identifier that it gets.
abbrev pub Gives : Place → ℕ → Type 0
Gives place v = (place.want ≡ pos v) × (((place.ident ==ℤ pos 0) ≡ true) ⊎ (place.ident ≡ pos v))

module _ {I T : Type 0} (heap : Ref → Entry I T) where
  -- Where the identifier is to be chosen, there is a place, unless an `int` is full.
  pub find_place_auto :
      (w : ℕ) (prev : Option Ref) (xs : List Ref)
      → 1000000 ≤ w
      → w + length xs < 2 ^ 31
      → (place : Place) × (v : ℕ) × (find_place (pos 0) (pos w) prev heap xs ≡ some place)
        × Gives place v
        × (1000000 ≤ v)
        × (v < 2 ^ 31)
  unfolding find_place int_succ
  find_place_auto w prev [] low high = (
    record { ident = pos 0; want = pos w; prev = prev },
    w,
    refl,
    (refl, inl refl),
    low,
    omega arith,
  )
  find_place_auto w prev (x ∷ xs) low high = elim (Bool-cases (ltb_ℤ (heap x).ident base_ident)) [
    | inl small ↦
        let rest = find_place_auto w prev xs low (omega arith) in
        (rest.0, rest.1, rw (find_place, small) rest.2, rest.3, rest.4, rest.5)
    | inr large ↦ elim (Bool-cases ((heap x).ident ==ℤ pos w)) [
      | inl used ↦
          let rest = find_place_auto (w + 1) (some x) xs (omega arith) (omega arith) in
          let fits : (w == 2147483647) ≡ false = ground arith in
          (
            rest.0,
            rest.1,
            rw (find_place, large, used, int_succ, fits) rest.2,
            rest.3,
            rest.4,
            rest.5,
          )
      | inr free ↦ (
        record { ident = pos w; want = pos w; prev = prev },
        w,
        rw (find_place, large, free) refl,
        (refl, inr refl),
        low,
        omega arith,
      )
    ]
  ]

-- The identifier that xdp2_dtable_add stores.
given_ident :
    (place : Place) (v : ℕ)
    → Gives place v
    → (if place.ident ==ℤ pos 0 then place.want else place.ident) ≡ pos v
given_ident place v g = elim (Bool-cases (place.ident ==ℤ pos 0)) [
  | inl open_ident ↦ rw open_ident g.0
  | inr set ↦ elim g.1 [ inl open_ident ↦ absurd (cc) | inr e ↦ rw set e ]
]

pub add_place :
    {I T : Type 0} (new : Ref) (prev : Option Ref) (target : T) (key : I) (t : Table I T)
    (place : Place) (v : ℕ)
    → find_place (pos 0) base_ident none t.heap t.entries ≡ some place
    → Gives place v
    → add (some new) prev (pos 0) target key t
      ≡ some (pos v, with_entry new place.prev prev (added_entry (pos v) target key) t)
unfolding add
add_place new prev target key t place v f g =
    let given = given_ident place v g in
    let fine : ltb_ℤ place.want (pos 0) ≡ false = rw g.0 (ground arith) in
    rw (add, f, given, fine) refl

-- With memory, adding an entry whose identifier is to be chosen succeeds.
pub add_auto :
    {I T : Type 0} (new : Ref) (prev : Option Ref) (target : T) (key : I) (t : Table I T)
    → length t.entries < 2000000000
    → (v : ℕ) × (place : Option Ref) × (add (some new) prev (pos 0) target key t
        ≡ some (pos v, with_entry new place prev (added_entry (pos v) target key) t))
      × (1000000 ≤ v)
      × (v < 2 ^ 31)
add_auto new prev target key t room =
    let found = find_place_auto t.heap 1000000 none t.entries (omega arith) (omega arith) in
    (
      found.1,
      found.0.prev,
      add_place new prev target key t found.0 found.1 found.2 found.3,
      found.4,
      found.5,
    )
