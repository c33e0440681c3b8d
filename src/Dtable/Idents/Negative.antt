-- ===== src/Dtable/Idents/Negative.antt =====
-- An entry with a negative identifier: xdp2_dtable_add and xdp2_dtable_find_ent_by_id of
-- src/lib/xdp2/dtable.c.
use xdp.Base.{
  as_uint, ltb, ℕ, ◌-◌, ◌^◌, ◌<◌, negsuc, true, false, List, [], ◌∷◌, Option, none, some, ◌≡◌, refl,
  ◌==◌, ◌==ℤ◌, ltb_ℤ, arith,
}
use xdp.Dtable.{Ref, Entry, Table, find_place, base_ident, find_ent_by_id, write, insert_after, add}
use xdp.Dtable.Steps.{with_entry, added_entry}
use xdp.Dtable.Idents.Unsigned.{NotNegative}

module _ {I T : Type 0} where
  find_place-negative :
      (k : ℕ) (heap : Ref → Entry I T) (xs : List Ref)
      → NotNegative heap xs
      → find_place (negsuc k) base_ident none heap xs
        ≡ some (record { ident = negsuc k; want = base_ident; prev = none })
  unfolding find_place
  find_place-negative k heap [] h = refl
  find_place-negative k heap (x ∷ xs) h =
      let far : ltb_ℤ (negsuc k) (heap x).ident ≡ true = ground (arith, h.0) in
      let other : ((heap x).ident ==ℤ negsuc k) ≡ false = ground (arith, h.0) in
      rw (find_place, other, far) refl

  -- With memory, a negative identifier is accepted where no entry has one: the new entry stands before
  -- all others, and afterwards no entry is found by an identifier that is not negative.
  pub add-hides :
      (t : Table I T) (new : Ref) (prev : Option Ref) (k : ℕ) (target : T) (key : I)
      → NotNegative t.heap t.entries
      → k < 2 ^ 31
      → (t' : Table I T) × (add (some new) prev (negsuc k) target key t ≡ some (negsuc k, t'))
        × (t'.entries ≡ new ∷ t.entries)
        × ((n : ℕ) → n < 2 ^ 31 → find_ent_by_id n t'.heap t'.entries ≡ none)
  unfolding add insert_after write find_ent_by_id as_uint
  add-hides t new prev k target key h small =
      let placed = find_place-negative k t.heap t.entries h in
      let same : (new == new) ≡ true = ground arith in
      (
        with_entry new none prev (added_entry (negsuc k) target key) t,
        rw (add, placed) refl,
        refl,
        λ n low.
            let above : ltb n (2 ^ 32 - 1 - k) ≡ true = ground (arith, low, small) in
            rw (find_ent_by_id, write, same, as_uint, above) refl,
      )
