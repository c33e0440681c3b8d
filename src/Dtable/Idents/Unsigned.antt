-- ===== src/Dtable/Idents/Unsigned.antt =====
-- The identifiers of entries as xdp2_dtable_find_ent_by_id of src/lib/xdp2/dtable.c compares them, as
-- `unsigned int`s.
use xdp.Base.{
  as_uint, ltb, ℕ, ℤ, pos, negsuc, false, List, [], ◌∷◌, Option, none, some, ◌≡◌, ◌≢◌, refl, ◌==◌,
  ◌==ℤ◌, ltb_ℤ, Bool-cases, inl, inr, All, arith,
}
use xdp.Dtable.{Ref, Entry, find_ent_by_id, find_by_ident, insert_after}
use xdp.Dtable.Idents.Search.{IdentsWellFormed}

unsigned_less : (n : ℕ) (i : ℤ) → ltb_ℤ i (pos 0) ≡ false → ltb n (as_uint i) ≡ ltb_ℤ (pos n) i
unfolding as_uint
unsigned_less n (pos m) h = ground arith
unsigned_less n (negsuc m) h = ground (arith, h)

unsigned_same : (n : ℕ) (i : ℤ) → ltb_ℤ i (pos 0) ≡ false → (as_uint i == n) ≡ (i ==ℤ pos n)
unfolding as_uint
unsigned_same n (pos m) h = ground arith
unsigned_same n (negsuc m) h = ground (arith, h)

pub All-insert_after {ℓ} :
    (P : Ref → Type ℓ) (place : Option Ref) (new : Ref) (xs : List Ref)
    → P new
    → All P xs
    → All P (insert_after place new xs)
unfolding insert_after
All-insert_after P none new xs p h = (p, h)
All-insert_after P (some prev) new [] p h = tt
All-insert_after P (some prev) new (x ∷ xs) p h = elim (Bool-cases (x == prev)) [
  | inl here ↦ rw here (h.0, (p, h.1))
  | inr there ↦ rw there (h.0, All-insert_after P (some prev) new xs p h.1)
]

module _ {I T : Type 0} where
  -- No identifier is negative.
  abbrev pub NotNegative : (Ref → Entry I T) → List Ref → Type 0
  NotNegative heap xs = All (λ x. ltb_ℤ (heap x).ident (pos 0) ≡ false) xs

  -- Then the two ways to compare agree.
  pub find_ent_by_id-ident :
      (n : ℕ) (heap : Ref → Entry I T) (xs : List Ref)
      → NotNegative heap xs
      → find_ent_by_id n heap xs ≡ find_by_ident (pos n) heap xs
  unfolding find_ent_by_id find_by_ident
  find_ent_by_id-ident n heap [] h = refl
  find_ent_by_id-ident n heap (x ∷ xs) h =
      rw
        (
          find_ent_by_id,
          find_by_ident,
          unsigned_less n (heap x).ident h.0,
          unsigned_same n (heap x).ident h.0,
          find_ent_by_id-ident n heap xs h.1,
        )
        refl

  -- A list where the identifier `n` finds `found`, and the others what they found in `xs`.
  abbrev pub FindsById :
      (Ref → Entry I T) → List Ref → (Ref → Entry I T) → List Ref → ℕ → Option Ref → Type 0
  FindsById heap xs heap' xs' n found =
      IdentsWellFormed heap' xs'
      × (find_ent_by_id n heap' xs' ≡ found)
      × ((m : ℕ) → m ≢ n → find_ent_by_id m heap' xs' ≡ find_ent_by_id m heap xs)
