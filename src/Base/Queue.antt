-- ===== src/Base/Queue.antt =====
-- The lists of sys/queue.h, as lists of the addresses that they link.
use Prim.Native.Nat.{ℕ}
use mathlib.Core.Path.{◌≡◌, sym}
use mathlib.Core.Logic.{◌≢◌, inl, inr}
use mathlib.Core.List.{List, [], ◌∷◌}
use native.Mathlib.Omega.{arith}
use xdp.Base.Tests.{◌==◌, if◌then◌else◌, Bool-cases}
use xdp.Base.Lists.{All, Avoids, NoDup, Member}

-- LIST_REMOVE and CIRCLEQ_REMOVE
unfoldable pub remove : ℕ → List ℕ → List ℕ
remove r [] = []
remove r (x ∷ xs) = if x == r then xs else x ∷ remove r xs

pub All-remove {ℓ} : (P : ℕ → Type ℓ) (r : ℕ) (xs : List ℕ) → All P xs → All P (remove r xs)
unfolding remove
All-remove P r [] h = tt
All-remove P r (x ∷ xs) h = elim (Bool-cases (x == r)) [
  | inl same ↦ rw same h.1
  | inr other ↦ rw other (h.0, All-remove P r xs h.1)
]

Avoids-remove : (i r : ℕ) (xs : List ℕ) → Avoids i xs → Avoids i (remove r xs)
unfolding remove
Avoids-remove i r [] h = tt
Avoids-remove i r (x ∷ xs) h = elim (Bool-cases (x == r)) [
  | inl same ↦ rw same h.1
  | inr other ↦ rw other (h.0, Avoids-remove i r xs h.1)
]

pub NoDup-remove : (r : ℕ) (xs : List ℕ) → NoDup xs → NoDup (remove r xs)
unfolding remove
NoDup-remove r [] h = tt
NoDup-remove r (x ∷ xs) h = elim (Bool-cases (x == r)) [
  | inl same ↦ rw same h.1
  | inr other ↦ rw other (Avoids-remove x r xs h.0, NoDup-remove r xs h.1)
]

pub Member-remove : (i r : ℕ) (xs : List ℕ) → Member i (remove r xs) → Member i xs
unfolding remove
Member-remove i r [] h = h
Member-remove i r (x ∷ xs) h = elim (Bool-cases (x == r)) [
  | inl same ↦ inr (rw same at h)
  | inr other ↦ elim (rw other at h) [
    | inl here ↦ inl here
    | inr there ↦ inr (Member-remove i r xs there)
  ]
]

pub Member-remove_other : (i r : ℕ) (xs : List ℕ) → i ≢ r → Member i xs → Member i (remove r xs)
unfolding remove
Member-remove_other i r [] d h = h
Member-remove_other i r (x ∷ xs) d h = elim (Bool-cases (x == r)) [
  | inl same ↦
      let e : x ≡ r = ground (arith, same) in
      rw same (elim h [ inl here ↦ absurd (omega (arith, e, here, d)) | inr there ↦ there ])
  | inr other ↦
      rw other
        (elim h [ inl here ↦ inl here | inr there ↦ inr (Member-remove_other i r xs d there) ])
]

pub Avoids-Member : (i : ℕ) (xs : List ℕ) → Avoids i xs → Member i xs → ⊥
Avoids-Member i [] a h = h
Avoids-Member i (x ∷ xs) a h = elim h [
  | inl here ↦ omega (arith, here, a.0)
  | inr there ↦ Avoids-Member i xs a.1 there
]

-- What is removed from a list without duplicates is gone.
pub remove-gone : (r : ℕ) (xs : List ℕ) → NoDup xs → Member r (remove r xs) → ⊥
unfolding remove
remove-gone r [] d h = h
remove-gone r (x ∷ xs) d h = elim (Bool-cases (x == r)) [
  | inl same ↦
      let e : x ≡ r = ground (arith, same) in Avoids-Member r xs (rw e at d.0) (rw same at h)
  | inr other ↦ elim (rw other at h) [
    | inl here ↦ ground (arith, other, here)
    | inr there ↦ remove-gone r xs d.1 there
  ]
]

pub Member→Avoids : (i : ℕ) (xs : List ℕ) → (Member i xs → ⊥) → Avoids i xs
Member→Avoids i [] h = tt
Member→Avoids i (x ∷ xs) h = ((λ e. h (inl (sym e))), Member→Avoids i xs (λ k. h (inr k)))
