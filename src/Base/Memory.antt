-- ===== src/Base/Memory.antt =====
-- Memory: what stands at each address.
use Prim.Native.Nat.{ℕ}
use mathlib.Core.Path.{◌≡◌, refl}
use mathlib.Core.Logic.{◌≢◌, inl, inr}
use mathlib.Core.Bool.{true, false}
use native.Mathlib.Omega.{arith}
use xdp.Base.Tests.{◌==◌, if◌then◌else◌, Bool-cases}

-- A write to one place.
unfoldable pub put {ℓ} : {A : Type ℓ} → ℕ → A → (ℕ → A) → ℕ → A
put i a f x = if x == i then a else f x

pub put-here {ℓ} : {A : Type ℓ} (i : ℕ) (a : A) (f : ℕ → A) → put i a f i ≡ a
unfolding put
put-here i a f = let same : (i == i) ≡ true = ground arith in rw same refl

pub put-other {ℓ} : {A : Type ℓ} (i : ℕ) (a : A) (f : ℕ → A) (x : ℕ) → x ≢ i → put i a f x ≡ f x
unfolding put
put-other i a f x d = let other : (x == i) ≡ false = ground (arith, d) in rw other refl

-- What holds at the place that is written, and elsewhere as before.
pub put-cases {ℓ κ} :
    {A : Type ℓ} (P : ℕ → A → Type κ) (i : ℕ) (a : A) (f : ℕ → A)
    → P i a
    → ((x : ℕ) → x ≢ i → P x (f x))
    → (x : ℕ) → P x (put i a f x)
unfolding put
put-cases P i a f here there x = elim (Bool-cases (x == i)) [
  | inl same ↦ let e : x ≡ i = ground (arith, same) in rw (same, e) here
  | inr other ↦ rw other (there x (λ e. ground (arith, other, e)))
]
