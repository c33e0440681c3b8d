-- ===== src/Parser/Ctl.antt =====
-- How a part of the main loop of the parser ends.
use xdp.Base.{ℕ, ℤ, ◌≡◌, refl, ◌==ℤ◌, if◌then◌else◌}
use xdp.Parser.Codes.{okay}
use xdp.Parser.Types.{State}
use xdp.Parser.Run.{Run}

-- `go` falls through to the next statement, `out` is `ret = code; goto out;` with the frame at that
-- point, `leave` is a `return` that passes by the label `out`.
pub data Ctl (M : Type 0) (A : Type 0) : Type 0 where
  go : A → Ctl M A
  out : ℤ → ℕ → State M → Ctl M A
  leave : ℤ → State M → Ctl M A
  fault : Ctl M A
  out_of_fuel : Ctl M A

module _ {M A B : Type 0} where
  infixl 5 ◌>>=◌
  abbrev pub ◌>>=◌ : Ctl M A → (A → Ctl M B) → Ctl M B
  go a >>= k = k a
  out code frame s >>= k = out code frame s
  leave code s >>= k = leave code s
  fault >>= k = fault
  out_of_fuel >>= k = out_of_fuel

-- `if (ret != XDP2_OKAY) goto out;` after a part that parses what a node holds.
abbrev pub or_out : {M : Type 0} → ℕ → Run M → Ctl M (State M)
or_out frame (Run.ret code s) = if code ==ℤ okay then go s else out code frame s
or_out frame Run.fault = fault
or_out frame Run.out_of_fuel = out_of_fuel

module _ {M A : Type 0} where
  -- A part that falls through does so with a value that has the property.
  abbrev pub Keeps : (A → Type 0) → Ctl M A → Type 0
  Keeps P (go a) = P a
  Keeps P (out code frame s) = Unit
  Keeps P (leave code s) = Unit
  Keeps P fault = Unit
  Keeps P out_of_fuel = Unit

  -- A part that goes wrong in no way, and falls through with the property only.
  abbrev pub Ends : (A → Type 0) → Ctl M A → Type 0
  Ends P (go a) = P a
  Ends P (out code frame s) = Unit
  Ends P (leave code s) = Unit
  Ends P fault = ⊥
  Ends P out_of_fuel = ⊥

module _ {M A : Type 0} where
  pub Keeps-mono :
      {P Q : A → Type 0} → ((a : A) → P a → Q a) → (r : Ctl M A) → Keeps P r → Keeps Q r
  Keeps-mono f (go a) h = f a h
  Keeps-mono f (out code frame s) h = tt
  Keeps-mono f (leave code s) h = tt
  Keeps-mono f fault h = tt
  Keeps-mono f out_of_fuel h = tt

  pub Keeps-trivial : (r : Ctl M A) → Keeps (λ _. Unit {0}) r
  Keeps-trivial (go a) = tt
  Keeps-trivial (out code frame s) = tt
  Keeps-trivial (leave code s) = tt
  Keeps-trivial fault = tt
  Keeps-trivial out_of_fuel = tt

module _ {M A B : Type 0} where
  pub >>=-Keeps :
      (P : A → Type 0) (Q : B → Type 0) (r : Ctl M A) (k : A → Ctl M B)
      → Keeps P r
      → ((a : A) → P a → Keeps Q (k a))
      → Keeps Q (r >>= k)
  >>=-Keeps P Q (go a) k h hk = hk a h
  >>=-Keeps P Q (out code frame s) k h hk = tt
  >>=-Keeps P Q (leave code s) k h hk = tt
  >>=-Keeps P Q fault k h hk = tt
  >>=-Keeps P Q out_of_fuel k h hk = tt

  pub >>=-Ends :
      (P : A → Type 0) (Q : B → Type 0) (r : Ctl M A) (k : A → Ctl M B)
      → Ends P r
      → ((a : A) → P a → Ends Q (k a))
      → Ends Q (r >>= k)
  >>=-Ends P Q (go a) k h hk = hk a h
  >>=-Ends P Q (out code frame s) k h hk = tt
  >>=-Ends P Q (leave code s) k h hk = tt
  >>=-Ends P Q fault k h hk = h
  >>=-Ends P Q out_of_fuel k h hk = h

module _ {M A : Type 0} where
  -- To split on how a part ends, with the equation kept.
  pub data CtlCase (r : Ctl M A) : Type 0 where
    is_go : (a : A) → r ≡ go a → CtlCase r
    is_out : (code : ℤ) (frame : ℕ) (s : State M) → r ≡ out code frame s → CtlCase r
    is_leave : (code : ℤ) (s : State M) → r ≡ leave code s → CtlCase r
    is_fault : r ≡ fault → CtlCase r
    is_out_of_fuel : r ≡ out_of_fuel → CtlCase r

  pub ctl_cases : (r : Ctl M A) → CtlCase r
  ctl_cases (go a) = is_go a refl
  ctl_cases (out code frame s) = is_out code frame s refl
  ctl_cases (leave code s) = is_leave code s refl
  ctl_cases fault = is_fault refl
  ctl_cases out_of_fuel = is_out_of_fuel refl

module _ {M A : Type 0} where
  -- A property of what a part falls through with, and one of what it leaves the parser with.
  abbrev pub Yields : (A → Type 0) → (ℤ → State M → Type 0) → Ctl M A → Type 0
  Yields P L (go a) = P a
  Yields P L (out code frame s) = Unit
  Yields P L (leave code s) = L code s
  Yields P L fault = Unit
  Yields P L out_of_fuel = Unit

module _ {M A B : Type 0} where
  pub >>=-Yields :
      (P : A → Type 0) (Q : B → Type 0) (L : ℤ → State M → Type 0) (r : Ctl M A) (k : A → Ctl M B)
      → Yields P L r
      → ((a : A) → P a → Yields Q L (k a))
      → Yields Q L (r >>= k)
  >>=-Yields P Q L (go a) k h hk = hk a h
  >>=-Yields P Q L (out code frame s) k h hk = tt
  >>=-Yields P Q L (leave code s) k h hk = h
  >>=-Yields P Q L fault k h hk = tt
  >>=-Yields P Q L out_of_fuel k h hk = tt
