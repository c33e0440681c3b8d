-- ===== src/Parser/Run.antt =====
-- How a part of the parser ends, and the callbacks that every part makes.
use xdp.Base.{ℕ, ℤ, ◌≡◌, refl, Option, none, some, ◌==ℤ◌, if◌then◌else◌, Bool-cases, inl, inr}
use mathlib.Core.Path.{fun_ext}
use xdp.Parser.Codes.{okay}
use xdp.Parser.Types.{Packet, Ptr, State, Extract, Handler}

-- A part returns a code with the state, or goes wrong: `fault` is a read through a null pointer,
-- outside the packet, or of a structure that is of another kind.
pub data Run (M : Type 0) : Type 0 where
  ret : ℤ → State M → Run M
  fault : Run M
  out_of_fuel : Run M

module _ {M : Type 0} where
  -- `ret = ...; if (ret != XDP2_OKAY) return ret;` before what follows
  infixl 5 ◌>>=◌
  abbrev pub ◌>>=◌ : Run M → (State M → Run M) → Run M
  ret code s >>= k = if code ==ℤ okay then k s else ret code s
  fault >>= k = fault
  out_of_fuel >>= k = out_of_fuel

  -- What follows a call whatever it returns.
  abbrev pub on_return : Run M → (ℤ → State M → Run M) → Run M
  on_return (ret code s) k = k code s
  on_return fault k = fault
  on_return out_of_fuel k = out_of_fuel

  -- `if (ops->extract_metadata) ops->extract_metadata(hdr, hdr_len, metadata, frame, ctrl);`
  unfoldable pub run_extract : Option (Extract M) → Packet → Option Ptr → ℕ → ℕ → State M → State M
  run_extract none pkt hdr hlen frame s = s
  run_extract (some f) pkt hdr hlen frame s = record s {
    store = f pkt hdr hlen frame s.var s.store;
  }

  -- `if (ops->handler) ret = ops->handler(...)`; with no handler the code is `XDP2_OKAY`.
  unfoldable pub run_handler :
      Option (Handler M) → Packet → Option Ptr → ℕ → ℕ → State M → ℤ × State M
  run_handler none pkt hdr hlen frame s = (okay, s)
  run_handler (some f) pkt hdr hlen frame s =
      let (code, store) = f pkt hdr hlen frame s.var s.store in (code, record s { store = store })

  -- A callback cannot write the control variables.
  pub run_extract-var :
      (f : Option (Extract M)) (pkt : Packet) (hdr : Option Ptr) (hlen frame : ℕ) (s : State M)
      → (run_extract f pkt hdr hlen frame s).var ≡ s.var
  unfolding run_extract
  run_extract-var none pkt hdr hlen frame s = refl
  run_extract-var (some f) pkt hdr hlen frame s = refl

  pub run_handler-var :
      (f : Option (Handler M)) (pkt : Packet) (hdr : Option Ptr) (hlen frame : ℕ) (s : State M)
      → (run_handler f pkt hdr hlen frame s).1.var ≡ s.var
  unfolding run_handler
  run_handler-var none pkt hdr hlen frame s = refl
  run_handler-var (some f) pkt hdr hlen frame s = refl

  pub >>=-cong :
      (r : Run M) {k k' : State M → Run M} → ((s : State M) → k s ≡ k' s) → (r >>= k) ≡ (r >>= k')
  >>=-cong r h = rw (fun_ext h)

  -- A part ends with a code: it does not fault and does not run for ever.
  abbrev pub Returns : Run M → Type 0
  Returns (ret code s) = Unit
  Returns fault = ⊥
  Returns out_of_fuel = ⊥

  pub >>=-Returns :
      (r : Run M) (k : State M → Run M)
      → Returns r
      → ((s : State M) → Returns (k s))
      → Returns (r >>= k)
  >>=-Returns (ret code s) k h hk = elim (Bool-cases (code ==ℤ okay)) [
    | inl e ↦ rw e (hk s)
    | inr e ↦ rw e tt
  ]
  >>=-Returns fault k h hk = h
  >>=-Returns out_of_fuel k h hk = h

  pub on_return-Returns :
      (r : Run M) (k : ℤ → State M → Run M)
      → Returns r
      → ((code : ℤ) (s : State M) → Returns (k code s))
      → Returns (on_return r k)
  on_return-Returns (ret code s) k h hk = hk code s
  on_return-Returns fault k h hk = h
  on_return-Returns out_of_fuel k h hk = h

  -- If a part returns, the state has the property, whatever the code is.
  abbrev pub Leaves : (State M → Type 0) → Run M → Type 0
  Leaves P (ret code s) = P s
  Leaves P fault = Unit
  Leaves P out_of_fuel = Unit

  pub >>=-Leaves :
      (P : State M → Type 0) (r : Run M) (k : State M → Run M)
      → Leaves P r
      → ((s : State M) → P s → Leaves P (k s))
      → Leaves P (r >>= k)
  >>=-Leaves P (ret code s) k h hk = elim (Bool-cases (code ==ℤ okay)) [
    | inl e ↦ rw e (hk s h)
    | inr e ↦ rw e h
  ]
  >>=-Leaves P fault k h hk = tt
  >>=-Leaves P out_of_fuel k h hk = tt
