-- ===== src/Parser/Tlvs/Scan.antt =====
-- The walk of xdp2_parse_tlvs over the bytes, apart from what the callbacks do.
use xdp.Base.{
  ℕ, zero, suc, ◌+◌, ◌%◌, ◌^◌, ℤ, Bool, true, false, Option, none, some, ◌≡◌, refl, ◌==◌, sub_size,
  Bool-cases, Option-cases, inl, inr,
}
use xdp.Parser.Codes.{okay, stop_tlv_length, stop_option_limit}
use xdp.Parser.Types.{Packet, Ptr, State, TlvsDef, TlvsNode, Graph}
use xdp.Parser.Run.{Run, ret, fault, out_of_fuel, ◌>>=◌, >>=-cong}
use xdp.Parser.Tlvs.{is_byte, tlv_length, over_limit, Nested, dispatch_tlv, tlvs_loop}

-- The TLVs of a list in order, each with its place, its length and its type, and the code that the
-- walk ends with; `outside` is a read outside the packet.
pub data Objects : Type 0 where
  stop : ℤ → Objects
  outside : Objects
  unfinished : Objects
  object : Ptr → ℕ → ℤ → Objects → Objects

unfoldable pub scan : ℕ → ℕ → TlvsDef → Packet → Ptr → ℕ → ℕ → Objects
scan zero max_tlvs d pkt cp hlen cnt = unfinished
scan (suc fuel) max_tlvs d pkt cp hlen cnt = elim (hlen == 0) [
  | true ↦ stop okay
  | false ↦ elim (is_byte d.pad1_enable d.pad1_val pkt cp) [
    | none ↦ outside
    | some true ↦ scan fuel max_tlvs d pkt (cp + 1) (sub_size hlen 1) cnt
    | some false ↦ elim (is_byte d.eol_enable d.eol_val pkt cp) [
      | none ↦ outside
      | some true ↦ stop okay
      | some false ↦
          let cnt' = (cnt + 1) % 2 ^ 32 in
          elim (over_limit max_tlvs cnt') [
            | true ↦ stop stop_option_limit
            | false ↦ elim (tlv_length d pkt cp hlen) [
              | none ↦ stop stop_tlv_length
              | some tlv_len ↦
                  object cp tlv_len (d.type_of pkt cp)
                    (scan fuel max_tlvs d pkt (cp + tlv_len) (sub_size hlen tlv_len) cnt')
            ]
          ]
    ]
  ]
]

-- Visit the TLVs in order, up to the first that does not return `XDP2_OKAY`.
unfoldable pub play : {M : Type 0} → (ℤ → Ptr → ℕ → State M → Run M) → Objects → State M → Run M
play visit (stop code) s = ret code s
play visit outside s = fault
play visit unfinished s = out_of_fuel
play visit (object cp tlv_len type rest) s = visit type cp tlv_len s >>= λ s'. play visit rest s'

-- To split on `is_byte` with the equation kept.
pub data ByteCase (o : Option Bool) : Type 0 where
  crash : o ≡ none → ByteCase o
  hit : o ≡ some true → ByteCase o
  miss : o ≡ some false → ByteCase o

pub byte_cases : (o : Option Bool) → ByteCase o
byte_cases none = crash refl
byte_cases (some true) = hit refl
byte_cases (some false) = miss refl

module _ {M : Type 0} (g : Graph M) (pkt : Packet) (frame n : ℕ) (nested : Nested g pkt frame)
    (tn : TlvsNode) (d : TlvsDef) where
  -- The loop visits exactly the TLVs of the walk over the bytes, in order, until a visit returns
  -- something else than `XDP2_OKAY`; where none does, it returns the code that the walk ends with.
  pub tlvs_loop-scan :
      (fuel : ℕ) (cp : Ptr) (hlen cnt : ℕ) (s : State M)
      → tlvs_loop g pkt frame fuel n nested tn d cp hlen cnt s
        ≡ play (dispatch_tlv g pkt frame n nested tn) (scan fuel tn.max_tlvs d pkt cp hlen cnt) s
  unfolding tlvs_loop scan play
  tlvs_loop-scan zero cp hlen cnt s = refl
  tlvs_loop-scan (suc fuel) cp hlen cnt s = elim (Bool-cases (hlen == 0)) [
    | inl done ↦ rw (done, tlvs_loop, scan)
    | inr more ↦
        rw (more, tlvs_loop, scan)
          (elim (byte_cases (is_byte d.pad1_enable d.pad1_val pkt cp)) [
            | crash e ↦ rw e
            | hit e ↦ rw e (tlvs_loop-scan fuel (cp + 1) (sub_size hlen 1) cnt s)
            | miss e ↦ rw e (elim (byte_cases (is_byte d.eol_enable d.eol_val pkt cp)) [
              | crash e ↦ rw e
              | hit e ↦ rw e
              | miss e ↦ rw e (elim (Bool-cases (over_limit tn.max_tlvs ((cnt + 1) % 2 ^ 32))) [
                | inl over ↦ rw over
                | inr fits ↦ rw fits (elim (Option-cases (tlv_length d pkt cp hlen)) [
                  | inl e ↦ rw e
                  | inr (l, e) ↦ rw e (
                      >>=-cong (dispatch_tlv g pkt frame n nested tn (d.type_of pkt cp) cp l s)
                        λ s'.
                          tlvs_loop-scan fuel (cp + l) (sub_size hlen l) ((cnt + 1) % 2 ^ 32) s')
                ])
              ])
            ])
          ])
  ]
