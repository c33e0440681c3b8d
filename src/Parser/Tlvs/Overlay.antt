-- ===== src/Parser/Tlvs/Overlay.antt =====
-- The rounds of xdp2_parse_one_tlv: a TLV that is too short, and a chain of overlays.
use xdp.Base.{ℕ, zero, suc, true, Option, none, some, ◌≡◌, refl}
use xdp.Parser.Types.{Packet, Ptr, TlvRef, State, TlvDef, TlvsNode, Graph}
use xdp.Parser.Run.{ret, out_of_fuel}
use xdp.Parser.Tlvs.{too_short, Nested, parse_again, parse_one_tlv}

module _ {M : Type 0} (g : Graph M) (pkt : Packet) (frame : ℕ) (nested : Nested g pkt frame)
    (tn : TlvsNode) (hdr : Ptr) (tlv_len : ℕ) where
  -- A TLV shorter than its definition asks for, in a list with no wildcard node: the code for an
  -- unknown TLV is returned and no callback runs.
  pub short_tlv_unknown :
      (fuel : ℕ) (t : TlvRef) (s : State M)
      → too_short (g.tlv_node t).proto_tlv_def tlv_len ≡ true
      → tn.tlv_wildcard_node ≡ none
      → parse_one_tlv g pkt frame (suc fuel) nested tn t hdr tlv_len s
        ≡ ret tn.unknown_tlv_type_ret s
  unfolding parse_one_tlv parse_again
  short_tlv_unknown fuel t s short wild = rw (short, parse_again, wild)

  again_forever :
      (w : TlvRef) (fuel : ℕ) (def : Option TlvDef) (t : TlvRef) (s : State M)
      → tn.tlv_wildcard_node ≡ some w
      → too_short def tlv_len ≡ true
      → parse_again g pkt frame fuel nested tn def t hdr tlv_len s ≡ out_of_fuel
  unfolding parse_again
  again_forever w zero def t s wild short = refl
  again_forever w (suc fuel) def t s wild short =
      rw (short, parse_again, wild) (again_forever w fuel def w s wild short)

  -- A TLV shorter than its definition asks for, in a list that has a wildcard node: no number of rounds is enough, since the test
  -- goes on reading the definition of the node that the TLV was looked up as.
  pub short_tlv_forever :
      (w : TlvRef) (fuel : ℕ) (t : TlvRef) (s : State M)
      → tn.tlv_wildcard_node ≡ some w
      → too_short (g.tlv_node t).proto_tlv_def tlv_len ≡ true
      → parse_one_tlv g pkt frame fuel nested tn t hdr tlv_len s ≡ out_of_fuel
  unfolding parse_one_tlv
  short_tlv_forever w fuel t s wild short = again_forever w fuel _ t s wild short
