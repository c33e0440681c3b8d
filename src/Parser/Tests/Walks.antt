-- ===== src/Parser/Tests/Walks.antt =====
-- The theorems on TLVs at concrete inputs.
use xdp.Base.{ℕ, zero, suc, ◌+◌, ◌≤◌, some, ◌≡◌, ◌≢◌, refl, inl, arith}
use xdp.Parser.Types.{Ptr, TlvsNode, TlvDef, NodeRef, TlvRef, Body}
use xdp.Parser.Run.{out_of_fuel, Returns, Leaves}
use xdp.Parser.Tlvs.{
  tlvs_loop, dispatch_tlv, parse_one_tlv, parse_tlvs, overlay_next, too_short, nested_start, again,
}
use xdp.Parser.Tlvs.Scan.{scan, play, tlvs_loop-scan}
use xdp.Parser.Tlvs.Window.{Within, count, scan-Within, scan-limit}
use xdp.Parser.Tlvs.Overlay.{short_tlv_forever}
use xdp.Parser.Tlvs.Total.{TlvsWellFormed, IsTlvs, parse_tlvs-Returns}
use xdp.Parser.Tlvs.Vars.{HasVar, parse_tlvs-HasVar}
use xdp.Parser.Tests.{small_parser, option_tlvs, option_list, option_def, fresh, packet}

-- A list that parses what it does not know, and what is too short, with the TLV node 0.
abbrev catch_all : TlvsNode
catch_all = record option_list { tlv_wildcard_node = some 0 }

abbrev option_IsTlvs : IsTlvs small_parser.graph 1
option_IsTlvs = record {
  node = option_list;
  proto = option_def;
  proto_tlvs = option_tlvs;
  node_eq = refl;
  proto_eq = refl;
  proto_body = refl;
  progress = inl refl;
}

pub no_overlay :
    (t next : TlvRef) (d : TlvDef) (hdr : Ptr) (l : ℕ)
    → overlay_next (small_parser.graph.tlv_node t) (some d) packet hdr l ≢ again next
unfolding overlay_next
no_overlay t next d hdr l e = ground arith

pub no_wildcard :
    (r : NodeRef) (tn : TlvsNode) (w : TlvRef)
    → (small_parser.graph.node r).body ≡ Body.tlvs tn
    → tn.tlv_wildcard_node ≢ some w
no_wildcard zero tn w e e' = ground arith
no_wildcard (suc r) tn w e e' = ground arith

pub starts_inside :
    (t : TlvRef) (d : TlvDef) (hdr : Ptr) (l : ℕ)
    → (small_parser.graph.tlv_node t).proto_tlv_def ≡ some d
    → nested_start d packet hdr l ≤ l
unfolding nested_start
starts_inside t d hdr l e = ground arith

pub no_nested : (t : TlvRef) (r : NodeRef) → (small_parser.graph.tlv_node t).nested_node ≢ some r
no_nested t r e = ground arith

abbrev pub small_parser_tlvs : TlvsWellFormed small_parser.graph packet
small_parser_tlvs = record {
  rank = λ t. 0;
  level = λ t. 0;
  node_level = λ r. 0;
  defined = λ t. (_, refl);
  overlay_def = λ t next d hdr l e. absurd (no_overlay t next d hdr l e);
  table = λ r tn type t e l. omega arith;
  wildcard = λ r tn w e l. omega arith;
  no_short_wildcard = λ r tn w t d e e' f. absurd (no_wildcard r tn w e e');
  nested = λ t r e. absurd (no_nested t r e);
  nested_inside = λ t d hdr l e. starts_inside t d hdr l e;
  nested_at_start = λ t r is hdr e. absurd (no_nested t r e);
}

tlvs_loop-scan_example :
    tlvs_loop small_parser.graph packet 0 20 20
      (parse_tlvs small_parser.graph packet 0 1 20)
      option_list
      option_tlvs
      3
      8
      0
      fresh
    ≡ play
        (dispatch_tlv small_parser.graph packet 0 20
          (parse_tlvs small_parser.graph packet 0 1 20)
          option_list)
        (scan 20 8 option_tlvs packet 3 8 0)
        fresh
tlvs_loop-scan_example =
    tlvs_loop-scan small_parser.graph packet 0 20 (parse_tlvs small_parser.graph packet 0 1 20)
      option_list option_tlvs 20 3 8 0 fresh

scan-Within_example : Within 11 3 (scan 20 8 option_tlvs packet 3 8 0)
scan-Within_example =
    scan-Within 8 option_tlvs packet 11 (inl refl) (omega arith) 20 3 8 0 (omega arith)
      (omega arith) refl

scan-limit_example : 0 + count (scan 20 8 option_tlvs packet 3 8 0) ≤ 8
scan-limit_example =
    scan-limit 8 option_tlvs packet (omega arith) (omega arith) 20 3 8 0 (omega arith)

-- The TLV node 0 asks for 3 bytes, and the TLV has 2.
short_tlv_forever_example :
    parse_one_tlv small_parser.graph packet 0 20
      (parse_tlvs small_parser.graph packet 0 1 20)
      catch_all
      0
      7
      2
      fresh
    ≡ out_of_fuel
unfolding too_short
short_tlv_forever_example =
    short_tlv_forever small_parser.graph packet 0 (parse_tlvs small_parser.graph packet 0 1 20)
      catch_all 7 2 0 20 0 fresh refl refl

parse_tlvs-Returns_example : Returns (parse_tlvs small_parser.graph packet 0 1 20 1 2 9 fresh)
parse_tlvs-Returns_example =
    parse_tlvs-Returns small_parser.graph packet 0 20 small_parser_tlvs (λ t. omega arith)
      (omega arith) 1 1 option_IsTlvs 2 9 fresh (omega arith) (omega arith) (omega arith)
      (omega arith)

parse_tlvs-HasVar_example :
    Leaves (HasVar (fresh.var)) (parse_tlvs small_parser.graph packet 0 1 20 1 2 9 fresh)
parse_tlvs-HasVar_example =
    parse_tlvs-HasVar small_parser.graph packet 0 1 20 1 2 9 (fresh.var) fresh (omega arith) refl
