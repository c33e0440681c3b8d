-- ===== src/Parser/Tests/Quick.antt =====
-- The theorems on the fast path at concrete inputs.
use xdp.Base.{ℕ, ◌≤◌, ◌<◌, ℤ, pos, some, ◌≡◌, ◌≢◌, refl, true, false, as_size, inl, arith}
use xdp.Parser.Types.{
  Packet, Ptr, TlvRef, ProtoDef, DefBody, Body, TlvsNode, TlvsDef, ParseNode, Parser,
}
use xdp.Parser.Run.{Returns}
use xdp.Parser.Loop.{parse_body}
use xdp.Parser.Tlvs.Window.{Progresses}
use xdp.Parser.Fast.{
  fast_body, fast_node, validate_fast, validate_node, validate_entries, entries, is_seen,
  parse_fast,
}
use xdp.Parser.Fast.Valid.{Reaches, root_node, entry, validate_fast-Reaches}
use xdp.Parser.Fast.Agree.{fast_body-parse_body, IsSsize}
use xdp.Parser.Fast.Total.{FastWellFormed, parse_fast-Returns}
use xdp.Parser.Tests.{small_parser, option_def, option_node, fresh, packet}
use xdp.Parser.Tests.Walks.{no_overlay, no_nested, starts_inside}
use xdp.Parser.Tlvs.Total.{TlvsWellFormed}

small_parser_valid : validate_fast small_parser ≡ true
unfolding validate_fast validate_node validate_entries entries is_seen fast_node
small_parser_valid = refl

option_reached : Reaches small_parser.graph 0 1
unfolding entries
option_reached = entry 0 1 root_node (inl refl)

validate_fast-Reaches_example : fast_node (small_parser.graph.node 1) ≡ true
validate_fast-Reaches_example =
    validate_fast-Reaches small_parser 1 small_parser_valid option_reached

-- The length of the second header is its first byte, which is 9 here.
nine : (f : Packet → Ptr → ℕ → ℤ) → option_def.ops.len ≡ some f → IsSsize (f packet 2 9)
nine f e = ground arith

fast_body-parse_body_example :
    fast_body small_parser packet 1 12 1 option_def 2 9 0 fresh
    ≡ parse_body small_parser packet 1 12 1 option_def 2 9 0 fresh
fast_body-parse_body_example =
    fast_body-parse_body small_parser packet 1 12 1 option_def 2 9 0 fresh refl
      (validate_fast-Reaches small_parser 1 small_parser_valid option_reached)
      (λ an e. ground arith)

-- A parser of the second header alone, with 9 bytes to the header.
abbrev quick_def : ProtoDef
quick_def = record option_def { ops = record (option_def.ops) { len = some λ pkt hdr len. pos 9 } }

abbrev quick_node : ParseNode ℕ
quick_node = record option_node { proto_def = some quick_def }

abbrev quick_parser : Parser ℕ
quick_parser = record small_parser {
  graph = record (small_parser.graph) { node = λ r. quick_node };
}

quick_no_wildcard :
    (tn : TlvsNode) (w : TlvRef) → quick_node.body ≡ Body.tlvs tn → tn.tlv_wildcard_node ≢ some w
quick_no_wildcard tn w e e' = ground arith

abbrev quick_tlvs : TlvsWellFormed quick_parser.graph packet
quick_tlvs = record {
  rank = λ t. 0;
  level = λ t. 0;
  node_level = λ r. 0;
  defined = λ t. (_, refl);
  overlay_def = λ t next d hdr l e. absurd (no_overlay t next d hdr l e);
  table = λ r tn type t e l. omega arith;
  wildcard = λ r tn w e l. omega arith;
  no_short_wildcard = λ r tn w t d e e' f. absurd (quick_no_wildcard tn w e e');
  nested = λ t r e. absurd (no_nested t r e);
  nested_inside = λ t d hdr l e. starts_inside t d hdr l e;
  nested_at_start = λ t r is hdr e. absurd (no_nested t r e);
}

quick_passes : fast_node quick_node ≡ true
unfolding fast_node
quick_passes = refl

quick_moves : (d : ProtoDef) → quick_node.proto_def ≡ some d → (0 < d.min_len) × (d.overlay ≡ false)
quick_moves d e = ground arith

quick_lengths :
    (d : ProtoDef) (f : Packet → Ptr → ℕ → ℤ) (hdr : Ptr) (len : ℕ)
    → quick_node.proto_def ≡ some d
    → d.ops.len ≡ some f
    → d.min_len ≤ as_size (f packet hdr len)
unfolding as_size
quick_lengths d f hdr len e e' = ground arith

quick_headers :
    (d : ProtoDef) (tn : TlvsNode) (td : TlvsDef)
    → quick_node.proto_def ≡ some d
    → quick_node.body ≡ Body.tlvs tn
    → d.body ≡ DefBody.tlvs td
    → Progresses td × ((hdr : Ptr) → td.start_offset packet hdr ≤ d.min_len)
quick_headers d tn td e b db = (ground arith, λ hdr. ground arith)

abbrev quick_good : FastWellFormed quick_parser packet
quick_good = record {
  tlvs = quick_tlvs;
  passes = λ r. quick_passes;
  next_set = λ r d e. inl refl;
  moves = λ r d e. quick_moves d e;
  lengths = λ r d f hdr len e e'. quick_lengths d f hdr len e e';
  headers = λ r d tn td e b db. quick_headers d tn td e b db;
}

parse_fast-Returns_example : Returns (parse_fast quick_parser packet 1 12 10 2 9 fresh)
parse_fast-Returns_example =
    parse_fast-Returns quick_parser packet 1 12 quick_good (λ t. omega arith) (λ r. omega arith)
      (omega arith) (omega arith) 10 2 9 fresh (omega arith) (omega arith)
