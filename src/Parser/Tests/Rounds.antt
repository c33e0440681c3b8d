-- ===== src/Parser/Tests/Rounds.antt =====
-- The theorems on the main loop at concrete inputs.
use xdp.Base.{
  ℕ, zero, suc, ◌+◌, ◌*◌, ◌≤◌, ◌<◌, pos, negsuc, [], ◌∷◌, some, none, ◌≡◌, ◌⊎◌, refl, true, inl,
  arith,
}
use xdp.Parser.Codes.{okay}
use xdp.Parser.Types.{Ptr, NodeRef, ProtoDef, DefBody, Body, TlvsNode, TlvsDef, ParseNode}
use xdp.Parser.Run.{Returns}
use xdp.Parser.Lookup.{lookup_node, lookup_entry}
use xdp.Parser.Ctl.{go, Keeps}
use xdp.Parser.Loop.{Cursor, enter_encap, round, start, parse, parse_loop}
use xdp.Parser.Tlvs.Window.{Progresses}
use xdp.Parser.Loop.Window.{Moves, round-InBounds, start-InBounds}
use xdp.Parser.Loop.Total.{WellFormed, parse-Returns}
use xdp.Parser.Loop.Fuel.{Ends, parse-rounds}
use xdp.Parser.Loop.Exit.{Reports, parse-Reports}
use xdp.Parser.Loop.Faults.{frame_overrun}
use xdp.Parser.Tests.{small_parser, link_def, link_node, fresh, packet}
use xdp.Parser.Tests.Walks.{small_parser_tlvs}

pub node_defined : (r : NodeRef) → (d : ProtoDef) × ((small_parser.graph.node r).proto_def ≡ some d)
node_defined zero = (_, refl)
node_defined (suc r) = (_, refl)

pub no_keys :
    (r : NodeRef) (d : ProtoDef)
    → (small_parser.graph.node r).proto_def ≡ some d
    → (d.ops.next_proto_keyin ≡ none) ⊎ ((small_parser.graph.node r).key_sel < 0)
no_keys zero d e = ground arith
no_keys (suc r) d e = ground arith

pub no_wildcards : (r : NodeRef) → (small_parser.graph.node r).wildcard_node ≡ none
no_wildcards zero = refl
no_wildcards (suc r) = refl

pub option_starts :
    (r : NodeRef) (d : ProtoDef) (tn : TlvsNode) (td : TlvsDef)
    → (small_parser.graph.node r).proto_def ≡ some d
    → (small_parser.graph.node r).body ≡ Body.tlvs tn
    → d.body ≡ DefBody.tlvs td
    → Progresses td × ((hdr : Ptr) → td.start_offset packet hdr ≤ d.min_len)
option_starts zero d tn td e b db = absurd (ground arith)
option_starts (suc r) d tn td e b db = (ground arith, λ hdr. ground arith)

abbrev small_parser_good : WellFormed small_parser packet
small_parser_good = record {
  tlvs = small_parser_tlvs;
  defined = node_defined;
  keys = no_keys;
  wildcards = λ r d e. inl (no_wildcards r);
  headers = option_starts;
}

parse-Returns_example : Returns (parse small_parser packet 1 12 0 11 fresh)
parse-Returns_example =
    parse-Returns small_parser packet 1 12 small_parser_good (λ t. omega arith) (λ r. omega arith)
      (omega arith) (omega arith) 0 11 fresh refl

round-InBounds_example :
    Keeps
      (Moves small_parser packet 1 12 11 (start small_parser packet 1 12 0 11 fresh))
      (round small_parser packet 1 12 (start small_parser packet 1 12 0 11 fresh))
round-InBounds_example =
    round-InBounds small_parser packet 1 12 11 (start small_parser packet 1 12 0 11 fresh)
      (start-InBounds small_parser packet 1 12 11 0 11 fresh refl (omega arith))

parse-rounds_example :
    Ends small_parser packet 1 12 small_parser.config.max_nodes
      (start small_parser packet 1 12 0 11 fresh)
      (parse small_parser packet 1 12 0 11 fresh)
    × (parse_loop small_parser packet 1 12 9 (start small_parser packet 1 12 0 11 fresh)
        ≡ parse small_parser packet 1 12 0 11 fresh)
parse-rounds_example = parse-rounds small_parser packet 1 12 9 0 11 fresh (omega arith)

parse-Reports_example :
    Reports small_parser packet 1 12 okay (parse small_parser packet 1 12 0 11 fresh)
parse-Reports_example = parse-Reports small_parser packet 1 12 okay 0 11 fresh (refl, omega arith)

-- A protocol whose length function gives an error.
abbrev broken_def : ProtoDef
broken_def = record link_def { ops = record (link_def.ops) { len = some λ pkt hdr len. negsuc 12 } }

-- The first header with a wildcard node, and no entry for the protocol that the packet names.
abbrev fallback_node : ParseNode ℕ
fallback_node = record link_node {
  proto_table = some ((pos 9, some 1) ∷ []);
  wildcard_node = some 1;
}

not_there : lookup_node (pos 1) ((pos 9, some 1) ∷ []) ≡ none
unfolding lookup_node lookup_entry
not_there = refl

-- In the second of the two frames.
abbrev tunnel_def : ProtoDef
tunnel_def = record link_def { encap = true }

abbrev in_last_frame : Cursor ℕ
in_last_frame = record {
  node = some 0;
  hdr = 0;
  len = 11;
  frame = 16;
  frame_num = 1;
  nodes = 3;
  state = fresh;
}

frame_overrun_example :
    (c' : Cursor ℕ) × (enter_encap small_parser packet 1 12 tunnel_def in_last_frame fresh ≡ go c')
    × (c'.frame ≡ 0 + 2 * 16)
frame_overrun_example =
    frame_overrun small_parser packet 1 12 11 tunnel_def in_last_frame fresh
      (record { window = refl; small = omega arith; frame = refl; frames = omega arith }) refl refl
      (omega arith) refl
