-- ===== src/Parser/Tests.antt =====
-- A parser of two headers over a packet, and tests of the code on it. The child modules apply the
-- theorems to such inputs.
mod Walks
mod Fields
mod Rounds
mod Quick
use xdp.Base.{
  ℕ, zero, suc, ◌+◌, ◌*◌, ◌≤◌, ◌<◌, ◌^◌, ℤ, pos, negsuc, true, false, List, [], ◌∷◌, ◌++◌, Option,
  none, some, ◌≡◌, refl, get_or, length, sub_size, to_s8, as_size, inl, inr, arith,
}
use xdp.Parser.Codes.{okay, stop_okay, stop_length}
use xdp.Parser.Types.{
  Packet, Ptr, NodeRef, TlvRef, CtrlVar, Store, State, ParseOps, TlvsDef, TlvDef, FlagField,
  ArrayDef, DefBody, ProtoDef, NodeOps, TlvNode, TlvsNode, ArrayNode, Body, ParseNode, Graph,
  Config, Parser,
}
use xdp.Parser.Run.{Run, ret, run_extract, run_handler}
use xdp.Parser.Lookup.{lookup_entry, lookup_node, lookup_tlv_node, lookup_opt}
use xdp.Parser.Tlvs.{
  parse_tlvs, tlvs_loop, dispatch_tlv, parse_one_tlv, parse_again, run_tlv_ops, run_nested,
  overlay_next, too_short, is_byte, tlv_length, over_limit,
}
use xdp.Parser.Next.{check_length, is_leaf, find_next, table_next, wildcard_next, lookup_next}
use xdp.Parser.Loop.{
  parse, parse_loop, round, start, proceed, process, parse_body, enter_encap, advance, finish,
  call_handler, set_last_node, run_exit_node,
}

abbrev byte : Packet → Ptr → ℕ
byte pkt i = get_or pkt i 0

abbrev no_ops : NodeOps ℕ
no_ops = record { extract_metadata = none; handler = none }

-- Metadata is a number, to which each TLV with a node adds its length.
abbrev pub add_length : NodeOps ℕ
add_length = record {
  extract_metadata =
      some λ pkt hdr len frame var store. record store { metadata = store.metadata + len };
  handler = none;
}

abbrev pub link_def : ProtoDef
link_def = record {
  body = DefBody.plain;
  encap = false;
  overlay = false;
  min_len = 2;
  ops = record {
    len = none;
    next_proto = some λ pkt hdr. pos (byte pkt hdr);
    next_proto_keyin = none;
  };
}

abbrev pub link_node : ParseNode ℕ
link_node = record {
  body = Body.plain;
  unknown_ret = negsuc 13;
  key_sel = 0;
  zero_len_ok = false;
  proto_def = some link_def;
  ops = no_ops;
  post_handler = none;
  proto_table = some ((pos 1, some 1) ∷ []);
  wildcard_node = none;
}

-- The second header: its length in its first byte, then TLVs with a type and a length byte; 0 is
-- one byte of padding and 1 ends the list.
abbrev pub option_tlvs : TlvsDef
option_tlvs = record {
  len = some λ pkt cp hlen. pos (byte pkt (cp + 1));
  type_of = λ pkt cp. pos (byte pkt cp);
  start_offset = λ pkt hdr. 1;
  pad1_val = 0;
  eol_val = 1;
  pad1_enable = true;
  eol_enable = true;
  min_len = 2;
}

abbrev pub option_def : ProtoDef
option_def = record {
  body = DefBody.tlvs option_tlvs;
  encap = false;
  overlay = false;
  min_len = 1;
  ops = record {
    len = some λ pkt hdr len. pos (byte pkt hdr);
    next_proto = none;
    next_proto_keyin = none;
  };
}

abbrev pub option_list : TlvsNode
option_list = record {
  tlv_proto_table = some ((pos 5, some 0) ∷ []);
  max_tlvs = 8;
  unknown_tlv_type_ret = okay;
  tlv_wildcard_node = none;
}

abbrev pub option_node : ParseNode ℕ
option_node = record {
  body = Body.tlvs option_list;
  unknown_ret = negsuc 13;
  key_sel = 0;
  zero_len_ok = false;
  proto_def = some option_def;
  ops = no_ops;
  post_handler = none;
  proto_table = none;
  wildcard_node = none;
}

abbrev pub option_tlv : TlvNode ℕ
option_tlv = record {
  proto_tlv_def = some (record { min_len = 3; overlay_type = none; nested_offset = none });
  tlv_ops = add_length;
  overlay_table = none;
  overlay_wildcard_node = none;
  nested_node = none;
  unknown_overlay_ret = okay;
}

abbrev node_at : NodeRef → ParseNode ℕ
node_at zero = link_node
node_at (suc r) = option_node

abbrev pub small_parser : Parser ℕ
small_parser = record {
  config = record {
    max_nodes = 4;
    max_encaps = 2;
    max_frames = 2;
    metameta_size = 0;
    frame_size = 16;
    num_counters = 0;
    num_keys = 0;
    okay_node = none;
    fail_node = none;
    atencap_node = none;
  };
  root_node = 0;
  graph = record { node = node_at; tlv_node = λ t. option_tlv };
}

abbrev pub fresh : State ℕ
fresh = record {
  var = record {
    last_node = none;
    ret_code = okay;
    encaps = 0;
    node_cnt = 0;
    tlv_levels = 0;
    pkt_csum = 0;
    hdr_csum = 0;
  };
  store = record { counters = λ i. 0; keys = λ i. 0; metadata = 0 };
}

-- The first header, then 9 bytes of the second: a pad, a TLV of type 5, one of type 7, the end.
abbrev pub packet : Packet
packet = 1 ∷ 0 ∷ 9 ∷ 0 ∷ 5 ∷ 3 ∷ 0 ∷ 7 ∷ 2 ∷ 1 ∷ 0 ∷ []

abbrev parsed : State ℕ
parsed = record {
  var = record (fresh.var) { last_node = some 1; ret_code = stop_okay };
  store = record (fresh.store) { metadata = 3 };
}

-- `parse` with all that it calls opened.
run : Packet → State ℕ → Run ℕ
unfolding parse parse_loop round start proceed process parse_body enter_encap advance finish
    call_handler set_last_node run_exit_node check_length is_leaf find_next table_next wildcard_next
    lookup_next lookup_node lookup_tlv_node lookup_opt lookup_entry run_extract run_handler
    parse_tlvs tlvs_loop dispatch_tlv parse_one_tlv parse_again run_tlv_ops run_nested overlay_next
    too_short is_byte tlv_length over_limit sub_size as_size to_s8
run pkt s = parse small_parser pkt 2 20 0 (length pkt) s

-- The second header is reached, its known TLV is handled and the unknown one passed over.
run-packet : run packet fresh ≡ ret stop_okay parsed
unfolding run
run-packet = refl

-- A second header that is longer than the packet.
run_short :
    run (1 ∷ 0 ∷ 9 ∷ []) fresh
    ≡ ret stop_length
        (record fresh { var = record (fresh.var) { last_node = some 1; ret_code = stop_length } })
unfolding run
run_short = refl
