-- ===== src/Parser/Tests/Fields.antt =====
-- The theorems on flag-fields and arrays at concrete inputs.
use xdp.Base.{ℕ, ◌+◌, ◌≤◌, ◌<◌, ◌^◌, to_ssize, pos, [], ◌∷◌, some, none, ◌≡◌, refl, arith}
use xdp.Parser.Codes.{okay}
use xdp.Parser.Types.{FlagField, FlagFieldsDef, ArrayDef, ArrayNode}
use xdp.Parser.Run.{ret}
use xdp.Parser.FlagFields.{
  is_present, raw_offset, offset_loop, field_offset, fields_length, parse_flag_fields,
}
use xdp.Parser.FlagFields.Layout.{
  present_size, fields_disjoint, parse_flag_fields-running, visit_running,
}
use xdp.Parser.Tlvs.Scan.{play}
use xdp.Parser.Array.{array_loop, visit_element}
use xdp.Parser.Array.Stride.{array_scan, array_loop-scan}
use xdp.Parser.Tests.{fresh, packet, add_length}

-- The fields of a header with a checksum, a key and a sequence number.
abbrev checksum : FlagField
checksum = record { flag = 1; mask = 0; size = 4 }

abbrev key : FlagField
key = record { flag = 2; mask = 0; size = 4 }

abbrev sequence : FlagField
sequence = record { flag = 4; mask = 6; size = 8 }

abbrev optional : FlagFieldsDef
optional = record {
  get_flags = λ pkt hdr. 5;
  start_fields_offset = λ pkt hdr. 2;
  fields = checksum ∷ key ∷ sequence ∷ [];
}

abbrev pair : ArrayDef
pair = record {
  num_els = λ pkt hdr hlen. 3;
  el_type = none;
  start_offset = λ pkt hdr. 1;
  el_length = 2;
}

abbrev pairs : ArrayNode ℕ
pairs = record {
  array_proto_table = some ((pos 0, some add_length) ∷ []);
  unknown_array_type_ret = okay;
  array_wildcard_node = none;
}

small : present_size 5 (checksum ∷ key ∷ sequence ∷ []) < 2 ^ 63
unfolding present_size is_present
small = omega arith

fields_disjoint_example : (0 + 4 ≤ 4) × (4 + 8 ≤ fields_length 5 (checksum ∷ key ∷ sequence ∷ []))
unfolding field_offset is_present raw_offset to_ssize offset_loop
fields_disjoint_example = fields_disjoint 5 [] checksum (key ∷ []) sequence [] 0 4 small refl refl

parse_flag_fields-running_example :
    parse_flag_fields packet 0 ((pos 2, some add_length) ∷ []) optional 0 fresh
    ≡ ret okay (
        visit_running packet 0
          ((pos 2, some add_length) ∷ [])
          5
          2
          0
          0
          (checksum ∷ key ∷ sequence ∷ [])
          fresh)
parse_flag_fields-running_example =
    parse_flag_fields-running packet 0 ((pos 2, some add_length) ∷ []) optional 0 fresh small

array_loop-scan_example :
    array_loop packet 0 3 pairs pair 1 6 fresh
    ≡ play (visit_element packet 0 pairs) (array_scan 3 pair packet 1 6) fresh
array_loop-scan_example = array_loop-scan packet 0 pairs pair 3 1 6 fresh
