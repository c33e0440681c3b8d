-- ===== src/Parser/Codes.antt =====
-- The return codes of src/include/xdp2/parser_types.h, as the `int`s that they are.
use xdp.Base.{ℤ, pos, negsuc, Bool, ◌||◌, ◌==ℤ◌}

abbrev pub okay : ℤ
okay = pos 0

abbrev pub stop_okay : ℤ
stop_okay = negsuc 3

abbrev pub stop_fail : ℤ
stop_fail = negsuc 11

abbrev pub stop_length : ℤ
stop_length = negsuc 12

abbrev pub stop_unknown_proto : ℤ
stop_unknown_proto = negsuc 13

abbrev pub stop_encap_depth : ℤ
stop_encap_depth = negsuc 14

abbrev pub stop_tlv_length : ℤ
stop_tlv_length = negsuc 16

abbrev pub stop_option_limit : ℤ
stop_option_limit = negsuc 21

abbrev pub stop_max_nodes : ℤ
stop_max_nodes = negsuc 22

-- XDP2_CODE_IS_OKAY
abbrev pub code_is_okay : ℤ → Bool
code_is_okay code = (code ==ℤ okay) || (code ==ℤ stop_okay)
