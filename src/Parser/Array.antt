-- ===== src/Parser/Array.antt =====
-- Arrays: xdp2_parse_array of src/lib/xdp2/parser.c.
pub mod Stride
use xdp.Base.{ℕ, zero, suc, ◌+◌, ℤ, pos, true, false, Option, none, some, ◌==◌, ltb_ℤ, sub_size}
use xdp.Parser.Codes.{okay, stop_length}
use xdp.Parser.Types.{Packet, Ptr, State, ArrayDef, ArrayNode, NodeOps}
use xdp.Parser.Run.{Run, ret, ◌>>=◌, run_extract, run_handler}
use xdp.Parser.Lookup.{lookup_opt}

-- `el_type ? el_type(cp) : 0`
unfoldable pub element_type : ArrayDef → Packet → Ptr → ℤ
element_type d pkt cp = elim d.el_type [ none ↦ pos 0 | some f ↦ f pkt cp ]

module _ {M : Type 0} (pkt : Packet) (frame : ℕ) where
  -- The extract and the handler of one element. The code of the handler is dropped.
  unfoldable pub run_element : NodeOps M → Ptr → ℕ → State M → State M
  run_element ops cp el_length s =
      let s' = run_extract ops.extract_metadata pkt (some cp) el_length frame s in
      (run_handler ops.handler pkt (some cp) el_length frame s').1

  -- From the lookup to the end of the round: the node of the table, the wildcard, or the code for an
  -- unknown element.
  unfoldable pub visit_element : ArrayNode M → ℤ → Ptr → ℕ → State M → Run M
  visit_element an type cp el_length s = elim (lookup_opt type an.array_proto_table) [
    | some ops ↦ ret okay (run_element ops cp el_length s)
    | none ↦ elim an.array_wildcard_node [
      | some ops ↦ ret okay (run_element ops cp el_length s)
      | none ↦ ret an.unknown_array_type_ret s
    ]
  ]

  -- The loop of xdp2_parse_array, with the elements that are left, `num_els - i`.
  unfoldable pub array_loop : ℕ → ArrayNode M → ArrayDef → Ptr → ℕ → State M → Run M
  array_loop zero an d cp hlen s = ret okay s
  array_loop (suc left) an d cp hlen s = elim (hlen == 0) [
    | true ↦ ret stop_length s
    | false ↦
        let type = element_type d pkt cp in
        elim (ltb_ℤ type (pos 0)) [
          | true ↦ ret type s
          | false ↦ do
            s ← visit_element an type cp d.el_length s
            array_loop left an d (cp + d.el_length) (sub_size hlen d.el_length) s
        ]
  ]

  -- xdp2_parse_array
  unfoldable pub parse_array : ArrayNode M → ArrayDef → Ptr → ℕ → State M → Run M
  parse_array an d hdr hlen s =
      let off = d.start_offset pkt hdr in
      let hlen' = sub_size hlen off in array_loop (d.num_els pkt hdr hlen') an d (hdr + off) hlen' s
