-- ===== src/Parser/Tlvs.antt =====
-- TLVs: xdp2_parse_one_tlv and xdp2_parse_tlvs of src/lib/xdp2/parser.c.
-- `fuel` bounds the rounds of each loop and `depth` how deep TLVs nest.

pub mod Scan
pub mod Window
pub mod Total
pub mod Vars
pub mod Overlay
use xdp.Base.{
  to_int, ℕ, zero, suc, ◌+◌, ◌%◌, ◌^◌, ℤ, pos, Bool, true, false, ◌&&◌, ◌||◌, not, Option, none,
  some, ltb, ◌==◌, if◌then◌else◌, get_elem?, sub_size, as_size, ◌≡◌, refl,
}
use xdp.Parser.Codes.{okay, stop_tlv_length, stop_option_limit}
use xdp.Parser.Types.{
  Packet, Ptr, NodeRef, TlvRef, State, TlvsDef, TlvDef, DefBody, Body, TlvNode, TlvsNode, Graph,
}
use xdp.Parser.Run.{Run, ret, fault, out_of_fuel, ◌>>=◌, on_return, run_extract, run_handler}
use xdp.Parser.Lookup.{lookup_tlv_node, lookup_opt}

-- `proto_tlv_def && tlv_len < proto_tlv_def->min_len`
unfoldable pub too_short : Option TlvDef → ℕ → Bool
too_short none tlv_len = false
too_short (some d) tlv_len = ltb tlv_len d.min_len

-- `ctrl->var.tlv_levels++` and `--` on a `__u8`
unfoldable pub enter_level : {M : Type 0} → State M → State M
enter_level s = record s { var = record (s.var) { tlv_levels = (s.var.tlv_levels + 1) % 256 } }

unfoldable pub leave_level : {M : Type 0} → State M → State M
leave_level s = record s { var = record (s.var) { tlv_levels = (s.var.tlv_levels + 255) % 256 } }

-- `nested_offset ? nested_offset(hdr, tlv_len) : 0`
unfoldable pub nested_start : TlvDef → Packet → Ptr → ℕ → ℕ
nested_start d pkt hdr tlv_len = elim d.nested_offset [ none ↦ 0 | some f ↦ f pkt hdr tlv_len ]

-- `overlay_type ? overlay_type(hdr) : tlv_len`
unfoldable pub overlay_key : TlvDef → Packet → Ptr → ℕ → ℤ
overlay_key d pkt hdr tlv_len = elim d.overlay_type [ none ↦ to_int tlv_len | some f ↦ f pkt hdr ]

-- What the end of a round of `parse_again` does.
pub data After : Type 0 where
  finish : ℤ → After
  again : TlvRef → After
  crash : After

-- To split on the end of a round with the equation kept.
pub data AfterCase (a : After) : Type 0 where
  ends : (code : ℤ) → a ≡ finish code → AfterCase a
  goes : (next : TlvRef) → a ≡ again next → AfterCase a
  crashes : a ≡ crash → AfterCase a

pub after_cases : (a : After) → AfterCase a
after_cases (finish code) = ends code refl
after_cases (again next) = goes next refl
after_cases crash = crashes refl

-- The part of xdp2_parse_one_tlv behind `if (!parse_tlv_node->overlay_table)`.
unfoldable pub overlay_next : {M : Type 0} → TlvNode M → Option TlvDef → Packet → Ptr → ℕ → After
overlay_next t def pkt hdr tlv_len = elim t.overlay_table [
  | none ↦ finish okay
  | some table ↦ elim def [
    | none ↦ crash
    | some d ↦ elim (lookup_tlv_node (overlay_key d pkt hdr tlv_len) table) [
      | some next ↦ again next
      | none ↦ elim t.overlay_wildcard_node [
        | some next ↦ again next
        | none ↦ finish t.unknown_overlay_ret
      ]
    ]
  ]
]

-- One byte of the list: is it enabled, and is `*cp` the value? `none` is a read outside the packet.
unfoldable pub is_byte : Bool → ℕ → Packet → Ptr → Option Bool
is_byte false val pkt cp = some false
is_byte true val pkt cp = elim (get_elem? pkt cp) [ none ↦ none | some b ↦ some (b == val) ]

-- The length of the TLV at `cp`, or `none` for `XDP2_STOP_TLV_LENGTH`.
unfoldable pub tlv_length : TlvsDef → Packet → Ptr → ℕ → Option ℕ
tlv_length d pkt cp hlen = if ltb hlen d.min_len then none else elim d.len [
  | none ↦ some d.min_len
  | some f ↦ let n = as_size (f pkt cp hlen) in if (n == 0) || ltb hlen n then none else some n
]

-- `max_tlvs && tlv_cnt > max_tlvs`
unfoldable pub over_limit : ℕ → ℕ → Bool
over_limit max_tlvs tlv_cnt = not (max_tlvs == 0) && ltb max_tlvs tlv_cnt

module _ {M : Type 0} (g : Graph M) (pkt : Packet) (frame : ℕ) where
  -- `xdp2_parse_tlvs` on a nested node.
  abbrev pub Nested : Type 0
  Nested = NodeRef → Ptr → ℕ → State M → Run M

  -- The extract and the handler of one TLV node.
  unfoldable pub run_tlv_ops : TlvNode M → Ptr → ℕ → State M → Run M
  run_tlv_ops t hdr tlv_len s =
      let s' = run_extract t.tlv_ops.extract_metadata pkt (some hdr) tlv_len frame s in
      let (code, s'') = run_handler t.tlv_ops.handler pkt (some hdr) tlv_len frame s' in
      ret code s''

  -- The nested TLVs of one TLV node.
  unfoldable pub run_nested : Nested → TlvNode M → Option TlvDef → Ptr → ℕ → State M → Run M
  run_nested nested t def hdr tlv_len s = elim t.nested_node [
    | none ↦ ret okay s
    | some r ↦ elim def [
      | none ↦ fault
      | some d ↦
          let off = nested_start d pkt hdr tlv_len in
          on_return (nested r (hdr + off) (sub_size tlv_len off) (enter_level s))
            λ code s'. ret code (leave_level s')
    ]
  ]

  -- xdp2_parse_one_tlv. `def` is the definition of the node that it was called with: the variable
  -- `proto_tlv_def` keeps it when `goto parse_again` turns to another node.
  unfoldable pub parse_again :
      ℕ → Nested → TlvsNode → Option TlvDef → TlvRef → Ptr → ℕ → State M → Run M
  parse_again zero nested tn def t hdr tlv_len s = out_of_fuel
  parse_again (suc fuel) nested tn def t hdr tlv_len s = elim (too_short def tlv_len) [
    | true ↦ elim tn.tlv_wildcard_node [
      | none ↦ ret tn.unknown_tlv_type_ret s
      | some w ↦ parse_again fuel nested tn def w hdr tlv_len s
    ]
    | false ↦ do
      s ← run_tlv_ops (g.tlv_node t) hdr tlv_len s
      s ← run_nested nested (g.tlv_node t) def hdr tlv_len s
      elim (overlay_next (g.tlv_node t) def pkt hdr tlv_len) [
        | finish code ↦ ret code s
        | again next ↦ parse_again fuel nested tn def next hdr tlv_len s
        | crash ↦ fault
      ]
  ]

  unfoldable pub parse_one_tlv : ℕ → Nested → TlvsNode → TlvRef → Ptr → ℕ → State M → Run M
  parse_one_tlv fuel nested tn t hdr tlv_len s =
      parse_again fuel nested tn (g.tlv_node t).proto_tlv_def t hdr tlv_len s

  -- From "Get TLV node" to the end of the round: the node of the table, the wildcard, or the code
  -- for an unknown TLV.
  unfoldable pub dispatch_tlv : ℕ → Nested → TlvsNode → ℤ → Ptr → ℕ → State M → Run M
  dispatch_tlv fuel nested tn type cp tlv_len s = elim (lookup_opt type tn.tlv_proto_table) [
    | some t ↦ parse_one_tlv fuel nested tn t cp tlv_len s
    | none ↦ elim tn.tlv_wildcard_node [
      | some w ↦ parse_one_tlv fuel nested tn w cp tlv_len s
      | none ↦ ret tn.unknown_tlv_type_ret s
    ]
  ]

  -- The loop of xdp2_parse_tlvs; `n` bounds the rounds of parse_one_tlv. `tlv_cnt` is unsigned.
  unfoldable pub tlvs_loop : ℕ → ℕ → Nested → TlvsNode → TlvsDef → Ptr → ℕ → ℕ → State M → Run M
  tlvs_loop zero n nested tn d cp hlen cnt s = out_of_fuel
  tlvs_loop (suc fuel) n nested tn d cp hlen cnt s = elim (hlen == 0) [
    | true ↦ ret okay s
    | false ↦ elim (is_byte d.pad1_enable d.pad1_val pkt cp) [
      | none ↦ fault
      | some true ↦ tlvs_loop fuel n nested tn d (cp + 1) (sub_size hlen 1) cnt s
      | some false ↦ elim (is_byte d.eol_enable d.eol_val pkt cp) [
        | none ↦ fault
        | some true ↦ ret okay s
        | some false ↦
            let cnt' = (cnt + 1) % 2 ^ 32 in
            elim (over_limit tn.max_tlvs cnt') [
              | true ↦ ret stop_option_limit s
              | false ↦ elim (tlv_length d pkt cp hlen) [
                | none ↦ ret stop_tlv_length s
                | some tlv_len ↦ do
                  s ← dispatch_tlv n nested tn (d.type_of pkt cp) cp tlv_len s
                  tlvs_loop fuel n nested tn d (cp + tlv_len) (sub_size hlen tlv_len) cnt' s
              ]
            ]
      ]
    ]
  ]

  -- xdp2_parse_tlvs: the cast of the node and of its definition, then the loop.
  unfoldable pub parse_tlvs : ℕ → ℕ → NodeRef → Ptr → ℕ → State M → Run M
  parse_tlvs zero n r hdr hlen s = out_of_fuel
  parse_tlvs (suc depth) n r hdr hlen s = elim ((g.node r).body) [
    | Body.tlvs tn ↦ elim ((g.node r).proto_def) [
      | none ↦ fault
      | some def ↦ elim (def.body) [
        | DefBody.tlvs d ↦
            let off = d.start_offset pkt hdr in
            tlvs_loop n n (parse_tlvs depth n) tn d (hdr + off) (sub_size hlen off) 0 s
        | _ ↦ fault
      ]
    ]
    | _ ↦ fault
  ]
