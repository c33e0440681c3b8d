-- ===== src/Parser/Fast.antt =====
-- The fast path: __xdp2_parse_fast and xdp2_parse_validate_fast of src/lib/xdp2/parser.c.
pub mod Valid
pub mod Depth
pub mod Agree
pub mod Total
use xdp.Base.{
  ℕ, zero, suc, ◌+◌, ◌-◌, ◌%◌, ℤ, pos, Bool, true, false, ◌&&◌, ◌||◌, not, List, [], ◌∷◌, Option,
  none, some, ◌==◌, ltb, leb, ltb_ℤ, if◌then◌else◌, is_set, length, sub_size, as_size, to_s8,
}
use xdp.Parser.Codes.{okay, stop_okay, stop_length, stop_encap_depth}
use xdp.Parser.Types.{
  Packet, Ptr, NodeRef, State, CtrlVar, ProtoDef, ParseOps, DefBody, Body, ParseNode, NodeOps,
  Table, Graph, Config, Parser,
}
use xdp.Parser.Run.{Run, ret, run_extract}
use xdp.Parser.Run
use xdp.Parser.Ctl.{Ctl, go, out, leave, fault, out_of_fuel, ◌>>=◌, or_out}
use xdp.Parser.Next.{Length, good, bad, Next, found, quit, crash}
use xdp.Parser.Lookup.{lookup_node}
use xdp.Parser.Tlvs.{parse_tlvs}
use xdp.Parser.FlagFields.{parse_flag_fields}
use xdp.Parser.Loop.{Cursor, call_handler}

-- The length checks of the fast path: a length below the smallest one of the protocol passes.
unfoldable pub fast_length : ProtoDef → Packet → Ptr → ℕ → Length
fast_length d pkt hdr len = if ltb len d.min_len then bad stop_length else elim d.ops.len [
  | none ↦ good d.min_len
  | some f ↦
      let hlen = f pkt hdr len in
      if ltb len (as_size hlen) then bad stop_length else good (as_size hlen)
]

module _ {M : Type 0} where
  -- The table is looked up wherever there is one, with `next_proto` taken to be set.
  unfoldable pub fast_next : ParseNode M → ProtoDef → Packet → Ptr → Next
  fast_next node d pkt hdr =
      let other : Next = elim node.wildcard_node [
        | none ↦ quit stop_okay
        | some w ↦ found (some w)
      ] in
      elim node.proto_table [
        | none ↦ other
        | some table ↦ elim d.ops.next_proto [
          | none ↦ crash
          | some next ↦
              let type = next pkt hdr in
              if ltb_ℤ type (pos 0)
              then quit type
              else elim (lookup_node type table) [ none ↦ other | some r ↦ found (some r) ]
        ]
      ]

module _ {M : Type 0} (p : Parser M) (pkt : Packet) (depth n : ℕ) where
  -- The `switch`: the protocol is taken to be of the type of the node, and arrays are passed over.
  unfoldable pub fast_body : NodeRef → ProtoDef → Ptr → ℕ → ℕ → State M → Run M
  fast_body r d hdr hlen frame s = elim ((p.graph.node r).body) [
    | Body.plain ↦ ret okay s
    | Body.tlvs tn ↦ parse_tlvs p.graph pkt frame depth n r hdr hlen s
    | Body.flag_fields table ↦ elim (d.body) [
      | DefBody.flag_fields fd ↦ parse_flag_fields pkt frame table fd hdr s
      | _ ↦ Run.fault
    ]
    | Body.array an ↦ ret okay s
  ]

  unfoldable pub fast_process : NodeRef → ProtoDef → ℕ → Cursor M → Ctl M (State M)
  fast_process r d hlen c = do
    let node = p.graph.node r
    let s1 = run_extract node.ops.extract_metadata pkt (some c.hdr) hlen c.frame c.state
    let s2 = call_handler node.ops.handler pkt (some c.hdr) hlen c.frame s1
    or_out c.frame (fast_body r d c.hdr hlen c.frame s2)

  unfoldable pub fast_encap : ProtoDef → Cursor M → State M → Ctl M (Cursor M)
  fast_encap d c s =
      if not d.encap
      then go (record c { state = s })
      else (let encaps = (s.var.encaps + 1) % 256 in
          let s2 = record s { var = record (s.var) { encaps = encaps } } in
          if ltb p.config.max_encaps encaps
          then out stop_encap_depth c.frame s2
          else if ltb c.frame_num p.config.max_frames
          then go (record c {
            frame = c.frame + p.config.frame_size;
            frame_num = c.frame_num + 1;
            state = s2;
          })
          else go (record c { state = s2 }))

  unfoldable pub fast_advance : ProtoDef → ℕ → Option NodeRef → Cursor M → Cursor M
  fast_advance d hlen next c = record c {
    node = next;
    hdr = if d.overlay then c.hdr else c.hdr + hlen;
    len = if d.overlay then c.len else sub_size c.len hlen;
  }

  unfoldable pub fast_proceed : NodeRef → ProtoDef → ℕ → Cursor M → Ctl M (Cursor M)
  fast_proceed r d hlen c = do
    s ← fast_process r d hlen c
    c' ← fast_encap d c s
    elim (fast_next (p.graph.node r) d pkt c.hdr) [
      | found next ↦ go (fast_advance d hlen next c')
      | quit code ↦ out code c'.frame c'.state
      | crash ↦ fault
    ]

  unfoldable pub fast_round : Cursor M → Ctl M (Cursor M)
  fast_round c = elim c.node [
    | none ↦ fault
    | some r ↦ elim ((p.graph.node r).proto_def) [
      | none ↦ fault
      | some d ↦ elim (fast_length d pkt c.hdr c.len) [
        | bad code ↦ out code c.frame c.state
        | good hlen ↦ fast_proceed r d hlen c
      ]
    ]
  ]

  -- A code is returned as it stands: there is no label `out`, and no limit on the nodes.
  unfoldable pub fast_loop : ℕ → Cursor M → Run M
  fast_loop zero c = Run.out_of_fuel
  fast_loop (suc fuel) c = elim (fast_round c) [
    | go c' ↦ fast_loop fuel c'
    | out code frame s ↦ ret code s
    | leave code s ↦ ret code s
    | fault ↦ Run.fault
    | out_of_fuel ↦ Run.out_of_fuel
  ]

  -- __xdp2_parse_fast; the count of nodes of the cursor is not used.
  unfoldable pub parse_fast : ℕ → Ptr → ℕ → State M → Run M
  parse_fast fuel hdr len s = fast_loop fuel (record {
    node = some p.root_node;
    hdr = hdr;
    len = len;
    frame = p.config.metameta_size;
    frame_num = 0;
    nodes = 0;
    state = s;
  })

abbrev pub num_fast_nodes : ℕ
num_fast_nodes = 64

unfoldable pub is_seen : NodeRef → List NodeRef → Bool
is_seen r [] = false
is_seen r (x ∷ xs) = if x == r then true else is_seen r xs

-- The tests of validate_parse_fast_node on one node.
unfoldable pub fast_node : {M : Type 0} → ParseNode M → Bool
fast_node node = elim node.proto_def [
  | none ↦ false
  | some d ↦
      not (is_set node.post_handler) && not (is_set d.ops.next_proto_keyin) && elim node.body [
        | Body.tlvs tn ↦ elim (d.body) [ DefBody.tlvs td ↦ true | _ ↦ false ]
        | Body.flag_fields t ↦ elim (d.body) [ DefBody.flag_fields fd ↦ true | _ ↦ false ]
        | _ ↦ true
      ]
]

-- The entries of the table of a node.
unfoldable pub entries : {M : Type 0} → ParseNode M → Table NodeRef
entries node = elim node.proto_table [ none ↦ [] | some table ↦ table ]

-- The loop of validate_parse_fast_node over the entries of a table.
unfoldable pub validate_entries :
    (List NodeRef → NodeRef → Bool × List NodeRef)
    → List NodeRef
    → Table NodeRef
    → Bool × List NodeRef
validate_entries visit seen [] = (true, seen)
validate_entries visit seen ((key, none) ∷ rest) = validate_entries visit seen rest
validate_entries visit seen ((key, some r) ∷ rest) =
    let (ok, seen') = visit seen r in
    elim ok [ true ↦ validate_entries visit seen' rest | false ↦ (false, seen') ]

-- validate_parse_fast_node. The list stands for the array `fast_nodes`, whose order nothing reads; it
-- is returned since the C code writes it in place.
unfoldable pub validate_node :
    {M : Type 0} → Graph M → ℕ → List NodeRef → NodeRef → Bool × List NodeRef
validate_node g zero seen r = (false, seen)
validate_node g (suc fuel) seen r = elim (is_seen r seen) [
  | true ↦ (true, seen)
  | false ↦ elim (leb num_fast_nodes (length seen)) [
    | true ↦ (false, seen)
    | false ↦ elim (fast_node (g.node r)) [
      | false ↦ (false, r ∷ seen)
      | true ↦ validate_entries (validate_node g fuel) (r ∷ seen) (entries (g.node r))
    ]
  ]
]

-- xdp2_parse_validate_fast, where its `calloc` succeeds: 64 nodes nest to 65 calls at most.
unfoldable pub validate_fast : {M : Type 0} → Parser M → Bool
validate_fast p =
    let cfg = p.config in
    if is_set cfg.okay_node || is_set cfg.fail_node || is_set cfg.atencap_node
    then false
    else if not (cfg.num_counters == 0) || not (cfg.num_keys == 0)
    then false
    else (validate_node p.graph (num_fast_nodes + 1) [] p.root_node).0
