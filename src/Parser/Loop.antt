-- ===== src/Parser/Loop.antt =====
-- The main loop of the parser: __xdp2_parse of src/lib/xdp2/parser.c and
-- __xdp2_parse_run_exit_node of src/include/xdp2/parser.h.
-- `depth` and `n` are those of `parse_tlvs`.
pub mod Window
pub mod Total
pub mod Faults
pub mod Exit
pub mod Fuel
use xdp.Base.{
  ℕ, zero, suc, ◌+◌, ◌-◌, ◌%◌, ℤ, pos, Bool, true, false, ◌&&◌, ◌||◌, not, Option, none, some, ◌==◌,
  ltb, leb, ltb_ℤ, if◌then◌else◌, is_set, sub_size, as_size, to_s8,
}
use xdp.Parser.Codes.{okay, stop_okay, stop_length, stop_encap_depth, stop_max_nodes, code_is_okay}
use xdp.Parser.Types.{
  Packet, Ptr, NodeRef, State, Store, CtrlVar, ProtoDef, DefBody, Body, ParseNode, Config, Parser,
  Handler,
}
use xdp.Parser.Run.{Run, ret, run_extract, run_handler}
use xdp.Parser.Run
use xdp.Parser.Ctl.{Ctl, go, out, leave, fault, out_of_fuel, ◌>>=◌, or_out}
use xdp.Parser.Next.{good, bad, check_length, found, quit, crash, find_next, is_leaf}
use xdp.Parser.Tlvs.{parse_tlvs}
use xdp.Parser.FlagFields.{parse_flag_fields}
use xdp.Parser.Array.{parse_array}

-- The variables of the loop; the node is null where the code loses it.
pub record Cursor (M : Type 0) : Type 0 where
  pub node : Option NodeRef
  pub hdr : Ptr
  pub len : ℕ
  pub frame : ℕ
  pub frame_num : ℕ
  pub nodes : ℕ
  pub state : State M

module _ {M : Type 0} where
  -- A handler whose code is dropped.
  unfoldable pub call_handler : Option (Handler M) → Packet → Option Ptr → ℕ → ℕ → State M → State M
  call_handler h pkt hdr hlen frame s = (run_handler h pkt hdr hlen frame s).1

  unfoldable pub set_last_node : NodeRef → State M → State M
  set_last_node r s = record s { var = record (s.var) { last_node = some r } }

module _ {M : Type 0} (p : Parser M) (pkt : Packet) (depth n : ℕ) where
  -- __xdp2_parse_run_exit_node: the header is null. It returns 0.
  unfoldable pub run_exit_node : NodeRef → ℕ → State M → State M
  run_exit_node r frame s =
      let ops = (p.graph.node r).ops in
      call_handler ops.handler pkt none 0 frame
        (run_extract ops.extract_metadata pkt none 0 frame s)

  -- The `switch` over the type of the node: a node over a protocol of another type is passed over.
  unfoldable pub parse_body : NodeRef → ProtoDef → Ptr → ℕ → ℕ → State M → Run M
  parse_body r d hdr hlen frame s = elim ((p.graph.node r).body) [
    | Body.plain ↦ ret okay s
    | Body.tlvs tn ↦ elim (d.body) [
      | DefBody.tlvs td ↦ parse_tlvs p.graph pkt frame depth n r hdr hlen s
      | _ ↦ ret okay s
    ]
    | Body.flag_fields table ↦ elim (d.body) [
      | DefBody.flag_fields fd ↦ parse_flag_fields pkt frame table fd hdr s
      | _ ↦ ret okay s
    ]
    | Body.array an ↦ elim (d.body) [
      | DefBody.array ad ↦ parse_array pkt frame an ad hdr hlen s
      | _ ↦ ret okay s
    ]
  ]

  -- "Callback processing order": the metadata, the handler, what the node holds, the post handler.
  unfoldable pub process : NodeRef → ProtoDef → ℕ → Cursor M → Ctl M (State M)
  process r d hlen c = do
    let node = p.graph.node r
    let s1 =
        run_extract node.ops.extract_metadata pkt (some c.hdr) hlen c.frame
          (set_last_node r c.state)
    let s2 = call_handler node.ops.handler pkt (some c.hdr) hlen c.frame s1
    s3 ← or_out c.frame (parse_body r d c.hdr hlen c.frame s2)
    go (call_handler node.post_handler pkt (some c.hdr) hlen c.frame s3)

  -- The part under `if (proto_def->encap)`: the frame, its number and the state behind it.
  -- `ctrl->var.encaps` is a `__u8`.
  unfoldable pub enter_encap : ProtoDef → Cursor M → State M → Ctl M (Cursor M)
  enter_encap d c s =
      if not d.encap
      then go (record c { state = s })
      else (let s1 : State M = elim p.config.atencap_node [
        | none ↦ s
        | some r ↦ run_exit_node r c.frame s
      ] in
          let encaps = (s1.var.encaps + 1) % 256 in
          let s2 = record s1 { var = record (s1.var) { encaps = encaps } } in
          if ltb p.config.max_encaps encaps
          then out stop_encap_depth c.frame s2
          else if ltb c.frame_num p.config.max_frames
          then go (record c {
            frame = c.frame + p.config.frame_size;
            frame_num = c.frame_num + 1;
            state = s2;
          })
          else go (record c { state = s2 }))

  -- From the label `found_next` to the end of the round.
  unfoldable pub advance : ParseNode M → ProtoDef → ℕ → Option NodeRef → Cursor M → Ctl M (Cursor M)
  advance node d hlen next c =
      let hdr = if d.overlay then c.hdr else c.hdr + hlen in
      let len = if d.overlay then c.len else sub_size c.len hlen in
      if (len == 0) && node.zero_len_ok
      then out stop_okay c.frame c.state
      else if c.nodes == 0
      then leave stop_max_nodes c.state
      else go (record c { node = next; hdr = hdr; len = len; nodes = c.nodes - 1 })

  -- One round of the loop, behind the length checks.
  unfoldable pub proceed : NodeRef → ProtoDef → ℕ → Cursor M → Ctl M (Cursor M)
  proceed r d hlen c = do
    let node = p.graph.node r
    s ← process r d hlen c
    if is_leaf node then out stop_okay c.frame s else do
      c' ← enter_encap d c s
      elim (find_next node d p.config.num_keys pkt c.hdr c'.state.store) [
        | found next ↦ advance node d hlen next c'
        | quit code ↦ out code c'.frame c'.state
        | crash ↦ fault
      ]

  unfoldable pub round : Cursor M → Ctl M (Cursor M)
  round c = elim c.node [
    | none ↦ fault
    | some r ↦ elim ((p.graph.node r).proto_def) [
      | none ↦ fault
      | some d ↦ elim (check_length d pkt c.hdr c.len) [
        | bad code ↦ out code c.frame (set_last_node r c.state)
        | good hlen ↦ proceed r d hlen c
      ]
    ]
  ]

  -- The label `out`.
  unfoldable pub finish : ℤ → ℕ → State M → Run M
  finish code frame s =
      let s1 = record s { var = record (s.var) { ret_code = to_s8 code } } in
      let exit = if code_is_okay code then p.config.okay_node else p.config.fail_node in
      ret code (elim exit [ none ↦ s1 | some r ↦ run_exit_node r frame s1 ])

  unfoldable pub parse_loop : ℕ → Cursor M → Run M
  parse_loop zero c = Run.out_of_fuel
  parse_loop (suc fuel) c = elim (round c) [
    | go c' ↦ parse_loop fuel c'
    | out code frame s ↦ finish code frame s
    | leave code s ↦ ret code s
    | fault ↦ Run.fault
    | out_of_fuel ↦ Run.out_of_fuel
  ]

  unfoldable pub start : Ptr → ℕ → State M → Cursor M
  start hdr len s = record {
    node = some p.root_node;
    hdr = hdr;
    len = len;
    frame = p.config.metameta_size;
    frame_num = 0;
    nodes = p.config.max_nodes;
    state = s;
  }

  -- __xdp2_parse: `max_nodes` further nodes behind the root are all that the loop visits.
  unfoldable pub parse : Ptr → ℕ → State M → Run M
  parse hdr len s = parse_loop (p.config.max_nodes + 1) (start hdr len s)
