-- ===== src/Parser/Loop/Total.antt =====
-- __xdp2_parse on a graph that is in order: it returns a code for every packet.
use xdp.Base.{
  ℕ, zero, suc, ◌+◌, ◌≤◌, ◌<◌, ℤ, Option, none, some, ◌≡◌, ◌≢◌, ◌⊎◌, refl, length, size_mod,
  Bool-cases, Option-cases, inl, inr, arith,
}
use xdp.Parser.Types.{
  Packet, Ptr, NodeRef, TlvRef, State, Store, ProtoDef, DefBody, Body, ParseNode, TlvsDef, TlvsNode,
  Parser,
}
use xdp.Parser.Run.{Run, Returns}
use xdp.Parser.Ctl.{
  or_out, Ends, >>=-Ends, ctl_cases, is_go, is_out, is_leave, is_fault, is_out_of_fuel,
}
use xdp.Parser.Next.{
  check_length, find_next, table_next, wildcard_next, lookup_next, is_leaf, length_cases, is_good,
  is_bad, next_cases, is_found, is_quit, is_crash, crash, found,
}
use xdp.Parser.Tlvs.Total.{TlvsWellFormed, IsTlvs, parse_tlvs-Returns}
use xdp.Parser.Tlvs.Window.{Progresses}
use xdp.Parser.FlagFields.{parse_flag_fields}
use xdp.Parser.Array.Stride.{parse_array-Returns}
use xdp.Parser.Loop.{
  Cursor, parse_body, process, enter_encap, advance, proceed, round, finish, parse_loop, start,
  parse,
}
use xdp.Parser.Loop.Window.{InBounds, check_length_good, round-InBounds, start-InBounds}

-- What a parser has to meet: its TLVs are in order, every node has a definition, a node that takes a
-- key names one that is there, a wildcard node stands only where no second lookup replaces it, and
-- the TLVs of a header start inside its smallest length.
pub record WellFormed {M : Type 0} (p : Parser M) (pkt : Packet) : Type 0 where
  pub tlvs : TlvsWellFormed p.graph pkt
  pub defined : (r : NodeRef) → (d : ProtoDef) × ((p.graph.node r).proto_def ≡ some d)
  pub keys :
      (r : NodeRef) (d : ProtoDef)
      → (p.graph.node r).proto_def ≡ some d
      → (d.ops.next_proto_keyin ≡ none) ⊎ ((p.graph.node r).key_sel < p.config.num_keys)
  pub wildcards :
      (r : NodeRef) (d : ProtoDef)
      → (p.graph.node r).proto_def ≡ some d
      → ((p.graph.node r).wildcard_node ≡ none)
        ⊎ ((p.graph.node r).proto_table ≡ none)
        ⊎ (d.ops.next_proto ≡ none)
  pub headers :
      (r : NodeRef) (d : ProtoDef) (tn : TlvsNode) (td : TlvsDef)
      → (p.graph.node r).proto_def ≡ some d
      → (p.graph.node r).body ≡ Body.tlvs tn
      → d.body ≡ DefBody.tlvs td
      → Progresses td × ((hdr : Ptr) → td.start_offset pkt hdr ≤ d.min_len)

-- The next node is there where the lookup goes on.
find_next-some :
    {M : Type 0} (node : ParseNode M) (d : ProtoDef) (num_keys : ℕ) (pkt : Packet) (hdr : Ptr)
    (store : Store M)
    → ((d.ops.next_proto_keyin ≡ none) ⊎ (node.key_sel < num_keys))
    → ((node.wildcard_node ≡ none) ⊎ (node.proto_table ≡ none) ⊎ (d.ops.next_proto ≡ none))
    → (find_next node d num_keys pkt hdr store ≢ crash)
      × (find_next node d num_keys pkt hdr store ≢ found none)
unfolding find_next table_next wildcard_next lookup_next
find_next-some node d num_keys pkt hdr store keys wild = ground arith

pub or_out-Ends :
    {M : Type 0} (frame : ℕ) (r : Run M) → Returns r → Ends (λ _. Unit {0}) (or_out frame r)
or_out-Ends frame (Run.ret code s) h = ground arith
or_out-Ends frame Run.fault h = h
or_out-Ends frame Run.out_of_fuel h = h

module _ {M : Type 0} (p : Parser M) (pkt : Packet) (depth n : ℕ) (wf : WellFormed p pkt)
    (ranks : (t : TlvRef) → wf.tlvs.rank t < n)
    (levels : (r : NodeRef) → wf.tlvs.node_level r < depth) (small : length pkt < size_mod)
    (room : length pkt < n) where
  parse_body_by :
      (r : NodeRef) (d : ProtoDef) (hdr : Ptr) (hlen frame : ℕ) (s : State M) (b : Body M)
      (db : DefBody)
      → (p.graph.node r).proto_def ≡ some d
      → d.min_len ≤ hlen
      → hdr + hlen ≤ length pkt
      → (p.graph.node r).body ≡ b
      → d.body ≡ db
      → Returns (parse_body p pkt depth n r d hdr hlen frame s)
  unfolding parse_body parse_flag_fields
  parse_body_by r d hdr hlen frame s (Body.tlvs tn) (DefBody.tlvs td) def h inside eb ed =
      let fits = wf.headers r d tn td def eb ed in
      let is : IsTlvs p.graph r = record {
        node = tn;
        proto = d;
        proto_tlvs = td;
        node_eq = eb;
        proto_eq = def;
        proto_body = ed;
        progress = fits.0;
      } in
      rw (eb, parse_body, ed)
        (parse_tlvs-Returns p.graph pkt frame n wf.tlvs ranks small depth r is hdr hlen s (levels r)
          (omega (arith, fits.1 hdr)) inside (omega arith))
  parse_body_by r d hdr hlen frame s (Body.array an) (DefBody.array ad) def h inside eb ed =
      rw (eb, parse_body, ed) (parse_array-Returns pkt frame an ad hdr hlen s)
  parse_body_by r d hdr hlen frame s (Body.flag_fields table) (DefBody.flag_fields fd) def h inside
        eb ed =
      rw (eb, parse_body, ed) tt
  parse_body_by r d hdr hlen frame s Body.plain db def h inside eb ed = rw (eb, parse_body) tt
  parse_body_by r d hdr hlen frame s b db def h inside eb ed = rw (eb, parse_body, ed) tt

  process-Ends :
      (r : NodeRef) (d : ProtoDef) (hlen : ℕ) (c : Cursor M)
      → (p.graph.node r).proto_def ≡ some d
      → d.min_len ≤ hlen
      → c.hdr + hlen ≤ length pkt
      → Ends (λ _. Unit {0}) (process p pkt depth n r d hlen c)
  unfolding process
  process-Ends r d hlen c def h inside =
      >>=-Ends (λ _. Unit {0}) (λ _. Unit {0})
        (or_out c.frame (parse_body p pkt depth n r d c.hdr hlen c.frame _)) _
        (or_out-Ends c.frame _ (parse_body_by r d c.hdr hlen c.frame _ _ _ def h inside refl refl))
        λ s _. tt

  enter_encap-Ends :
      (d : ProtoDef) (c : Cursor M) (s : State M)
      → Ends (λ c'. (c'.node ≡ c.node) × (c'.nodes ≡ c.nodes)) (enter_encap p pkt depth n d c s)
  unfolding enter_encap
  enter_encap-Ends d c s = ground arith

  advance-Ends :
      (node : ParseNode M) (d : ProtoDef) (hlen : ℕ) (next : Option NodeRef) (c : Cursor M)
      → next ≢ none
      → Ends (λ c'. c'.node ≢ none) (advance p pkt depth n node d hlen next c)
  unfolding advance
  advance-Ends node d hlen next c h = ground arith

  proceed-Ends :
      (r : NodeRef) (d : ProtoDef) (hlen : ℕ) (c : Cursor M)
      → (p.graph.node r).proto_def ≡ some d
      → d.min_len ≤ hlen
      → c.hdr + hlen ≤ length pkt
      → Ends (λ c'. c'.node ≢ none) (proceed p pkt depth n r d hlen c)
  unfolding proceed
  proceed-Ends r d hlen c def h inside =
      >>=-Ends (λ _. Unit {0}) _ (process p pkt depth n r d hlen c) _
        (process-Ends r d hlen c def h inside)
        λ s _. elim (Bool-cases (is_leaf (p.graph.node r))) [
          | inl leaf ↦ rw leaf tt
          | inr inner ↦ rw inner (
              >>=-Ends _ _ (enter_encap p pkt depth n d c s) _ (enter_encap-Ends d c s) λ c' w.
                let safe =
                  find_next-some (p.graph.node r) d p.config.num_keys pkt c.hdr c'.state.store
                    (wf.keys r d def) (wf.wildcards r d def) in
                elim (next_cases
                  (find_next (p.graph.node r) d p.config.num_keys pkt c.hdr c'.state.store)) [
                    | is_quit code e ↦ rw e tt
                    | is_crash e ↦ absurd (safe.0 e)
                    | is_found next e ↦
                        rw e
                          (advance-Ends (p.graph.node r) d hlen next c' λ e'. safe.1 (rw e' at e))
                  ])
        ]

  round-Ends :
      (end : Ptr) (c : Cursor M)
      → InBounds p end c
      → end ≤ length pkt
      → c.node ≢ none
      → Ends (λ c'. c'.node ≢ none) (round p pkt depth n c)
  unfolding round
  round-Ends end c v inside some_node = elim (Option-cases c.node) [
    | inl e ↦ absurd (some_node e)
    | inr (r, e) ↦
        rw (e, round)
          (let def = wf.defined r in
            rw def.1 (elim (length_cases (check_length def.0 pkt c.hdr c.len)) [
              | is_bad code e3 ↦ rw e3 tt
              | is_good hlen e3 ↦ rw e3 (
                  let fits = check_length_good def.0 pkt c.hdr c.len hlen e3 in
                  proceed-Ends r def.0 hlen c def.1 fits.0 (omega (arith, v.window, fits)))
            ]))
  ]

  finish-Returns :
      (code : ℤ) (frame : ℕ) (s : State M) → Returns (finish p pkt depth n code frame s)
  unfolding finish
  finish-Returns code frame s = tt

  parse_loop-Returns :
      (end fuel : ℕ) (c : Cursor M)
      → InBounds p end c
      → end ≤ length pkt
      → c.node ≢ none
      → c.nodes < fuel
      → Returns (parse_loop p pkt depth n fuel c)
  unfolding parse_loop
  parse_loop-Returns end zero c v inside node h = absurd (omega arith)
  parse_loop-Returns end (suc fuel) c v inside node h =
      let moves = round-InBounds p pkt depth n end c v in
      let ends = round-Ends end c v inside node in
      elim (ctl_cases (round p pkt depth n c)) [
        | is_go c' e ↦
            let m = rw e at moves in
            rw (e, parse_loop)
              (parse_loop-Returns end fuel c' m.0 inside (rw e at ends) (omega (arith, m.1)))
        | is_out code frame s e ↦ rw (e, parse_loop) (finish-Returns code frame s)
        | is_leave code s e ↦ rw (e, parse_loop) tt
        | is_fault e ↦ absurd (rw e at ends)
        | is_out_of_fuel e ↦ absurd (rw e at ends)
      ]

  -- On a parser in order, with more rounds for TLVs than bytes and than overlays in a row and more
  -- depth than levels, every packet of less than 2^64 bytes is parsed to a code: the main loop, the
  -- loops over TLVs, flag-fields and arrays and the chains of overlays all end, and the engine itself
  -- reads no null node and no byte outside the packet.
  pub parse-Returns :
      (hdr : Ptr) (len : ℕ) (s : State M)
      → hdr + len ≡ length pkt
      → Returns (parse p pkt depth n hdr len s)
  unfolding parse start
  parse-Returns hdr len s e =
      parse_loop-Returns (length pkt) (p.config.max_nodes + 1) (start p pkt depth n hdr len s)
        (start-InBounds p pkt depth n (length pkt) hdr len s e (omega arith)) (omega arith)
        (λ e'. cc) (omega arith)
