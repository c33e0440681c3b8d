-- ===== src/Parser/Fast/Total.antt =====
-- __xdp2_parse_fast on a graph whose headers move on: it returns a code for every packet.
use xdp.Base.{
  ℕ, zero, suc, ◌+◌, ◌≤◌, ◌<◌, ℤ, true, false, Option, none, some, ◌≡◌, ◌≢◌, ◌⊎◌, refl, inl, inr,
  as_size, sub_size_exact, size_mod, length, Option-cases, arith,
}
use xdp.Parser.Types.{
  Packet, Ptr, NodeRef, TlvRef, State, ProtoDef, DefBody, Body, ParseNode, TlvsDef, TlvsNode,
  Parser,
}
use xdp.Parser.Run.{Returns}
use xdp.Parser.Ctl.{Ends, >>=-Ends, ctl_cases, is_go, is_out, is_leave, is_fault, is_out_of_fuel}
use xdp.Parser.Next.{
  good, crash, found, length_cases, is_good, is_bad, next_cases, is_found, is_quit, is_crash,
}
use xdp.Parser.FlagFields.{parse_flag_fields}
use xdp.Parser.Tlvs.Total.{TlvsWellFormed, IsTlvs, parse_tlvs-Returns}
use xdp.Parser.Tlvs.Window.{Progresses}
use xdp.Parser.Loop.{Cursor}
use xdp.Parser.Loop.Total.{or_out-Ends}
use xdp.Parser.Fast.{
  fast_length, fast_next, fast_node, fast_body, fast_process, fast_encap, fast_advance,
  fast_proceed, fast_round, fast_loop, parse_fast,
}

-- What the fast path needs: nodes that pass the validation, a next protocol wherever there is a
-- table, and headers that are not overlays, of which none is empty or shorter than its smallest
-- length.
pub record FastWellFormed {M : Type 0} (p : Parser M) (pkt : Packet) : Type 0 where
  pub tlvs : TlvsWellFormed p.graph pkt
  pub passes : (r : NodeRef) → fast_node (p.graph.node r) ≡ true
  pub next_set :
      (r : NodeRef) (d : ProtoDef)
      → (p.graph.node r).proto_def ≡ some d
      → ((p.graph.node r).proto_table ≡ none) ⊎ (d.ops.next_proto ≢ none)
  pub moves :
      (r : NodeRef) (d : ProtoDef)
      → (p.graph.node r).proto_def ≡ some d
      → (0 < d.min_len) × (d.overlay ≡ false)
  pub lengths :
      (r : NodeRef) (d : ProtoDef) (f : Packet → Ptr → ℕ → ℤ) (hdr : Ptr) (len : ℕ)
      → (p.graph.node r).proto_def ≡ some d
      → d.ops.len ≡ some f
      → d.min_len ≤ as_size (f pkt hdr len)
  pub headers :
      (r : NodeRef) (d : ProtoDef) (tn : TlvsNode) (td : TlvsDef)
      → (p.graph.node r).proto_def ≡ some d
      → (p.graph.node r).body ≡ Body.tlvs tn
      → d.body ≡ DefBody.tlvs td
      → Progresses td × ((hdr : Ptr) → td.start_offset pkt hdr ≤ d.min_len)

fast_node-some :
    {M : Type 0} (node : ParseNode M)
    → fast_node node ≡ true
    → (d : ProtoDef) × (node.proto_def ≡ some d)
unfolding fast_node
fast_node-some node h = elim (Option-cases node.proto_def) [
  | inr def ↦ def
  | inl e ↦ let impossible = rw (e, fast_node) at h in cc
]

module _ {M : Type 0} (p : Parser M) (pkt : Packet) (depth n : ℕ) (wf : FastWellFormed p pkt)
    (ranks : (t : TlvRef) → wf.tlvs.rank t < n)
    (levels : (r : NodeRef) → wf.tlvs.node_level r < depth) (small : length pkt < size_mod)
    (room : length pkt < n) where
  fast_length_bounds :
      (r : NodeRef) (d : ProtoDef) (hdr : Ptr) (len hlen : ℕ)
      → (p.graph.node r).proto_def ≡ some d
      → fast_length d pkt hdr len ≡ good hlen
      → (d.min_len ≤ hlen) × (hlen ≤ len)
  unfolding fast_length
  fast_length_bounds r d hdr len hlen def e = elim (Option-cases (d.ops.len)) [
    | inl e' ↦ ground (arith, e, e')
    | inr (f, e') ↦ ground (arith, e, e', wf.lengths r d f hdr len def e')
  ]

  fast_next_found :
      (r : NodeRef) (d : ProtoDef) (hdr : Ptr)
      → (p.graph.node r).proto_def ≡ some d
      → (fast_next (p.graph.node r) d pkt hdr ≢ crash)
        × (fast_next (p.graph.node r) d pkt hdr ≢ found none)
  unfolding fast_next
  fast_next_found r d hdr def = ground (arith, wf.next_set r d def)

  body_by :
      (r : NodeRef) (d : ProtoDef) (hdr : Ptr) (hlen frame : ℕ) (s : State M) (b : Body M)
      (db : DefBody)
      → (p.graph.node r).proto_def ≡ some d
      → d.min_len ≤ hlen
      → hdr + hlen ≤ length pkt
      → fast_node (p.graph.node r) ≡ true
      → (p.graph.node r).body ≡ b
      → d.body ≡ db
      → Returns (fast_body p pkt depth n r d hdr hlen frame s)
  unfolding fast_body parse_flag_fields fast_node
  body_by r d hdr hlen frame s (Body.tlvs tn) (DefBody.tlvs td) def h inside pass eb ed =
      let fits = wf.headers r d tn td def eb ed in
      let is : IsTlvs p.graph r = record {
        node = tn;
        proto = d;
        proto_tlvs = td;
        node_eq = eb;
        proto_eq = def;
        proto_body = ed;
        progress = fits.0;
      } in
      rw (eb, fast_body)
        (parse_tlvs-Returns p.graph pkt frame n wf.tlvs ranks small depth r is hdr hlen s (levels r)
          (omega (arith, fits.1 hdr)) inside (omega arith))
  body_by r d hdr hlen frame s (Body.flag_fields t) (DefBody.flag_fields fd) def h inside pass eb
        ed =
      rw (eb, fast_body, ed) tt
  body_by r d hdr hlen frame s Body.plain db def h inside pass eb ed = rw (eb, fast_body) tt
  body_by r d hdr hlen frame s (Body.array an) db def h inside pass eb ed = rw (eb, fast_body) tt
  body_by r d hdr hlen frame s b db def h inside pass eb ed =
      absurd (ground (arith, def, eb, ed, pass))

  -- The next round starts behind the header, with less of the packet left.
  abbrev Forward : Cursor M → Cursor M → Type 0
  Forward c c' = (c'.hdr + c'.len ≡ c.hdr + c.len) × (c'.len < c.len) × (c'.node ≢ none)

  fast_encap-Ends :
      (d : ProtoDef) (c : Cursor M) (s : State M)
      → Ends (λ c'. (c'.hdr ≡ c.hdr) × (c'.len ≡ c.len)) (fast_encap p pkt depth n d c s)
  unfolding fast_encap
  fast_encap-Ends d c s = ground arith

  advance-Forward :
      (d : ProtoDef) (hlen : ℕ) (next : Option NodeRef) (c c' : Cursor M)
      → 0 < hlen
      → hlen ≤ c.len
      → c.len < size_mod
      → d.overlay ≡ false
      → next ≢ none
      → (c'.hdr ≡ c.hdr) × (c'.len ≡ c.len)
      → Forward c (fast_advance p pkt depth n d hlen next c')
  unfolding fast_advance
  advance-Forward d hlen next c c' z h k o e w = ground (arith, o, sub_size_exact c.len hlen h k)

  fast_proceed-Ends :
      (r : NodeRef) (d : ProtoDef) (hlen : ℕ) (c : Cursor M)
      → (p.graph.node r).proto_def ≡ some d
      → d.min_len ≤ hlen
      → hlen ≤ c.len
      → c.hdr + c.len ≤ length pkt
      → Ends (Forward c) (fast_proceed p pkt depth n r d hlen c)
  unfolding fast_proceed fast_process
  fast_proceed-Ends r d hlen c def h fits inside =
      let moves = wf.moves r d def in
      let safe = fast_next_found r d c.hdr def in
      >>=-Ends (λ _. Unit {0}) _ (fast_process p pkt depth n r d hlen c) _
        (or_out-Ends c.frame _
          (body_by r d c.hdr hlen c.frame _ _ _ def h (omega arith) (wf.passes r) refl refl))
        λ s _. >>=-Ends _ _ (fast_encap p pkt depth n d c s) _ (fast_encap-Ends d c s) λ c' w.
          elim (next_cases (fast_next (p.graph.node r) d pkt c.hdr)) [
            | is_quit code e ↦ rw e tt
            | is_crash e ↦ absurd (safe.0 e)
            | is_found next e ↦ rw e (
                advance-Forward d hlen next c c' (omega (arith, moves.0)) fits (omega arith) moves.1
                  (λ e'. safe.1 (rw e' at e)) w)
          ]

  fast_round-Ends :
      (c : Cursor M)
      → c.hdr + c.len ≤ length pkt
      → c.node ≢ none
      → Ends (Forward c) (fast_round p pkt depth n c)
  unfolding fast_round
  fast_round-Ends c inside some_node = elim (Option-cases c.node) [
    | inl e ↦ absurd (some_node e)
    | inr (r, e) ↦
        let def = fast_node-some (p.graph.node r) (wf.passes r) in
        rw (e, fast_round, def.1)
          (elim (length_cases (fast_length def.0 pkt c.hdr c.len)) [
            | is_bad code e3 ↦ rw e3 tt
            | is_good hlen e3 ↦
                let fits = fast_length_bounds r def.0 c.hdr c.len hlen def.1 e3 in
                rw e3 (fast_proceed-Ends r def.0 hlen c def.1 fits.0 fits.1 inside)
          ])
  ]

  fast_loop-Returns :
      (fuel : ℕ) (c : Cursor M)
      → c.hdr + c.len ≤ length pkt
      → c.node ≢ none
      → c.len < fuel
      → Returns (fast_loop p pkt depth n fuel c)
  unfolding fast_loop
  fast_loop-Returns zero c inside node h = absurd (omega arith)
  fast_loop-Returns (suc fuel) c inside node h =
      let ends = fast_round-Ends c inside node in
      elim (ctl_cases (fast_round p pkt depth n c)) [
        | is_go c' e ↦
            let m = rw e at ends in
            rw (e, fast_loop)
              (fast_loop-Returns fuel c' (omega (arith, m.0)) m.2 (omega (arith, m.1)))
        | is_out code frame s e ↦ rw (e, fast_loop) tt
        | is_leave code s e ↦ rw (e, fast_loop) tt
        | is_fault e ↦ absurd (rw e at ends)
        | is_out_of_fuel e ↦ absurd (rw e at ends)
      ]

  -- Where every node passes the validation and has a `next_proto` if it has a table, where no header is
  -- an overlay, has a `min_len` of 0 or a length below its `min_len`, where TLVs move on and start within
  -- the `min_len` of their header, and where the graph of TLVs is in order (`TlvsWellFormed`: definitions
  -- are set, overlays and nested lists do not run in circles, no short TLV meets a wildcard node, nested
  -- lists start inside their TLVs) and fits the levels and steps given: more rounds than bytes are enough on a packet of less than 2^64 bytes. The fast path
  -- returns a code, with no limit on its nodes, and the engine itself reads nothing outside the packet.
  pub parse_fast-Returns :
      (fuel : ℕ) (hdr : Ptr) (len : ℕ) (s : State M)
      → hdr + len ≤ length pkt
      → len < fuel
      → Returns (parse_fast p pkt depth n fuel hdr len s)
  unfolding parse_fast
  parse_fast-Returns fuel hdr len s inside h = fast_loop-Returns fuel _ inside (λ e. cc) h
