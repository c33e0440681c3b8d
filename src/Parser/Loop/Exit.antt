-- ===== src/Parser/Loop/Exit.antt =====
-- The code that __xdp2_parse stores in the control data, and the one that it returns.
use xdp.Base.{
  ℕ, zero, suc, ◌+◌, ◌<◌, ℤ, pos, List, [], ◌∷◌, Option, none, some, ◌≡◌, refl, ◌∙◌, ap, ◌⊎◌, inl,
  inr, ◌==◌, ltb_ℤ, sub_size, to_s8, Bool-cases, Option-cases, arith, if◌then◌else◌,
}
use xdp.Parser.Codes.{stop_max_nodes, code_is_okay}
use xdp.Parser.Types.{
  Packet, Ptr, NodeRef, CtrlVar, State, FlagField, ArrayDef, ArrayNode, NodeOps, Table, ProtoDef,
  DefBody, Body, ParseNode, Parser,
}
use xdp.Parser.Run.{
  Run, Leaves, >>=-Leaves, run_extract, run_handler, run_extract-var, run_handler-var,
}
use xdp.Parser.Ctl.{
  Ctl, or_out, Yields, >>=-Yields, ctl_cases, is_go, is_out, is_leave, is_fault, is_out_of_fuel,
}
use xdp.Parser.Lookup.{lookup_opt, lookup_flag_field_node}
use xdp.Parser.Next.{
  check_length, find_next, is_leaf, length_cases, is_good, is_bad, next_cases, is_found, is_quit,
  is_crash,
}
use xdp.Parser.Tlvs.Vars.{HasVar, parse_tlvs-HasVar}
use xdp.Parser.FlagFields.{visit_field, fields_loop, field_offset, parse_flag_fields}
use xdp.Parser.Array.{element_type, run_element, visit_element, array_loop, parse_array}
use xdp.Parser.Loop.{
  Cursor, call_handler, set_last_node, run_exit_node, parse_body, process, enter_encap, advance,
  proceed, round, finish, parse_loop, start, parse,
}

module _ {M : Type 0} (pkt : Packet) (frame : ℕ) where
  ops-var :
      (ops : NodeOps M) (hdr : Option Ptr) (l : ℕ) (s : State M)
      → (run_handler ops.handler pkt hdr l frame
          (run_extract ops.extract_metadata pkt hdr l frame s)).1.var
        ≡ s.var
  ops-var ops hdr l s =
      run_handler-var ops.handler pkt hdr l frame _
      ∙ run_extract-var ops.extract_metadata pkt hdr l frame s

  visit_field-var :
      (table : Table (NodeOps M)) (idx : ℤ) (cp : Ptr) (size : ℕ) (s : State M)
      → (visit_field pkt frame table idx cp size s).var ≡ s.var
  unfolding visit_field
  visit_field-var table idx cp size s = elim (Option-cases (lookup_flag_field_node idx table)) [
    | inl e ↦ rw (e, visit_field)
    | inr (ops, e) ↦ rw (e, visit_field) (ops-var ops (some cp) size s)
  ]

  fields_loop-var :
      (table : Table (NodeOps M)) (all : List FlagField) (flags : ℕ) (hdr : Ptr) (i : ℕ)
      (fields : List FlagField) (s : State M)
      → (fields_loop pkt frame table all flags hdr i fields s).var ≡ s.var
  unfolding fields_loop
  fields_loop-var table all flags hdr i [] s = refl
  fields_loop-var table all flags hdr i (f ∷ fields) s =
      elim (Bool-cases (ltb_ℤ (field_offset i flags all) (pos 0))) [
        | inl e ↦ rw (e, fields_loop) (fields_loop-var table all flags hdr (i + 1) fields s)
        | inr e ↦
            rw (e, fields_loop)
              (fields_loop-var table all flags hdr (i + 1) fields _ ∙ visit_field-var table _ _ _ s)
      ]

  visit_element-var :
      (an : ArrayNode M) (type : ℤ) (cp : Ptr) (l : ℕ) (v : CtrlVar) (s : State M)
      → HasVar v s
      → Leaves (HasVar v) (visit_element pkt frame an type cp l s)
  unfolding visit_element run_element
  visit_element-var an type cp l v s h =
      elim (Option-cases (lookup_opt type an.array_proto_table)) [
        | inr (ops, e) ↦ rw (e, visit_element) (ops-var ops (some cp) l s ∙ h)
        | inl e ↦
            rw (e, visit_element)
              (elim (Option-cases an.array_wildcard_node) [
                | inl e' ↦ rw e' h
                | inr (ops, e') ↦ rw e' (ops-var ops (some cp) l s ∙ h)
              ])
      ]

  array_loop-var :
      (an : ArrayNode M) (d : ArrayDef) (left : ℕ) (cp : Ptr) (hlen : ℕ) (v : CtrlVar) (s : State M)
      → HasVar v s
      → Leaves (HasVar v) (array_loop pkt frame left an d cp hlen s)
  unfolding array_loop
  array_loop-var an d zero cp hlen v s h = h
  array_loop-var an d (suc left) cp hlen v s h = elim (Bool-cases (hlen == 0)) [
    | inl done ↦ rw (done, array_loop) h
    | inr more ↦
        rw (more, array_loop)
          (elim (Bool-cases (ltb_ℤ (element_type d pkt cp) (pos 0))) [
            | inl e ↦ rw e h
            | inr e ↦ rw e (
                >>=-Leaves (HasVar v)
                  (visit_element pkt frame an (element_type d pkt cp) cp d.el_length s) _
                  (visit_element-var an _ cp d.el_length v s h)
                  λ s' h'.
                    array_loop-var an d left (cp + d.el_length) (sub_size hlen d.el_length) v s' h')
          ])
  ]

-- The stored code is `k`, and the number of levels is a `__u8`.
abbrev pub Stored : {M : Type 0} → ℤ → State M → Type 0
Stored k s = (s.var.ret_code ≡ k) × (s.var.tlv_levels < 256)

Stored-var : {M : Type 0} (k : ℤ) (s s' : State M) → s'.var ≡ s.var → Stored k s → Stored k s'
Stored-var k s s' e h = ground arith

-- `k` is stored in what a part of the loop falls through with, and where it leaves the parser, which
-- it does with `XDP2_STOP_MAX_NODES` only.
abbrev Parts : {M : Type 0} → ℤ → {A : Type 0} → (A → State M) → Ctl M A → Type 0
Parts k state = Yields (λ a. Stored k (state a)) λ code s. (code ≡ stop_max_nodes) × Stored k s

module _ {M : Type 0} (p : Parser M) (pkt : Packet) (depth n : ℕ) where
  parse_body-var :
      (r : NodeRef) (d : ProtoDef) (hdr : Ptr) (hlen frame : ℕ) (v : CtrlVar) (s : State M)
      (b : Body M) (db : DefBody)
      → v.tlv_levels < 256
      → HasVar v s
      → (p.graph.node r).body ≡ b
      → d.body ≡ db
      → Leaves (HasVar v) (parse_body p pkt depth n r d hdr hlen frame s)
  unfolding parse_body parse_flag_fields parse_array
  parse_body-var r d hdr hlen frame v s (Body.tlvs tn) (DefBody.tlvs td) lv h eb ed =
      rw (eb, parse_body, ed) (parse_tlvs-HasVar p.graph pkt frame depth n r hdr hlen v s lv h)
  parse_body-var r d hdr hlen frame v s (Body.flag_fields t) (DefBody.flag_fields fd) lv h eb ed =
      rw (eb, parse_body, ed) (fields_loop-var pkt frame t fd.fields _ _ 0 fd.fields s ∙ h)
  parse_body-var r d hdr hlen frame v s (Body.array an) (DefBody.array ad) lv h eb ed =
      rw (eb, parse_body, ed) (array_loop-var pkt frame an ad _ _ _ v s h)
  parse_body-var r d hdr hlen frame v s Body.plain db lv h eb ed = rw (eb, parse_body) h
  parse_body-var r d hdr hlen frame v s b db lv h eb ed = rw (eb, parse_body, ed) h

  run_exit_node-var :
      (r : NodeRef) (frame : ℕ) (s : State M) → (run_exit_node p pkt depth n r frame s).var ≡ s.var
  unfolding run_exit_node call_handler
  run_exit_node-var r frame s = ops-var pkt frame (p.graph.node r).ops none 0 s

  or_out-Yields :
      (k : ℤ) (v : CtrlVar) (frame : ℕ) (r : Run M)
      → v.ret_code ≡ k
      → v.tlv_levels < 256
      → Leaves (HasVar v) r
      → Parts k (λ s. s) (or_out frame r)
  or_out-Yields k v frame (Run.ret code s) e lv h = ground arith
  or_out-Yields k v frame Run.fault e lv h = tt
  or_out-Yields k v frame Run.out_of_fuel e lv h = tt

  process-Stored :
      (k : ℤ) (r : NodeRef) (d : ProtoDef) (hlen : ℕ) (c : Cursor M)
      → Stored k c.state
      → Parts k (λ s. s) (process p pkt depth n r d hlen c)
  unfolding process call_handler set_last_node
  process-Stored k r d hlen c h =
      let s0 = set_last_node r c.state in
      let ops = (p.graph.node r).ops in
      let s1 = run_extract ops.extract_metadata pkt (some c.hdr) hlen c.frame s0 in
      let s2 = (run_handler ops.handler pkt (some c.hdr) hlen c.frame s1).1 in
      let h2 : Stored k s2 = Stored-var k s0 s2 (ops-var pkt c.frame ops (some c.hdr) hlen s0) h in
      >>=-Yields (Stored k) (Stored k) _
        (or_out c.frame (parse_body p pkt depth n r d c.hdr hlen c.frame s2)) _
        (or_out-Yields k s2.var c.frame _ h2.0 h2.1
          (parse_body-var r d c.hdr hlen c.frame s2.var s2 _ _ h2.1 refl refl refl))
        λ s3 h3.
          Stored-var k s3
            (call_handler (p.graph.node r).post_handler pkt (some c.hdr) hlen c.frame s3)
            (run_handler-var (p.graph.node r).post_handler pkt (some c.hdr) hlen c.frame s3) h3

  enter_encap-Stored :
      (k : ℤ) (d : ProtoDef) (c : Cursor M) (s : State M)
      → Stored k s
      → Parts k (λ c'. c'.state) (enter_encap p pkt depth n d c s)
  unfolding enter_encap
  enter_encap-Stored k d c s h = elim (Option-cases p.config.atencap_node) [
    | inl e ↦ rw (e, enter_encap) (ground arith)
    | inr (r, e) ↦ rw (e, enter_encap) (ground (arith, run_exit_node-var r c.frame s))
  ]

  advance-Stored :
      (k : ℤ) (node : ParseNode M) (d : ProtoDef) (hlen : ℕ) (next : Option NodeRef) (c : Cursor M)
      → Stored k c.state
      → Parts k (λ c'. c'.state) (advance p pkt depth n node d hlen next c)
  unfolding advance
  advance-Stored k node d hlen next c h = ground arith

  proceed-Stored :
      (k : ℤ) (r : NodeRef) (d : ProtoDef) (hlen : ℕ) (c : Cursor M)
      → Stored k c.state
      → Parts k (λ c'. c'.state) (proceed p pkt depth n r d hlen c)
  unfolding proceed
  proceed-Stored k r d hlen c h =
      >>=-Yields (Stored k) _ _ (process p pkt depth n r d hlen c) _ (process-Stored k r d hlen c h)
        λ s hs. elim (Bool-cases (is_leaf (p.graph.node r))) [
          | inl leaf ↦ rw leaf tt
          | inr inner ↦ rw inner (
              >>=-Yields _ _ _ (enter_encap p pkt depth n d c s) _ (enter_encap-Stored k d c s hs)
                λ c' hc.
                  elim (next_cases
                    (find_next (p.graph.node r) d p.config.num_keys pkt c.hdr c'.state.store)) [
                      | is_quit code e ↦ rw e tt
                      | is_crash e ↦ rw e tt
                      | is_found next e ↦ rw e (advance-Stored k (p.graph.node r) d hlen next c' hc)
                    ])
        ]

  round-Stored :
      (k : ℤ) (c : Cursor M) → Stored k c.state → Parts k (λ c'. c'.state) (round p pkt depth n c)
  unfolding round
  round-Stored k c h = elim (Option-cases c.node) [
    | inl e ↦ rw (e, round) tt
    | inr (r, e) ↦
        rw (e, round)
          (elim (Option-cases ((p.graph.node r).proto_def)) [
            | inl e' ↦ rw e' tt
            | inr (d, e') ↦ rw e' (elim (length_cases (check_length d pkt c.hdr c.len)) [
              | is_bad code e3 ↦ rw e3 tt
              | is_good hlen e3 ↦ rw e3 (proceed-Stored k r d hlen c h)
            ])
          ])
  ]

  -- What the parser returns, and what it has stored.
  abbrev pub Reports : ℤ → Run M → Type 0
  Reports k (Run.ret code s) =
      (s.var.ret_code ≡ to_s8 code) ⊎ ((code ≡ stop_max_nodes) × (s.var.ret_code ≡ k))
  Reports k Run.fault = Unit
  Reports k Run.out_of_fuel = Unit

  finish-Reports :
      (k code : ℤ) (frame : ℕ) (s : State M) → Reports k (finish p pkt depth n code frame s)
  unfolding finish
  finish-Reports k code frame s =
      elim (Option-cases (if code_is_okay code then p.config.okay_node else p.config.fail_node)) [
        | inl e ↦ rw e (inl refl)
        | inr (r, e) ↦ rw e (inl (ap (λ (v : CtrlVar). v.ret_code) (run_exit_node-var r frame _)))
      ]

  parse_loop-Reports :
      (k : ℤ) (fuel : ℕ) (c : Cursor M)
      → Stored k c.state
      → Reports k (parse_loop p pkt depth n fuel c)
  unfolding parse_loop
  parse_loop-Reports k zero c h = tt
  parse_loop-Reports k (suc fuel) c h =
      let next = round-Stored k c h in
      elim (ctl_cases (round p pkt depth n c)) [
        | is_go c' e ↦ rw (e, parse_loop) (parse_loop-Reports k fuel c' (rw e at next))
        | is_out code frame s e ↦ rw (e, parse_loop) (finish-Reports k code frame s)
        | is_leave code s e ↦ let w = rw e at next in rw (e, parse_loop) (inr (w.0, w.1.0))
        | is_fault e ↦ rw (e, parse_loop) tt
        | is_out_of_fuel e ↦ rw (e, parse_loop) tt
      ]

  -- What the parser has stored in `ret_code` when it returns is the code that it returns, cut to the 8
  -- bits of an `__s8`, with one exception: where it returns `XDP2_STOP_MAX_NODES`, the code that the
  -- caller had left there may stand.
  pub parse-Reports :
      (k : ℤ) (hdr : Ptr) (len : ℕ) (s : State M)
      → Stored k s
      → Reports k (parse p pkt depth n hdr len s)
  unfolding parse start
  parse-Reports k hdr len s h = parse_loop-Reports k _ (start p pkt depth n hdr len s) h
