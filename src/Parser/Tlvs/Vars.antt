-- ===== src/Parser/Tlvs/Vars.antt =====
-- The control variables under xdp2_parse_tlvs.
use xdp.Base.{
  ℕ, zero, suc, ◌+◌, ◌%◌, ◌<◌, ℤ, Option, none, some, ◌≡◌, refl, ◌∙◌, sub_size, Bool-cases,
  Option-cases, inl, inr, arith,
}
use xdp.Parser.Types.{
  Packet, Ptr, NodeRef, TlvRef, CtrlVar, State, TlvDef, DefBody, Body, ProtoDef, TlvNode, TlvsNode,
  Graph,
}
use xdp.Parser.Run.{
  Run, ret, fault, out_of_fuel, on_return, run_extract, run_extract-var, run_handler-var, Leaves,
  >>=-Leaves,
}
use xdp.Parser.Lookup.{lookup_opt}
use xdp.Parser.Tlvs.{
  Nested, enter_level, leave_level, nested_start, too_short, overlay_next, after_cases, ends, goes,
  crashes, run_tlv_ops, run_nested, parse_again, parse_one_tlv, dispatch_tlv, parse_tlvs,
}
use xdp.Parser.Tlvs.Scan.{Objects, stop, outside, unfinished, object, play, tlvs_loop-scan}

-- The state has these control variables.
abbrev pub HasVar : {M : Type 0} → CtrlVar → State M → Type 0
HasVar v s = s.var ≡ v

-- The level that a nested list was entered with is taken back.
level_back :
    {M : Type 0} (r : Run M) (v : CtrlVar)
    → v.tlv_levels < 256
    → Leaves (HasVar (record v { tlv_levels = (v.tlv_levels + 1) % 256 })) r
    → Leaves (HasVar v) (on_return r λ code s. ret code (leave_level s))
unfolding leave_level
level_back (ret code s) v lv h = ground arith
level_back fault v lv h = tt
level_back out_of_fuel v lv h = tt

-- A walk leaves the control variables alone if every visit does.
play-HasVar :
    {M : Type 0} (visit : ℤ → Ptr → ℕ → State M → Run M) (v : CtrlVar)
    → ((type : ℤ) (cp : Ptr) (l : ℕ) (s : State M)
        → HasVar v s
        → Leaves (HasVar v) (visit type cp l s))
    → (os : Objects) (s : State M) → HasVar v s
    → Leaves (HasVar v) (play visit os s)
unfolding play
play-HasVar visit v hv (stop code) s h = h
play-HasVar visit v hv outside s h = tt
play-HasVar visit v hv unfinished s h = tt
play-HasVar visit v hv (object cp l type rest) s h =
    >>=-Leaves (HasVar v) (visit type cp l s) _ (hv type cp l s h)
      λ s' h'. play-HasVar visit v hv rest s' h'

module _ {M : Type 0} (g : Graph M) (pkt : Packet) (frame : ℕ) where
  run_tlv_ops-HasVar :
      (t : TlvNode M) (hdr : Ptr) (l : ℕ) (v : CtrlVar) (s : State M)
      → HasVar v s
      → Leaves (HasVar v) (run_tlv_ops g pkt frame t hdr l s)
  unfolding run_tlv_ops
  run_tlv_ops-HasVar t hdr l v s h =
      run_handler-var t.tlv_ops.handler pkt (some hdr) l frame
        (run_extract t.tlv_ops.extract_metadata pkt (some hdr) l frame s)
      ∙ run_extract-var t.tlv_ops.extract_metadata pkt (some hdr) l frame s
      ∙ h

  -- A parser of nested lists that gives the control variables back.
  abbrev pub GivesBack : Nested g pkt frame → Type 0
  GivesBack nested =
      (r : NodeRef) (hdr : Ptr) (hlen : ℕ) (v : CtrlVar) (s : State M)
      → v.tlv_levels < 256
      → HasVar v s
      → Leaves (HasVar v) (nested r hdr hlen s)

  run_nested-HasVar :
      (nested : Nested g pkt frame) (t : TlvNode M) (def : Option TlvDef) (hdr : Ptr) (l : ℕ)
      (v : CtrlVar) (s : State M)
      → GivesBack nested
      → v.tlv_levels < 256
      → HasVar v s
      → Leaves (HasVar v) (run_nested g pkt frame nested t def hdr l s)
  unfolding run_nested enter_level
  run_nested-HasVar nested t none hdr l v s back lv h = elim (Option-cases t.nested_node) [
    | inl e ↦ rw e h
    | inr (r, e) ↦ rw e tt
  ]
  run_nested-HasVar nested t (some d) hdr l v s back lv h = elim (Option-cases t.nested_node) [
    | inl e ↦ rw e h
    | inr (r, e) ↦ rw e (
        level_back (nested r _ _ (enter_level s)) v lv (
          back r (hdr + nested_start d pkt hdr l) (sub_size l (nested_start d pkt hdr l))
            (record v { tlv_levels = (v.tlv_levels + 1) % 256 }) (enter_level s) (omega arith)
            (rw (← h))))
  ]

  parse_again-HasVar :
      (nested : Nested g pkt frame) (tn : TlvsNode) (def : Option TlvDef) (hdr : Ptr) (l : ℕ)
      (v : CtrlVar)
      → GivesBack nested
      → v.tlv_levels < 256
      → (fuel : ℕ) (t : TlvRef) (s : State M) → HasVar v s
      → Leaves (HasVar v) (parse_again g pkt frame fuel nested tn def t hdr l s)
  unfolding parse_again
  parse_again-HasVar nested tn def hdr l v back lv zero t s h = tt
  parse_again-HasVar nested tn def hdr l v back lv (suc fuel) t s h =
      elim (Bool-cases (too_short def l)) [
        | inl short ↦
            rw (short, parse_again)
              (elim (Option-cases tn.tlv_wildcard_node) [
                | inl e ↦ rw e h
                | inr (w, e) ↦ rw e (parse_again-HasVar nested tn def hdr l v back lv fuel w s h)
              ])
        | inr long ↦
            rw (long, parse_again)
              (>>=-Leaves (HasVar v) (run_tlv_ops g pkt frame (g.tlv_node t) hdr l s) _
                (run_tlv_ops-HasVar (g.tlv_node t) hdr l v s h)
                λ s1 h1.
                  >>=-Leaves (HasVar v) (run_nested g pkt frame nested (g.tlv_node t) def hdr l s1)
                    _ (run_nested-HasVar nested (g.tlv_node t) def hdr l v s1 back lv h1)
                    λ s2 h2. elim (after_cases (overlay_next (g.tlv_node t) def pkt hdr l)) [
                      | ends code e ↦ rw e h2
                      | goes next e ↦
                          rw e (parse_again-HasVar nested tn def hdr l v back lv fuel next s2 h2)
                      | crashes e ↦ rw e tt
                    ])
      ]

  dispatch_tlv-HasVar :
      (n : ℕ) (nested : Nested g pkt frame) (tn : TlvsNode) (type : ℤ) (cp : Ptr) (l : ℕ)
      (v : CtrlVar) (s : State M)
      → GivesBack nested
      → v.tlv_levels < 256
      → HasVar v s
      → Leaves (HasVar v) (dispatch_tlv g pkt frame n nested tn type cp l s)
  unfolding dispatch_tlv parse_one_tlv
  dispatch_tlv-HasVar n nested tn type cp l v s back lv h =
      elim (Option-cases (lookup_opt type tn.tlv_proto_table)) [
        | inl e ↦
            rw (e, dispatch_tlv)
              (elim (Option-cases tn.tlv_wildcard_node) [
                | inl e' ↦ rw e' h
                | inr (w, e') ↦ rw e' (parse_again-HasVar nested tn _ cp l v back lv n w s h)
              ])
        | inr (t, e) ↦ rw (e, dispatch_tlv) (parse_again-HasVar nested tn _ cp l v back lv n t s h)
      ]

  module _ (depth n : ℕ) (r : NodeRef) (hdr : Ptr) (hlen : ℕ) (v : CtrlVar) (s : State M)
      (lv : v.tlv_levels < 256) (h : HasVar v s)
      (back : GivesBack (parse_tlvs g pkt frame depth n)) where
    by_def :
        (b : Body M) (def : ProtoDef) (db : DefBody)
        → (g.node r).body ≡ b
        → (g.node r).proto_def ≡ some def
        → def.body ≡ db
        → Leaves (HasVar v) (parse_tlvs g pkt frame (suc depth) n r hdr hlen s)
    unfolding parse_tlvs
    by_def (Body.tlvs tn) def (DefBody.tlvs d) eb eo ed =
        rw (eb, parse_tlvs, eo, ed)
          (rw
            (tlvs_loop-scan g pkt frame n (parse_tlvs g pkt frame depth n) tn d n
              (hdr + d.start_offset pkt hdr) (sub_size hlen (d.start_offset pkt hdr)) 0 s)
            (play-HasVar _ v
              (λ type cp l s' h'.
                dispatch_tlv-HasVar n (parse_tlvs g pkt frame depth n) tn type cp l v s' back lv h')
              _ s h))
    by_def (Body.tlvs tn) def db eb eo ed = rw (eb, parse_tlvs, eo, ed) tt
    by_def b def db eb eo ed = rw (eb, parse_tlvs) tt

    by_none :
        (b : Body M)
        → (g.node r).body ≡ b
        → (g.node r).proto_def ≡ none
        → Leaves (HasVar v) (parse_tlvs g pkt frame (suc depth) n r hdr hlen s)
    unfolding parse_tlvs
    by_none (Body.tlvs tn) eb eo = rw (eb, parse_tlvs, eo) tt
    by_none b eb eo = rw (eb, parse_tlvs) tt

  -- Whatever the bytes, the callbacks and the nested lists are: when xdp2_parse_tlvs returns, with any
  -- code, the control variables are what they were, the number of TLV levels among them.
  pub parse_tlvs-HasVar :
      (depth n : ℕ) (r : NodeRef) (hdr : Ptr) (hlen : ℕ) (v : CtrlVar) (s : State M)
      → v.tlv_levels < 256
      → HasVar v s
      → Leaves (HasVar v) (parse_tlvs g pkt frame depth n r hdr hlen s)
  unfolding parse_tlvs
  parse_tlvs-HasVar zero n r hdr hlen v s lv h = tt
  parse_tlvs-HasVar (suc depth) n r hdr hlen v s lv h =
      let back =
        λ (r' : NodeRef) (hdr' : Ptr) (hlen' : ℕ) (v' : CtrlVar) (s' : State M)
            (lv' : v'.tlv_levels < 256) (h' : HasVar v' s').
          parse_tlvs-HasVar depth n r' hdr' hlen' v' s' lv' h' in
      elim (Option-cases ((g.node r).proto_def)) [
        | inl e ↦ by_none depth n r hdr hlen v s lv h back _ refl e
        | inr (def, e) ↦ by_def depth n r hdr hlen v s lv h back _ def _ refl e refl
      ]
