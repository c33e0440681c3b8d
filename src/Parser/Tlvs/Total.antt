-- ===== src/Parser/Tlvs/Total.antt =====
-- xdp2_parse_tlvs on a graph that is in order: it returns a code, whatever the bytes are.
use xdp.Base.{
  ℕ, zero, suc, ◌+◌, ◌≤◌, ◌<◌, ℤ, true, some, ◌≡◌, inl, inr, sub_size, sub_size_exact, size_mod,
  ◌≢◌, length, Bool-cases, Option-cases, arith,
}
use xdp.Parser.Types.{
  Packet, Ptr, NodeRef, TlvRef, State, TlvsDef, TlvDef, DefBody, Body, ProtoDef, TlvsNode, Graph,
}
use xdp.Parser.Run.{Run, Returns, >>=-Returns, on_return-Returns}
use xdp.Parser.Lookup.{lookup_opt}
use xdp.Parser.Tlvs.{
  too_short, nested_start, again, crash, overlay_next, after_cases, ends, goes, crashes, Nested,
  run_tlv_ops, run_nested, parse_again, parse_one_tlv, dispatch_tlv, parse_tlvs,
}
use xdp.Parser.Tlvs.Scan.{Objects, stop, outside, unfinished, object, play, tlvs_loop-scan}
use xdp.Parser.Tlvs.Window.{Progresses, Within, scan-Within}

-- A node of TLVs over a protocol of TLVs.
pub record IsTlvs {M : Type 0} (g : Graph M) (r : NodeRef) : Type 0 where
  pub node : TlvsNode
  pub proto : ProtoDef
  pub proto_tlvs : TlvsDef
  pub node_eq : (g.node r).body ≡ Body.tlvs node
  pub proto_eq : (g.node r).proto_def ≡ some proto
  pub proto_body : proto.body ≡ DefBody.tlvs proto_tlvs
  pub progress : Progresses proto_tlvs

-- What a graph has to meet for its TLV lists to be parsed: TLV nodes have definitions, overlays and
-- nested lists do not run in circles (`rank`, `level` and `node_level` go down along them), and a
-- nested list starts inside its TLV.
pub record TlvsWellFormed {M : Type 0} (g : Graph M) (pkt : Packet) : Type 0 where
  pub rank : TlvRef → ℕ
  pub level : TlvRef → ℕ
  pub node_level : NodeRef → ℕ
  pub defined : (t : TlvRef) → (d : TlvDef) × ((g.tlv_node t).proto_tlv_def ≡ some d)
  pub overlay_def :
      (t next : TlvRef) (d : TlvDef) (hdr : Ptr) (tlv_len : ℕ)
      → overlay_next (g.tlv_node t) (some d) pkt hdr tlv_len ≡ again next
      → (rank next < rank t) × (level next ≤ level t)
  pub table :
      (r : NodeRef) (tn : TlvsNode) (type : ℤ) (t : TlvRef)
      → (g.node r).body ≡ Body.tlvs tn
      → lookup_opt type tn.tlv_proto_table ≡ some t
      → level t ≤ node_level r
  pub wildcard :
      (r : NodeRef) (tn : TlvsNode) (w : TlvRef)
      → (g.node r).body ≡ Body.tlvs tn
      → tn.tlv_wildcard_node ≡ some w
      → level w ≤ node_level r
  pub no_short_wildcard :
      (r : NodeRef) (tn : TlvsNode) (w t : TlvRef) (d : TlvDef)
      → (g.node r).body ≡ Body.tlvs tn
      → tn.tlv_wildcard_node ≡ some w
      → (g.tlv_node t).proto_tlv_def ≡ some d
      → d.min_len ≤ 1
  pub nested :
      (t : TlvRef) (r : NodeRef)
      → (g.tlv_node t).nested_node ≡ some r
      → (node_level r < level t) × IsTlvs g r
  pub nested_inside :
      (t : TlvRef) (d : TlvDef) (hdr : Ptr) (tlv_len : ℕ)
      → (g.tlv_node t).proto_tlv_def ≡ some d
      → nested_start d pkt hdr tlv_len ≤ tlv_len
  pub nested_at_start :
      (t : TlvRef) (r : NodeRef) (is : IsTlvs g r) (hdr : Ptr)
      → (g.tlv_node t).nested_node ≡ some r
      → is.proto_tlvs.start_offset pkt hdr ≡ 0

-- A walk inside a window returns if every visit inside the window does.
pub play-Returns :
    {M : Type 0} (visit : ℤ → Ptr → ℕ → State M → Run M) (hi lo : Ptr)
    → ((type : ℤ) (cp : Ptr) (l : ℕ) (s : State M)
        → lo ≤ cp
        → 0 < l
        → cp + l ≤ hi
        → Returns (visit type cp l s))
    → (os : Objects) (from : Ptr) → lo ≤ from
    → Within hi from os
    → (s : State M) → Returns (play visit os s)
unfolding play
play-Returns visit hi lo hv (stop code) from h w s = tt
play-Returns visit hi lo hv outside from h w s = w
play-Returns visit hi lo hv unfinished from h w s = w
play-Returns visit hi lo hv (object cp l type rest) from h w s =
    >>=-Returns (visit type cp l s) _ (hv type cp l s (omega arith) w.1 w.2)
      λ s'. play-Returns visit hi lo hv rest (cp + l) (omega arith) w.3 s'

overlay_next-ne-crash :
    {M : Type 0} (g : Graph M) (t : TlvRef) (d : TlvDef) (pkt : Packet) (hdr : Ptr) (l : ℕ)
    → overlay_next (g.tlv_node t) (some d) pkt hdr l ≢ crash
unfolding overlay_next
overlay_next-ne-crash g t d pkt hdr l e = ground arith

not-too_short : (d : TlvDef) (l : ℕ) → d.min_len ≤ 1 → 0 < l → ¬ (too_short (some d) l ≡ true)
unfolding too_short
not-too_short d l m pos e = ground arith

-- Nested lists of level below `bound` that lie in the packet return.
abbrev NestedReturns :
    {M : Type 0} (g : Graph M) (pkt : Packet) (frame n bound : ℕ)
    → (NodeRef → ℕ)
    → Nested g pkt frame
    → Type 0
NestedReturns g pkt frame n bound node_level nested =
    (r : NodeRef) (is : IsTlvs g r) (hdr : Ptr) (hlen : ℕ) (s : _)
    → node_level r < bound
    → is.proto_tlvs.start_offset pkt hdr ≡ 0
    → hdr + hlen ≤ length pkt
    → hlen < n
    → Returns (nested r hdr hlen s)

module _ {M : Type 0} (g : Graph M) (pkt : Packet) (frame n : ℕ) (wf : TlvsWellFormed g pkt)
    (nested : Nested g pkt frame) (bound : ℕ)
    (ih : NestedReturns g pkt frame n bound wf.node_level nested)
    (small : length pkt < size_mod) where
  run_tlv_ops-Returns :
      (t : TlvRef) (hdr : Ptr) (l : ℕ) (s : State M)
      → Returns (run_tlv_ops g pkt frame (g.tlv_node t) hdr l s)
  unfolding run_tlv_ops
  run_tlv_ops-Returns t hdr l s = tt

  run_nested-Returns :
      (t0 t : TlvRef) (d : TlvDef) (hdr : Ptr) (l : ℕ) (s : State M)
      → (g.tlv_node t0).proto_tlv_def ≡ some d
      → wf.level t ≤ bound
      → hdr + l ≤ length pkt
      → l < n
      → Returns (run_nested g pkt frame nested (g.tlv_node t) (some d) hdr l s)
  unfolding run_nested
  run_nested-Returns t0 t d hdr l s def h inside f =
      elim (Option-cases ((g.tlv_node t).nested_node)) [
        | inl e ↦ rw e tt
        | inr (r, e) ↦ rw e (
            let off = nested_start d pkt hdr l in
            let lt = wf.nested t r e in
            let len = sub_size_exact l off (wf.nested_inside t0 d hdr l def) (omega arith) in
            on_return-Returns _ _
              (ih r lt.1 (hdr + off) (sub_size l off) _ (omega arith)
                (wf.nested_at_start t r lt.1 (hdr + off) e)
                (omega (arith, len, wf.nested_inside t0 d hdr l def)) (omega (arith, len)))
              λ code s'. tt)
      ]

  parse_again-Returns :
      (fuel : ℕ) (r : NodeRef) (tn : TlvsNode) (t0 t : TlvRef) (d : TlvDef) (hdr : Ptr) (l : ℕ)
      (s : State M)
      → (g.node r).body ≡ Body.tlvs tn
      → (g.tlv_node t0).proto_tlv_def ≡ some d
      → wf.rank t < fuel
      → wf.level t ≤ bound
      → 0 < l
      → hdr + l ≤ length pkt
      → l < n
      → Returns (parse_again g pkt frame fuel nested tn (some d) t hdr l s)
  unfolding parse_again
  parse_again-Returns zero r tn t0 t d hdr l s node def f h pos inside small = absurd (omega arith)
  parse_again-Returns (suc fuel) r tn t0 t d hdr l s node def f h pos inside small =
      elim (Bool-cases (too_short (some d) l)) [
        | inl short ↦
            rw (short, parse_again)
              (elim (Option-cases tn.tlv_wildcard_node) [
                | inl e ↦ rw e tt
                | inr (w, e) ↦
                    absurd
                      (not-too_short d l (wf.no_short_wildcard r tn w t0 d node e def) pos short)
              ])
        | inr long ↦
            rw (long, parse_again)
              (>>=-Returns (run_tlv_ops g pkt frame (g.tlv_node t) hdr l s) _
                (run_tlv_ops-Returns t hdr l s)
                λ s1.
                  >>=-Returns (run_nested g pkt frame nested (g.tlv_node t) (some d) hdr l s1) _
                    (run_nested-Returns t0 t d hdr l s1 def h inside small)
                    λ s2. elim (after_cases (overlay_next (g.tlv_node t) (some d) pkt hdr l)) [
                      | ends code e ↦ rw e tt
                      | goes next e ↦ rw e (
                          let down = wf.overlay_def t next d hdr l e in
                          parse_again-Returns fuel r tn t0 next d hdr l s2 node def (omega arith)
                            (omega arith) pos inside small)
                      | crashes e ↦ absurd (overlay_next-ne-crash g t d pkt hdr l e)
                    ])
      ]

  -- One TLV inside the packet is dealt with, whatever its type.
  dispatch_tlv-Returns :
      (r : NodeRef) (tn : TlvsNode) (type : ℤ) (cp : Ptr) (l : ℕ) (s : State M)
      → (g.node r).body ≡ Body.tlvs tn
      → wf.node_level r ≤ bound
      → ((t : TlvRef) → wf.rank t < n)
      → 0 < l
      → cp + l ≤ length pkt
      → l < n
      → Returns (dispatch_tlv g pkt frame n nested tn type cp l s)
  unfolding dispatch_tlv parse_one_tlv
  dispatch_tlv-Returns r tn type cp l s node h ranks pos inside f =
      elim (Option-cases (lookup_opt type tn.tlv_proto_table)) [
        | inl e ↦
            rw (e, dispatch_tlv)
              (elim (Option-cases tn.tlv_wildcard_node) [
                | inl e' ↦ rw e' tt
                | inr (w, e') ↦ rw e' (one w (wf.wildcard r tn w node e'))
              ])
        | inr (t, e) ↦ rw (e, dispatch_tlv) (one t (wf.table r tn type t node e))
      ]
    where
      one :
          (t : TlvRef)
          → wf.level t ≤ wf.node_level r
          → Returns (parse_one_tlv g pkt frame n nested tn t cp l s)
      one t lv =
          let d = wf.defined t in
          rw d.1 (
            parse_again-Returns n r tn t t d.0 cp l s node d.1 (ranks t) (omega arith) pos inside f)

module _ {M : Type 0} (g : Graph M) (pkt : Packet) (frame n : ℕ) (wf : TlvsWellFormed g pkt)
    (ranks : (t : TlvRef) → wf.rank t < n) (small : length pkt < size_mod) where
  -- On a graph in order, with more rounds than bytes and than overlays in a row, and more depth than
  -- the level of the node, the TLVs of a header that lies in a packet of less than 2^64 bytes and whose
  -- list starts inside it are parsed to a code: no loop runs for ever, and the engine itself reads
  -- nothing outside the packet.
  pub parse_tlvs-Returns :
      (depth : ℕ) (r : NodeRef) (is : IsTlvs g r) (hdr : Ptr) (hlen : ℕ) (s : State M)
      → wf.node_level r < depth
      → is.proto_tlvs.start_offset pkt hdr ≤ hlen
      → hdr + hlen ≤ length pkt
      → hlen < n
      → Returns (parse_tlvs g pkt frame depth n r hdr hlen s)
  unfolding parse_tlvs
  parse_tlvs-Returns zero r is hdr hlen s d start inside f = absurd (omega arith)
  parse_tlvs-Returns (suc depth) r is hdr hlen s d start inside f =
      let off = is.proto_tlvs.start_offset pkt hdr in
      let len = sub_size_exact hlen off start (omega arith) in
      rw (is.node_eq, parse_tlvs, is.proto_eq, is.proto_body)
        (rw
          (tlvs_loop-scan g pkt frame n (parse_tlvs g pkt frame depth n) is.node is.proto_tlvs n
            (hdr + off) (sub_size hlen off) 0 s)
          (play-Returns _ (hdr + hlen) (hdr + off)
            (λ type cp l s' lo pos hi.
              dispatch_tlv-Returns g pkt frame n wf (parse_tlvs g pkt frame depth n)
                (wf.node_level r)
                (λ r' is' hdr' hlen' s'' lt st ins f'.
                  parse_tlvs-Returns depth r' is' hdr' hlen' s'' (omega arith) (omega arith) ins f')
                small r is.node type cp l s' is.node_eq (omega arith) ranks pos (omega arith)
                (omega arith))
            _ (hdr + off) (omega arith)
            (scan-Within is.node.max_tlvs is.proto_tlvs pkt (hdr + hlen) is.progress inside n
              (hdr + off) (sub_size hlen off) 0 (omega (arith, len)) (omega (arith, len))
              (omega (arith, len)))
            s))
