-- ===== src/Parser/Loop/Fuel.antt =====
-- The rounds of the main loop: `max_nodes + 1` are all that it can make.
use xdp.Base.{
  ℕ, zero, suc, ◌+◌, ◌<◌, ◌≤◌, ◌≡◌, ◌≢◌, refl, Option, arith, Bool-cases, Option-cases, inl, inr,
}
use xdp.Parser.Types.{Packet, NodeRef, State, ProtoDef, ParseNode, Parser}
use xdp.Parser.Run.{Run}
use xdp.Parser.Ctl.{
  go, Keeps, Keeps-mono, Keeps-trivial, >>=-Keeps, ctl_cases, is_go, is_out, is_leave, is_fault,
  is_out_of_fuel,
}
use xdp.Parser.Next.{
  check_length, find_next, is_leaf, length_cases, is_good, is_bad, next_cases, is_found, is_quit,
  is_crash,
}
use xdp.Parser.Loop.{
  Cursor, process, enter_encap, advance, proceed, round, parse_loop, start, parse,
}

module _ {M : Type 0} (p : Parser M) (pkt : Packet) (depth n : ℕ) where
  enter_encap-nodes :
      (d : ProtoDef) (c : Cursor M) (s : State M)
      → Keeps (λ c'. c'.nodes ≡ c.nodes) (enter_encap p pkt depth n d c s)
  unfolding enter_encap
  enter_encap-nodes d c s = ground arith

  advance-nodes :
      (node : ParseNode M) (d : ProtoDef) (hlen : ℕ) (next : Option NodeRef) (c : Cursor M)
      → Keeps (λ c'. c'.nodes + 1 ≡ c.nodes) (advance p pkt depth n node d hlen next c)
  unfolding advance
  advance-nodes node d hlen next c = ground arith

  proceed-nodes :
      (r : NodeRef) (d : ProtoDef) (hlen : ℕ) (c : Cursor M)
      → Keeps (λ c'. c'.nodes + 1 ≡ c.nodes) (proceed p pkt depth n r d hlen c)
  unfolding proceed
  proceed-nodes r d hlen c =
      >>=-Keeps (λ _. Unit {0}) _ (process p pkt depth n r d hlen c) _ (Keeps-trivial _)
        λ s _. elim (Bool-cases (is_leaf (p.graph.node r))) [
          | inl leaf ↦ rw leaf tt
          | inr inner ↦ rw inner (
              >>=-Keeps _ _ (enter_encap p pkt depth n d c s) _ (enter_encap-nodes d c s) λ c' e'.
                elim (next_cases
                  (find_next (p.graph.node r) d p.config.num_keys pkt c.hdr c'.state.store)) [
                    | is_quit code e ↦ rw e tt
                    | is_crash e ↦ rw e tt
                    | is_found next e ↦ rw e (
                        Keeps-mono {P = λ c2. c2.nodes + 1 ≡ c'.nodes}
                          {Q = λ c2. c2.nodes + 1 ≡ c.nodes} (λ c2 m. omega arith)
                          (advance p pkt depth n (p.graph.node r) d hlen next c')
                          (advance-nodes (p.graph.node r) d hlen next c'))
                  ])
        ]

  round-nodes : (c : Cursor M) → Keeps (λ c'. c'.nodes + 1 ≡ c.nodes) (round p pkt depth n c)
  unfolding round
  round-nodes c = elim (Option-cases c.node) [
    | inl e ↦ rw (e, round) tt
    | inr (r, e) ↦
        rw (e, round)
          (elim (Option-cases ((p.graph.node r).proto_def)) [
            | inl e' ↦ rw e' tt
            | inr (d, e') ↦ rw e' (elim (length_cases (check_length d pkt c.hdr c.len)) [
              | is_bad code e3 ↦ rw e3 tt
              | is_good hlen e3 ↦ rw e3 (proceed-nodes r d hlen c)
            ])
          ])
  ]

  parse_loop-fuel :
      (fuel more : ℕ) (c : Cursor M)
      → c.nodes < fuel
      → fuel < more
      → parse_loop p pkt depth n more c ≡ parse_loop p pkt depth n fuel c
  unfolding parse_loop
  parse_loop-fuel zero more c h k = absurd (omega arith)
  parse_loop-fuel (suc fuel) zero c h k = absurd (omega arith)
  parse_loop-fuel (suc fuel) (suc more) c h k =
      let less = round-nodes c in
      elim (ctl_cases (round p pkt depth n c)) [
        | is_go c' e ↦
            let m = rw e at less in
            rw (e, parse_loop) (parse_loop-fuel fuel more c' (omega (arith, m)) (omega arith))
        | is_out code frame s e ↦ rw (e, parse_loop)
        | is_leave code s e ↦ rw (e, parse_loop)
        | is_fault e ↦ rw (e, parse_loop)
        | is_out_of_fuel e ↦ rw (e, parse_loop)
      ]

  -- So many rounds lead from one to another.
  pub data Reaches : ℕ → Cursor M → Cursor M → Type 0 where
    here : (c : Cursor M) → Reaches 0 c c
    further :
        (k : ℕ) (c c' last : Cursor M)
        → round p pkt depth n c ≡ go c'
        → Reaches k c' last
        → Reaches (suc k) c last

  -- From `c` on a last round comes within `bound` rounds, and `result` is what it gives.
  abbrev pub Ends : ℕ → Cursor M → Run M → Type 0
  Ends bound c result =
      (k : ℕ) × (last : Cursor M) × (k ≤ bound)
      × Reaches k c last
      × ((c' : Cursor M) → round p pkt depth n last ≢ go c')
      × (result ≡ parse_loop p pkt depth n 1 last)

  parse_loop-Ends :
      (fuel : ℕ) (c : Cursor M) → c.nodes < fuel → Ends c.nodes c (parse_loop p pkt depth n fuel c)
  unfolding parse_loop
  parse_loop-Ends zero c h = absurd (omega arith)
  parse_loop-Ends (suc fuel) c h =
      let less = round-nodes c in
      elim (ctl_cases (round p pkt depth n c)) [
        | is_go c' e ↦
            let m = rw e at less in
            let rest = parse_loop-Ends fuel c' (omega (arith, m)) in
            (
              suc rest.0,
              rest.1,
              omega (arith, m, rest.2),
              further rest.0 c c' rest.1 e rest.3,
              rest.4,
              rw (e, parse_loop) rest.5,
            )
        | is_out code frame s e ↦
            (0, c, omega arith, here c, (λ c' g. absurd (cc)), rw (e, parse_loop) refl)
        | is_leave code s e ↦
            (0, c, omega arith, here c, (λ c' g. absurd (cc)), rw (e, parse_loop) refl)
        | is_fault e ↦ (0, c, omega arith, here c, (λ c' g. absurd (cc)), rw (e, parse_loop) refl)
        | is_out_of_fuel e ↦
            (0, c, omega arith, here c, (λ c' g. absurd (cc)), rw (e, parse_loop) refl)
      ]

  -- On any graph, the main loop comes within `max_nodes + 1` rounds to a round after which it does not go
  -- on, and what it returns is what this last round gives, so that more rounds change nothing. (A round
  -- itself can want more levels of nesting or steps for its TLVs than it is given.)
  pub parse-rounds :
      (more : ℕ) (hdr len : ℕ) (s : State M)
      → p.config.max_nodes + 1 < more
      → Ends p.config.max_nodes (start p pkt depth n hdr len s) (parse p pkt depth n hdr len s)
        × (parse_loop p pkt depth n more (start p pkt depth n hdr len s)
            ≡ parse p pkt depth n hdr len s)
  unfolding parse start
  parse-rounds more hdr len s h =
      let begin = start p pkt depth n hdr len s in
      (
        parse_loop-Ends (p.config.max_nodes + 1) begin (omega arith),
        parse_loop-fuel (p.config.max_nodes + 1) more begin (omega arith) h,
      )
