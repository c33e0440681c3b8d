-- ===== src/Parser/Loop/Window.antt =====
-- Where the main loop stands: inside the packet and inside the metadata frames.
use xdp.Base.{
  ℕ, ◌+◌, ◌*◌, ◌≤◌, ◌<◌, Option, ◌≡◌, as_size, sub_size_exact, size_mod, Bool-cases, Option-cases,
  inl, inr, arith,
}
use xdp.Parser.Types.{Packet, Ptr, NodeRef, State, ProtoDef, ParseNode, Parser}
use xdp.Parser.Ctl.{Keeps, Keeps-mono, Keeps-trivial, >>=-Keeps}
use xdp.Parser.Next.{
  good, check_length, find_next, is_leaf, length_cases, is_good, is_bad, next_cases, is_found,
  is_quit, is_crash,
}
use xdp.Parser.Loop.{Cursor, process, enter_encap, advance, proceed, round, start}

-- The header and what is left of the packet make up the packet; the frame is one of the frames
-- 0 to `max_frames`; the loop has visited `max_nodes - nodes` nodes.
pub record InBounds {M : Type 0} (p : Parser M) (end : Ptr) (c : Cursor M) : Type 0 where
  pub window : c.hdr + c.len ≡ end
  pub small : c.len < size_mod
  pub frame : c.frame ≡ p.config.metameta_size + c.frame_num * p.config.frame_size
  pub frames : c.frame_num ≤ p.config.max_frames

-- A length that passes the checks lies between the smallest length of the protocol and what is left
-- of the packet.
pub check_length_good :
    (d : ProtoDef) (pkt : Packet) (hdr : Ptr) (len hlen : ℕ)
    → check_length d pkt hdr len ≡ good hlen
    → (d.min_len ≤ hlen) × (hlen ≤ len)
unfolding check_length as_size
check_length_good d pkt hdr len hlen e = ground arith

module _ {M : Type 0} (p : Parser M) (pkt : Packet) (depth n : ℕ) (end : Ptr) where
  enter_encap-InBounds :
      (d : ProtoDef) (c : Cursor M) (s : State M)
      → InBounds p end c
      → Keeps
          (λ c'. InBounds p end c' × (c'.hdr ≡ c.hdr) × (c'.len ≡ c.len) × (c'.nodes ≡ c.nodes))
          (enter_encap p pkt depth n d c s)
  unfolding enter_encap
  enter_encap-InBounds d c s v = ground arith

  advance-InBounds :
      (node : ParseNode M) (d : ProtoDef) (hlen : ℕ) (next : Option NodeRef) (c : Cursor M)
      → InBounds p end c
      → hlen ≤ c.len
      → Keeps
          (λ c'. InBounds p end c' × (c'.nodes + 1 ≡ c.nodes))
          (advance p pkt depth n node d hlen next c)
  unfolding advance
  advance-InBounds node d hlen next c v h = ground (arith, sub_size_exact c.len hlen h v.small)

  -- The next round starts from a place in bounds, with one node less to visit.
  abbrev pub Moves : Cursor M → Cursor M → Type 0
  Moves c c' = InBounds p end c' × (c'.nodes + 1 ≡ c.nodes)

  proceed-InBounds :
      (r : NodeRef) (d : ProtoDef) (hlen : ℕ) (c : Cursor M)
      → InBounds p end c
      → hlen ≤ c.len
      → Keeps (Moves c) (proceed p pkt depth n r d hlen c)
  unfolding proceed
  proceed-InBounds r d hlen c v h =
      >>=-Keeps (λ _. Unit {0}) (Moves c) (process p pkt depth n r d hlen c) _
        (Keeps-trivial (process p pkt depth n r d hlen c))
        λ s _. elim (Bool-cases (is_leaf (p.graph.node r))) [
          | inl leaf ↦ rw leaf tt
          | inr inner ↦ rw inner (
              >>=-Keeps _ (Moves c) (enter_encap p pkt depth n d c s) _
                (enter_encap-InBounds d c s v)
                λ c' w.
                  elim (next_cases
                    (find_next (p.graph.node r) d p.config.num_keys pkt c.hdr c'.state.store)) [
                      | is_quit code e ↦ rw e tt
                      | is_crash e ↦ rw e tt
                      | is_found next e ↦ rw e (
                          Keeps-mono (λ c2 m. (m.0, omega arith))
                            (advance p pkt depth n (p.graph.node r) d hlen next c')
                            (advance-InBounds (p.graph.node r) d hlen next c' w.0 (omega arith)))
                    ])
        ]

  -- A round from a place in bounds keeps to the packet and to the frames 0 to `max_frames`, and takes
  -- one node off the nodes that may still be visited.
  pub round-InBounds : (c : Cursor M) → InBounds p end c → Keeps (Moves c) (round p pkt depth n c)
  unfolding round
  round-InBounds c v = elim (Option-cases c.node) [
    | inl e ↦ rw (e, round) tt
    | inr (r, e) ↦
        rw (e, round)
          (elim (Option-cases ((p.graph.node r).proto_def)) [
            | inl e' ↦ rw e' tt
            | inr (d, e') ↦ rw e' (elim (length_cases (check_length d pkt c.hdr c.len)) [
              | is_bad code e3 ↦ rw e3 tt
              | is_good hlen e3 ↦
                  rw e3
                    (proceed-InBounds r d hlen c v (check_length_good d pkt c.hdr c.len hlen e3).1)
            ])
          ])
  ]

  pub start-InBounds :
      (hdr : Ptr) (len : ℕ) (s : State M)
      → hdr + len ≡ end
      → len < size_mod
      → InBounds p end (start p pkt depth n hdr len s)
  unfolding start
  start-InBounds hdr len s e small = omega arith
