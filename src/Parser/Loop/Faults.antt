-- ===== src/Parser/Loop/Faults.antt =====
-- Inputs at which __xdp2_parse does something else than its comments say.
use xdp.Base.{
  ℕ, suc, ◌+◌, ◌*◌, ◌%◌, ◌^◌, ◌≤◌, ◌<◌, ℤ, pos, negsuc, true, none, some, ◌≡◌, as_size, arith,
}
use xdp.Parser.Codes.{stop_length}
use xdp.Parser.Types.{Packet, Ptr, NodeRef, Store, State, ProtoDef, ParseNode, Table, Parser}
use xdp.Parser.Run.{Run}
use xdp.Parser.Ctl.{go}
use xdp.Parser.Lookup.{lookup_node}
use xdp.Parser.Next.{bad, check_length, found, find_next, table_next, wildcard_next, lookup_next}
use xdp.Parser.Loop.Window.{InBounds}
use xdp.Parser.Loop.{Cursor, enter_encap, round, parse_loop}

-- The negative code that a length function returns for an error, as a `ssize_t`, is lost: compared as
-- a `size_t` it is longer than any packet below 2^63 bytes, so that the parser stops with
-- `XDP2_STOP_LENGTH`.
pub negative_length :
    (d : ProtoDef) (f : Packet → Ptr → ℕ → ℤ) (pkt : Packet) (hdr : Ptr) (len k : ℕ)
    → d.ops.len ≡ some f
    → f pkt hdr len ≡ negsuc k
    → k < 2 ^ 63
    → len < 2 ^ 63
    → check_length d pkt hdr len ≡ bad stop_length
unfolding check_length as_size
negative_length d f pkt hdr len k ops e hk hl = rw (ops, check_length, e) (ground arith)

module _ {M : Type 0} where
  -- A wildcard node of a node with a table and a next protocol that takes no key is not parsed: where the table has no
  -- entry, the second lookup puts the null pointer of the first in place of the wildcard node.
  pub wildcard_lost :
      (node : ParseNode M) (d : ProtoDef) (num_keys : ℕ) (pkt : Packet) (hdr : Ptr)
      (store : Store M) (table : Table NodeRef) (f : Packet → Ptr → ℤ) (type : ℕ) (w : NodeRef)
      → node.proto_table ≡ some table
      → d.ops.next_proto ≡ some f
      → d.ops.next_proto_keyin ≡ none
      → node.wildcard_node ≡ some w
      → f pkt hdr ≡ pos type
      → lookup_node (pos type) table ≡ none
      → find_next node d num_keys pkt hdr store ≡ found none
  unfolding find_next table_next wildcard_next lookup_next
  wildcard_lost node d num_keys pkt hdr store table f type w et en ek ew ef el =
      ground (arith, et, en, ek, ew, ef, el)

  -- The round behind it reads through that null pointer.
  pub null_node_faults :
      (p : Parser M) (pkt : Packet) (depth n fuel : ℕ) (c : Cursor M)
      → c.node ≡ none
      → parse_loop p pkt depth n (suc fuel) c ≡ Run.fault
  unfolding parse_loop round
  null_node_faults p pkt depth n fuel c e = rw (e, parse_loop, round)

  -- With `max_frames` frames the last has the number `max_frames - 1`. An encapsulation that is met
  -- there, within the limit on encapsulations and with no node to run at it, does not stay in that
  -- frame: it goes on to the frame behind the last one.
  pub frame_overrun :
      (p : Parser M) (pkt : Packet) (depth n end : ℕ) (d : ProtoDef) (c : Cursor M) (s : State M)
      → InBounds p end c
      → d.encap ≡ true
      → p.config.atencap_node ≡ none
      → (s.var.encaps + 1) % 256 ≤ p.config.max_encaps
      → c.frame_num + 1 ≡ p.config.max_frames
      → (c' : Cursor M) × (enter_encap p pkt depth n d c s ≡ go c')
        × (c'.frame ≡ p.config.metameta_size + p.config.max_frames * p.config.frame_size)
  unfolding enter_encap
  frame_overrun p pkt depth n end d c s v enc node under last = (
    record c {
      frame = c.frame + p.config.frame_size;
      frame_num = c.frame_num + 1;
      state = record s { var = record (s.var) { encaps = (s.var.encaps + 1) % 256 } };
    },
    ground arith,
    rw (← last) (omega (arith, v.frame)),
  )
