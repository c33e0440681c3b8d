-- ===== src/Parser/Next.antt =====
-- The length checks and the choice of the next node in __xdp2_parse of src/lib/xdp2/parser.c.
use xdp.Base.{
  ℕ, ℤ, pos, ◌≡◌, refl, Bool, ◌&&◌, not, Option, none, some, ltb, leb, ltb_ℤ, if◌then◌else◌, is_set,
  as_size,
}
use xdp.Parser.Codes.{stop_length}
use xdp.Parser.Types.{Packet, Ptr, NodeRef, Store, ProtoDef, ParseNode, Table}
use xdp.Parser.Lookup.{lookup_node}

-- The "protocol definition length checks": the length of the header, or the code to stop with.
pub data Length : Type 0 where
  good : ℕ → Length
  bad : ℤ → Length

-- `len` is a `size_t` and the length that a protocol gives is a `ssize_t`, so `len < hlen` compares
-- them as `size_t`, and `hlen < min_len` compares signed.
unfoldable pub check_length : ProtoDef → Packet → Ptr → ℕ → Length
check_length d pkt hdr len = if ltb len d.min_len then bad stop_length else elim d.ops.len [
  | none ↦ good d.min_len
  | some f ↦
      let hlen = f pkt hdr len in
      if ltb len (as_size hlen)
      then bad stop_length
      else if ltb_ℤ hlen (pos d.min_len)
      then bad (if ltb_ℤ hlen (pos 0) then hlen else stop_length)
      else good (as_size hlen)
]

-- The node that is parsed next, which may be null; a code to stop with; a read that goes wrong.
pub data Next : Type 0 where
  found : Option NodeRef → Next
  quit : ℤ → Next
  crash : Next

-- `if (type < 0) { ret = type; goto out; }`, then the lookup
unfoldable pub lookup_next : ℤ → Table NodeRef → Next
lookup_next type table = if ltb_ℤ type (pos 0) then quit type else found (lookup_node type table)

module _ {M : Type 0} where
  -- The first lookup, under `if (proto_table && (next_proto || next_proto_keyin))`. The key stands in
  -- an array of `num_keys` keys.
  unfoldable pub table_next : ParseNode M → ProtoDef → ℕ → Packet → Ptr → Store M → Next
  table_next node d num_keys pkt hdr store = elim node.proto_table [
    | none ↦ found none
    | some table ↦ elim d.ops.next_proto_keyin [
      | some keyin ↦
          if leb num_keys node.key_sel
          then crash
          else lookup_next (keyin pkt hdr (store.keys node.key_sel)) table
      | none ↦ elim d.ops.next_proto [
        | none ↦ found none
        | some next ↦ lookup_next (next pkt hdr) table
      ]
    ]
  ]

  -- "Try wildcard node": the second lookup replaces the wildcard node.
  unfoldable pub wildcard_next : ParseNode M → ProtoDef → Packet → Ptr → Next
  wildcard_next node d pkt hdr = elim node.wildcard_node [
    | none ↦ quit node.unknown_ret
    | some w ↦ elim node.proto_table [
      | none ↦ found (some w)
      | some table ↦ elim d.ops.next_proto [
        | none ↦ found (some w)
        | some next ↦ lookup_next (next pkt hdr) table
      ]
    ]
  ]

  unfoldable pub find_next : ParseNode M → ProtoDef → ℕ → Packet → Ptr → Store M → Next
  find_next node d num_keys pkt hdr store = elim (table_next node d num_keys pkt hdr store) [
    | found (some r) ↦ found (some r)
    | found none ↦ wildcard_next node d pkt hdr
    | quit code ↦ quit code
    | crash ↦ crash
  ]

  -- `!proto_table && !wildcard_node`
  unfoldable pub is_leaf : ParseNode M → Bool
  is_leaf node = not (is_set node.proto_table) && not (is_set node.wildcard_node)

-- To split on the length checks and on the next node with the equation kept.
pub data LengthCase (l : Length) : Type 0 where
  is_good : (hlen : ℕ) → l ≡ good hlen → LengthCase l
  is_bad : (code : ℤ) → l ≡ bad code → LengthCase l

pub length_cases : (l : Length) → LengthCase l
length_cases (good hlen) = is_good hlen refl
length_cases (bad code) = is_bad code refl

pub data NextCase (x : Next) : Type 0 where
  is_found : (next : Option NodeRef) → x ≡ found next → NextCase x
  is_quit : (code : ℤ) → x ≡ quit code → NextCase x
  is_crash : x ≡ crash → NextCase x

pub next_cases : (x : Next) → NextCase x
next_cases (found next) = is_found next refl
next_cases (quit code) = is_quit code refl
next_cases crash = is_crash refl
