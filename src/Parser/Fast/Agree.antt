-- ===== src/Parser/Fast/Agree.antt =====
-- The fast path next to the main loop.
use xdp.Base.{
  ℕ, ◌<◌, ◌^◌, ℤ, pos, negsuc, true, false, none, some, ◌≡◌, ◌≢◌, ◌⊎◌, refl, inl, inr, ltb, ltb_ℤ,
  as_size, Bool-cases, Option-cases, arith,
}
use xdp.Parser.Codes.{stop_okay, stop_length}
use xdp.Parser.Types.{
  Packet, Ptr, NodeRef, State, Store, ProtoDef, DefBody, Body, ParseNode, Parser,
}
use xdp.Parser.Lookup.{lookup_node}
use xdp.Parser.Next.{
  good, bad, check_length, find_next, table_next, wildcard_next, lookup_next, quit,
}
use xdp.Parser.Loop.{parse_body}
use xdp.Parser.Fast.{fast_length, fast_next, fast_node, fast_body}

-- A header whose length function gives less than the smallest length of the protocol.
pub record Short (d : ProtoDef) (pkt : Packet) (hdr : Ptr) (len : ℕ) : Type 0 where
  pub hlen : ℕ
  pub below : hlen < d.min_len
  pub fast : fast_length d pkt hdr len ≡ good hlen
  pub checked : check_length d pkt hdr len ≡ bad stop_length

-- A number that a `ssize_t` can hold.
abbrev pub IsSsize : ℤ → Type 0
IsSsize (pos k) = k < 2 ^ 63
IsSsize (negsuc k) = k < 2 ^ 63

length_by :
    (d : ProtoDef) (pkt : Packet) (hdr : Ptr) (len : ℕ) (f : Packet → Ptr → ℕ → ℤ) (z : ℤ)
    → len < 2 ^ 63
    → d.ops.len ≡ some f
    → f pkt hdr len ≡ z
    → IsSsize z
    → ltb len d.min_len ≡ false
    → (fast_length d pkt hdr len ≡ check_length d pkt hdr len) ⊎ Short d pkt hdr len
unfolding fast_length check_length as_size
length_by d pkt hdr len f (negsuc k) small e ez h fits =
    inl (rw (e, fast_length, check_length, ez, fits) (ground arith))
length_by d pkt hdr len f (pos k) small e ez h fits = elim (Bool-cases (ltb len k)) [
  | inl over ↦ inl (rw (e, fast_length, check_length, ez, fits, over))
  | inr inside ↦ elim (Bool-cases (ltb k d.min_len)) [
    | inl below ↦ inr (record {
      hlen = k;
      below = ground arith;
      fast = rw (e, fast_length, ez, fits, inside);
      checked = rw (e, check_length, ez, fits, inside) (ground arith);
    })
    | inr enough ↦ inl (rw (e, fast_length, check_length, ez, fits, inside) (ground arith))
  ]
]

-- The length checks of the fast path are those of the main loop, but for a header shorter than the
-- smallest length of its protocol: the main loop stops there and the fast path goes on. The packet is
-- shorter than 2^63 bytes and the length function gives a `ssize_t`.
pub fast_length-check_length :
    (d : ProtoDef) (pkt : Packet) (hdr : Ptr) (len : ℕ)
    → len < 2 ^ 63
    → ((f : Packet → Ptr → ℕ → ℤ) → d.ops.len ≡ some f → IsSsize (f pkt hdr len))
    → (fast_length d pkt hdr len ≡ check_length d pkt hdr len) ⊎ Short d pkt hdr len
unfolding fast_length check_length
fast_length-check_length d pkt hdr len small range = elim (Option-cases (d.ops.len)) [
  | inl e ↦ rw (e, fast_length, check_length) (inl refl)
  | inr (f, e) ↦ elim (Bool-cases (ltb len d.min_len)) [
    | inl short ↦ rw (short, fast_length, check_length) (inl refl)
    | inr fits ↦ length_by d pkt hdr len f (f pkt hdr len) small e refl (range f e) fits
  ]
]

module _ {M : Type 0} where
  -- Without keys and with `next_proto` set, the fast path chooses the node of the table or the code
  -- that the main loop chooses, wherever there is no wildcard node; where no node is known it returns
  -- `XDP2_STOP_OKAY` and the main loop the code of the node.
  pub fast_next-find_next :
      (node : ParseNode M) (d : ProtoDef) (num_keys : ℕ) (pkt : Packet) (hdr : Ptr)
      (store : Store M) (next : Packet → Ptr → ℤ)
      → d.ops.next_proto_keyin ≡ none
      → d.ops.next_proto ≡ some next
      → node.wildcard_node ≡ none
      → (fast_next node d pkt hdr ≡ find_next node d num_keys pkt hdr store)
        ⊎ ((fast_next node d pkt hdr ≡ quit stop_okay)
            × (find_next node d num_keys pkt hdr store ≡ quit node.unknown_ret))
  unfolding fast_next find_next table_next wildcard_next lookup_next
  fast_next-find_next node d num_keys pkt hdr store next ek en ew =
      elim (Option-cases node.proto_table) [
        | inl e ↦ rw (e, fast_next, find_next, table_next, wildcard_next, ew) (inr (refl, refl))
        | inr (table, e) ↦ elim (Bool-cases (ltb_ℤ (next pkt hdr) (pos 0))) [
          | inl neg ↦ ground (arith, e, ek, en, ew, neg)
          | inr ok ↦ elim (Option-cases (lookup_node (next pkt hdr) table)) [
            | inl e' ↦ ground (arith, e, ek, en, ew, ok, e')
            | inr (r, e') ↦ ground (arith, e, ek, en, ew, ok, e')
          ]
        ]
      ]

module _ {M : Type 0} (p : Parser M) (pkt : Packet) (depth n : ℕ) where
  body_by :
      (r : NodeRef) (d : ProtoDef) (hdr : Ptr) (hlen frame : ℕ) (s : State M) (b : Body M)
      (db : DefBody)
      → (p.graph.node r).proto_def ≡ some d
      → fast_node (p.graph.node r) ≡ true
      → ((an : _) → (p.graph.node r).body ≢ Body.array an)
      → (p.graph.node r).body ≡ b
      → d.body ≡ db
      → fast_body p pkt depth n r d hdr hlen frame s ≡ parse_body p pkt depth n r d hdr hlen frame s
  unfolding fast_body parse_body fast_node
  body_by r d hdr hlen frame s Body.plain db def ok plain eb ed = rw (eb, fast_body, parse_body)
  body_by r d hdr hlen frame s (Body.array an) db def ok plain eb ed = absurd (plain an eb)
  body_by r d hdr hlen frame s (Body.tlvs tn) db def ok plain eb ed = ground (arith, def, eb, ed)
  body_by r d hdr hlen frame s (Body.flag_fields t) db def ok plain eb ed =
      ground (arith, def, eb, ed)

  -- On a node that the validation passes and that holds no array, the fast path parses what the node
  -- holds as the main loop does.
  pub fast_body-parse_body :
      (r : NodeRef) (d : ProtoDef) (hdr : Ptr) (hlen frame : ℕ) (s : State M)
      → (p.graph.node r).proto_def ≡ some d
      → fast_node (p.graph.node r) ≡ true
      → ((an : _) → (p.graph.node r).body ≢ Body.array an)
      → fast_body p pkt depth n r d hdr hlen frame s ≡ parse_body p pkt depth n r d hdr hlen frame s
  fast_body-parse_body r d hdr hlen frame s def ok plain =
      body_by r d hdr hlen frame s _ _ def ok plain refl refl
