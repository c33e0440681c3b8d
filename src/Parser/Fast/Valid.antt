-- ===== src/Parser/Fast/Valid.antt =====
-- What xdp2_parse_validate_fast vouches for.
use xdp.Base.{
  ℕ, zero, suc, ◌+◌, Bool, true, List, [], ◌∷◌, none, some, ◌≡◌, ◌⊎◌, inl, inr, leb, length,
  Bool-cases, arith,
}
use xdp.Parser.Types.{NodeRef, Table, Graph, Parser}
use xdp.Parser.Fast.{
  is_seen, fast_node, entries, validate_entries, validate_node, validate_fast, num_fast_nodes,
}

abbrev pub In : NodeRef → List NodeRef → Type 0
In r seen = is_seen r seen ≡ true

-- A table has an entry for the node.
abbrev pub Points : Table NodeRef → NodeRef → Type 0
Points [] y = ⊥
Points ((key, none) ∷ rest) y = Points rest y
Points ((key, some r) ∷ rest) y = (r ≡ y) ⊎ Points rest y

module _ {M : Type 0} (g : Graph M) where
  -- The node passes, and the nodes of its table stand in the list.
  pub record Passed (seen : List NodeRef) (x : NodeRef) : Type 0 where
    pub passes : fast_node (g.node x) ≡ true
    pub table : (y : NodeRef) → Points (entries (g.node x)) y → In y seen

  -- A list grows by nodes that pass.
  pub record Grows (seen seen' : List NodeRef) : Type 0 where
    pub keeps : (x : NodeRef) → In x seen → In x seen'
    pub new : (x : NodeRef) → In x seen' → In x seen ⊎ Passed seen' x

  Grows-refl : (seen : List NodeRef) → Grows seen seen
  Grows-refl seen = record { keeps = λ x h. h; new = λ x h. inl h }

  Passed-mono :
      (seen seen' : List NodeRef) (x : NodeRef) → Grows seen seen' → Passed seen x → Passed seen' x
  Passed-mono seen seen' x w h = record {
    passes = h.passes;
    table = λ y e. w.keeps y (h.table y e);
  }

  Grows-trans : (a b c : List NodeRef) → Grows a b → Grows b c → Grows a c
  Grows-trans a b c v w = record {
    keeps = λ x h. w.keeps x (v.keeps x h);
    new = λ x h. elim (w.new x h) [
      | inr good ↦ inr good
      | inl old ↦ elim (v.new x old) [
        | inl older ↦ inl older
        | inr good ↦ inr (Passed-mono b c x w good)
      ]
    ];
  }

  -- A visit that says yes has put the node into the list, which has grown by nodes that pass.
  abbrev Sound : (List NodeRef → NodeRef → Bool × List NodeRef) → Type 0
  Sound visit =
      (seen : List NodeRef) (r : NodeRef)
      → (visit seen r).0 ≡ true
      → In r (visit seen r).1 × Grows seen (visit seen r).1

  validate_entries-Sound :
      (visit : List NodeRef → NodeRef → Bool × List NodeRef) (seen : List NodeRef)
      (table : Table NodeRef)
      → Sound visit
      → (validate_entries visit seen table).0 ≡ true
      → ((y : NodeRef) → Points table y → In y (validate_entries visit seen table).1)
        × Grows seen (validate_entries visit seen table).1
  unfolding validate_entries
  validate_entries-Sound visit seen [] sound h = (λ y e. absurd e, Grows-refl seen)
  validate_entries-Sound visit seen ((key, none) ∷ rest) sound h =
      validate_entries-Sound visit seen rest sound h
  validate_entries-Sound visit seen ((key, some r) ∷ rest) sound h =
      elim (Bool-cases (visit seen r).0) [
        | inr refused ↦ (let impossible = rw (refused, validate_entries) at h in cc)
        | inl said ↦
            let here = sound seen r said in
            let more =
              validate_entries-Sound visit (visit seen r).1 rest sound
                (rw (said, validate_entries) at h) in
            rw (said, validate_entries)
              (
                λ y e. elim e [ inl eq ↦ rw (← eq) (more.1.keeps r here.0) | inr e' ↦ more.0 y e' ],
                Grows-trans seen (visit seen r).1 _ here.1 more.1,
              )
      ]

  In-cons : (x r : NodeRef) (seen : List NodeRef) → In x (r ∷ seen) → (x ≡ r) ⊎ In x seen
  unfolding is_seen
  In-cons x r seen h = ground arith

  In-here : (r : NodeRef) (seen : List NodeRef) → In r (r ∷ seen)
  unfolding is_seen
  In-here r seen = ground arith

  In-there : (x r : NodeRef) (seen : List NodeRef) → In x seen → In x (r ∷ seen)
  unfolding is_seen
  In-there x r seen h = ground arith

  validate_node-Sound : (fuel : ℕ) → Sound (validate_node g fuel)
  unfolding validate_node
  validate_node-Sound zero seen r h = cc
  validate_node-Sound (suc fuel) seen r h = elim (Bool-cases (is_seen r seen)) [
    | inl there ↦ rw (there, validate_node) (there, Grows-refl seen)
    | inr fresh ↦ elim (Bool-cases (leb num_fast_nodes (length seen))) [
      | inl full ↦ (let impossible = rw (fresh, validate_node, full) at h in cc)
      | inr room ↦ elim (Bool-cases (fast_node (g.node r))) [
        | inr bad ↦ (let impossible = rw (fresh, validate_node, room, bad) at h in cc)
        | inl good ↦
            let rest =
              validate_entries-Sound (validate_node g fuel) (r ∷ seen) (entries (g.node r))
                (validate_node-Sound fuel) (rw (fresh, validate_node, room, good) at h) in
            rw (fresh, validate_node, room, good)
              (
                rest.1.keeps r (In-here r seen),
                record {
                  keeps = λ x e. rest.1.keeps x (In-there x r seen e);
                  new = λ x e. elim (rest.1.new x e) [
                    | inr passed ↦ inr passed
                    | inl old ↦ elim (In-cons x r seen old) [
                      | inr older ↦ inl older
                      | inl eq ↦ inr (rw eq (record { passes = good; table = rest.0 }))
                    ]
                  ];
                },
              )
      ]
    ]
  ]

  -- The nodes that the tables lead to from a node.
  pub data Reaches (root : NodeRef) : NodeRef → Type 0 where
    root_node : Reaches root root
    entry : (x y : NodeRef) → Reaches root x → Points (entries (g.node x)) y → Reaches root y

  Reaches-In :
      (root : NodeRef) (seen : List NodeRef)
      → In root seen
      → ((x : NodeRef) → In x seen → Passed seen x)
      → (x : NodeRef) → Reaches root x
      → In x seen
  Reaches-In root seen h all _ root_node = h
  Reaches-In root seen h all _ (entry x y r e) = (all x (Reaches-In root seen h all x r)).table y e

module _ {M : Type 0} (p : Parser M) where
  root_valid :
      validate_fast p ≡ true → (validate_node p.graph (num_fast_nodes + 1) [] p.root_node).0 ≡ true
  unfolding validate_fast
  root_valid h = ground (arith, h)

  none_seen : (x : NodeRef) → ¬ In x []
  unfolding is_seen
  none_seen x h = ground arith

  -- Where the validation says yes, every node that the tables lead to from the root passes its tests.
  pub validate_fast-Reaches :
      (x : NodeRef)
      → validate_fast p ≡ true
      → Reaches p.graph p.root_node x
      → fast_node (p.graph.node x) ≡ true
  validate_fast-Reaches x h r =
      let sound = validate_node-Sound p.graph (num_fast_nodes + 1) [] p.root_node (root_valid h) in
      let seen = (validate_node p.graph (num_fast_nodes + 1) [] p.root_node).1 in
      let all : (x : NodeRef) → In x seen → Passed p.graph seen x =
        λ x e. elim (sound.1.new x e) [ inl old ↦ absurd (none_seen x old) | inr good ↦ good ] in
      (all x (Reaches-In p.graph p.root_node seen sound.0 all x r)).passes
