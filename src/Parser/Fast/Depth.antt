-- ===== src/Parser/Fast/Depth.antt =====
-- How deep validate_parse_fast_node calls itself: the 64 slots of `fast_nodes` bound it.
use xdp.Base.{
  ℕ, zero, suc, ◌+◌, ◌≤◌, ◌<◌, Bool, false, List, [], ◌∷◌, none, some, ◌≡◌, refl, ap, ◌∙◌, inl, inr,
  leb, length, Bool-cases, arith,
}
use xdp.Parser.Types.{NodeRef, Table, Graph}
use xdp.Parser.Fast.{is_seen, fast_node, entries, validate_entries, validate_node, num_fast_nodes}

-- A list in the array, which only grows.
abbrev Fits : List NodeRef → List NodeRef → Type 0
Fits seen seen' = (length seen ≤ length seen') × (length seen' ≤ num_fast_nodes)

abbrev Keeps : (List NodeRef → NodeRef → Bool × List NodeRef) → Type 0
Keeps visit =
    (seen : List NodeRef) (r : NodeRef) → length seen ≤ num_fast_nodes → Fits seen (visit seen r).1

entries-Fits :
    (visit : List NodeRef → NodeRef → Bool × List NodeRef) (seen : List NodeRef)
    (table : Table NodeRef)
    → Keeps visit
    → length seen ≤ num_fast_nodes
    → Fits seen (validate_entries visit seen table).1
unfolding validate_entries
entries-Fits visit seen [] keeps h = omega arith
entries-Fits visit seen ((key, none) ∷ rest) keeps h = entries-Fits visit seen rest keeps h
entries-Fits visit seen ((key, some r) ∷ rest) keeps h =
    let here = keeps seen r h in
    elim (Bool-cases (visit seen r).0) [
      | inr refused ↦ rw (refused, validate_entries) here
      | inl said ↦
          let more = entries-Fits visit (visit seen r).1 rest keeps here.1 in
          rw (said, validate_entries) (omega (arith, here, more))
    ]

entries_agree :
    (visit visit' : List NodeRef → NodeRef → Bool × List NodeRef) (low : ℕ) (seen : List NodeRef)
    (table : Table NodeRef)
    → Keeps visit
    → ((seen : List NodeRef) (r : NodeRef)
        → low ≤ length seen
        → length seen ≤ num_fast_nodes
        → visit seen r ≡ visit' seen r)
    → low ≤ length seen
    → length seen ≤ num_fast_nodes
    → validate_entries visit seen table ≡ validate_entries visit' seen table
unfolding validate_entries
entries_agree visit visit' low seen [] keeps agree l h = refl
entries_agree visit visit' low seen ((key, none) ∷ rest) keeps agree l h =
    entries_agree visit visit' low seen rest keeps agree l h
entries_agree visit visit' low seen ((key, some r) ∷ rest) keeps agree l h =
    let here = keeps seen r h in
    let same = agree seen r l h in
    elim (Bool-cases (visit seen r).0) [
      | inr refused ↦
          let refused' = rw same at refused in
          rw (refused, validate_entries, refused')
            (ap (λ (o : Bool × List NodeRef). (false, o.1)) same)
      | inl said ↦
          let said' = rw same at said in
          rw (said, validate_entries, said')
            (entries_agree visit visit' low (visit seen r).1 rest keeps agree (omega (arith, here))
                here.1
              ∙ ap (λ (o : Bool × List NodeRef). validate_entries visit' o.1 rest) same)
    ]

module _ {M : Type 0} (g : Graph M) where
  node-Keeps : (fuel : ℕ) → Keeps (validate_node g fuel)
  unfolding validate_node
  node-Keeps zero seen r h = omega arith
  node-Keeps (suc fuel) seen r h = elim (Bool-cases (is_seen r seen)) [
    | inl there ↦ rw (there, validate_node) (omega arith)
    | inr fresh ↦ elim (Bool-cases (leb num_fast_nodes (length seen))) [
      | inl full ↦ rw (fresh, validate_node, full) (omega arith)
      | inr space ↦ elim (Bool-cases (fast_node (g.node r))) [
        | inr bad ↦ rw (fresh, validate_node, space, bad) (ground arith)
        | inl good ↦
            let more =
              entries-Fits (validate_node g fuel) (r ∷ seen) (entries (g.node r)) (node-Keeps fuel)
                (ground arith) in
            rw (fresh, validate_node, space, good) (omega (arith, more))
      ]
    ]
  ]

  -- Any two depths that leave room for the free slots of the array give the same search.
  node_agree :
      (fuel fuel' : ℕ) (seen : List NodeRef) (r : NodeRef)
      → length seen ≤ num_fast_nodes
      → num_fast_nodes < fuel + length seen
      → num_fast_nodes < fuel' + length seen
      → validate_node g fuel seen r ≡ validate_node g fuel' seen r
  unfolding validate_node
  node_agree zero fuel' seen r h k k' = absurd (omega arith)
  node_agree (suc fuel) zero seen r h k k' = absurd (omega arith)
  node_agree (suc fuel) (suc fuel') seen r h k k' = elim (Bool-cases (is_seen r seen)) [
    | inl there ↦ rw (there, validate_node)
    | inr fresh ↦ elim (Bool-cases (leb num_fast_nodes (length seen))) [
      | inl full ↦ rw (fresh, validate_node, full)
      | inr space ↦ elim (Bool-cases (fast_node (g.node r))) [
        | inr bad ↦ rw (fresh, validate_node, space, bad)
        | inl good ↦
            rw (fresh, validate_node, space, good)
              (entries_agree (validate_node g fuel) (validate_node g fuel') (suc (length seen))
                (r ∷ seen) (entries (g.node r)) (node-Keeps fuel)
                (λ seen' r' l h'. node_agree fuel fuel' seen' r' h' (omega arith) (omega arith))
                (omega arith) (ground arith))
      ]
    ]
  ]

  -- From an empty array the search calls itself at most 65 deep: more depth changes nothing.
  pub validate_node-depth :
      (more : ℕ) (r : NodeRef)
      → num_fast_nodes < more
      → validate_node g more [] r ≡ validate_node g (num_fast_nodes + 1) [] r
  validate_node-depth more r h =
      node_agree more (num_fast_nodes + 1) [] r (omega arith) (omega arith) (omega arith)
