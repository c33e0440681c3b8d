-- ===== src/Parser/Array/Stride.antt =====
-- Which elements xdp2_parse_array visits.
use xdp.Base.{
  ℕ, zero, suc, ◌+◌, ◌*◌, ◌^◌, ◌≤◌, ◌<◌, ℤ, pos, true, false, ◌≡◌, refl, ap, ◌∙◌, ◌==◌, ltb_ℤ,
  sub_size, sub_size_exact, sub_size-lt, size_mod, Bool-cases, Option-cases, inl, inr, arith,
}
use xdp.Parser.Codes.{okay, stop_length}
use xdp.Parser.Types.{Packet, Ptr, State, ArrayDef, ArrayNode}
use xdp.Parser.Lookup.{lookup_opt}
use xdp.Parser.Run.{>>=-cong, Returns, >>=-Returns}
use xdp.Parser.Tlvs.Scan.{Objects, stop, object, play}
use xdp.Parser.Array.{element_type, visit_element, array_loop, parse_array}

-- One element in front of the rest of a walk; a negative type ends the walk with that type.
unfoldable pub element : ArrayDef → Packet → Ptr → Objects → Objects
element d pkt cp rest =
    let type = element_type d pkt cp in
    elim (ltb_ℤ type (pos 0)) [ true ↦ stop type | false ↦ object cp d.el_length type rest ]

-- The walk over the elements, apart from what the callbacks do.
unfoldable pub array_scan : ℕ → ArrayDef → Packet → Ptr → ℕ → Objects
array_scan zero d pkt cp hlen = stop okay
array_scan (suc left) d pkt cp hlen = elim (hlen == 0) [
  | true ↦ stop stop_length
  | false ↦ element d pkt cp (array_scan left d pkt (cp + d.el_length) (sub_size hlen d.el_length))
]

-- `n` elements at a distance of `el_length` from `cp` on, then `code`.
unfoldable pub strided : ℕ → ArrayDef → Packet → Ptr → ℤ → Objects
strided zero d pkt cp code = stop code
strided (suc n) d pkt cp code = element d pkt cp (strided n d pkt (cp + d.el_length) code)

module _ {M : Type 0} (pkt : Packet) (frame : ℕ) (an : ArrayNode M) (d : ArrayDef) where
  -- The loop visits the elements of the walk in order, until a visit returns something else than
  -- `XDP2_OKAY`.
  pub array_loop-scan :
      (left : ℕ) (cp : Ptr) (hlen : ℕ) (s : State M)
      → array_loop pkt frame left an d cp hlen s
        ≡ play (visit_element pkt frame an) (array_scan left d pkt cp hlen) s
  unfolding array_loop array_scan play element
  array_loop-scan zero cp hlen s = refl
  array_loop-scan (suc left) cp hlen s = elim (Bool-cases (hlen == 0)) [
    | inl done ↦ rw (done, array_loop, array_scan)
    | inr more ↦
        rw (more, array_loop, array_scan)
          (elim (Bool-cases (ltb_ℤ (element_type d pkt cp) (pos 0))) [
            | inl e ↦ rw (e, element)
            | inr e ↦
                rw (e, element)
                  (>>=-cong (visit_element pkt frame an (element_type d pkt cp) cp d.el_length s)
                    λ s'. array_loop-scan left (cp + d.el_length) (sub_size hlen d.el_length) s')
          ])
  ]

module _ (d : ArrayDef) (pkt : Packet) (positive : 0 < d.el_length) where
  step :
      (left n : ℕ) (cp : Ptr) (hlen : ℕ) (code : ℤ)
      → 0 < hlen
      → array_scan left d pkt (cp + d.el_length) (sub_size hlen d.el_length)
        ≡ strided n d pkt (cp + d.el_length) code
      → array_scan (suc left) d pkt cp hlen ≡ strided (suc n) d pkt cp code
  unfolding array_scan strided
  step left n cp hlen code h e =
      let more : (hlen == 0) ≡ false = ground arith in
      rw (more, array_scan) (ap (element d pkt cp) e)

  -- A window of at least `left` elements: all of them are visited.
  pub array_scan_full :
      (left : ℕ) (cp : Ptr) (hlen : ℕ)
      → left * d.el_length ≤ hlen
      → hlen < size_mod
      → array_scan left d pkt cp hlen ≡ strided left d pkt cp okay
  unfolding array_scan strided
  array_scan_full zero cp hlen h small = refl
  array_scan_full (suc left) cp hlen h small =
      let len = sub_size_exact hlen d.el_length (grind arith) small in
      step left left cp hlen okay (grind arith) (
        array_scan_full left (cp + d.el_length) (sub_size hlen d.el_length) (grind (arith, len))
          (omega (arith, len)))

  -- A window of exactly `k` elements of more: those are visited, and the walk ends for the length.
  pub array_scan_short :
      (k left : ℕ) (cp : Ptr) (hlen : ℕ)
      → hlen ≡ k * d.el_length
      → k < left
      → hlen < size_mod
      → array_scan left d pkt cp hlen ≡ strided k d pkt cp stop_length
  unfolding array_scan strided
  array_scan_short zero zero cp hlen e h small = absurd (omega arith)
  array_scan_short zero (suc left) cp hlen e h small =
      let none_left : (hlen == 0) ≡ true = ground arith in rw (none_left, array_scan)
  array_scan_short (suc k) zero cp hlen e h small = absurd (omega arith)
  array_scan_short (suc k) (suc left) cp hlen e h small =
      let len = sub_size_exact hlen d.el_length (grind arith) small in
      step left k cp hlen stop_length (grind arith) (
        array_scan_short k left (cp + d.el_length) (sub_size hlen d.el_length) (grind (arith, len))
          (omega arith) (omega (arith, len)))

  overrun_small :
      (k r left hlen : ℕ)
      → hlen ≡ k * d.el_length + r
      → r < d.el_length
      → k < left
      → left * d.el_length < 2 ^ 63
      → hlen < size_mod
  overrun_small k r left hlen e lt h small =
      let fits : (k + 1) * d.el_length ≤ left * d.el_length = grind arith in omega (arith, fits)

  -- A window that ends inside an element: `hlen -= el_length` wraps there, and all the elements are
  -- visited, those behind the window too.
  pub array_scan_overrun :
      (k r left : ℕ) (cp : Ptr) (hlen : ℕ)
      → hlen ≡ k * d.el_length + r
      → 0 < r
      → r < d.el_length
      → k < left
      → left * d.el_length < 2 ^ 63
      → array_scan left d pkt cp hlen ≡ strided left d pkt cp okay
  unfolding array_scan strided
  array_scan_overrun k r zero cp hlen e rest lt h small = absurd (omega arith)
  array_scan_overrun zero r (suc left) cp hlen e rest lt h small =
      step left left cp hlen okay (grind arith) (
        array_scan_full left (cp + d.el_length) (sub_size hlen d.el_length)
          (unfold sub_size in grind arith) (sub_size-lt hlen d.el_length))
  array_scan_overrun (suc k) r (suc left) cp hlen e rest lt h small =
      let len =
        sub_size_exact hlen d.el_length (grind arith)
          (overrun_small (suc k) r (suc left) hlen e lt h small) in
      step left left cp hlen okay (grind arith) (
        array_scan_overrun k r left (cp + d.el_length) (sub_size hlen d.el_length)
          (grind (arith, len)) rest lt (omega arith) (grind arith))

module _ {M : Type 0} (pkt : Packet) (frame : ℕ) (an : ArrayNode M) (d : ArrayDef)
    (positive : 0 < d.el_length) where
  -- The loop over elements that are not empty, in a window of at least all `left` elements and less
  -- than 2^64 bytes: it visits all of them, at a distance of `el_length`, up to the first that does
  -- not return `XDP2_OKAY`.
  pub array_loop_full :
      (left : ℕ) (cp : Ptr) (hlen : ℕ) (s : State M)
      → left * d.el_length ≤ hlen
      → hlen < size_mod
      → array_loop pkt frame left an d cp hlen s
        ≡ play (visit_element pkt frame an) (strided left d pkt cp okay) s
  array_loop_full left cp hlen s h small =
      array_loop-scan pkt frame an d left cp hlen s
      ∙ ap (λ os. play (visit_element pkt frame an) os s)
          (array_scan_full d pkt positive left cp hlen h small)

  -- The loop over elements that are not empty, in a window of exactly `k` elements and less than 2^64
  -- bytes, with more than `k` elements to come: it visits those `k`, and where they all return
  -- `XDP2_OKAY` it returns `XDP2_STOP_LENGTH`.
  pub array_loop_short :
      (k left : ℕ) (cp : Ptr) (hlen : ℕ) (s : State M)
      → hlen ≡ k * d.el_length
      → k < left
      → hlen < size_mod
      → array_loop pkt frame left an d cp hlen s
        ≡ play (visit_element pkt frame an) (strided k d pkt cp stop_length) s
  array_loop_short k left cp hlen s e h small =
      array_loop-scan pkt frame an d left cp hlen s
      ∙ ap (λ os. play (visit_element pkt frame an) os s)
          (array_scan_short d pkt positive k left cp hlen e h small)

  -- The loop over elements that are not empty and shorter than 2^63 bytes together, in a window that
  -- ends inside element `k`: `hlen -= el_length` wraps, and all `left` elements are visited, those
  -- behind the window too.
  pub array_loop_overrun :
      (k r left : ℕ) (cp : Ptr) (hlen : ℕ) (s : State M)
      → hlen ≡ k * d.el_length + r
      → 0 < r
      → r < d.el_length
      → k < left
      → left * d.el_length < 2 ^ 63
      → array_loop pkt frame left an d cp hlen s
        ≡ play (visit_element pkt frame an) (strided left d pkt cp okay) s
  array_loop_overrun k r left cp hlen s e z lt h small =
      array_loop-scan pkt frame an d left cp hlen s
      ∙ ap (λ os. play (visit_element pkt frame an) os s)
          (array_scan_overrun d pkt positive k r left cp hlen e z lt h small)

module _ {M : Type 0} (pkt : Packet) (frame : ℕ) (an : ArrayNode M) (d : ArrayDef) where
  visit_element-Returns :
      (type : ℤ) (cp : Ptr) (l : ℕ) (s : State M) → Returns (visit_element pkt frame an type cp l s)
  unfolding visit_element
  visit_element-Returns type cp l s = elim (Option-cases (lookup_opt type an.array_proto_table)) [
    | inr (ops, e) ↦ rw (e, visit_element) tt
    | inl e ↦
        rw (e, visit_element)
          (elim (Option-cases an.array_wildcard_node) [
            | inl e' ↦ rw e' tt
            | inr (ops, e') ↦ rw e' tt
          ])
  ]

  array_loop-Returns :
      (left : ℕ) (cp : Ptr) (hlen : ℕ) (s : State M)
      → Returns (array_loop pkt frame left an d cp hlen s)
  unfolding array_loop
  array_loop-Returns zero cp hlen s = tt
  array_loop-Returns (suc left) cp hlen s = elim (Bool-cases (hlen == 0)) [
    | inl done ↦ rw (done, array_loop) tt
    | inr more ↦
        rw (more, array_loop)
          (elim (Bool-cases (ltb_ℤ (element_type d pkt cp) (pos 0))) [
            | inl e ↦ rw e tt
            | inr e ↦ rw e (
                >>=-Returns (visit_element pkt frame an (element_type d pkt cp) cp d.el_length s) _
                  (visit_element-Returns (element_type d pkt cp) cp d.el_length s)
                  λ s'. array_loop-Returns left (cp + d.el_length) (sub_size hlen d.el_length) s')
          ])
  ]

  -- An array is parsed to a code, whatever the bytes, the table and the callbacks are: its loop ends.
  pub parse_array-Returns :
      (hdr : Ptr) (hlen : ℕ) (s : State M) → Returns (parse_array pkt frame an d hdr hlen s)
  unfolding parse_array
  parse_array-Returns hdr hlen s = array_loop-Returns _ _ _ s
