-- ===== src/Parser/FlagFields/Layout.antt =====
-- Where the fields of a set of flags lie: one behind the other, in the order of the flags.
use xdp.Base.{
  ℕ, ◌+◌, ◌%◌, ◌^◌, ◌≤◌, ◌<◌, pos, negsuc, true, false, List, [], ◌∷◌, ◌++◌, some, ◌≡◌, refl, sym,
  ◌∙◌, ap, ltb, as_size, if◌then◌else◌, size_mod, to_ssize, length, get_elem?, length-append,
  Bool-cases, inl, inr, arith,
}
use mathlib.Core.List.{append-nil, append_assoc}
use xdp.Parser.Types.{Packet, Ptr, State, FlagField, FlagFieldsDef, NodeOps, Table}
use xdp.Parser.Codes.{okay}
use xdp.Parser.Run.{ret}
use xdp.Parser.FlagFields.{
  is_present, offset_loop, raw_offset, fields_length, field_offset, visit_field, fields_loop,
  parse_flag_fields,
}

-- The bytes of the fields that are there.
unfoldable pub present_size : ℕ → List FlagField → ℕ
present_size flags [] = 0
present_size flags (f ∷ fields) =
    (if is_present flags f then f.size else 0) + present_size flags fields

offset_loop-present_size :
    (flags : ℕ) (before after : List FlagField) (offset : ℕ)
    → offset + present_size flags before < size_mod
    → offset_loop (length before) flags (before ++ after) offset
      ≡ offset + present_size flags before
unfolding offset_loop present_size
offset_loop-present_size flags [] after offset h = omega arith
offset_loop-present_size flags (f ∷ before) after offset h =
    elim (Bool-cases (is_present flags f)) [
      | inl e ↦ rw e (
          let m : (offset + f.size) % size_mod ≡ offset + f.size = ground arith in
          rw m (
            offset_loop-present_size flags before after (offset + f.size) (ground arith)
            ∙ omega arith))
      | inr e ↦
          rw e (offset_loop-present_size flags before after offset (ground arith) ∙ omega arith)
    ]

present_size-append :
    (flags : ℕ) (xs ys : List FlagField)
    → present_size flags (xs ++ ys) ≡ present_size flags xs + present_size flags ys
unfolding present_size
present_size-append flags [] ys = omega arith
present_size-append flags (x ∷ xs) ys = omega (arith, present_size-append flags xs ys)

get_elem?-middle :
    (before : List FlagField) (f : FlagField) (after : List FlagField)
    → get_elem? (before ++ f ∷ after) (length before) ≡ some f
get_elem?-middle [] f after = refl
get_elem?-middle (x ∷ before) f after = get_elem?-middle before f after

module _ (flags : ℕ) (before : List FlagField) (f : FlagField) (after : List FlagField)
    (small : present_size flags (before ++ f ∷ after) < 2 ^ 63) where
  raw_offset-present_size :
      raw_offset (length before) flags (before ++ f ∷ after) ≡ pos (present_size flags before)
  unfolding raw_offset to_ssize
  raw_offset-present_size = ground (
    arith,
    present_size-append flags before (f ∷ after),
    offset_loop-present_size flags before (f ∷ after) 0,
  )

  -- A field that is there lies behind the fields before it that are there; one that is not has no
  -- offset. All sizes together are below 2^63.
  pub field_offset-present_size :
      field_offset (length before) flags (before ++ f ∷ after)
      ≡ (if is_present flags f then pos (present_size flags before) else negsuc 0)
  unfolding field_offset
  field_offset-present_size =
      rw (get_elem?-middle before f after, field_offset) (ground (arith, raw_offset-present_size))

-- The length of the fields is the sum of the sizes of those that are there, where that is below 2^63.
pub fields_length-present_size :
    (flags : ℕ) (fields : List FlagField)
    → present_size flags fields < 2 ^ 63
    → fields_length flags fields ≡ present_size flags fields
unfolding fields_length raw_offset to_ssize as_size
fields_length-present_size flags fields h =
    ground (arith, append-nil fields, offset_loop-present_size flags fields [] 0)

field_offset-eq-pos :
    (flags : ℕ) (before : List FlagField) (f : FlagField) (after : List FlagField) (i : ℕ)
    → present_size flags (before ++ f ∷ after) < 2 ^ 63
    → field_offset (length before) flags (before ++ f ∷ after) ≡ pos i
    → (present_size flags before ≡ i) × (is_present flags f ≡ true)
field_offset-eq-pos flags before f after i small e =
    ground (arith, field_offset-present_size flags before f after small)

-- Two fields that are there do not overlap, and both end inside the length of the fields, where that
-- is below 2^63.
pub fields_disjoint :
    (flags : ℕ) (before : List FlagField) (f : FlagField) (mid : List FlagField) (g : FlagField)
    (after : List FlagField) (i j : ℕ)
    → present_size flags ((before ++ f ∷ mid) ++ g ∷ after) < 2 ^ 63
    → field_offset (length before) flags ((before ++ f ∷ mid) ++ g ∷ after) ≡ pos i
    → field_offset (length (before ++ f ∷ mid)) flags ((before ++ f ∷ mid) ++ g ∷ after) ≡ pos j
    → (i + f.size ≤ j) × (j + g.size ≤ fields_length flags ((before ++ f ∷ mid) ++ g ∷ after))
unfolding present_size
fields_disjoint flags before f mid g after i j small fi gj =
    let assoc = append_assoc before (f ∷ mid) (g ∷ after) in
    let first =
      field_offset-eq-pos flags before f (mid ++ g ∷ after) i (rw assoc at small)
        (rw assoc at fi) in
    let second = field_offset-eq-pos flags (before ++ f ∷ mid) g after j small gj in
    ground (
      arith,
      first,
      second,
      present_size-append flags before (f ∷ mid),
      present_size-append flags (before ++ f ∷ mid) (g ∷ after),
      fields_length-present_size flags ((before ++ f ∷ mid) ++ g ∷ after) small,
    )

present_size_one :
    (flags : ℕ) (f : FlagField)
    → present_size flags (f ∷ []) ≡ (if is_present flags f then f.size else 0)
unfolding present_size
present_size_one flags f = omega arith

module _ {M : Type 0} (pkt : Packet) (frame : ℕ) (table : Table (NodeOps M)) where
  -- One pass over the fields with a running offset.
  unfoldable pub visit_running : ℕ → Ptr → ℕ → ℕ → List FlagField → State M → State M
  visit_running flags hdr i off [] s = s
  visit_running flags hdr i off (f ∷ fields) s =
      visit_running flags hdr (i + 1) (if is_present flags f then off + f.size else off) fields
        (if is_present flags f then visit_field pkt frame table (pos i) (hdr + off) f.size s else s)

  offset_at :
      (flags i off : ℕ) (all before : List FlagField) (f : FlagField) (fields : List FlagField)
      → present_size flags all < 2 ^ 63
      → all ≡ before ++ f ∷ fields
      → i ≡ length before
      → off ≡ present_size flags before
      → field_offset i flags all ≡ (if is_present flags f then pos off else negsuc 0)
  offset_at flags i off all before f fields small e ei eo =
      rw (e, ei, eo) (field_offset-present_size flags before f fields (rw e at small))

  fields_loop-running :
      (flags : ℕ) (hdr : Ptr) (all before fields : List FlagField) (i off : ℕ) (s : State M)
      → present_size flags all < 2 ^ 63
      → all ≡ before ++ fields
      → i ≡ length before
      → off ≡ present_size flags before
      → fields_loop pkt frame table all flags hdr i fields s
        ≡ visit_running flags hdr i off fields s
  unfolding fields_loop visit_running as_size
  fields_loop-running flags hdr all before [] i off s small e ei eo = refl
  fields_loop-running flags hdr all before (f ∷ fields) i off s small e ei eo =
      let at = offset_at flags i off all before f fields small e ei eo in
      let e' = e ∙ sym (append_assoc before (f ∷ []) fields) in
      let ei' : i + 1 ≡ length (before ++ f ∷ []) = omega (arith, length-append before (f ∷ [])) in
      let size = present_size-append flags before (f ∷ []) in
      let nonneg : ltb (off + 0) 0 ≡ false = ground arith in
      let next = fields_loop-running flags hdr all (before ++ f ∷ []) fields (i + 1) in
      elim (Bool-cases (is_present flags f)) [
        | inl here ↦
            rw (at, here, nonneg)
              (next (off + f.size) _ small e' ei'
                (ground (arith, size, present_size_one flags f, here)))
        | inr gone ↦
            rw (at, gone)
              (next off s small e' ei' (ground (arith, size, present_size_one flags f, gone)))
      ]

  -- xdp2_parse_flag_fields does what one pass over the fields with a running offset does: it visits
  -- the fields that are there, in their order, each right behind the last one. All sizes together are below
  -- 2^63.
  pub parse_flag_fields-running :
      (d : FlagFieldsDef) (hdr : Ptr) (s : State M)
      → present_size (d.get_flags pkt hdr) d.fields < 2 ^ 63
      → parse_flag_fields pkt frame table d hdr s
        ≡ ret okay (
            visit_running
              (d.get_flags pkt hdr)
              (hdr + d.start_fields_offset pkt hdr)
              0
              0
              d.fields
              s)
  unfolding parse_flag_fields present_size
  parse_flag_fields-running d hdr s small =
      ap (ret okay) (fields_loop-running _ _ d.fields [] d.fields 0 0 s small refl refl refl)
