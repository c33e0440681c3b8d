-- ===== src/Parser/FlagFields.antt =====
-- Flag-fields: src/include/xdp2/flag_fields.h, and xdp2_parse_flag_fields of src/lib/xdp2/parser.c.
pub mod Layout
use Prim.Native.Nat.{bit_and}
use xdp.Base.{
  ℕ, zero, suc, ◌+◌, ◌-◌, ◌%◌, ◌^◌, ℤ, pos, negsuc, Bool, true, false, not, List, [], ◌∷◌, Option,
  none, some, ◌==◌, ltb_ℤ, as_size, if◌then◌else◌, size_mod, to_ssize, length, get_elem?,
}
use xdp.Parser.Codes.{okay}
use xdp.Parser.Types.{Packet, Ptr, State, FlagField, FlagFieldsDef, NodeOps, Table}
use xdp.Parser.Run.{Run, ret, run_extract, run_handler}
use xdp.Parser.Lookup.{lookup_flag_field_node}

-- `mask = fields[i].mask ? : fields[i].flag; (flags & mask) == fields[i].flag`
unfoldable pub is_present : ℕ → FlagField → Bool
is_present flags f = bit_and flags (if f.mask == 0 then f.flag else f.mask) == f.flag

-- The loop of __xdp2_flag_fields_offset over `fields[i]` for `i < targ_idx`. The list ends where the
-- C array does; the callers pass no index behind its end.
unfoldable pub offset_loop : ℕ → ℕ → List FlagField → ℕ → ℕ
offset_loop zero flags fields offset = offset
offset_loop (suc n) flags [] offset = offset
offset_loop (suc n) flags (f ∷ fields) offset =
    offset_loop n flags fields (if is_present flags f then (offset + f.size) % size_mod else offset)

-- __xdp2_flag_fields_offset
unfoldable pub raw_offset : ℕ → ℕ → List FlagField → ℤ
raw_offset targ_idx flags fields = to_ssize (offset_loop targ_idx flags fields 0)

-- xdp2_flag_fields_length
unfoldable pub fields_length : ℕ → List FlagField → ℕ
fields_length flags fields = as_size (raw_offset (length fields) flags fields)

-- xdp2_flag_fields_offset: -1 if the flag is not set. There is no field behind the end of the array.
unfoldable pub field_offset : ℕ → ℕ → List FlagField → ℤ
field_offset targ_idx flags fields = elim (get_elem? fields targ_idx) [
  | none ↦ negsuc 0
  | some f ↦ if not (is_present flags f) then negsuc 0 else raw_offset targ_idx flags fields
]

-- xdp2_flag_fields_check_invalid, on `__u32`
unfoldable pub check_invalid : ℕ → ℕ → Bool
check_invalid flags mask = not (bit_and flags (2 ^ 32 - 1 - mask % 2 ^ 32) == 0)

module _ {M : Type 0} (pkt : Packet) (frame : ℕ) (table : Table (NodeOps M)) where
  -- What is done for a field that is there. The code of the handler is dropped.
  unfoldable pub visit_field : ℤ → Ptr → ℕ → State M → State M
  visit_field idx cp size s = elim (lookup_flag_field_node idx table) [
    | none ↦ s
    | some ops ↦
        let s' = run_extract ops.extract_metadata pkt (some cp) size frame s in
        (run_handler ops.handler pkt (some cp) size frame s').1
  ]

  -- The loop of xdp2_parse_flag_fields from index `i` on; the last list is `fields[i..]`.
  unfoldable pub fields_loop : List FlagField → ℕ → Ptr → ℕ → List FlagField → State M → State M
  fields_loop all flags hdr i [] s = s
  fields_loop all flags hdr i (f ∷ fields) s =
      let off = field_offset i flags all in
      fields_loop all flags hdr (i + 1) fields
        (if ltb_ℤ off (pos 0) then s else visit_field (pos i) (hdr + as_size off) f.size s)

  -- xdp2_parse_flag_fields
  unfoldable pub parse_flag_fields : FlagFieldsDef → Ptr → State M → Run M
  parse_flag_fields d hdr s = ret okay (
      fields_loop d.fields (d.get_flags pkt hdr) (hdr + d.start_fields_offset pkt hdr) 0 d.fields s)
