-- ===== src/Parser/Lookup.antt =====
-- The table lookups: lookup_node, lookup_tlv_node, lookup_array_node and lookup_flag_field_node of
-- src/lib/xdp2/parser.c, which are one loop at four types of table.
use xdp.Base.{ℤ, Option, none, some, [], ◌∷◌, ◌==ℤ◌, if◌then◌else◌}
use xdp.Parser.Types.{Table, NodeRef, TlvRef, NodeOps}

-- `for (i = 0; i < table->num_ents; i++) if (type == entries[i].type) return entries[i].node;`
unfoldable pub lookup_entry : {A : Type 0} → ℤ → Table A → Option A
lookup_entry type [] = none
lookup_entry type ((key, node) ∷ entries) = if type ==ℤ key then node else lookup_entry type entries

unfoldable pub lookup_node : ℤ → Table NodeRef → Option NodeRef
lookup_node type table = lookup_entry type table

unfoldable pub lookup_tlv_node : ℤ → Table TlvRef → Option TlvRef
lookup_tlv_node type table = lookup_entry type table

unfoldable pub lookup_array_node : {M : Type 0} → ℤ → Table (NodeOps M) → Option (NodeOps M)
lookup_array_node type table = lookup_entry type table

unfoldable pub lookup_flag_field_node : {M : Type 0} → ℤ → Table (NodeOps M) → Option (NodeOps M)
lookup_flag_field_node idx table = lookup_entry idx table

-- `table ? lookup(type, table) : NULL`
unfoldable pub lookup_opt : {A : Type 0} → ℤ → Option (Table A) → Option A
lookup_opt type none = none
lookup_opt type (some table) = lookup_entry type table
