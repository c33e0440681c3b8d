-- ===== src/Dtable/Tables.antt =====
-- The lists of tables: __xdp2_dtable_find_table, __xdp2_dtable_insert_table, xdp2_dtable_create and
-- xdp2_dtable_init of src/lib/xdp2/dtable.c. A list is one of `plain_tables`, `tern_tables` and
-- `lpm_tables`; a table is an object that it links. A message of XDP2_ERR(1, ...) ends the program.
pub mod Listed
use xdp.Base.{
  int_succ, ℕ, ◌+◌, ◌*◌, ◌==◌, ℤ, pos, Bool, true, false, List, [], ◌∷◌, Option, none, some, ◌==ℤ◌,
  ltb_ℤ, if◌then◌else◌,
}
use xdp.Dtable.{Ref, Entry, Table, base_ident, insert_after, ealready, einval}

-- `enum xdp2_dtable_table_types`; `unknown` is any other number
pub data TableType : Type 0 where
  invalid : TableType
  plain : TableType
  tern : TableType
  lpm : TableType
  unknown : TableType

-- What __xdp2_dtable_find_table leaves: its result, `*pprev_table`, `*ident` and `want_ident`.
pub record Found : Type 0 where
  pub table : Option Ref
  pub prev_table : Option Ref
  pub ident : ℤ
  pub want_ident : ℤ

-- A list of tables, with the objects.
pub record TableList (I T : Type 0) : Type 0 where
  pub tables : List Ref
  pub heap : Ref → Table I T

module _ {I T : Type 0} where
  -- The loop of __xdp2_dtable_find_table.
  unfoldable pub find_loop : ℤ → ℤ → Option Ref → (Ref → Table I T) → List Ref → Found
  find_loop ident want prev heap [] = record {
    table = none;
    prev_table = prev;
    ident = ident;
    want_ident = want;
  }
  find_loop ident want prev heap (x ∷ xs) = elim (ident ==ℤ pos 0) [
    | false ↦ elim ((heap x).ident ==ℤ ident) [
      | true ↦ record { table = some x; prev_table = prev; ident = ident; want_ident = want }
      | false ↦ elim (ltb_ℤ ident (heap x).ident) [
        | true ↦ record { table = none; prev_table = prev; ident = ident; want_ident = want }
        | false ↦ find_loop ident want (some x) heap xs
      ]
    ]
    | true ↦ elim (ltb_ℤ (heap x).ident base_ident) [
      | true ↦ find_loop ident want prev heap xs
      | false ↦ elim ((heap x).ident ==ℤ want) [
        | false ↦ record { table = none; prev_table = prev; ident = want; want_ident = want }
        | true ↦ elim (ltb_ℤ (int_succ want) (pos 0)) [
          | true ↦ record {
            table = none;
            prev_table = none;
            ident = ident;
            want_ident = int_succ want;
          }
          | false ↦ find_loop ident (int_succ want) (some x) heap xs
        ]
      ]
    ]
  ]

  -- __xdp2_dtable_find_table; with a negative identifier, `*pprev_table` is left as it was, and nothing
  -- reads it.
  unfoldable pub find_table : ℤ → TableList I T → Found
  find_table ident l =
      if ltb_ℤ ident (pos 0)
      then record { table = none; prev_table = none; ident = ident; want_ident = base_ident }
      else (let found = find_loop ident base_ident none l.heap l.tables in
          record found { ident = if found.ident ==ℤ pos 0 then found.want_ident else found.ident })

  -- A write to one table.
  unfoldable pub write_table : Ref → Table I T → (Ref → Table I T) → Ref → Table I T
  write_table r t heap x = if x == r then t else heap x

  -- __xdp2_dtable_insert_table: the code, and `*ident`.
  unfoldable pub insert_table : Ref → ℤ → TableList I T → ℤ × ℤ × TableList I T
  insert_table table ident l =
      let found = find_table ident l in
      elim found.table [
        | some otable ↦ (ealready, found.ident, l)
        | none ↦ if ltb_ℤ found.ident (pos 0) then (einval, found.ident, l) else (
          pos 0,
          found.ident,
          record {
            tables = insert_after found.prev_table table l.tables;
            heap = write_table table (record (l.heap table) { ident = found.ident }) l.heap;
          },
        )
      ]

  -- xdp2_dtable_create: the table, and `*ident`. What `malloc` gives for the table and for the default
  -- target are arguments, and `entry_size` is `sizeof(struct xdp2_dtable_entry)`.
  unfoldable pub create :
      ℕ
      → Option Ref
      → Option Ref
      → ℕ
      → ℕ
      → ℕ
      → ℤ
      → T
      → ℕ
      → TableList I T
      → Option Ref × ℤ × TableList I T
  create entry_size malloc malloc_target name key_len all_key_len ident default_target target_len
        l =
      let found = find_table ident l in
      elim found.table [
        | some otable ↦ (none, found.ident, l)
        | none ↦ if ltb_ℤ found.ident (pos 0) then (none, found.ident, l) else elim malloc [
          | none ↦ (none, found.ident, l)
          | some table ↦ elim malloc_target [
            | none ↦ (none, found.ident, l)
            | some dtarget ↦
                let t : Table I T = record {
                  name = name;
                  key_len = key_len;
                  targ_len = target_len;
                  entry_len = entry_size + target_len + all_key_len;
                  ident = found.ident;
                  default_target = default_target;
                  entries = [];
                  entries_lookup = [];
                  heap = (l.heap table).heap;
                } in
                let inserted =
                  insert_table table found.ident (record l { heap = write_table table t l.heap }) in
                if inserted.0 ==ℤ pos 0
                then (some table, inserted.1, inserted.2)
                else (none, inserted.1, inserted.2)
          ]
        ]
      ]

  -- xdp2_dtable_create_plain, on `plain_tables`
  unfoldable pub create_plain :
      ℕ
      → Option Ref
      → Option Ref
      → ℕ
      → ℕ
      → T
      → ℕ
      → ℤ
      → TableList I T
      → Option Ref × ℤ × TableList I T
  create_plain entry_size malloc malloc_target name key_len default_target target_len ident l =
      create entry_size malloc malloc_target name key_len (key_len + 8) ident default_target
        target_len l

  -- xdp2_dtable_create_tern, on `tern_tables`
  unfoldable pub create_tern :
      ℕ
      → Option Ref
      → Option Ref
      → ℕ
      → ℕ
      → T
      → ℕ
      → ℤ
      → TableList I T
      → Option Ref × ℤ × TableList I T
  create_tern entry_size malloc malloc_target name key_len default_target target_len ident l =
      create entry_size malloc malloc_target name key_len (2 * key_len + 4) ident default_target
        target_len l

  -- xdp2_dtable_create_lpm, on `lpm_tables`
  unfoldable pub create_lpm :
      ℕ
      → Option Ref
      → Option Ref
      → ℕ
      → ℕ
      → T
      → ℕ
      → ℤ
      → TableList I T
      → Option Ref × ℤ × TableList I T
  create_lpm entry_size malloc malloc_target name key_len default_target target_len ident l =
      create entry_size malloc malloc_target name key_len (key_len + 8) ident default_target
        target_len l

-- `plain_tables`, `tern_tables` and `lpm_tables`, over the same objects
pub record AllTables (I T : Type 0) : Type 0 where
  pub plain_tables : List Ref
  pub tern_tables : List Ref
  pub lpm_tables : List Ref
  pub heap : Ref → Table I T

module _ {I T : Type 0} where
  -- The loop of xdp2_dtable_init over the tables of the section; `none` is the end of the program.
  unfoldable pub init_loop : List (Ref × TableType) → AllTables I T → Option (AllTables I T)
  init_loop [] s = some s
  init_loop ((r, table_type) ∷ def_base) s =
      let emptied =
        write_table r (record (s.heap r) { entries = []; entries_lookup = [] }) s.heap in
      let as_plain = insert_table r (pos 0) (record { tables = s.plain_tables; heap = emptied }) in
      let as_tern = insert_table r (pos 0) (record { tables = s.tern_tables; heap = emptied }) in
      let as_lpm = insert_table r (pos 0) (record { tables = s.lpm_tables; heap = emptied }) in
      elim table_type [
        | plain ↦
            if as_plain.0 ==ℤ pos 0
            then init_loop def_base
                (record s { plain_tables = as_plain.2.tables; heap = as_plain.2.heap })
            else none
        | tern ↦
            if as_tern.0 ==ℤ pos 0
            then init_loop def_base
                (record s { tern_tables = as_tern.2.tables; heap = as_tern.2.heap })
            else none
        | lpm ↦
            if as_lpm.0 ==ℤ pos 0
            then init_loop def_base
                (record s { lpm_tables = as_lpm.2.tables; heap = as_lpm.2.heap })
            else none
        | invalid ↦ init_loop def_base (record s { heap = emptied })
        | unknown ↦ none
      ]

  -- xdp2_dtable_init
  unfoldable pub init : List (Ref × TableType) → (Ref → Table I T) → Option (AllTables I T)
  init def_base heap =
      init_loop def_base
        (record { plain_tables = []; tern_tables = []; lpm_tables = []; heap = heap })
