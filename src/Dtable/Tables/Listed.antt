-- ===== src/Dtable/Tables/Listed.antt =====
-- A list of tables is in the order of their identifiers: __xdp2_dtable_find_table,
-- __xdp2_dtable_insert_table and xdp2_dtable_create of src/lib/xdp2/dtable.c.
use xdp.Base.{
  ℕ, ◌+◌, ℤ, pos, false, List, [], ◌∷◌, Option, none, some, ◌≡◌, refl, sym, ap, ◌∙◌, ◌==◌, ◌==ℤ◌,
  ltb_ℤ, Bool-cases, inl, inr, Avoids, arith,
}
use xdp.Dtable.{Ref, Entry, Table, base_ident, find_entry, find_by_ident, write, insert_after}
use xdp.Dtable.Idents.Search.{IdentsWellFormed, search, find_by_ident-search}
use xdp.Dtable.Idents.Given.{Finds, insert-Finds, IdentsWellFormed-write}
use xdp.Dtable.Tables.{Found, TableList, find_loop, find_table, write_table, insert_table, create}

-- What the search of an identifier gives as a result of __xdp2_dtable_find_table.
abbrev pub to_found : ℤ → ℤ → Option Ref × Option Ref → Found
to_found ident want found = record {
  table = found.0;
  prev_table = found.1;
  ident = ident;
  want_ident = want;
}

module _ {I T : Type 0} where
  -- A table, as far as the list of tables goes.
  abbrev pub listed_entry : Table I T → Entry Unit Unit
  listed_entry t = record { ident = t.ident; target = tt; key = tt }

  abbrev pub listed : (Ref → Table I T) → Ref → Entry Unit Unit
  listed heap r = listed_entry (heap r)

  -- The tables are in the order of their identifiers, each once.
  abbrev pub Listed : TableList I T → Type 0
  Listed l = IdentsWellFormed (listed l.heap) l.tables

  find_loop-search :
      (ident want : ℤ) (prev : Option Ref) (heap : Ref → Table I T) (xs : List Ref)
      → (ident ==ℤ pos 0) ≡ false
      → find_loop ident want prev heap xs ≡ to_found ident want (search ident (listed heap) prev xs)
  unfolding find_loop find_entry
  find_loop-search ident want prev heap [] given = refl
  find_loop-search ident want prev heap (x ∷ xs) given =
      elim (Bool-cases (ltb_ℤ ident (heap x).ident)) [
        | inl far ↦
            let there : ((heap x).ident ==ℤ ident) ≡ false = ground (arith, far) in
            rw (find_loop, find_entry, given, there, far) refl
        | inr near ↦ elim (Bool-cases ((heap x).ident ==ℤ ident)) [
          | inl here ↦ rw (find_loop, find_entry, given, near, here) refl
          | inr there ↦
              let ended : search ident (listed heap) prev (x ∷ xs)
                  ≡ search ident (listed heap) (some x) xs =
                rw (find_entry, near, there) refl in
              let went : find_loop ident want prev heap (x ∷ xs)
                  ≡ find_loop ident want (some x) heap xs =
                rw (find_loop, given, there, near) refl in
              went
              ∙ (find_loop-search ident want (some x) heap xs given
                  ∙ ap (to_found ident want) (sym ended))
        ]
      ]

  -- A table that is asked for by an identifier is found as an entry of a table is.
  find_table-search :
      (ident : ℤ) (l : TableList I T)
      → (ident ==ℤ pos 0) ≡ false
      → ltb_ℤ ident (pos 0) ≡ false
      → find_table ident l ≡ to_found ident base_ident (search ident (listed l.heap) none l.tables)
  unfolding find_table
  find_table-search ident l given positive =
      rw (find_table, positive, find_loop-search ident base_ident none l.heap l.tables given, given)
        refl

  listed_here :
      (heap : Ref → Table I T) (r : Ref) (t : Table I T) (x : Ref)
      → listed (write_table r t heap) x ≡ write r (listed_entry t) (listed heap) x
  unfolding write_table write
  listed_here heap r t x = elim (Bool-cases (x == r)) [
    | inl here ↦ rw here refl
    | inr there ↦ rw there refl
  ]

  listed-write :
      (heap : Ref → Table I T) (r : Ref) (t : Table I T)
      → listed (write_table r t heap) ≡ write r (listed_entry t) (listed heap)
  listed-write heap r t = λ j x. listed_here heap r t x j

  -- The list `l'` has `table` with the identifier, and the other identifiers as before.
  abbrev pub ListFinds : TableList I T → TableList I T → ℤ → Option Ref → Type 0
  ListFinds l l' ident table = Finds (listed l.heap) l.tables (listed l'.heap) l'.tables ident table

  -- An identifier that is not in use.
  pub insert_table-free :
      (table : Ref) (ident : ℤ) (l : TableList I T)
      → (ident ==ℤ pos 0) ≡ false
      → ltb_ℤ ident (pos 0) ≡ false
      → Listed l
      → Avoids table l.tables
      → find_by_ident ident (listed l.heap) l.tables ≡ none
      → ((insert_table table ident l).0 ≡ pos 0)
        × ((insert_table table ident l).1 ≡ ident)
        × ListFinds l (insert_table table ident l).2 ident (some table)
  unfolding insert_table
  insert_table-free table ident l given positive w a h =
      let missing = sym (find_by_ident-search ident (listed l.heap) none l.tables) ∙ h in
      let place = (search ident (listed l.heap) none l.tables).1 in
      let t : Table I T = record (l.heap table) { ident = ident } in
      let nowhere : find_table ident l ≡ to_found ident base_ident (none, place) =
        find_table-search ident l given positive
        ∙ ap (to_found ident base_ident) (λ j. (missing j, place)) in
      let result : insert_table table ident l ≡ (
        pos 0,
        ident,
        record { tables = insert_after place table l.tables; heap = write_table table t l.heap },
      ) =
        rw (insert_table, nowhere, nowhere, positive) refl in
      let heaps = listed-write l.heap table t in
      (
        rw result refl,
        rw result refl,
        rw (result, heaps)
            (insert-Finds (listed l.heap) l.tables table (listed_entry t) place w a
              (λ j. (missing j, place))),
      )

  -- The table that xdp2_dtable_create makes.
  abbrev pub new_table : ℕ → ℕ → ℕ → ℕ → ℤ → T → ℕ → (Ref → Entry I T) → Table I T
  new_table entry_size name key_len all_key_len ident default_target target_len heap = record {
    name = name;
    key_len = key_len;
    targ_len = target_len;
    entry_len = entry_size + target_len + all_key_len;
    ident = ident;
    default_target = default_target;
    entries = [];
    entries_lookup = [];
    heap = heap;
  }

  -- Creating a table with an identifier that is positive and not in use, and with memory: the table is
  -- found by it, the others as before.
  pub create-free :
      (entry_size table dtarget name key_len all_key_len target_len : ℕ) (ident : ℤ)
      (default_target : T) (l : TableList I T)
      → (ident ==ℤ pos 0) ≡ false
      → ltb_ℤ ident (pos 0) ≡ false
      → Listed l
      → Avoids table l.tables
      → find_by_ident ident (listed l.heap) l.tables ≡ none
      → (l' : TableList I T) × (create entry_size
            (some table)
            (some dtarget)
            name
            key_len
            all_key_len
            ident
            default_target
            target_len
            l
          ≡ (some table, ident, l'))
        × ListFinds l l' ident (some table)
  unfolding create
  create-free entry_size table dtarget name key_len all_key_len target_len ident default_target l
        given positive w a h =
      let missing = sym (find_by_ident-search ident (listed l.heap) none l.tables) ∙ h in
      let place = (search ident (listed l.heap) none l.tables).1 in
      let nowhere : find_table ident l ≡ to_found ident base_ident (none, place) =
        find_table-search ident l given positive
        ∙ ap (to_found ident base_ident) (λ j. (missing j, place)) in
      let t =
        new_table entry_size name key_len all_key_len ident default_target target_len
          (l.heap table).heap in
      let l2 : TableList I T = record l { heap = write_table table t l.heap } in
      let heaps = listed-write l.heap table t in
      let kept = IdentsWellFormed-write (listed l.heap) table (listed_entry t) l.tables a w in
      let inserted =
        insert_table-free table ident l2 given positive (rw heaps kept.0) a
          (rw heaps (kept.1 ident ∙ h)) in
      let finds = inserted.2 in
      (
        (insert_table table ident l2).2,
        rw (create, nowhere, nowhere, positive, inserted.0, inserted.1) refl,
        (
          finds.0,
          finds.1,
          λ i' d. finds.2 i' d ∙ (ap (λ hs. find_by_ident i' hs l.tables) heaps ∙ kept.1 i'),
        ),
      )

  -- Creating a table with an identifier that is in use: there is none, and the list stays as it is.
  pub create-taken :
      (entry_size : ℕ) (malloc malloc_target : Option Ref) (name key_len all_key_len target_len : ℕ)
      (ident : ℤ) (default_target : T) (l : TableList I T) (r : Ref)
      → (ident ==ℤ pos 0) ≡ false
      → ltb_ℤ ident (pos 0) ≡ false
      → find_by_ident ident (listed l.heap) l.tables ≡ some r
      → create entry_size malloc malloc_target name key_len all_key_len ident default_target
          target_len l
        ≡ (none, ident, l)
  unfolding create
  create-taken entry_size malloc malloc_target name key_len all_key_len target_len ident
        default_target l r given positive h =
      let there = sym (find_by_ident-search ident (listed l.heap) none l.tables) ∙ h in
      let place = (search ident (listed l.heap) none l.tables).1 in
      let found : find_table ident l ≡ to_found ident base_ident (some r, place) =
        find_table-search ident l given positive
        ∙ ap (to_found ident base_ident) (λ j. (there j, place)) in
      rw (create, found, found) refl
