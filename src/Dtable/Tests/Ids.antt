-- ===== src/Dtable/Tests/Ids.antt =====
-- Identifiers that are given, that are chosen, and that are lost.
use xdp.Base.{
  ◌<◌, ◌^◌, negsuc, ℕ, ◌≤◌, if◌then◌else◌, pos, List, [], ◌∷◌, none, some, ◌≡◌, refl, ap, ◌==◌,
  ◌==ℤ◌, arith,
}
use xdp.Dtable.{Ref, Entry, Table, add, del_by_id, find_ent_by_id, find_by_ident}
use xdp.Dtable.Idents.Search.{ident_order, ident_matching, IdentsWellFormed}
use xdp.Dtable.Idents.Given.{del_by_id-Finds}
use xdp.Dtable.Idents.Unsigned.{FindsById}
use xdp.Dtable.Idents.Negative.{add-hides}
use xdp.Dtable.Idents.Chosen.{add-chosen}
use xdp.Dtable.Tables.{TableList, create}
use xdp.Dtable.Tables.Listed.{Listed, ListFinds, create-free}

abbrev entry_at : Ref → Entry ℕ ℕ
entry_at r =
    if r == 1
    then record { ident = pos 1000000; target = 70; key = 4 }
    else if r == 2
    then record { ident = pos 1000002; target = 90; key = 3 }
    else if r == 4
    then record { ident = pos 5; target = 30; key = 2 }
    else record { ident = pos 0; target = 0; key = 0 }

-- A table with the entries at these objects.
abbrev table_of : List Ref → Table ℕ ℕ
table_of entries = record {
  name = 0;
  key_len = 1;
  targ_len = 8;
  entry_len = 57;
  ident = pos 1000000;
  default_target = 13;
  entries = entries;
  entries_lookup = entries;
  heap = entry_at;
}

two_chosen-WellFormed : IdentsWellFormed entry_at (1 ∷ 2 ∷ [])
unfolding ident_order ident_matching
two_chosen-WellFormed = record {
  sorted = ((refl, tt), (tt, tt));
  nodup = (((λ e. absurd (omega (arith, e))), tt), (tt, tt));
  good = (tt, (tt, tt));
  unique = (((λ e. let tests = ap (λ i. i ==ℤ pos 1000000) e in absurd (cc)), tt), (tt, tt));
}

add-chosen_example :
    (v : ℕ) × (t' : Table ℕ ℕ) × (add (some 3) none (pos 0) 20 9 (table_of (1 ∷ 2 ∷ []))
      ≡ some (pos v, t'))
    × (1000000 ≤ v)
    × (find_ent_by_id v entry_at (1 ∷ 2 ∷ []) ≡ none)
    × FindsById entry_at (1 ∷ 2 ∷ []) t'.heap t'.entries v (some 3)
add-chosen_example =
    add-chosen (table_of (1 ∷ 2 ∷ [])) 3 none 20 9 two_chosen-WellFormed
      ((λ e. absurd (omega (arith, e))), ((λ e. absurd (omega (arith, e))), tt)) (omega arith)
      (refl, (refl, tt))

del_by_id-Finds_example :
    FindsById entry_at
      (1 ∷ 2 ∷ [])
      (del_by_id 1000002 (table_of (1 ∷ 2 ∷ []))).heap
      (del_by_id 1000002 (table_of (1 ∷ 2 ∷ []))).entries
      1000002
      none
del_by_id-Finds_example =
    del_by_id-Finds (table_of (1 ∷ 2 ∷ [])) 1000002 two_chosen-WellFormed (refl, (refl, tt))

-- A list of one table, at the object 1.
abbrev one_table : TableList ℕ ℕ
one_table = record { tables = 1 ∷ []; heap = λ r. table_of [] }

one_table-Listed : Listed one_table
unfolding ident_order ident_matching
one_table-Listed = record {
  sorted = (tt, tt);
  nodup = (tt, tt);
  good = (tt, tt);
  unique = (tt, tt);
}

unused_table :
    find_by_ident (pos 5) (λ r. record { ident = pos 1000000; target = tt; key = tt }) (1 ∷ [])
    ≡ none
unfolding find_by_ident
unused_table = refl

create-free_example :
    (l' : TableList ℕ ℕ) × (create 48 (some 2) (some 9) 0 4 12 (pos 5) 13 8 one_table
      ≡ (some 2, pos 5, l'))
    × ListFinds one_table l' (pos 5) (some 2)
create-free_example =
    create-free 48 2 9 0 4 12 8 (pos 5) 13 one_table refl refl one_table-Listed
      ((λ e. absurd (omega (arith, e))), tt) unused_table

-- An entry with the identifier -5 next to others with chosen ones.
add-hides_example :
    (t' : Table ℕ ℕ) × (add (some 3) none (negsuc 4) 20 9 (table_of (1 ∷ 2 ∷ []))
      ≡ some (negsuc 4, t'))
    × (t'.entries ≡ 3 ∷ 1 ∷ 2 ∷ [])
    × ((n : ℕ) → n < 2 ^ 31 → find_ent_by_id n t'.heap t'.entries ≡ none)
add-hides_example = add-hides (table_of (1 ∷ 2 ∷ [])) 3 none 4 20 9 (refl, (refl, tt)) (omega arith)
