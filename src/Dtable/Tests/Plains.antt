-- ===== src/Dtable/Tests/Plains.antt =====
-- A plain table with two entries, two bytes to a key.
use xdp.Base.{
  ℕ, zero, suc, ◌+◌, ◌≤◌, if◌then◌else◌, pos, List, [], ◌∷◌, none, some, ◌≡◌, refl, ap, ◌==◌, arith,
}
use xdp.Dtable.{Ref, Entry, Table, lookup_target}
use xdp.Dtable.Keys.{compare_equal}
use xdp.Dtable.Order.{first}
use xdp.Dtable.Dictionary.{entry_target}
use xdp.Dtable.Plain.{PlainKey, plain_gt, plain_hit, add_plain, del_plain, lookup_plain}
use xdp.Dtable.Plain.Map.{plain_order, plain_matching, PlainWellFormed, plain_content}
use xdp.Dtable.Plain.Steps.{LooksUp, add_plain-new, del_plain-default}

-- A hash that two keys can share: the sum of the bytes.
abbrev sum_hash : List ℕ → ℕ → ℕ
sum_hash [] n = 0
sum_hash (b ∷ bs) zero = 0
sum_hash (b ∷ bs) (suc n) = b + sum_hash bs n

abbrev entry_at : Ref → Entry PlainKey ℕ
entry_at r =
    if r == 1
    then record { ident = pos 7; target = 70; key = record { hash = 5; key = 2 ∷ 3 ∷ [] } }
    else if r == 2
    then record { ident = pos 9; target = 90; key = record { hash = 5; key = 4 ∷ 1 ∷ [] } }
    else record { ident = pos 0; target = 0; key = record { hash = 0; key = [] } }

abbrev two_entries : Table PlainKey ℕ
two_entries = record {
  name = 0;
  key_len = 2;
  targ_len = 8;
  entry_len = 66;
  ident = pos 1000000;
  default_target = 13;
  entries = 1 ∷ 2 ∷ [];
  entries_lookup = 2 ∷ 1 ∷ [];
  heap = entry_at;
}

two_entries-WellFormed : PlainWellFormed sum_hash two_entries
unfolding plain_order plain_gt plain_matching
two_entries-WellFormed = record {
  sorted = ((refl, tt), (tt, tt));
  nodup = (((λ e. absurd (omega (arith, e))), tt), (tt, tt));
  good = ((refl, refl), ((refl, refl), tt));
  unique = (((λ e. absurd (omega (arith, ap (λ k. sum_hash k.key 1) e))), tt), (tt, tt));
}

shared_hash : lookup_plain sum_hash two_entries (4 ∷ 1 ∷ []) ≡ 90
unfolding lookup_plain plain_gt plain_hit compare_equal lookup_target
shared_hash = refl

missed : plain_content sum_hash two_entries (1 ∷ 4 ∷ []) ≡ none
unfolding plain_order plain_matching plain_hit first entry_target compare_equal
missed = refl

there : plain_content sum_hash two_entries (2 ∷ 3 ∷ []) ≡ some 70
unfolding plain_order plain_matching plain_hit first entry_target compare_equal
there = refl

add_plain-new_example :
    (v : ℕ) × ((add_plain sum_hash (some 3) two_entries (pos 0) (1 ∷ 4 ∷ []) 50).0 ≡ pos v)
    × (1000000 ≤ v)
    × LooksUp sum_hash two_entries
        (add_plain sum_hash (some 3) two_entries (pos 0) (1 ∷ 4 ∷ []) 50).1
        (1 ∷ 4 ∷ [])
        50
add_plain-new_example =
    add_plain-new sum_hash two_entries 3 (1 ∷ 4 ∷ []) 50 two_entries-WellFormed refl
      ((λ e. absurd (omega (arith, e))), ((λ e. absurd (omega (arith, e))), tt)) (omega arith)
      missed

del_plain-default_example :
    LooksUp sum_hash two_entries (del_plain sum_hash two_entries (4 ∷ 1 ∷ [])) (4 ∷ 1 ∷ []) 13
del_plain-default_example =
    del_plain-default sum_hash two_entries (4 ∷ 1 ∷ []) two_entries-WellFormed refl
