-- ===== src/Dtable/Tests/Prefixes.antt =====
-- A longest prefix match table with two prefixes, and a ternary table with two masks.
use xdp.Base.{
  ℕ, ◌≤◌, if◌then◌else◌, pos, true, false, [], ◌∷◌, none, some, ◌⊎◌, ◌≡◌, refl, ap, ◌==◌, Member,
  All, arith,
}
use xdp.Dtable.{Ref, Entry, Table, lookup_target, find_entry}
use xdp.Dtable.Keys.{compare_equal, compare_prefix, compare_tern}
use xdp.Dtable.Ordered.{Ordered}
use xdp.Dtable.Lpm.{LpmKey, lpm_gt, lpm_hit, lpm_match, find_lpm, add_lpm, lookup_lpm}
use xdp.Dtable.Lpm.Longest.{lpm_order, lookup_lpm-longest, add_lpm-Ordered}
use xdp.Dtable.Lpm.Map.{lpm_matching, LpmWellFormed, Updates, prefix, add_lpm-new}
use xdp.Dtable.Tern.{TernKey, tern_gt, lookup_tern}
use xdp.Dtable.Tern.Positions.{tern_order, lookup_tern-smallest}

abbrev prefix_at : Ref → Entry LpmKey ℕ
prefix_at r =
    if r == 1
    then record { ident = pos 1; target = 100; key = prefix (10 ∷ 0 ∷ []) 8 }
    else if r == 2
    then record { ident = pos 2; target = 200; key = prefix (10 ∷ 1 ∷ []) 16 }
    else record { ident = pos 0; target = 0; key = prefix [] 0 }

abbrev prefixes : Table LpmKey ℕ
prefixes = record {
  name = 0;
  key_len = 2;
  targ_len = 8;
  entry_len = 66;
  ident = pos 1000000;
  default_target = 13;
  entries = 1 ∷ 2 ∷ [];
  entries_lookup = 2 ∷ 1 ∷ [];
  heap = prefix_at;
}

prefixes-Ordered : Ordered lpm_order prefixes
unfolding lpm_order lpm_gt
prefixes-Ordered = (((refl, tt), (tt, tt)), (((λ e. absurd (omega (arith, e))), tt), (tt, tt)))

prefixes-WellFormed : LpmWellFormed prefixes
unfolding lpm_order lpm_gt lpm_matching
prefixes-WellFormed = record {
  sorted = ((refl, tt), (tt, tt));
  nodup = (((λ e. absurd (omega (arith, e))), tt), (tt, tt));
  good = (refl, (refl, tt));
  unique = (((λ e. absurd (omega (arith, ap (λ k. k.prefix_len) e))), tt), (tt, tt));
}

longest_wins : lookup_lpm prefixes (10 ∷ 1 ∷ []) ≡ 200
unfolding lookup_lpm lpm_match compare_prefix compare_equal lookup_target
longest_wins = refl

shorter_else : lookup_lpm prefixes (10 ∷ 2 ∷ []) ≡ 100
unfolding lookup_lpm lpm_match compare_prefix compare_equal lookup_target
shorter_else = refl

lookup_lpm-longest_example :
    (All
        (λ y.
          compare_prefix (prefix_at y).key.key (10 ∷ 1 ∷ []) (prefix_at y).key.prefix_len ≡ false)
        (2 ∷ 1 ∷ [])
      × (lookup_lpm prefixes (10 ∷ 1 ∷ []) ≡ 13))
    ⊎ ((r : Ref) × Member r (2 ∷ 1 ∷ [])
        × (compare_prefix (prefix_at r).key.key (10 ∷ 1 ∷ []) (prefix_at r).key.prefix_len ≡ true)
        × (lookup_lpm prefixes (10 ∷ 1 ∷ []) ≡ (prefix_at r).target)
        × All
            (λ y.
              compare_prefix (prefix_at y).key.key (10 ∷ 1 ∷ []) (prefix_at y).key.prefix_len ≡ true
              → (prefix_at y).key.prefix_len ≤ (prefix_at r).key.prefix_len)
            (2 ∷ 1 ∷ []))
lookup_lpm-longest_example = lookup_lpm-longest prefixes (10 ∷ 1 ∷ []) prefixes-Ordered

add_lpm-Ordered_example :
    Ordered lpm_order (add_lpm (some 3) prefixes (pos 0) (10 ∷ 64 ∷ []) 10 300).1
add_lpm-Ordered_example =
    add_lpm-Ordered prefixes (some 3) (pos 0) (10 ∷ 64 ∷ []) 10 300 prefixes-Ordered
      ((λ e. absurd (omega (arith, e))), ((λ e. absurd (omega (arith, e))), tt))

new_prefix : (find_lpm prefixes (10 ∷ 64 ∷ []) 10).0 ≡ none
unfolding find_lpm lpm_gt lpm_hit compare_equal find_entry
new_prefix = refl

add_lpm-new_example :
    ((add_lpm (some 3) prefixes (pos 0) (10 ∷ 64 ∷ []) 10 300).0 ≡ pos 0)
    × Updates prefixes
        (add_lpm (some 3) prefixes (pos 0) (10 ∷ 64 ∷ []) 10 300).1
        (prefix (10 ∷ 64 ∷ []) 10)
        (some 300)
add_lpm-new_example =
    add_lpm-new prefixes 3 (10 ∷ 64 ∷ []) 10 300 prefixes-WellFormed refl
      ((λ e. absurd (omega (arith, e))), ((λ e. absurd (omega (arith, e))), tt)) (omega arith)
      new_prefix

abbrev masked_at : Ref → Entry TernKey ℕ
masked_at r =
    if r == 1
    then record {
      ident = pos 1;
      target = 100;
      key = record { place = 5; key = 6 ∷ []; mask = 15 ∷ [] };
    }
    else if r == 2
    then record {
      ident = pos 2;
      target = 200;
      key = record { place = 3; key = 2 ∷ []; mask = 3 ∷ [] };
    }
    else record { ident = pos 0; target = 0; key = record { place = 0; key = []; mask = [] } }

abbrev masks : Table TernKey ℕ
masks = record {
  name = 0;
  key_len = 1;
  targ_len = 8;
  entry_len = 62;
  ident = pos 1000000;
  default_target = 13;
  entries = 1 ∷ 2 ∷ [];
  entries_lookup = 2 ∷ 1 ∷ [];
  heap = masked_at;
}

masks-Ordered : Ordered tern_order masks
unfolding tern_order tern_gt
masks-Ordered = (((refl, tt), (tt, tt)), (((λ e. absurd (omega (arith, e))), tt), (tt, tt)))

lookup_tern-smallest_example :
    (All
        (λ y. compare_tern (masked_at y).key.key (6 ∷ []) (masked_at y).key.mask 1 ≡ false)
        (2 ∷ 1 ∷ [])
      × (lookup_tern masks (6 ∷ []) ≡ 13))
    ⊎ ((r : Ref) × Member r (2 ∷ 1 ∷ [])
        × (compare_tern (masked_at r).key.key (6 ∷ []) (masked_at r).key.mask 1 ≡ true)
        × (lookup_tern masks (6 ∷ []) ≡ (masked_at r).target)
        × All
            (λ y.
              compare_tern (masked_at y).key.key (6 ∷ []) (masked_at y).key.mask 1 ≡ true
              → (masked_at r).key.place ≤ (masked_at y).key.place)
            (2 ∷ 1 ∷ []))
lookup_tern-smallest_example = lookup_tern-smallest masks (6 ∷ []) masks-Ordered
