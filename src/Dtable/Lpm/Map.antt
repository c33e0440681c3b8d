-- ===== src/Dtable/Lpm/Map.antt =====
-- A dynamic longest prefix match table is a map from prefixes to targets: xdp2_dtable_add_lpm, _del_lpm
-- and _change_lpm of src/lib/xdp2/dtable.c.
use xdp.Base.{
  ℕ, ◌<◌, pos, true, List, Option, none, some, ◌≡◌, refl, sym, ◌∙◌, ◌==◌, if◌then◌else◌, and_both,
  Avoids, length, arith,
}
use xdp.Dtable.{Ref, Table}
use xdp.Dtable.Keys.{
  compare_equal, compare_equal_refl, compare_equal-≡, copy_bytes-length, copy_bytes,
}
use xdp.Dtable.Order.{first}
use xdp.Dtable.Dictionary.{Matching, find-first}
use xdp.Dtable.Idents.{add_auto}
use xdp.Dtable.Steps.{
  TableWellFormed, table_content, Becomes, add-Becomes, del-Becomes, change-Becomes, added_entry,
}
use xdp.Dtable.Lpm.{LpmKey, lpm_hit, find_lpm, add_lpm, del_lpm, change_lpm}
use xdp.Dtable.Lpm.Longest.{lpm_order}

pub same_prefix :
    (key_len : ℕ) (k i : LpmKey)
    → length k.key ≡ key_len
    → length i.key ≡ key_len
    → lpm_hit key_len k i ≡ true
    → i ≡ k
unfolding lpm_hit
same_prefix key_len k i gk gi h =
    let both = and_both (compare_equal i.key k.key key_len) (i.prefix_len == k.prefix_len) h in
    let lens : i.prefix_len ≡ k.prefix_len = ground (arith, both.1) in
    let keys = compare_equal-≡ i.key k.key (gi ∙ sym gk) (rw (← gi) at both.0) in
    λ j. record { prefix_len = lens j; key = keys j }

pub hit_self : (key_len : ℕ) (k : LpmKey) → length k.key ≡ key_len → lpm_hit key_len k k ≡ true
unfolding lpm_hit
hit_self key_len k g =
    let same : (k.prefix_len == k.prefix_len) ≡ true = ground arith in
    let same_bytes : compare_equal k.key k.key key_len ≡ true =
      rw (← g) (compare_equal_refl k.key) in
    rw (same_bytes, same) refl

unfoldable pub lpm_matching : ℕ → Matching LpmKey lpm_order
lpm_matching key_len = record {
  Good = λ k. length k.key ≡ key_len;
  hit = lpm_hit key_len;
  hit_≡ = same_prefix key_len;
  hit_refl = hit_self key_len;
}

-- A prefix of the table's key length.
abbrev pub prefix : List ℕ → ℕ → LpmKey
prefix key prefix_len = record { prefix_len = prefix_len; key = key }

module _ {T : Type 0} where
  abbrev pub LpmWellFormed : Table LpmKey T → Type 0
  LpmWellFormed t = TableWellFormed lpm_order (lpm_matching t.key_len) t

  -- What the map has for a prefix.
  abbrev pub lpm_content : Table LpmKey T → LpmKey → Option T
  lpm_content t k = table_content lpm_order (lpm_matching t.key_len) t k

  -- `t'` is a well-formed table, and the map that it is has `v` for the prefix `k`, for the others what
  -- `t` has.
  abbrev pub Updates : Table LpmKey T → Table LpmKey T → LpmKey → Option T → Type 0
  Updates t t' k v =
      Becomes lpm_order (lpm_matching t.key_len) t'
        (λ i. if lpm_hit t.key_len i k then v else lpm_content t i)

  find_lpm-first :
      (t : Table LpmKey T) (key : List ℕ) (prefix_len : ℕ)
      → LpmWellFormed t
      → length key ≡ t.key_len
      → ((find_lpm t key prefix_len).0
          ≡ first (lpm_hit t.key_len (prefix key prefix_len)) t.heap t.entries_lookup)
  unfolding find_lpm lpm_order lpm_matching
  find_lpm-first t key prefix_len w l =
      find-first lpm_order (lpm_matching t.key_len) t.heap (prefix key prefix_len) t.entries_lookup
        l w

  -- A prefix that is new, with an identifier to be chosen, memory, and room for another identifier, is
  -- added; what is returned is 0, not the identifier.
  pub add_lpm-new :
      (t : Table LpmKey T) (new : Ref) (key : List ℕ) (prefix_len : ℕ) (target : T)
      → LpmWellFormed t
      → length key ≡ t.key_len
      → Avoids new t.entries_lookup
      → length t.entries < 2000000000
      → (find_lpm t key prefix_len).0 ≡ none
      → ((add_lpm (some new) t (pos 0) key prefix_len target).0 ≡ pos 0)
        × Updates t
            (add_lpm (some new) t (pos 0) key prefix_len target).1
            (prefix key prefix_len)
            (some target)
  unfolding add_lpm find_lpm lpm_order lpm_matching
  add_lpm-new t new key prefix_len target w l a room missing =
      let k = prefix key prefix_len in
      let nothing = sym (find_lpm-first t key prefix_len w l) ∙ missing in
      let copied : copy_bytes t.key_len key ≡ key = rw (← l) (copy_bytes-length key) in
      let added = add_auto new (find_lpm t key prefix_len).1 target k t room in
      (
        rw (add_lpm, missing, copied, added.2) refl,
        rw (add_lpm, missing, copied, added.2)
            (add-Becomes lpm_order (lpm_matching t.key_len) new added.1
              (added_entry (pos added.0) target k) t w l a nothing),
      )

  -- Deleting a prefix that is there.
  pub del_lpm-present :
      (t : Table LpmKey T) (key : List ℕ) (prefix_len : ℕ) (r : Ref)
      → LpmWellFormed t
      → length key ≡ t.key_len
      → (find_lpm t key prefix_len).0 ≡ some r
      → Updates t (del_lpm t key prefix_len) (prefix key prefix_len) none
  unfolding del_lpm lpm_matching
  del_lpm-present t key prefix_len r w l f =
      rw (del_lpm, f)
        (del-Becomes lpm_order (lpm_matching t.key_len) (prefix key prefix_len) r t w l
          (sym (find_lpm-first t key prefix_len w l) ∙ f))

  -- Changing a prefix that is there.
  pub change_lpm-present :
      (t : Table LpmKey T) (key : List ℕ) (prefix_len : ℕ) (target : T) (r : Ref)
      → LpmWellFormed t
      → length key ≡ t.key_len
      → (find_lpm t key prefix_len).0 ≡ some r
      → ((change_lpm t key prefix_len target).0 ≡ pos 0)
        × Updates t (change_lpm t key prefix_len target).1 (prefix key prefix_len) (some target)
  unfolding change_lpm lpm_matching
  change_lpm-present t key prefix_len target r w l f = (
    rw (change_lpm, f) refl,
    rw (change_lpm, f)
        (change-Becomes lpm_order (lpm_matching t.key_len) (prefix key prefix_len) target r t w l
          (sym (find_lpm-first t key prefix_len w l) ∙ f)),
  )
