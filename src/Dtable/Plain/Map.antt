-- ===== src/Dtable/Plain/Map.antt =====
-- A dynamic plain table is a map from keys to targets: xdp2_dtable_add_plain, _del_plain,
-- _change_plain and _lookup_plain of src/lib/xdp2/dtable.c.
use xdp.Base.{
  ℕ, true, List, Option, none, some, ◌≡◌, refl, sym, ap, ◌∙◌, ◌==◌, ltb_irrefl, ltb_trans, ltb_asym,
  and_both, length, arith,
}
use xdp.Dtable.{Ref, Entry, Table}
use xdp.Dtable.Keys.{compare_equal, compare_equal_refl, compare_equal-≡}
use xdp.Dtable.Order.{KeyOrder, first}
use xdp.Dtable.Find.{target_of, lookup_target-first}
use xdp.Dtable.Dictionary.{Matching, entry_target, first-within, find-first}
use xdp.Dtable.Steps.{TableWellFormed, table_content}
use xdp.Dtable.Plain.{PlainKey, plain_gt, plain_hit, wanted, find_plain, lookup_plain}

unfoldable pub plain_order : KeyOrder PlainKey
unfolding plain_gt
plain_order = record {
  gt = plain_gt;
  refl_gt = λ a. ltb_irrefl a.hash;
  trans = λ a b c h k. ltb_trans a.hash b.hash c.hash h k;
  asym = λ a b h. ltb_asym a.hash b.hash h;
}

-- The key has the table's length, and the hash is its hash.
abbrev pub PlainGood : (List ℕ → ℕ → ℕ) → ℕ → PlainKey → Type 0
PlainGood siphash key_len k = (length k.key ≡ key_len) × (k.hash ≡ siphash k.key key_len)

pub same_key :
    (siphash : List ℕ → ℕ → ℕ) (key_len : ℕ) (k i : PlainKey)
    → PlainGood siphash key_len k
    → PlainGood siphash key_len i
    → i.key ≡ k.key
    → i ≡ k
same_key siphash key_len k i gk gi e =
    let hashes : i.hash ≡ k.hash = gi.1 ∙ (ap (λ key. siphash key key_len) e ∙ sym gk.1) in
    λ j. record { hash = hashes j; key = e j }

pub hit_key :
    (key_len : ℕ) (k i : PlainKey)
    → length k.key ≡ key_len
    → length i.key ≡ key_len
    → plain_hit key_len k i ≡ true
    → i.key ≡ k.key
unfolding plain_hit
hit_key key_len k i gk gi h =
    let both = and_both (i.hash == k.hash) (compare_equal i.key k.key key_len) h in
    compare_equal-≡ i.key k.key (gi ∙ sym gk) (rw (← gi) at both.1)

pub hit_self : (key_len : ℕ) (k : PlainKey) → length k.key ≡ key_len → plain_hit key_len k k ≡ true
unfolding plain_hit
hit_self key_len k g =
    let same : (k.hash == k.hash) ≡ true = ground arith in rw (same, ← g) (compare_equal_refl k.key)

unfoldable pub plain_matching : (List ℕ → ℕ → ℕ) → ℕ → Matching PlainKey plain_order
plain_matching siphash key_len = record {
  Good = PlainGood siphash key_len;
  hit = plain_hit key_len;
  hit_≡ = λ k i gk gi h. same_key siphash key_len k i gk gi (hit_key key_len k i gk.0 gi.0 h);
  hit_refl = λ k gk. hit_self key_len k gk.0;
}

module _ {T : Type 0} (siphash : List ℕ → ℕ → ℕ) where
  abbrev pub PlainWellFormed : Table PlainKey T → Type 0
  PlainWellFormed t = TableWellFormed plain_order (plain_matching siphash t.key_len) t

  -- What the map has for a key.
  abbrev pub plain_content : Table PlainKey T → List ℕ → Option T
  plain_content t key =
      table_content plain_order (plain_matching siphash t.key_len) t (wanted siphash t.key_len key)

  unfoldable pub or_default : T → Option T → T
  or_default default none = default
  or_default default (some target) = target

  target_of-or_default :
      (heap : Ref → Entry PlainKey T) (default : T) (found : Option Ref)
      → target_of heap default found ≡ or_default default (entry_target heap found)
  unfolding target_of or_default entry_target
  target_of-or_default heap default none = refl
  target_of-or_default heap default (some r) = refl

  pub lookup_plain-content :
      (t : Table PlainKey T) (key : List ℕ)
      → PlainWellFormed t
      → length key ≡ t.key_len
      → lookup_plain siphash t key ≡ or_default t.default_target (plain_content t key)
  unfolding lookup_plain plain_order plain_matching
  lookup_plain-content t key w l =
      let m = plain_matching siphash t.key_len in
      let k = wanted siphash t.key_len key in
      lookup_target-first plain_order k (plain_hit t.key_len k) t.heap t.default_target
        t.entries_lookup w.sorted
      ∙ (ap (target_of t.heap t.default_target)
            (first-within plain_order m t.heap k t.entries_lookup (l, refl) w.good)
          ∙ target_of-or_default t.heap t.default_target
              (first (plain_hit t.key_len k) t.heap t.entries_lookup))

  pub find_plain-first :
      (t : Table PlainKey T) (key : List ℕ)
      → PlainWellFormed t
      → length key ≡ t.key_len
      → ((find_plain siphash t key).0
          ≡ first (plain_hit t.key_len (wanted siphash t.key_len key)) t.heap t.entries_lookup)
  unfolding find_plain plain_order plain_matching
  find_plain-first t key w l =
      find-first plain_order (plain_matching siphash t.key_len) t.heap
        (wanted siphash t.key_len key) t.entries_lookup (l, refl) w
