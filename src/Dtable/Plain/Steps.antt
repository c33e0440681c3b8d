-- ===== src/Dtable/Plain/Steps.antt =====
-- Adding to, deleting from and changing a dynamic plain table, and what a lookup gives afterwards.
use xdp.Base.{
  ℕ, ◌≤◌, ◌<◌, ℤ, pos, List, Option, none, some, ◌≡◌, ◌≢◌, refl, sym, ap, ◌∙◌, if◌then◌else◌,
  Option-cases, inl, inr, Avoids, length,
}
use xdp.Dtable.{Ref, Entry, Table, del, change, ealready, enoent}
use xdp.Dtable.Keys.{copy_bytes-length, copy_bytes}
use xdp.Dtable.Order.{first}
use xdp.Dtable.Dictionary.{entry_target, no_entry, an_entry, hit_other}
use xdp.Dtable.Steps.{
  table_content, Becomes, add-Becomes, del-Becomes, change-Becomes, added_entry, with_entry,
}
use xdp.Dtable.Idents.{add_auto}
use xdp.Dtable.Plain.{
  PlainKey, plain_hit, wanted, find_plain, add_plain, del_plain, change_plain, lookup_plain,
}
use xdp.Dtable.Plain.Map.{
  hit_self, plain_order, plain_matching, PlainWellFormed, plain_content, or_default,
  lookup_plain-content, find_plain-first,
}

module _ {T : Type 0} (siphash : List ℕ → ℕ → ℕ) where
  -- A lookup of one key gives `result`, the lookups of the others what they gave before.
  abbrev pub LooksUp : Table PlainKey T → Table PlainKey T → List ℕ → T → Type 0
  LooksUp t t' key result =
      PlainWellFormed siphash t'
      × (lookup_plain siphash t' key ≡ result)
      × ((key' : List ℕ)
          → length key' ≡ t.key_len
          → key' ≢ key
          → lookup_plain siphash t' key' ≡ lookup_plain siphash t key')

  -- A step of the dictionary is one of the lookups.
  looks_up :
      (t : Table PlainKey T) (heap : Ref → Entry PlainKey T) (entries entries_lookup : List Ref)
      (key : List ℕ) (v : Option T)
      → PlainWellFormed siphash t
      → length key ≡ t.key_len
      → Becomes plain_order
          (plain_matching siphash t.key_len)
          (record t { heap = heap; entries = entries; entries_lookup = entries_lookup })
          (λ k.
            if plain_hit t.key_len k (wanted siphash t.key_len key)
            then v
            else table_content plain_order (plain_matching siphash t.key_len) t k)
      → LooksUp t
          (record t { heap = heap; entries = entries; entries_lookup = entries_lookup })
          key
          (or_default siphash t.default_target v)
  unfolding plain_matching
  looks_up t heap entries entries_lookup key v w l b =
      let t' : Table PlainKey T = record t {
        heap = heap;
        entries = entries;
        entries_lookup = entries_lookup;
      } in
      let here = hit_self t.key_len (wanted siphash t.key_len key) l in
      (
        b.0,
        lookup_plain-content siphash t' key b.0 l
            ∙ ap (or_default siphash t.default_target)
                (b.1 (wanted siphash t.key_len key) (l, refl) ∙ rw here refl),
        λ key' l' d.
            let miss =
              hit_other (plain_matching siphash t.key_len) (wanted siphash t.key_len key')
                (wanted siphash t.key_len key) (l', refl) (l, refl)
                (λ e. d (sym (ap (λ k. k.key) e))) in
            lookup_plain-content siphash t' key' b.0 l'
            ∙ (ap (or_default siphash t.default_target)
                  (b.1 (wanted siphash t.key_len key') (l', refl) ∙ rw miss refl)
                ∙ sym (lookup_plain-content siphash t key' w l')),
      )

  -- A key that is new, with an identifier to be chosen, memory, and room for another identifier: it is
  -- added, from then on a lookup gives its target, and the others find what they found.
  pub add_plain-new :
      (t : Table PlainKey T) (new : Ref) (key : List ℕ) (target : T)
      → PlainWellFormed siphash t
      → length key ≡ t.key_len
      → Avoids new t.entries_lookup
      → length t.entries < 2000000000
      → plain_content siphash t key ≡ none
      → (v : ℕ) × ((add_plain siphash (some new) t (pos 0) key target).0 ≡ pos v)
        × (1000000 ≤ v)
        × LooksUp t (add_plain siphash (some new) t (pos 0) key target).1 key target
  unfolding add_plain or_default plain_hit plain_matching find_plain plain_order
  add_plain-new t new key target w l a room h =
      let k = wanted siphash t.key_len key in
      let nothing = no_entry t.heap (first (plain_hit t.key_len k) t.heap t.entries_lookup) h in
      let missing = find_plain-first siphash t key w l ∙ nothing in
      let copied : copy_bytes t.key_len key ≡ key = rw (← l) (copy_bytes-length key) in
      let added = add_auto new (find_plain siphash t key).1 target k t room in
      let result : add_plain siphash (some new) t (pos 0) key target ≡ (
        pos added.0,
        with_entry new added.1 (find_plain siphash t key).1 (added_entry (pos added.0) target k) t,
      ) =
        rw (add_plain, missing, copied, added.2) refl in
      (
        added.0,
        rw result refl,
        added.3,
        rw result (
            looks_up t _ _ _ key (some target) w l (
              add-Becomes plain_order (plain_matching siphash t.key_len) new added.1
                (added_entry (pos added.0) target k) t w (l, refl) a nothing)),
      )

  -- A key that is there, whatever the identifier and the memory: nothing is added.
  pub add_plain-present :
      (t : Table PlainKey T) (malloc : Option Ref) (ident : ℤ) (key : List ℕ) (old target : T)
      → PlainWellFormed siphash t
      → length key ≡ t.key_len
      → plain_content siphash t key ≡ some old
      → (add_plain siphash malloc t ident key target ≡ (ealready, t))
        × (lookup_plain siphash t key ≡ old)
  unfolding add_plain plain_hit plain_matching or_default
  add_plain-present t malloc ident key old target w l h =
      let k = wanted siphash t.key_len key in
      let found = an_entry t.heap (first (plain_hit t.key_len k) t.heap t.entries_lookup) old h in
      let hit = find_plain-first siphash t key w l ∙ found.1 in
      (
        rw (add_plain, hit) refl,
        lookup_plain-content siphash t key w l ∙ ap (or_default siphash t.default_target) h,
      )

  -- Deleting a key, there or not: a lookup gives the default target, the others find what they found.
  pub del_plain-default :
      (t : Table PlainKey T) (key : List ℕ)
      → PlainWellFormed siphash t
      → length key ≡ t.key_len
      → LooksUp t (del_plain siphash t key) key t.default_target
  unfolding del_plain or_default entry_target del plain_hit plain_matching find_plain plain_order
  del_plain-default t key w l =
      let k = wanted siphash t.key_len key in
      elim (Option-cases (first (plain_hit t.key_len k) t.heap t.entries_lookup)) [
        | inl missing ↦
            let nothing = find_plain-first siphash t key w l ∙ missing in
            rw (del_plain, nothing)
              (
                w,
                lookup_plain-content siphash t key w l
                    ∙ ap (λ f. or_default siphash t.default_target (entry_target t.heap f)) missing,
                λ key' l' d. refl,
              )
        | inr (r, f) ↦
            let hit = find_plain-first siphash t key w l ∙ f in
            rw (del_plain, hit)
              (looks_up t t.heap _ _ key none w l
                (del-Becomes plain_order (plain_matching siphash t.key_len) k r t w (l, refl) f))
      ]

  -- Changing a key that is there: a lookup gives the new target, the others find what they found.
  pub change_plain-present :
      (t : Table PlainKey T) (key : List ℕ) (old target : T)
      → PlainWellFormed siphash t
      → length key ≡ t.key_len
      → plain_content siphash t key ≡ some old
      → ((change_plain siphash t key target).0 ≡ pos 0)
        × LooksUp t (change_plain siphash t key target).1 key target
  unfolding change_plain or_default change plain_hit plain_matching find_plain plain_order
  change_plain-present t key old target w l h =
      let k = wanted siphash t.key_len key in
      let found = an_entry t.heap (first (plain_hit t.key_len k) t.heap t.entries_lookup) old h in
      let hit = find_plain-first siphash t key w l ∙ found.1 in
      (
        rw (change_plain, hit) refl,
        rw (change_plain, hit)
            (looks_up t _ t.entries t.entries_lookup key (some target) w l (
              change-Becomes plain_order (plain_matching siphash t.key_len) k target found.0 t w
                (l, refl) found.1)),
      )

  -- Changing a key that is not there: -ENOENT, and the table stays.
  pub change_plain-missing :
      (t : Table PlainKey T) (key : List ℕ) (target : T)
      → PlainWellFormed siphash t
      → length key ≡ t.key_len
      → plain_content siphash t key ≡ none
      → change_plain siphash t key target ≡ (enoent, t)
  unfolding change_plain plain_hit plain_matching
  change_plain-missing t key target w l h =
      let k = wanted siphash t.key_len key in
      let nothing = no_entry t.heap (first (plain_hit t.key_len k) t.heap t.entries_lookup) h in
      let missing = find_plain-first siphash t key w l ∙ nothing in rw (change_plain, missing) refl
