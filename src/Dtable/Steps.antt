-- ===== src/Dtable/Steps.antt =====
-- The steps that the tables' functions share, xdp2_dtable_add, xdp2_dtable_del and xdp2_dtable_change,
-- as steps of a dictionary.
use xdp.Base.{
  ℤ, pos, Option, none, some, ◌≡◌, refl, ◌∙◌, subst, ltb_ℤ, if◌then◌else◌, Bool-cases, Option-cases,
  some-injective, inl, inr, Avoids,
}
use xdp.Dtable.{
  Ref, Entry, Table, write, insert_after, find_entry, find_place, base_ident, add, del, change,
}
use xdp.Dtable.Order.{KeyOrder, first}
use xdp.Dtable.Find.{insert_after-find_entry}
use xdp.Dtable.Dictionary.{Matching, WellFormed, content, find-first, WellFormed-insert}
use xdp.Dtable.Changes.{content-change, key-changed, WellFormed-keys, changed}
use xdp.Dtable.Updates.{WellFormed-remove, content-insert, content-remove}

-- The entry that adding puts at `new`.
abbrev pub added_entry : {I T : Type 0} → ℤ → T → I → Entry I T
added_entry ident target key = record { ident = ident; target = target; key = key }

-- The table that adding gives, for an entry that stands behind `place` among the identifiers.
abbrev pub with_entry :
    {I T : Type 0} → Ref → Option Ref → Option Ref → Entry I T → Table I T → Table I T
with_entry new place prev e t = record t {
  entries = insert_after place new t.entries;
  entries_lookup = insert_after prev new t.entries_lookup;
  heap = write new e t.heap;
}

module _ {I T : Type 0} where
  -- All that adding does where it succeeds.
  pub add-with_entry :
      (new : Ref) (prev : Option Ref) (ident : ℤ) (target : T) (key : I) (t : Table I T)
      (res : ℤ × Table I T)
      → add (some new) prev ident target key t ≡ some res
      → (place : Option Ref) × (res.1 ≡ with_entry new place prev (added_entry res.0 target key) t)
  unfolding add
  add-with_entry new prev ident target key t res h =
      elim (Option-cases (find_place ident base_ident none t.heap t.entries)) [
        | inl n ↦ let impossible = rw (add, n) at h in absurd (cc)
        | inr (place, f) ↦ elim (Bool-cases (ltb_ℤ place.want (pos 0))) [
          | inl negative ↦ let impossible = rw (add, f, negative) at h in absurd (cc)
          | inr fine ↦
              let given = some-injective (rw (add, f, fine) at h) in
              subst
                (λ r.
                  (place' : Option Ref) × (r.1
                    ≡ with_entry new place' prev (added_entry r.0 target key) t))
                given (place.prev, refl)
        ]
      ]

module _ {I T : Type 0} (o : KeyOrder I) (m : Matching I o) where
  -- The dictionary that a table is.
  abbrev pub TableWellFormed : Table I T → Type 0
  TableWellFormed t = WellFormed o m t.heap t.entries_lookup

  abbrev pub table_content : Table I T → I → Option T
  table_content t k = content o m t.heap t.entries_lookup k

  -- A step that makes the dictionary `after`, and keeps the table well formed.
  abbrev pub Becomes : Table I T → (I → Option T) → Type 0
  Becomes t' after = TableWellFormed t' × ((k : I) → m.Good k → table_content t' k ≡ after k)

  pub add-Becomes :
      (new : Ref) (place : Option Ref) (e : Entry I T) (t : Table I T)
      → TableWellFormed t
      → m.Good e.key
      → Avoids new t.entries_lookup
      → first (m.hit e.key) t.heap t.entries_lookup ≡ none
      → Becomes
          (with_entry new place
            (find_entry (λ i. o.gt i e.key) (m.hit e.key) t.heap none t.entries_lookup).1
            e
            t)
          (λ k. if m.hit k e.key then some e.target else table_content t k)
  add-Becomes new place e t w g a h =
      let nothing = find-first o m t.heap e.key t.entries_lookup g w ∙ h in
      let inserted =
        insert_after-find_entry o e.key (m.hit e.key) t.heap new t.entries_lookup w.nodup nothing in
      rw inserted (
        WellFormed-insert o m t.heap new e t.entries_lookup w g a h,
        λ k gk. content-insert o m t.heap new e t.entries_lookup k w g gk a h,
      )

  pub del-Becomes :
      (key : I) (r : Ref) (t : Table I T)
      → TableWellFormed t
      → m.Good key
      → first (m.hit key) t.heap t.entries_lookup ≡ some r
      → Becomes (del r t) (λ k. if m.hit k key then none else table_content t k)
  unfolding del
  del-Becomes key r t w g f = (
    WellFormed-remove o m t.heap r t.entries_lookup w,
    λ k gk. content-remove o m t.heap key t.entries_lookup r k w g gk f,
  )

  pub change-Becomes :
      (key : I) (target : T) (r : Ref) (t : Table I T)
      → TableWellFormed t
      → m.Good key
      → first (m.hit key) t.heap t.entries_lookup ≡ some r
      → Becomes (change r target t) (λ k. if m.hit k key then some target else table_content t k)
  unfolding change
  change-Becomes key target r t w g f = (
    WellFormed-keys o m t.heap (changed r target t.heap) (key-changed o m t.heap r target)
        t.entries_lookup w,
    λ k gk. content-change o m t.heap key target t.entries_lookup r k w g gk f,
  )
