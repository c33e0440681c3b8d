-- ===== src/Fifo/Polls/Find.antt =====
-- What the search for a bit finds: xdp2_bitmap64_find_roll of src/include/xdp2/bitmap_helpers.h.
use xdp.Base.{
  ℕ, zero, suc, ◌+◌, ◌-◌, ◌≤◌, ◌<◌, Bool, true, false, ◌≡◌, ◌⊎◌, inl, inr, refl, ltb, Bool-cases,
  arith, ◌==◌,
}
use xdp.Fifo.Polls.{find, find_roll}

-- No bit is on from `low` up to `high`.
abbrev pub Off : (ℕ → Bool) → ℕ → ℕ → Type 0
Off bits low high = (i : ℕ) → low ≤ i → i < high → bits i ≡ false

-- The search ends at the first bit that is on, or past the last one.
pub find-First :
    (bits : ℕ → Bool) (pos left : ℕ)
    → (pos ≤ find bits pos left)
      × (find bits pos left ≤ pos + left)
      × Off bits pos (find bits pos left)
      × (find bits pos left < pos + left → bits (find bits pos left) ≡ true)
unfolding find
find-First bits pos zero = (
  omega arith,
  omega arith,
  (λ i low high. absurd (omega (arith, low, high))),
  λ l. absurd (omega (arith, l)),
)
find-First bits pos (suc left) = elim (Bool-cases (bits pos)) [
  | inl on ↦
      let here : find bits pos (suc left) ≡ pos = rw (find, on) refl in
      rw here (omega arith, omega arith, (λ i low high. absurd (omega (arith, low, high))), λ l. on)
  | inr off ↦
      let there : find bits pos (suc left) ≡ find bits (suc pos) left = rw (find, off) refl in
      let rest = find-First bits (suc pos) left in
      rw there (
        omega (arith, rest.0),
        omega (arith, rest.1),
        (λ i low high. elim (Bool-cases (i == pos)) [
          | inl same ↦ let e : i ≡ pos = ground (arith, same) in rw e off
          | inr other ↦ rest.2 i (ground (arith, low, other)) high
        ]),
        λ l. rest.3 (omega (arith, l)),
      )
]

-- What a search that rolls over has found: a bit that is on, with none on from `pos` up to it, going
-- round; or no bit is on.
abbrev pub Found : (ℕ → Bool) → ℕ → ℕ → ℕ → Type 0
Found bits pos nbits v =
    ((v < nbits)
      × (bits v ≡ true)
      × (((pos ≤ v) × Off bits pos v) ⊎ (Off bits pos nbits × Off bits 0 v)))
    ⊎ ((nbits ≤ v) × Off bits 0 nbits)

pub find_roll-Found :
    (bits : ℕ → Bool) (pos nbits : ℕ)
    → pos ≤ nbits
    → Found bits pos nbits (find_roll bits pos nbits)
unfolding find_roll
find_roll-Found bits pos nbits h =
    let first = find-First bits pos (nbits - pos) in
    let again = find-First bits 0 nbits in
    let w = find bits pos (nbits - pos) in
    elim (Bool-cases (ltb w nbits)) [
      | inl hit ↦
          let l : w < nbits = ground (arith, hit) in
          rw (find_roll, hit) (inl (l, first.3 (omega (arith, l, h)), inl (first.0, first.2)))
      | inr miss ↦
          let past : nbits ≤ w = ground (arith, miss) in
          let rest : Off bits pos nbits = λ i low high. first.2 i low (omega (arith, past, high)) in
          let v = find bits 0 nbits in
          elim (Bool-cases (ltb v nbits)) [
            | inl hit ↦
                let l : v < nbits = ground (arith, hit) in
                rw (find_roll, miss) (inl (l, again.3 (omega (arith, l)), inr (rest, again.2)))
            | inr none_on ↦
                let l : nbits ≤ v = ground (arith, none_on) in
                rw (find_roll, miss) (inr (l, λ i low high. again.2 i low (omega (arith, l, high))))
          ]
    ]
