-- ===== src/Fifo/Polls/Turns.antt =====
-- Polling serves what is ready in turns: __xdp2_fifo_sw_poll of src/include/xdp2/fifo.h.
use xdp.Base.{
  ℕ, ◌+◌, ◌-◌, ◌%◌, ◌≤◌, ◌<◌, Bool, true, false, ◌&&◌, ◌≡◌, ◌≢◌, ◌⊎◌, inl, inr, refl, sym, ap, ◌∙◌,
  ltb, Bool-cases, arith, ◌==◌, List, [], ◌∷◌, Option, some, length, All,
}
use xdp.Fifo.{PollGroup}
use xdp.Fifo.Polls.{max_fifos, find_roll, next_ready, sw_poll}
use xdp.Fifo.Polls.Find.{Off, Found, find_roll-Found}

-- The numbers that are ready and enabled
abbrev pub ready_bits : PollGroup → ℕ → Bool
ready_bits group num = group.fifos_ready num && group.fifos_mask num

-- A poll that does not wait returns a number that is ready and enabled, the first one from `start_pos` on,
-- going round, and the next poll starts behind it; where no number is ready and enabled it returns 128.
pub sw_poll-Found :
    (group : PollGroup)
    → group.start_pos < max_fifos
    → (v : ℕ) × Found (ready_bits group) group.start_pos max_fifos v
      × (((v < max_fifos)
            × (sw_poll false group ≡ (some v, record group { start_pos = (v + 1) % max_fifos })))
          ⊎ ((max_fifos ≤ v) × (sw_poll false group ≡ (some max_fifos, group))))
unfolding sw_poll next_ready
sw_poll-Found group h =
    let v = find_roll (ready_bits group) group.start_pos max_fifos in
    (
      v,
      find_roll-Found (ready_bits group) group.start_pos max_fifos (omega (arith, h)),
      elim (Bool-cases (ltb v max_fifos)) [
        | inl hit ↦ inl (ground (arith, hit), rw (sw_poll, next_ready, hit) refl)
        | inr miss ↦ inr (ground (arith, miss), rw (sw_poll, next_ready, miss) refl)
      ],
    )

-- How far a number is ahead of where the next poll starts
abbrev ahead : ℕ → ℕ → ℕ
ahead num start_pos = (num + max_fifos - start_pos) % max_fifos

clash : (bits : ℕ → Bool) (i : ℕ) → bits i ≡ true → bits i ≡ false → ⊥
clash bits i on off = let both = sym on ∙ off in cc

closer :
    (bits : ℕ → Bool) (num start_pos v : ℕ)
    → num < max_fifos
    → start_pos < max_fifos
    → v < max_fifos
    → bits num ≡ true
    → v ≢ num
    → ((start_pos ≤ v) × Off bits start_pos v) ⊎ (Off bits start_pos max_fifos × Off bits 0 v)
    → ahead num ((v + 1) % max_fifos) < ahead num start_pos
closer bits num start_pos v h k l on other found = elim found [
  | inl direct ↦ elim (Bool-cases (ltb num start_pos)) [
    | inl below ↦ ground (arith, below, direct.0, h, k, l)
    | inr above ↦ elim (Bool-cases (ltb num v)) [
      | inl between ↦
          absurd
            (clash bits num on (direct.1 num (ground (arith, above)) (ground (arith, between))))
      | inr beyond ↦ ground (arith, above, beyond, direct.0, h, k, l, other)
    ]
  ]
  | inr round ↦ elim (Bool-cases (ltb num start_pos)) [
    | inl below ↦ elim (Bool-cases (ltb num v)) [
      | inl between ↦
          absurd (clash bits num on (round.1 num (omega arith) (ground (arith, between))))
      | inr beyond ↦ ground (arith, below, beyond, h, k, l, other)
    ]
    | inr above ↦ absurd (clash bits num on (round.0 num (ground (arith, above)) h))
  ]
]

-- The answers of polls that do not wait, with what is ready and what is enabled at each of them
abbrev pub turns : PollGroup → List ((ℕ → Bool) × (ℕ → Bool)) → List (Option ℕ)
turns group [] = []
turns group (bits ∷ rest) =
    let done = sw_poll false (record group { fifos_ready = bits.0; fifos_mask = bits.1 }) in
    done.0 ∷ turns done.1 rest

abbrev pub Served : ℕ → List (Option ℕ) → Type 0
Served num [] = ⊥
Served num (answer ∷ answers) = (answer ≡ some num) ⊎ Served num answers

Served-soon :
    (num : ℕ) (polls : List ((ℕ → Bool) × (ℕ → Bool))) (group : PollGroup)
    → num < max_fifos
    → group.start_pos < max_fifos
    → ahead num group.start_pos < length polls
    → All (λ bits. (bits.0 num && bits.1 num) ≡ true) polls
    → Served num (turns group polls)
Served-soon num [] group h k l on = absurd (omega (arith, l))
Served-soon num (bits ∷ rest) group h k l on =
    let now : PollGroup = record group { fifos_ready = bits.0; fifos_mask = bits.1 } in
    let done = sw_poll-Found now k in
    elim done.2 [
      | inl hit ↦ elim done.1 [
        | inl found ↦ elim (Bool-cases (done.0 == num)) [
          | inl same ↦ inl (ap (λ d. d.0) hit.1 ∙ ap some (ground (arith, same)))
          | inr other ↦
              let nearer =
                closer (ready_bits now) num now.start_pos done.0 h k hit.0 on.0
                  (λ e. ground (arith, other, e)) found.2 in
              inr (
                rw hit.1 (
                  Served-soon num rest (record now { start_pos = (done.0 + 1) % max_fifos }) h
                    (omega arith) (omega (arith, l, nearer)) on.1))
        ]
        | inr none_on ↦ absurd (omega (arith, none_on.0, hit.0))
      ]
      | inr miss ↦ elim done.1 [
        | inl found ↦ absurd (omega (arith, found.0, miss.0))
        | inr none_on ↦ absurd (clash (ready_bits now) num on.0 (none_on.1 num (omega arith) h))
      ]
    ]

-- A number below 128 that is ready and enabled at each of 128 polls, the first of which starts below 128,
-- is the answer of one of them, whatever else is ready.
pub turns-Served :
    (num : ℕ) (polls : List ((ℕ → Bool) × (ℕ → Bool))) (group : PollGroup)
    → num < max_fifos
    → group.start_pos < max_fifos
    → max_fifos ≤ length polls
    → All (λ bits. (bits.0 num && bits.1 num) ≡ true) polls
    → Served num (turns group polls)
turns-Served num polls group h k l on = Served-soon num polls group h k (omega (arith, l)) on
