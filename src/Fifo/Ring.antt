-- ===== src/Fifo/Ring.antt =====
-- The ring of a fifo: where the messages stand in the words of the queue.
use xdp.Base.{
  ℕ, zero, suc, ◌+◌, ◌-◌, ◌*◌, ◌%◌, ◌^◌, ◌≤◌, ◌<◌, List, [], ◌∷◌, ◌++◌, ◌≡◌, ◌≢◌, refl, ap, ◌∙◌,
  ◌⊎◌, inl, inr, length, ltb, put, put-here, put-other, arith, Bool-cases, ◌==◌, if◌then◌else◌,
}
use native.Mathlib.Nat.{mul-le-mul_right, mod-eq_of_lt, mod_self, add-mod_right}
use xdp.Fifo.{uint_mod, distance}
use xdp.Fifo.Sections.{copy_in, copy_out}

-- The entry after `i`.
abbrev pub next : ℕ → ℕ → ℕ
next n i = if suc i == n then 0 else suc i

next-cases : (n i : ℕ) → ((suc i ≡ n) × (next n i ≡ 0)) ⊎ ((suc i ≢ n) × (next n i ≡ suc i))
next-cases n i = elim (Bool-cases (suc i == n)) [
  | inl same ↦ inl (ground (arith, same), rw same refl)
  | inr other ↦ inr ((λ e. ground (arith, other, e)), rw other refl)
]

pub next-lt : (n i : ℕ) → i < n → next n i < n
next-lt n i h = elim (next-cases n i) [
  | inl wrap ↦ rw wrap.1 (omega (arith, h))
  | inr on ↦ rw on.1 (omega (arith, h, on.0))
]

pub next-mod : (n i : ℕ) → i < n → n < uint_mod → ((i + 1) % uint_mod) % n ≡ next n i
next-mod n i h k =
    let fits : (i + 1) % uint_mod ≡ suc i = omega (arith, h, k) in
    elim (next-cases n i) [
      | inl wrap ↦ rw (fits, wrap.1, wrap.0) (mod_self n)
      | inr on ↦ rw (fits, on.1) (mod-eq_of_lt (omega (arith, h, on.0)))
    ]

-- A write before or after a word leaves it.
pub copy_in-outside :
    (place : ℕ) (words : List ℕ) (queue : ℕ → ℕ) (x : ℕ)
    → (x < place) ⊎ (place + length words ≤ x)
    → copy_in place words queue x ≡ queue x
unfolding copy_in
copy_in-outside place [] queue x h = refl
copy_in-outside place (word ∷ words) queue x h =
    copy_in-outside (suc place) words (put place word queue) x
      (elim h [ inl before ↦ inl (omega (arith, before)) | inr after ↦ inr (omega (arith, after)) ])
    ∙ put-other place word queue x (λ e. elim h [
      | inl before ↦ omega (arith, before, e)
      | inr after ↦ omega (arith, after, e)
    ])

-- What is copied in is copied out.
pub copy_out-copy_in :
    (place : ℕ) (words : List ℕ) (queue : ℕ → ℕ)
    → copy_out place (length words) (copy_in place words queue) ≡ words
unfolding copy_in copy_out
copy_out-copy_in place [] queue = refl
copy_out-copy_in place (word ∷ words) queue =
    ap (λ w. w ∷ copy_out (suc place) (length words) (copy_in place (word ∷ words) queue))
      (copy_in-outside (suc place) words (put place word queue) place (inl (omega arith))
        ∙ put-here place word queue)
    ∙ ap (λ ws. word ∷ ws) (copy_out-copy_in (suc place) words (put place word queue))

-- A write elsewhere is not seen.
pub copy_out-elsewhere :
    (place num : ℕ) (queue queue' : ℕ → ℕ)
    → ((x : ℕ) → place ≤ x → x < place + num → queue' x ≡ queue x)
    → copy_out place num queue' ≡ copy_out place num queue
unfolding copy_out
copy_out-elsewhere place zero queue queue' h = refl
copy_out-elsewhere place (suc num) queue queue' h =
    ap (λ w. w ∷ copy_out (suc place) num queue') (h place (omega arith) (omega arith))
    ∙ ap (λ ws. queue place ∷ ws)
        (copy_out-elsewhere (suc place) num queue queue'
          (λ x low high. h x (omega (arith, low)) (omega (arith, high))))

-- Two entries of a ring do not share a word.
pub apart : (i j size : ℕ) → i ≢ j → (suc i * size ≤ j * size) ⊎ (suc j * size ≤ i * size)
apart i j size d = elim (Bool-cases (ltb i j)) [
  | inl below ↦ inl (mul-le-mul_right size (ground (arith, below)))
  | inr above ↦ inr (mul-le-mul_right size (ground (arith, above, d)))
]

-- The entry `p` comes `k` entries after the entry `c` of `n`.
abbrev pub After : ℕ → ℕ → ℕ → ℕ → Type 0
After n c k p = (p < n) × ((p ≡ c + k) ⊎ (p + n ≡ c + k))

pub After-next : (n c k p : ℕ) → c < n → After n c (suc k) p → After n (next n c) k p
After-next n c k p h a = elim (next-cases n c) [
  | inl wrap ↦ rw wrap.1 (
    a.0,
    elim a.1 [
      | inl direct ↦ absurd (omega (arith, a.0, direct, wrap.0))
      | inr round ↦ inl (omega (arith, round, wrap.0))
    ],
  )
  | inr on ↦ rw on.1 (
    a.0,
    elim a.1 [ inl direct ↦ inl (omega (arith, direct)) | inr round ↦ inr (omega (arith, round)) ],
  )
]

pub After-step : (n c k p : ℕ) → c < n → k < n → After n c k p → After n c (suc k) (next n p)
After-step n c k p h l a = elim (next-cases n p) [
  | inl wrap ↦ rw wrap.1 (
    omega (arith, h),
    elim a.1 [
      | inl direct ↦ inr (omega (arith, direct, wrap.0))
      | inr round ↦ absurd (omega (arith, round, wrap.0, h, l))
    ],
  )
  | inr on ↦ rw on.1 (
    omega (arith, a.0, on.0),
    elim a.1 [ inl direct ↦ inl (omega (arith, direct)) | inr round ↦ inr (omega (arith, round)) ],
  )
]

pub After-distinct : (n c k p : ℕ) → 0 < k → k < n → After n c k p → c ≢ p
After-distinct n c k p h l a e = elim a.1 [
  | inl direct ↦ omega (arith, direct, e)
  | inr wrapped ↦ omega (arith, wrapped, e)
]

pub After-distance : (n c k p : ℕ) → c < n → k < n → n < 2 ^ 31 → After n c k p → distance p c n ≡ k
After-distance n c k p h l size a = elim a.1 [
  | inl direct ↦
      let sum : (p + uint_mod - c + n) % uint_mod ≡ k + n = omega (arith, direct, h, l, size) in
      rw sum (rw (add-mod_right k n) (mod-eq_of_lt l))
  | inr round ↦
      let sum : (p + uint_mod - c + n) % uint_mod ≡ k = omega (arith, round, h, l, size) in
      rw sum (mod-eq_of_lt l)
]

-- The messages that stand at the entries from `c` on.
abbrev pub Slots : ℕ → ℕ → (ℕ → ℕ) → ℕ → List (List ℕ) → Type 0
Slots n size queue c [] = Unit
Slots n size queue c (m ∷ ms) =
    (length m ≤ size)
    × (copy_out (c * size) (length m) queue ≡ m)
    × Slots n size queue (next n c) ms

-- A message written to the first free entry follows the others.
pub Slots-append :
    (n size : ℕ) (queue : ℕ → ℕ) (message : List ℕ) (p c : ℕ) (ms : List (List ℕ))
    → length message ≤ size
    → c < n
    → length ms < n
    → After n c (length ms) p
    → Slots n size queue c ms
    → Slots n size (copy_in (p * size) message queue) c (ms ++ (message ∷ []))
Slots-append n size queue message p c [] fits h l a slots =
    let here : p ≡ c = elim a.1 [
      | inl direct ↦ omega (arith, direct)
      | inr round ↦ omega (arith, round, h, a.0)
    ] in
    (fits, rw here (copy_out-copy_in (c * size) message queue), tt)
Slots-append n size queue message p c (m ∷ ms) fits h l a slots =
    let other : c ≢ p = After-distinct n c (suc (length ms)) p (omega arith) l a in
    (
      slots.0,
      copy_out-elsewhere (c * size) (length m) queue (copy_in (p * size) message queue)
            (λ x low high. copy_in-outside (p * size) message queue x (elim (apart c p size other) [
              | inl below ↦ inl (omega (arith, below, high, slots.0))
              | inr above ↦ inr (omega (arith, above, low, fits))
            ]))
          ∙ slots.1,
      Slots-append n size queue message p (next n c) ms fits (next-lt n c h) (omega (arith, l))
          (After-next n c (length ms) p h a) slots.2,
    )
