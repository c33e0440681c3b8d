-- ===== src/Fifo/Queue.antt =====
-- A fifo as a queue: xdp2_fifo_sw_num_in_queue, and what enqueueing and dequeueing do to the messages
-- under the lock, of src/include/xdp2/fifo.h.
use xdp.Base.{
  ℕ, ◌+◌, ◌*◌, ◌%◌, ◌^◌, ◌≤◌, ◌<◌, true, false, Option, List, ◌≡◌, ◌≢◌, refl, sym, ◌⊎◌, inl, inr,
  length, arith, Bool-cases, ◌==◌,
}
use native.Mathlib.Nat.{mod-eq_of_lt, mul-le-mul_right, le_of_lt}
use xdp.Fifo.{uint_mod, distance, Fifo, FifoStats, num_in_queue, avail_in_queue, is_empty, is_full}
use xdp.Fifo.Ring.{After, After-distance, After-distinct, Slots}

-- The fifo holds these messages, the oldest first.
pub record Holds (fifo : Fifo) (messages : List (List ℕ)) : Type 0 where
  pub size : fifo.num_ents < 2 ^ 31
  pub words : fifo.num_ents * fifo.ent_size < uint_mod
  pub mark : 0 < fifo.low_water_mark
  pub consumer_in : fifo.consumer < fifo.num_ents
  pub producer_in : After fifo.num_ents fifo.consumer (length messages) fifo.producer
  pub bound : length messages ≤ fifo.num_ents
  pub full : length messages ≡ fifo.num_ents → fifo.queue_full ≡ true
  pub empty : length messages ≡ 0 → fifo.queue_full ≡ false
  pub slots : Slots fifo.num_ents fifo.ent_size fifo.queue fifo.consumer messages

-- The two indices meet when the ring is empty and when it is full.
pub meet-cases :
    (n c k p : ℕ)
    → c < n
    → k ≤ n
    → After n c k p
    → ((k ≡ 0) × (p ≡ c)) ⊎ (((k ≡ n) × (p ≡ c)) ⊎ ((p ≢ c) × (0 < k) × (k < n)))
meet-cases n c k p h b a = elim (Bool-cases (k == 0)) [
  | inl none_left ↦ inl (
    ground (arith, none_left),
    elim a.1 [
      | inl direct ↦ ground (arith, direct, none_left)
      | inr round ↦ ground (arith, round, none_left, a.0, h)
    ],
  )
  | inr some_left ↦ elim (Bool-cases (k == n)) [
    | inl all ↦ inr (
        inl (
          ground (arith, all),
          elim a.1 [
            | inl direct ↦ ground (arith, direct, all, a.0)
            | inr round ↦ ground (arith, round, all)
          ],
        ))
    | inr more ↦
        let low : 0 < k = ground (arith, some_left) in
        let high : k < n = ground (arith, more, b) in
        inr (inr ((λ e. After-distinct n c k p low high a (sym e)), low, high))
  ]
]

module _ (fifo : Fifo) (messages : List (List ℕ)) (h : Holds fifo messages) where
  -- The tests of the status functions when the fifo is empty, when it is full, and otherwise.
  pub tests :
      ((length messages ≡ 0)
        × (0 < fifo.num_ents)
        × ((fifo.producer == fifo.consumer) ≡ true)
        × ((fifo.consumer == fifo.producer) ≡ true)
        × (fifo.queue_full ≡ false))
      ⊎ (((length messages ≡ fifo.num_ents)
            × (0 < fifo.num_ents)
            × ((fifo.producer == fifo.consumer) ≡ true)
            × ((fifo.consumer == fifo.producer) ≡ true)
            × (fifo.queue_full ≡ true))
          ⊎ ((0 < length messages)
              × (length messages < fifo.num_ents)
              × ((fifo.producer == fifo.consumer) ≡ false)
              × ((fifo.consumer == fifo.producer) ≡ false)))
  tests =
      let some_in : 0 < fifo.num_ents = omega (arith, h.consumer_in) in
      elim (meet-cases fifo.num_ents fifo.consumer (length messages) fifo.producer h.consumer_in
        h.bound h.producer_in) [
          | inl none_left ↦ inl (
            none_left.0,
            some_in,
            ground (arith, none_left.1),
            ground (arith, none_left.1),
            h.empty none_left.0,
          )
          | inr more ↦ elim more [
            | inl all ↦
                inr
                  (inl (all.0, some_in, ground (arith, all.1), ground (arith, all.1), h.full all.0))
            | inr between ↦
                inr
                  (inr (between.1, between.2, ground (arith, between.0), ground (arith, between.0)))
          ]
        ]

  distance_in :
      length messages < fifo.num_ents
      → distance fifo.producer fifo.consumer fifo.num_ents ≡ length messages
  distance_in l =
      After-distance fifo.num_ents fifo.consumer (length messages) fifo.producer h.consumer_in l
        h.size h.producer_in

  pub num_in_queue-length : num_in_queue fifo ≡ length messages
  unfolding num_in_queue
  num_in_queue-length = elim tests [
    | inl e ↦ rw (num_in_queue, e.2, e.4) (distance_in (omega (arith, e.0, e.1)))
    | inr more ↦ elim more [
      | inl f ↦ rw (num_in_queue, f.2, f.4) (sym f.0)
      | inr b ↦ rw (num_in_queue, b.2) (distance_in b.1)
    ]
  ]

  pub is_empty-length : is_empty fifo ≡ (length messages == 0)
  unfolding is_empty
  is_empty-length = elim tests [
    | inl e ↦ rw (is_empty, e.3, e.4, e.0) refl
    | inr more ↦ elim more [
      | inl f ↦ rw (is_empty, f.3, f.4) (ground (arith, f.0, f.1))
      | inr b ↦ rw (is_empty, b.3) (ground (arith, b.0))
    ]
  ]

  pub is_full-length : is_full fifo ≡ (length messages == fifo.num_ents)
  unfolding is_full
  is_full-length = elim tests [
    | inl e ↦ rw (is_full, e.3, e.4) (ground (arith, e.0, e.1))
    | inr more ↦ elim more [
      | inl f ↦ rw (is_full, f.3, f.4) (ground (arith, f.0))
      | inr b ↦ rw (is_full, b.3) (ground (arith, b.1))
    ]
  ]

  -- A fifo that holds messages says that it is empty just when there are none, and that it is full just
  -- when there are as many as it has entries; the number in the queue is that of the messages, and the
  -- number that may be enqueued is the rest.
  pub status_lem :
      (num_in_queue fifo ≡ length messages)
      × (length messages + avail_in_queue fifo ≡ fifo.num_ents)
      × (is_empty fifo ≡ (length messages == 0))
      × (is_full fifo ≡ (length messages == fifo.num_ents))
  unfolding avail_in_queue
  status_lem = (
    num_in_queue-length,
    rw (avail_in_queue, num_in_queue-length) (omega (arith, h.bound, h.size)),
    is_empty-length,
    is_full-length,
  )

  pub word_place : (i : ℕ) → i < fifo.num_ents → (i * fifo.ent_size) % uint_mod ≡ i * fifo.ent_size
  word_place i l =
      mod-eq_of_lt (omega (arith, mul-le-mul_right fifo.ent_size (le_of_lt l), h.words))

-- Counting does not change what a fifo holds.
pub Holds-counted :
    (fifo : Fifo) (messages : List (List ℕ)) (stats : Option FifoStats)
    (waiters enqueued dequeued : ℕ)
    → Holds fifo messages
    → Holds
        (record fifo {
          stats = stats;
          num_enqueue_waiters = waiters;
          num_enqueued = enqueued;
          num_dequeued = dequeued;
        })
        messages
Holds-counted fifo messages stats waiters enqueued dequeued h = record {
  size = h.size;
  words = h.words;
  mark = h.mark;
  consumer_in = h.consumer_in;
  producer_in = h.producer_in;
  bound = h.bound;
  full = h.full;
  empty = h.empty;
  slots = h.slots;
}
