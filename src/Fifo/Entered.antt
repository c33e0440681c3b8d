-- ===== src/Fifo/Entered.antt =====
-- What enqueueing and dequeueing leave of a fifo to one who waits for messages, on each of their ways out
-- of the lock: src/include/xdp2/fifo.h.
use xdp.Base.{
  ℕ, Bool, false, List, ◌≡◌, inl, inr, refl, sym, ◌∙◌, Option, Bool-cases, Option-cases, ◌==◌,
  arith, length, ltb,
}
use xdp.Fifo.{Fifo, FifoStats, is_empty, is_full}
use xdp.Fifo.Sections.{
  Enqueued, Dequeued, enqueue_locked, enqueue_woken, dequeue_locked, dequeue_woken, queue_message,
  take_message, stored,
}
use xdp.Fifo.Awake.{BoundTo}

-- What an enqueue leaves of a fifo to one who waits for messages; `empty` tells whether it was empty.
abbrev pub EnqueuedAwake : ℕ → ℕ → Bool → Enqueued → Type 0
EnqueuedAwake g num empty Enqueued.asserted = Unit
EnqueuedAwake g num empty (Enqueued.refused f) = BoundTo g num f × (is_empty f ≡ empty)
EnqueuedAwake g num empty (Enqueued.waiting f) = BoundTo g num f × (is_empty f ≡ empty)
EnqueuedAwake g num empty (Enqueued.queued was_empty full f) =
    BoundTo g num f × (was_empty ≡ false → empty ≡ false)

-- What a dequeue leaves of it
abbrev pub DequeuedAwake : ℕ → ℕ → Bool → Dequeued → Type 0
DequeuedAwake g num empty Dequeued.asserted = Unit
DequeuedAwake g num empty (Dequeued.refused f) = BoundTo g num f × (is_empty f ≡ empty)
DequeuedAwake g num empty (Dequeued.waiting f) = BoundTo g num f × (is_empty f ≡ empty)
DequeuedAwake g num empty (Dequeued.taken message non_readable unblock f) =
    BoundTo g num f × (empty ≡ false)

module _ (g num : ℕ) (f : Fifo) (empty : Bool) (b : BoundTo g num f) (e : is_empty f ≡ empty) where
  same_binding :
      (f' : Fifo)
      → f'.read_poll ≡ f.read_poll
      → f'.read_poll_num ≡ f.read_poll_num
      → f'.write_poll_num ≡ f.write_poll_num
      → BoundTo g num f'
  same_binding f' d d' d'' = record {
    group = d ∙ b.group;
    number = d' ∙ b.number;
    apart = rw d'' b.apart;
  }

  pub counted :
      (stats : Option FifoStats) (waiters : ℕ)
      → BoundTo g num (record f { stats = stats; num_enqueue_waiters = waiters })
        × (is_empty (record f { stats = stats; num_enqueue_waiters = waiters }) ≡ empty)
  unfolding is_empty
  counted stats waiters = (same_binding _ refl refl refl, e)

  queue_message-Awake : (message : List ℕ) → EnqueuedAwake g num empty (queue_message message f)
  unfolding queue_message is_empty
  queue_message-Awake message =
      let seen : (f.producer == f.consumer) ≡ false → empty ≡ false = λ differ.
        let other : (f.consumer == f.producer) ≡ false = ground (arith, differ) in
        sym e ∙ rw (is_empty, other) refl in
      elim (Bool-cases (f.consumer == (stored message f).producer)) [
        | inl met ↦ rw (queue_message, met) (same_binding _ refl refl refl, seen)
        | inr apart ↦ rw (queue_message, apart) (same_binding _ refl refl refl, seen)
      ]

  take_message-Awake :
      (words : ℕ) → is_empty f ≡ false → DequeuedAwake g num empty (take_message words f)
  unfolding take_message
  take_message-Awake words some_in = (same_binding _ refl refl refl, sym e ∙ some_in)

module _ (g num : ℕ) (f : Fifo) (empty : Bool) (b : BoundTo g num f) (e : is_empty f ≡ empty) where
  pub enqueue_locked-Awake :
      (message : List ℕ) (wait : Bool) → EnqueuedAwake g num empty (enqueue_locked message wait f)
  unfolding enqueue_locked
  enqueue_locked-Awake message wait = elim (Bool-cases (ltb f.ent_size (length message))) [
    | inl long ↦ rw (enqueue_locked, long) tt
    | inr fit ↦ elim (Bool-cases (is_full f)) [
      | inl full ↦ elim (Bool-cases wait) [
        | inl waits ↦ elim (Option-cases f.producer_cond) [
          | inl unset ↦ rw (enqueue_locked, fit, full, waits, unset) tt
          | inr cond ↦ rw (enqueue_locked, fit, full, waits, cond.1) (counted g num f empty b e _ _)
        ]
        | inr stays ↦
            rw (enqueue_locked, fit, full, stays)
              (counted g num f empty b e _ f.num_enqueue_waiters)
      ]
      | inr more ↦ rw (enqueue_locked, fit, more) (queue_message-Awake g num f empty b e message)
    ]
  ]

  pub enqueue_woken-Awake : (message : List ℕ) → EnqueuedAwake g num empty (enqueue_woken message f)
  unfolding enqueue_woken
  enqueue_woken-Awake message = elim (Bool-cases (is_full f)) [
    | inl full ↦ rw (enqueue_woken, full) (counted g num f empty b e _ f.num_enqueue_waiters)
    | inr more ↦
        let now = counted g num f empty b e _ _ in
        rw (enqueue_woken, more) (queue_message-Awake g num _ empty now.0 now.1 message)
  ]

  pub dequeue_locked-Awake :
      (words : ℕ) (wait : Bool) → DequeuedAwake g num empty (dequeue_locked words wait f)
  unfolding dequeue_locked
  dequeue_locked-Awake words wait = elim (Bool-cases (ltb f.ent_size words)) [
    | inl long ↦ rw (dequeue_locked, long) tt
    | inr fit ↦ elim (Bool-cases (is_empty f)) [
      | inl none_left ↦ elim (Bool-cases wait) [
        | inl waits ↦ elim (Option-cases f.consumer_cond) [
          | inl unset ↦ rw (dequeue_locked, fit, none_left, waits, unset) tt
          | inr cond ↦
              rw (dequeue_locked, fit, none_left, waits, cond.1)
                (counted g num f empty b e _ f.num_enqueue_waiters)
        ]
        | inr stays ↦ rw (dequeue_locked, fit, none_left, stays) (b, e)
      ]
      | inr more ↦ rw (dequeue_locked, fit, more) (take_message-Awake g num f empty b e words more)
    ]
  ]

  pub dequeue_woken-Awake : (words : ℕ) → DequeuedAwake g num empty (dequeue_woken words f)
  unfolding dequeue_woken is_empty
  dequeue_woken-Awake words = elim (Bool-cases (is_empty f)) [
    | inl none_left ↦
        rw (dequeue_woken, none_left) (counted g num f empty b e _ f.num_enqueue_waiters)
    | inr more ↦
        let now = counted g num f empty b e _ f.num_enqueue_waiters in
        rw (dequeue_woken, more) (take_message-Awake g num _ empty now.0 now.1 words more)
  ]
