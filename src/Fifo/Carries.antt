-- ===== src/Fifo/Carries.antt =====
-- What enqueueing and dequeueing leave of a fifo whose messages all have the same number of words, on each
-- of their ways out of the lock: src/include/xdp2/fifo.h.
use xdp.Base.{
  ℕ, ◌+◌, ◌≤◌, ◌<◌, Bool, false, List, [], ◌∷◌, ◌++◌, ◌≡◌, inl, inr, refl, sym, ◌∙◌, Option,
  Option-cases, ◌%◌, ◌&&◌, ge→ltb, length, All, arith, Bool-cases, ◌==◌, ltb,
}
use xdp.Fifo.{uint_mod, Fifo, FifoStats, is_empty, is_full}
use xdp.Fifo.Sections.{
  Enqueued, Dequeued, enqueue_locked, enqueue_woken, dequeue_locked, dequeue_woken, queue_message,
  take_message, taken,
}
use xdp.Fifo.Queue.{Holds, Holds-counted, is_full-length, is_empty-length}
use xdp.Fifo.Enqueue.{queue_message-Holds}
use xdp.Fifo.Dequeue.{take_message-Holds}

-- The fifo holds these messages, each of `num` words.
pub record Carries (num : ℕ) (fifo : Fifo) (messages : List (List ℕ)) : Type 0 where
  pub holds : Holds fifo messages
  pub fits : num ≤ fifo.ent_size
  pub words : All (λ m. length m ≡ num) messages

pub Carries-counted :
    (num : ℕ) (fifo : Fifo) (messages : List (List ℕ)) (stats : Option FifoStats)
    (waiters enqueued dequeued : ℕ)
    → Carries num fifo messages
    → Carries num
        (record fifo {
          stats = stats;
          num_enqueue_waiters = waiters;
          num_enqueued = enqueued;
          num_dequeued = dequeued;
        })
        messages
Carries-counted num fifo messages stats waiters enqueued dequeued c = record {
  holds = Holds-counted fifo messages stats waiters enqueued dequeued c.holds;
  fits = c.fits;
  words = c.words;
}

-- What an enqueue leaves of a fifo that carried `messages`
abbrev pub EnqueuedOk : ℕ → List ℕ → List (List ℕ) → Enqueued → Type 0
EnqueuedOk num message messages Enqueued.asserted = Unit
EnqueuedOk num message messages (Enqueued.refused fifo) = Carries num fifo messages
EnqueuedOk num message messages (Enqueued.waiting fifo) = Carries num fifo messages
EnqueuedOk num message messages (Enqueued.queued was_empty full fifo) =
    Carries num fifo (messages ++ (message ∷ []))

-- What a dequeue leaves of it
abbrev pub DequeuedOk : ℕ → List (List ℕ) → Dequeued → Type 0
DequeuedOk num messages Dequeued.asserted = Unit
DequeuedOk num messages (Dequeued.refused fifo) = Carries num fifo messages
DequeuedOk num messages (Dequeued.waiting fifo) = Carries num fifo messages
DequeuedOk num messages (Dequeued.taken message non_readable unblock fifo) =
    (rest : List (List ℕ)) × (messages ≡ message ∷ rest) × Carries num fifo rest

All-snoc {ℓ} :
    {A : Type ℓ} (P : A → Type 0) (xs : List A) (a : A) → All P xs → P a → All P (xs ++ (a ∷ []))
All-snoc P [] a h k = (k, tt)
All-snoc P (x ∷ xs) a h k = (h.0, All-snoc P xs a h.1 k)

module _ (num : ℕ) (fifo : Fifo) (messages : List (List ℕ)) (c : Carries num fifo messages) where
  not_full : is_full fifo ≡ false → length messages < fifo.num_ents
  not_full more =
      let differs = sym (is_full-length fifo messages c.holds) ∙ more in
      ground (arith, differs, c.holds.bound)

  queue_message-Ok :
      (message : List ℕ)
      → length message ≡ num
      → is_full fifo ≡ false
      → EnqueuedOk num message messages (queue_message message fifo)
  queue_message-Ok message len more =
      let done =
        queue_message-Holds fifo messages c.holds message (omega (arith, len, c.fits))
          (not_full more) in
      rw done.1 (record {
        holds = done.2;
        fits = rw done.3 c.fits;
        words = All-snoc (λ m. length m ≡ num) messages message c.words len;
      })

module _ (num : ℕ) (message : List ℕ) (wait : Bool) (fifo : Fifo) (messages : List (List ℕ))
    (c : Carries num fifo messages) where
  abbrev counted :
      (stats : Option FifoStats) (waiters : ℕ)
      → Carries num (record fifo { stats = stats; num_enqueue_waiters = waiters }) messages
  counted stats waiters =
      Carries-counted num fifo messages stats waiters fifo.num_enqueued fifo.num_dequeued c

  pub enqueue_locked-Ok :
      length message ≡ num → EnqueuedOk num message messages (enqueue_locked message wait fifo)
  unfolding enqueue_locked
  enqueue_locked-Ok len =
      let fit = ge→ltb fifo.ent_size (length message) (omega (arith, len, c.fits)) in
      elim (Bool-cases (is_full fifo)) [
        | inl full ↦ elim (Bool-cases wait) [
          | inl waits ↦ elim (Option-cases fifo.producer_cond) [
            | inl unset ↦ rw (enqueue_locked, fit, full, waits, unset) tt
            | inr cond ↦
                rw (enqueue_locked, fit, full, waits, cond.1)
                  (counted _ ((fifo.num_enqueue_waiters + 1) % uint_mod))
          ]
          | inr stays ↦ rw (enqueue_locked, fit, full, stays) (counted _ fifo.num_enqueue_waiters)
        ]
        | inr more ↦
            rw (enqueue_locked, fit, more) (queue_message-Ok num fifo messages c message len more)
      ]

  pub enqueue_woken-Ok :
      length message ≡ num → EnqueuedOk num message messages (enqueue_woken message fifo)
  unfolding enqueue_woken is_full
  enqueue_woken-Ok len = elim (Bool-cases (is_full fifo)) [
    | inl full ↦ rw (enqueue_woken, full) (counted _ fifo.num_enqueue_waiters)
    | inr more ↦
        rw (enqueue_woken, more) (queue_message-Ok num _ messages (counted _ _) message len more)
  ]

take_message-Ok :
    (num : ℕ) (fifo : Fifo) (messages : List (List ℕ))
    → Carries num fifo messages
    → is_empty fifo ≡ false
    → DequeuedOk num messages (take_message num fifo)
take_message-Ok num fifo [] c more = let none_left = is_empty-length fifo [] c.holds in absurd (cc)
take_message-Ok num fifo (m ∷ ms) c more =
    let done = take_message-Holds fifo m ms c.holds in
    let took : take_message num fifo
        ≡ taken m (length ms == 0) (fifo.queue_full && ltb (length ms) fifo.low_water_mark) done.0 =
      rw (← c.words.0) done.1 in
    rw took (ms, refl, record { holds = done.2; fits = rw done.4 c.fits; words = c.words.1 })

module _ (num : ℕ) (wait : Bool) (fifo : Fifo) (messages : List (List ℕ))
    (c : Carries num fifo messages) where
  pub dequeue_locked-Ok : DequeuedOk num messages (dequeue_locked num wait fifo)
  unfolding dequeue_locked
  dequeue_locked-Ok =
      let fit = ge→ltb fifo.ent_size num c.fits in
      elim (Bool-cases (is_empty fifo)) [
        | inl none_left ↦ elim (Bool-cases wait) [
          | inl waits ↦ elim (Option-cases fifo.consumer_cond) [
            | inl unset ↦ rw (dequeue_locked, fit, none_left, waits, unset) tt
            | inr cond ↦
                rw (dequeue_locked, fit, none_left, waits, cond.1)
                  (Carries-counted num fifo messages _ fifo.num_enqueue_waiters fifo.num_enqueued
                    fifo.num_dequeued c)
          ]
          | inr stays ↦ rw (dequeue_locked, fit, none_left, stays) c
        ]
        | inr more ↦ rw (dequeue_locked, fit, more) (take_message-Ok num fifo messages c more)
      ]

  pub dequeue_woken-Ok : DequeuedOk num messages (dequeue_woken num fifo)
  unfolding dequeue_woken is_empty
  dequeue_woken-Ok = elim (Bool-cases (is_empty fifo)) [
    | inl none_left ↦
        rw (dequeue_woken, none_left)
          (Carries-counted num fifo messages _ fifo.num_enqueue_waiters fifo.num_enqueued
            fifo.num_dequeued c)
    | inr more ↦
        rw (dequeue_woken, more)
          (take_message-Ok num _ messages
            (Carries-counted num fifo messages _ fifo.num_enqueue_waiters fifo.num_enqueued
              fifo.num_dequeued c)
            more)
  ]
