-- ===== src/Fifo/Sections.antt =====
-- What enqueueing and dequeueing do while they hold the lock of the fifo: ___xdp2_fifo_sw_enqueue and
-- ___xdp2_fifo_sw_dequeue of src/include/xdp2/fifo.h.
use xdp.Base.{
  ℕ, zero, suc, ◌+◌, ◌-◌, ◌*◌, ◌%◌, Bool, true, false, ◌&&◌, List, [], ◌∷◌, Option, none, some,
  ◌==◌, ltb, if◌then◌else◌, length, put,
}
use xdp.Fifo.{
  uint_mod, count, FifoStats, Fifo, bump_prod, bump_cons, distance, num_in_queue, is_empty, is_full,
}

-- `memcpy` into the queue
unfoldable pub copy_in : ℕ → List ℕ → (ℕ → ℕ) → ℕ → ℕ
copy_in place [] queue = queue
copy_in place (word ∷ words) queue = copy_in (suc place) words (put place word queue)

-- `memcpy` out of the queue
unfoldable pub copy_out : ℕ → ℕ → (ℕ → ℕ) → List ℕ
copy_out place zero queue = []
copy_out place (suc num) queue = queue place ∷ copy_out (suc place) num queue

-- What enqueueing has come to when it gives the lock up: an assertion has failed, the message is refused,
-- the thread waits, or the message is queued, with `was_empty` and whether the queue is full now.
pub data Enqueued : Type 0 where
  asserted : Enqueued
  refused : Fifo → Enqueued
  waiting : Fifo → Enqueued
  queued : Bool → Bool → Fifo → Enqueued

-- The update of `max_enqueued`
abbrev note_max : ℕ → Option FifoStats → Option FifoStats
note_max num_enqueued = bump_prod (λ p. record p {
  max_enqueued = if ltb p.max_enqueued num_enqueued then num_enqueued else p.max_enqueued;
})

-- The message written, and the producer moved on
abbrev pub stored : List ℕ → Fifo → Fifo
stored message fifo = record fifo {
  queue = copy_in ((fifo.producer * fifo.ent_size) % uint_mod) message fifo.queue;
  producer = ((fifo.producer + 1) % uint_mod) % fifo.num_ents;
}

-- The counters that change before it is known whether the queue is full
abbrev pub noted : List ℕ → Fifo → Fifo
noted message fifo =
    let stats =
      if fifo.producer == fifo.consumer
      then bump_prod (λ p. record p { saw_empty = count p.saw_empty }) fifo.stats
      else fifo.stats in
    record (stored message fifo) { stats = note_max (num_in_queue (stored message fifo)) stats }

abbrev pub filled : List ℕ → Fifo → Fifo
filled message fifo = record (noted message fifo) {
  stats = bump_prod (λ p. record p { queue_full = count p.queue_full }) (noted message fifo).stats;
  queue_full = true;
}

-- Queueing a message
unfoldable pub queue_message : List ℕ → Fifo → Enqueued
queue_message message fifo =
    let was_empty = fifo.producer == fifo.consumer in
    if fifo.consumer == (stored message fifo).producer
    then queued was_empty true (filled message fifo)
    else queued was_empty false (noted message fifo)

-- ___xdp2_fifo_sw_enqueue up to the first wait or the release of the lock
unfoldable pub enqueue_locked : List ℕ → Bool → Fifo → Enqueued
enqueue_locked message wait fifo =
    let blocked = bump_prod (λ p. record p { blocked = count p.blocked }) fifo.stats in
    if ltb fifo.ent_size (length message)
    then asserted
    else if is_full fifo
    then (if wait
        then elim fifo.producer_cond [
          | none ↦ asserted
          | some cond ↦ waiting (record fifo {
            stats = bump_prod (λ p. record p { waits = count p.waits }) blocked;
            num_enqueue_waiters = (fifo.num_enqueue_waiters + 1) % uint_mod;
          })
        ]
        else refused (record fifo { stats = blocked }))
    else queue_message message fifo

-- One round of the loop that waits for space, after the wait
unfoldable pub enqueue_woken : List ℕ → Fifo → Enqueued
enqueue_woken message fifo =
    if is_full fifo
    then waiting (record fifo {
      stats = bump_prod (λ p. record p { spurious_wakeups = count p.spurious_wakeups }) fifo.stats;
    })
    else queue_message message (record fifo {
      stats = bump_prod (λ p. record p { after_wait = count p.after_wait }) fifo.stats;
      num_enqueue_waiters = (fifo.num_enqueue_waiters + uint_mod - 1) % uint_mod;
    })

-- What dequeueing has come to: `taken` has the message, `non_readable` and whether the producers are to
-- be unblocked.
pub data Dequeued : Type 0 where
  asserted : Dequeued
  refused : Fifo → Dequeued
  waiting : Fifo → Dequeued
  taken : List ℕ → Bool → Bool → Fifo → Dequeued

-- The update of `min_enqueued`
abbrev note_min : ℕ → Option FifoStats → Option FifoStats
note_min num_enqueued = bump_cons (λ c. record c {
  requests = count c.requests;
  min_enqueued = if ltb num_enqueued c.min_enqueued then num_enqueued else c.min_enqueued;
})

-- The message taken: the consumer is moved on, and `queue_full` is cleared below the low water mark.
abbrev pub drained : Fifo → Fifo
drained fifo =
    let consumer = ((fifo.consumer + 1) % uint_mod) % fifo.num_ents in
    let num_enqueued = distance fifo.producer consumer fifo.num_ents in
    let unblock = fifo.queue_full && ltb num_enqueued fifo.low_water_mark in
    let noted = note_min num_enqueued fifo.stats in
    record fifo {
      consumer = consumer;
      queue_full = if unblock then false else fifo.queue_full;
      stats =
          if unblock
          then bump_cons (λ c. record c { unblocked = count c.unblocked }) noted
          else noted;
    }

-- Taking a message off the queue
unfoldable pub take_message : ℕ → Fifo → Dequeued
take_message num fifo =
    let message = copy_out ((fifo.consumer * fifo.ent_size) % uint_mod) num fifo.queue in
    let after = drained fifo in
    let left = distance after.producer after.consumer after.num_ents in
    taken message (after.producer == after.consumer)
      (fifo.queue_full && ltb left fifo.low_water_mark) after

-- ___xdp2_fifo_sw_dequeue up to the first wait or the release of the lock
unfoldable pub dequeue_locked : ℕ → Bool → Fifo → Dequeued
dequeue_locked num wait fifo =
    if ltb fifo.ent_size num
    then asserted
    else if is_empty fifo
    then (if wait
        then elim fifo.consumer_cond [
          | none ↦ asserted
          | some cond ↦ waiting (record fifo {
            stats = bump_cons (λ c. record c { waits = count c.waits }) fifo.stats;
          })
        ]
        else refused fifo)
    else take_message num fifo

-- One round of the loop that waits for a message, after the wait
unfoldable pub dequeue_woken : ℕ → Fifo → Dequeued
dequeue_woken num fifo =
    if is_empty fifo
    then waiting (record fifo {
      stats = bump_cons (λ c. record c { spurious_wakeups = count c.spurious_wakeups }) fifo.stats;
    })
    else take_message num (record fifo {
      stats = bump_cons (λ c. record c { after_wait = count c.after_wait }) fifo.stats;
    })
