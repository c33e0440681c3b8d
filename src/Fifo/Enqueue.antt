-- ===== src/Fifo/Enqueue.antt =====
-- What enqueueing does to the messages of a fifo under the lock: ___xdp2_fifo_sw_enqueue of
-- src/include/xdp2/fifo.h.
use xdp.Base.{
  ℕ, suc, ◌*◌, ◌%◌, ◌≤◌, ◌<◌, Bool, true, false, Option, List, [], ◌∷◌, ◌++◌, ◌≡◌, ◌≢◌, refl, ◌⊎◌,
  inl, inr, length, ge→ltb, length-append, arith, Bool-cases, ◌==◌,
}
use xdp.Fifo.{uint_mod, Fifo, FifoStats, bump_prod, count}
use xdp.Fifo.Sections.{queued, stored, noted, filled, refused, queue_message, enqueue_locked}
use xdp.Fifo.Ring.{next-mod, After, After-step, After-distinct, Slots-append}
use xdp.Fifo.Queue.{Holds, Holds-counted, tests, word_place, is_full-length}

module _ (fifo : Fifo) (messages : List (List ℕ)) (h : Holds fifo messages) where
  places : (i : ℕ) → i < fifo.num_ents → (i * fifo.ent_size) % uint_mod ≡ i * fifo.ent_size
  places = word_place fifo messages h

  module _ (message : List ℕ) (fits : length message ≤ fifo.ent_size)
      (l : length messages < fifo.num_ents) where
    behind :
        After fifo.num_ents fifo.consumer (suc (length messages)) (stored message fifo).producer
    behind = rw (next-mod fifo.num_ents fifo.producer h.producer_in.0 (omega (arith, h.size))) (
        After-step fifo.num_ents fifo.consumer (length messages) fifo.producer h.consumer_in l
          h.producer_in)

    grown : length (messages ++ (message ∷ [])) ≡ suc (length messages)
    grown = omega (arith, length-append messages (message ∷ []))

    grown-Holds :
        (stats : Option FifoStats) (full : Bool)
        → (suc (length messages) ≡ fifo.num_ents → full ≡ true)
        → Holds
            (record (stored message fifo) { stats = stats; queue_full = full })
            (messages ++ (message ∷ []))
    grown-Holds stats full now = record {
      size = h.size;
      words = h.words;
      mark = h.mark;
      consumer_in = h.consumer_in;
      producer_in = rw grown behind;
      bound = rw grown (omega (arith, l));
      full = λ e. now (omega (arith, grown, e));
      empty = λ e. absurd (omega (arith, grown, e));
      slots = rw (places fifo.producer h.producer_in.0) (
          Slots-append fifo.num_ents fifo.ent_size fifo.queue message fifo.producer fifo.consumer
            messages fits h.consumer_in l h.producer_in h.slots);
    }

    was_empty : (fifo.producer == fifo.consumer) ≡ (length messages == 0)
    was_empty = elim (tests fifo messages h) [
      | inl e ↦ rw (e.2, e.0) refl
      | inr more ↦ elim more [
        | inl f ↦ absurd (omega (arith, f.0, l))
        | inr b ↦ rw b.2 (ground (arith, b.0))
      ]
    ]

    meets_all :
        suc (length messages) ≡ fifo.num_ents
        → (fifo.consumer == (stored message fifo).producer) ≡ true
    meets_all e = elim behind.1 [
      | inl direct ↦ absurd (omega (arith, direct, behind.0, e, h.consumer_in))
      | inr round ↦ ground (arith, round, e)
    ]

    meets_not :
        suc (length messages) ≢ fifo.num_ents
        → (fifo.consumer == (stored message fifo).producer) ≡ false
    meets_not d =
        let other =
          After-distinct fifo.num_ents fifo.consumer (suc (length messages))
            (stored message fifo).producer (omega arith) (omega (arith, l, d)) behind in
        ground (arith, other)

    -- Enqueueing a message that fits, while the fifo is not full, puts it behind the others and says
    -- whether the fifo was empty and whether it is full now.
    pub queue_message-Holds :
        (fifo' : Fifo) × (queue_message message fifo
          ≡ queued (length messages == 0) (suc (length messages) == fifo.num_ents) fifo')
        × Holds fifo' (messages ++ (message ∷ []))
        × (fifo'.ent_size ≡ fifo.ent_size)
    unfolding queue_message
    queue_message-Holds = elim (Bool-cases (suc (length messages) == fifo.num_ents)) [
      | inl all ↦ (
        filled message fifo,
        rw (queue_message, was_empty, all, meets_all (ground (arith, all))) refl,
        grown-Holds (filled message fifo).stats true (λ e. refl),
        refl,
      )
      | inr more ↦ (
        noted message fifo,
        rw (queue_message, was_empty, more, meets_not (λ e. ground (arith, more, e))) refl,
        grown-Holds (noted message fifo).stats fifo.queue_full (λ e. ground (arith, e, more)),
        refl,
      )
    ]

-- Enqueueing a message that fits without waiting: a full fifo refuses it and holds what it held; any
-- other takes it behind the messages that it holds.
pub enqueue_locked-Holds :
    (fifo : Fifo) (messages : List (List ℕ)) (message : List ℕ)
    → Holds fifo messages
    → length message ≤ fifo.ent_size
    → ((length messages ≡ fifo.num_ents)
        × ((fifo' : Fifo) × (enqueue_locked message false fifo ≡ refused fifo')
            × Holds fifo' messages))
      ⊎ ((length messages < fifo.num_ents)
          × ((fifo' : Fifo) × (enqueue_locked message false fifo
                ≡ queued (length messages == 0) (suc (length messages) == fifo.num_ents) fifo')
              × Holds fifo' (messages ++ (message ∷ []))))
unfolding enqueue_locked
enqueue_locked-Holds fifo messages message h fits =
    let fit = ge→ltb fifo.ent_size (length message) fits in
    let at_full = is_full-length fifo messages h in
    elim (Bool-cases (length messages == fifo.num_ents)) [
      | inl all ↦
          let e : length messages ≡ fifo.num_ents = ground (arith, all) in
          inl (
            e,
            (
              record fifo {
                stats = bump_prod (λ p. record p { blocked = count p.blocked }) fifo.stats;
              },
              rw (enqueue_locked, fit, at_full, all) refl,
              Holds-counted fifo messages
                  (bump_prod (λ p. record p { blocked = count p.blocked }) fifo.stats)
                  fifo.num_enqueue_waiters fifo.num_enqueued fifo.num_dequeued h,
            ),
          )
      | inr more ↦
          let l : length messages < fifo.num_ents = ground (arith, more, h.bound) in
          let done = queue_message-Holds fifo messages h message fits l in
          inr (l, (done.0, rw (enqueue_locked, fit, at_full, more) done.1, done.2))
    ]
