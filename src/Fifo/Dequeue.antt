-- ===== src/Fifo/Dequeue.antt =====
-- What dequeueing does to the messages of a fifo under the lock: ___xdp2_fifo_sw_dequeue of
-- src/include/xdp2/fifo.h.
use xdp.Base.{
  ℕ, suc, ◌≤◌, ◌<◌, Bool, true, false, not, ◌&&◌, List, [], ◌∷◌, ◌≡◌, refl, ◌∙◌, ◌⊎◌, inl, inr,
  length, lt→ltb, ge→ltb, All, arith, ◌==◌, ltb, if◌then◌else◌,
}
use xdp.Fifo.{distance, Fifo, is_empty}
use xdp.Fifo.Sections.{drained, refused, taken, take_message, dequeue_locked}
use xdp.Fifo.Ring.{next, next-lt, next-mod, After, After-next, After-distance}
use xdp.Fifo.Queue.{Holds, meet-cases, word_place, is_empty-length}

cleared : (full low : Bool) → (if full && low then false else full) ≡ (full && not low)
cleared false low = refl
cleared true false = refl
cleared true true = refl

and_false : (b : Bool) → (b && false) ≡ false
and_false true = refl
and_false false = refl

-- The indices of what is left meet just when nothing is.
left_meets : (n c k p : ℕ) → c < n → suc k ≤ n → After n c k p → (p == c) ≡ (k == 0)
left_meets n c k p h b a = elim (meet-cases n c k p h (omega (arith, b)) a) [
  | inl none_left ↦ ground (arith, none_left.0, none_left.1)
  | inr more ↦ elim more [
    | inl all ↦ absurd (omega (arith, all.0, b))
    | inr between ↦ ground (arith, between.0, between.1)
  ]
]

-- Taking a message off a fifo that holds some gives the oldest one and leaves the others; it says
-- whether none is left, and whether the fifo was full and is now below the low water mark.
pub take_message-Holds :
    (fifo : Fifo) (message : List ℕ) (messages : List (List ℕ))
    → Holds fifo (message ∷ messages)
    → (fifo' : Fifo) × (take_message (length message) fifo
        ≡ taken message
            (length messages == 0)
            (fifo.queue_full && ltb (length messages) fifo.low_water_mark)
            fifo')
      × Holds fifo' messages
      × (fifo'.queue_full ≡ (fifo.queue_full && not (ltb (length messages) fifo.low_water_mark)))
      × (fifo'.ent_size ≡ fifo.ent_size)
unfolding take_message
take_message-Holds fifo message messages h =
    let on = next-mod fifo.num_ents fifo.consumer h.consumer_in (omega (arith, h.size)) in
    let n = fifo.num_ents in
    let after : After n (next n fifo.consumer) (length messages) fifo.producer =
      After-next n fifo.consumer (length messages) fifo.producer h.consumer_in h.producer_in in
    let inside = next-lt n fifo.consumer h.consumer_in in
    let left : distance fifo.producer (next n fifo.consumer) n ≡ length messages =
      After-distance n (next n fifo.consumer) (length messages) fifo.producer inside
        (omega (arith, h.bound)) h.size after in
    let met =
      left_meets n (next n fifo.consumer) (length messages) fifo.producer inside h.bound after in
    let place = word_place fifo (message ∷ messages) h fifo.consumer h.consumer_in in
    (
      drained fifo,
      rw (take_message, place, on, left, h.slots.1, met) refl,
      record {
        size = h.size;
        words = h.words;
        mark = h.mark;
        consumer_in = rw on inside;
        producer_in = rw on after;
        bound = omega (arith, h.bound);
        full = λ e. absurd (omega (arith, e, h.bound));
        empty = λ e.
            rw (on, left, e, lt→ltb 0 fifo.low_water_mark h.mark)
              (cleared fifo.queue_full true ∙ and_false fifo.queue_full);
        slots = rw on h.slots.2;
      },
      rw (on, left) (cleared fifo.queue_full (ltb (length messages) fifo.low_water_mark)),
      refl,
    )

-- Dequeueing messages of `num` words without waiting, where `num` is not above the words of an entry and
-- every message has as many: an empty fifo is left as it is; any other gives its oldest message.
pub dequeue_locked-Holds :
    (fifo : Fifo) (messages : List (List ℕ)) (num : ℕ)
    → Holds fifo messages
    → num ≤ fifo.ent_size
    → All (λ m. length m ≡ num) messages
    → ((messages ≡ []) × (dequeue_locked num false fifo ≡ refused fifo))
      ⊎ ((message : List ℕ) × (rest : List (List ℕ)) × (fifo' : Fifo) × (messages ≡ message ∷ rest)
          × (dequeue_locked num false fifo
              ≡ taken message
                  (length rest == 0)
                  (fifo.queue_full && ltb (length rest) fifo.low_water_mark)
                  fifo')
          × Holds fifo' rest)
unfolding dequeue_locked
dequeue_locked-Holds fifo [] num h fits lengths =
    let fit = ge→ltb fifo.ent_size num fits in
    inl (refl, rw (dequeue_locked, fit, is_empty-length fifo [] h) refl)
dequeue_locked-Holds fifo (m ∷ ms) num h fits lengths =
    let fit = ge→ltb fifo.ent_size num fits in
    let done = take_message-Holds fifo m ms h in
    let not_empty : is_empty fifo ≡ false = is_empty-length fifo (m ∷ ms) h ∙ ground arith in
    inr (m, ms, done.0, refl, rw (dequeue_locked, fit, not_empty, ← lengths.0) done.1, done.2)
