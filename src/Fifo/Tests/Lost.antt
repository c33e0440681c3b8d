-- ===== src/Fifo/Tests/Lost.antt =====
-- Two writers and a reader, in an order that loses a wake-up of the first writer.
use xdp.Base.{
  ℕ, false, [], ◌∷◌, List, none, some, ◌≡◌, ◌≢◌, refl, inl, inr, arith, put, subst, sym, All, ◌==◌,
  Bool-cases, zero, suc,
}
use xdp.Fifo.{num_in_queue, avail_in_queue, is_empty, is_full}
use xdp.Fifo.Sections.{
  enqueue_locked, dequeue_locked, queue_message, take_message, copy_in, copy_out,
}
use xdp.Fifo.Groups.{perform, signal_if, ready_at, clear_readable, after_enqueue, after_dequeue}
use xdp.Fifo.Setup.{
  init_fifo, init_poll_group_mem, finish_bind, bind_to_read_poll, bind_to_write_poll,
  enable_write_poll,
}
use xdp.Fifo.Threads.{
  World, Move, enqueue, dequeue, enable_write, proceed, begun, schedule, schedule-Reachable, move,
  begin_call, continue, start_enqueue, start_dequeue, enqueue_left, dequeue_left,
}
use xdp.Fifo.Others.{schedule-other}
use xdp.Fifo.Awake.{ready_bit}
use xdp.Fifo.Begin.{fresh}
use xdp.Fifo.Writers.{ReaderMove, CalmThread, Asleep, Reachable-Asleep}
use xdp.Fifo.Tests.{hello, system}

-- The fifo is also the one numbered 70, for writing, in the poll group 0.
abbrev begin : World
begin = fresh 0 5 (bind_to_write_poll 0 70 system)

abbrev repeat : ℕ → ℕ × Move → List (ℕ × Move) → List (ℕ × Move)
repeat zero m rest = rest
repeat (suc n) m rest = m ∷ repeat n m rest

-- Writer 1 enables the fifo and fills it. Before it marks the fifo as not writable, reader 2 takes two
-- messages and writer 3 queues one; then writer 1 goes on.
abbrev moves : List (ℕ × Move)
moves =
    (1, enable_write)
    ∷ repeat 3 (1, proceed)
        ((1, enqueue hello false)
          ∷ repeat 3 (1, proceed)
              ((1, enqueue hello false)
                ∷ (1, proceed)
                ∷ (1, enqueue hello false)
                ∷ (1, proceed)
                ∷ (1, enqueue hello false)
                ∷ (2, dequeue 2 false)
                ∷ (2, proceed)
                ∷ (2, dequeue 2 false)
                ∷ repeat 4 (2, proceed)
                    ((3, enqueue hello false) ∷ (3, proceed) ∷ repeat 4 (1, proceed) [])))

abbrev after : World
after = elim (schedule moves begin) [ none ↦ begin | some st ↦ st ]

scheduled_moves : schedule moves begin ≡ some after
unfolding put init_fifo init_poll_group_mem finish_bind bind_to_read_poll bind_to_write_poll
    enable_write_poll move begin_call continue start_enqueue enqueue_left enqueue_locked is_full
    is_empty num_in_queue avail_in_queue queue_message perform signal_if ready_at clear_readable
    after_enqueue copy_in start_dequeue dequeue_left dequeue_locked take_message copy_out
    after_dequeue
scheduled_moves = refl

-- The threads that have moved have nothing left to do.
movers :
    CalmThread 70 (after.threads 1)
    × CalmThread 70 (after.threads 2)
    × CalmThread 70 (after.threads 3)
unfolding put init_fifo init_poll_group_mem finish_bind bind_to_read_poll bind_to_write_poll
    enable_write_poll move begin_call continue start_enqueue enqueue_left enqueue_locked is_full
    is_empty num_in_queue avail_in_queue queue_message perform signal_if ready_at clear_readable
    after_enqueue copy_in start_dequeue dequeue_left dequeue_locked take_message copy_out
    after_dequeue
movers = (tt, tt, tt)

apart-moves : (t : ℕ) → t ≢ 1 → t ≢ 2 → t ≢ 3 → All (λ m. t ≢ m.0) moves
apart-moves t one two three = (
  one,
  (
    one,
    (
      one,
      (
        one,
        (
          one,
          (
            one,
            (
              one,
              (
                one,
                (
                  one,
                  (
                    one,
                    (
                      one,
                      (
                        one,
                        (
                          one,
                          (
                            two,
                            (
                              two,
                              (
                                two,
                                (
                                  two,
                                  (
                                    two,
                                    (two, (two, (three, (three, (one, (one, (one, (one, tt)))))))),
                                  ),
                                ),
                              ),
                            ),
                          ),
                        ),
                      ),
                    ),
                  ),
                ),
              ),
            ),
          ),
        ),
      ),
    ),
  ),
)

calm : (t : ℕ) → CalmThread 70 (after.threads t)
calm t = elim (Bool-cases (t == 1)) [
  | inl one ↦
      let e : t ≡ 1 = ground (arith, one) in
      subst (λ r. CalmThread 70 (after.threads r)) (sym e) movers.0
  | inr other ↦ elim (Bool-cases (t == 2)) [
    | inl two ↦
        let e : t ≡ 2 = ground (arith, two) in
        subst (λ r. CalmThread 70 (after.threads r)) (sym e) movers.1
    | inr another ↦ elim (Bool-cases (t == 3)) [
      | inl three ↦
          let e : t ≡ 3 = ground (arith, three) in
          subst (λ r. CalmThread 70 (after.threads r)) (sym e) movers.2
      | inr rest ↦
          let same =
            schedule-other t moves begin after
              (apart-moves t (λ e. ground (arith, other, e)) (λ e. ground (arith, another, e))
                (λ e. ground (arith, rest, e)))
              scheduled_moves in
          subst (CalmThread 70) (sym same) tt
    ]
  ]
]

after-Asleep : Asleep 0 70 after
unfolding put init_fifo init_poll_group_mem finish_bind bind_to_read_poll bind_to_write_poll
    enable_write_poll move begin_call continue start_enqueue enqueue_left enqueue_locked is_full
    is_empty num_in_queue avail_in_queue queue_message perform signal_if ready_at clear_readable
    after_enqueue copy_in start_dequeue dequeue_left dequeue_locked take_message copy_out
    after_dequeue
after-Asleep = record { open_fifo = refl; apart = omega arith; unready = refl; calm = calm }

-- Reader 2 takes the three messages that are left.
abbrev drain : List (ℕ × Move)
drain =
    (2, dequeue 2 false)
    ∷ (2, proceed)
    ∷ (2, dequeue 2 false)
    ∷ (2, proceed)
    ∷ (2, dequeue 2 false)
    ∷ []

abbrev emptied : World
emptied = elim (schedule drain after) [ none ↦ after | some st ↦ st ]

scheduled : schedule drain after ≡ some emptied
unfolding put init_fifo init_poll_group_mem finish_bind bind_to_read_poll bind_to_write_poll
    enable_write_poll move begin_call continue start_enqueue enqueue_left enqueue_locked is_full
    is_empty num_in_queue avail_in_queue queue_message perform signal_if ready_at clear_readable
    after_enqueue copy_in start_dequeue dequeue_left dequeue_locked take_message copy_out
    after_dequeue
scheduled = refl

Reachable-Asleep_example :
    (emptied.system.fifo.queue_full ≡ false) × (ready_bit 0 70 emptied.system ≡ false)
Reachable-Asleep_example = Reachable-Asleep 0 70 after emptied after-Asleep (
    schedule-Reachable ReaderMove drain after after emptied begun (tt, (tt, (tt, (tt, (tt, tt)))))
      scheduled)
