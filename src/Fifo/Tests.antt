-- ===== src/Fifo/Tests.antt =====
-- A fifo of four entries of two words, bound to a poll group, and two threads.
mod Lost
use xdp.Base.{
  ℕ, zero, suc, ap, ◌%◌, ◌&&◌, ◌||◌, Bool, true, false, [], ◌∷◌, List, Option, none, some, ◌≡◌, ◌≢◌,
  ◌⊎◌, ◌<◌, ◌≤◌, ◌+◌, refl, inl, inr, arith, put, length, ◌==◌, ◌++◌, Bool-cases, ltb, All,
}
use xdp.Fifo.{Fifo, PollGroup, num_in_queue, avail_in_queue, is_empty, is_full, distance}
use xdp.Fifo.Sections.{
  queued, taken, refused, enqueue_locked, dequeue_locked, queue_message, take_message, copy_in,
  copy_out,
}
use xdp.Fifo.Groups.{
  System, Task, perform, signal_if, ready_at, clear_readable, after_enqueue, after_dequeue,
  make_non_readable_after_dequeue, count_dequeue_failed,
}
use xdp.Fifo.Setup.{
  init_fifo, init_poll_group_mem, finish_bind, bind_to_read_poll, enable_read_poll,
}
use xdp.Fifo.Queue.{Holds, status_lem}
use xdp.Fifo.Enqueue.{enqueue_locked-Holds}
use xdp.Fifo.Dequeue.{dequeue_locked-Holds}
use xdp.Fifo.Threads.{
  World, Move, MoveOf, enqueue, dequeue, enable_read, proceed, Reachable, begun, schedule,
  schedule-Reachable, move, begin_call, continue, start_enqueue, start_dequeue, enqueue_left,
  dequeue_left,
}
use xdp.Fifo.Logs.{InOrder, Reachable-InOrder}
use xdp.Fifo.Awake.{Awake, mask_bit, ready_bit}
use xdp.Fifo.Begin.{init_fifo-Holds, bind_to_read_poll-Awake, fresh, fresh-InOrder}
use xdp.Fifo.Wakeups.{Quiet, Reachable-ready}
use xdp.Fifo.Polls.{max_fifos, sw_poll}
use xdp.Fifo.Polls.Find.{Found}
use xdp.Fifo.Polls.Turns.{ready_bits, sw_poll-Found, turns, Served, turns-Served}

abbrev small : Fifo
small = init_fifo (λ place. 0) 4 2 3 true

small-Holds : Holds small []
small-Holds =
    init_fifo-Holds (λ place. 0) 4 2 3 true (omega arith) (omega arith) (omega arith) (omega arith)

status_lem_example :
    (num_in_queue small ≡ 0)
    × (0 + avail_in_queue small ≡ small.num_ents)
    × (is_empty small ≡ (0 == 0))
    × (is_full small ≡ (0 == small.num_ents))
status_lem_example = status_lem small [] small-Holds

abbrev pub hello : List ℕ
hello = 1 ∷ 2 ∷ []

enqueue_locked-Holds_example :
    ((0 ≡ small.num_ents)
      × ((fifo' : Fifo) × (enqueue_locked hello false small ≡ refused fifo') × Holds fifo' []))
    ⊎ ((0 < small.num_ents)
        × ((fifo' : Fifo) × (enqueue_locked hello false small
              ≡ queued (0 == 0) (1 == small.num_ents) fifo')
            × Holds fifo' (hello ∷ [])))
unfolding init_fifo
enqueue_locked-Holds_example = enqueue_locked-Holds small [] hello small-Holds (omega arith)

abbrev pub system : System
system = record { address = 7; fifo = small; groups = λ g. init_poll_group_mem; signals = [] }

-- The fifo is the one numbered 5 in the poll group 0.
abbrev begin : World
begin = fresh 0 5 system

begin-InOrder : InOrder 2 begin
unfolding init_fifo
begin-InOrder = fresh-InOrder 2 0 5 system small-Holds (omega arith)

begin-Awake : Awake 0 5 begin.system begin.threads
unfolding init_fifo
begin-Awake = bind_to_read_poll-Awake 0 5 system (λ e. omega (arith, e))

-- Thread 0 enables the fifo, then thread 1 enqueues a message.
abbrev moves : List (ℕ × Move)
moves =
    (0, enable_read)
    ∷ (0, proceed)
    ∷ (1, enqueue hello false)
    ∷ (1, proceed)
    ∷ (1, proceed)
    ∷ (1, proceed)
    ∷ []

abbrev after : World
after = elim (schedule moves begin) [ none ↦ begin | some st ↦ st ]

scheduled : schedule moves begin ≡ some after
unfolding put init_fifo init_poll_group_mem finish_bind bind_to_read_poll enable_read_poll move
    begin_call continue start_enqueue enqueue_left enqueue_locked is_full is_empty num_in_queue
    queue_message perform signal_if ready_at after_enqueue copy_in
scheduled = refl

reached : Reachable (MoveOf 2) begin after
reached =
    schedule-Reachable (MoveOf 2) moves begin begin after begun
      (tt, (tt, (refl, (tt, (tt, (tt, tt)))))) scheduled

Reachable-InOrder_example : InOrder 2 after
Reachable-InOrder_example = Reachable-InOrder 2 begin after begin-InOrder reached

Reachable-ready_example : ready_bit 0 5 after.system ≡ true
unfolding put init_fifo init_poll_group_mem finish_bind bind_to_read_poll enable_read_poll move
    begin_call continue start_enqueue enqueue_left enqueue_locked is_full is_empty num_in_queue
    queue_message perform signal_if ready_at after_enqueue copy_in
Reachable-ready_example =
    Reachable-ready 2 0 5 begin after begin-InOrder begin-Awake reached
      (λ t. elim (Bool-cases (t == 1)) [
        | inl one ↦ rw one refl
        | inr other ↦ elim (Bool-cases (t == 0)) [
          | inl zeroth ↦ rw (other, zeroth) refl
          | inr rest ↦ rw (other, rest) refl
        ]
      ])
      refl refl

after-InOrder : InOrder 2 after
after-InOrder = Reachable-InOrder 2 begin after begin-InOrder reached

dequeue_locked-Holds_example :
    ((after-InOrder.messages ≡ [])
      × (dequeue_locked 2 false after.system.fifo ≡ refused after.system.fifo))
    ⊎ ((message : List ℕ) × (rest : List (List ℕ)) × (fifo' : Fifo) × (after-InOrder.messages
          ≡ message ∷ rest)
        × (dequeue_locked 2 false after.system.fifo
            ≡ taken message
                (length rest == 0)
                (after.system.fifo.queue_full && ltb (length rest) after.system.fifo.low_water_mark)
                fifo')
        × Holds fifo' rest)
dequeue_locked-Holds_example =
    dequeue_locked-Holds after.system.fifo after-InOrder.messages 2 after-InOrder.carries.holds
      after-InOrder.carries.fits after-InOrder.carries.words

-- Numbers 5 and 70 are ready, and polling starts at 9.
abbrev two_ready : ℕ → Bool
two_ready num = (num == 5) || (num == 70)

abbrev group : PollGroup
group = record init_poll_group_mem {
  fifos_ready = two_ready;
  fifos_mask = λ num. true;
  start_pos = 9;
}

abbrev polls : ℕ → List ((ℕ → Bool) × (ℕ → Bool))
polls zero = []
polls (suc n) = (two_ready, (λ num. true)) ∷ polls n

polls-length : (n : ℕ) → length (polls n) ≡ n
polls-length zero = refl
polls-length (suc n) = ap suc (polls-length n)

polls-ready : (n : ℕ) → All (λ bits. (bits.0 5 && bits.1 5) ≡ true) (polls n)
polls-ready zero = tt
polls-ready (suc n) = (refl, polls-ready n)

turns-Served_example : Served 5 (turns group (polls 128))
turns-Served_example =
    turns-Served 5 (polls 128) group (omega arith) (omega arith) (omega (arith, polls-length 128))
      (polls-ready 128)
