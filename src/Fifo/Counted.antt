-- ===== src/Fifo/Counted.antt =====
-- What is done with a fifo, once its lock is given up, leaves its messages: src/include/xdp2/fifo.h.
use xdp.Base.{ℕ, List, ◌≡◌, inl, inr, refl, Option, none, some, Option-cases, Bool-cases}
use xdp.Fifo.Setup.{enable_read_poll, enable_write_poll, disable_read_poll, disable_write_poll}
use xdp.Fifo.Groups.{
  System, Task, perform, signal_if, ready_at, clear_readable, make_readable, readable_at,
  mark_non_readable, non_readable_at, recheck_readable, make_writable, writable_at,
  mark_non_writable, non_writable_at, recheck_writable, enabled_read, enabled_write,
  signal_producer, count_enqueued, count_enqueue_failed, count_dequeued, count_dequeue_failed,
}
use xdp.Fifo.Carries.{Carries, Carries-counted}

-- Only counting is left to do with the fifo when its lock is given up.
abbrev pub Counted : System → System → Type 0
Counted s s' =
    (num : ℕ) (messages : List (List ℕ))
    → Carries num s.fifo messages
    → Carries num s'.fifo messages

pub signal_if-fifo : (cond : Option ℕ) (s : System) → (signal_if cond s).fifo ≡ s.fifo
unfolding signal_if
signal_if-fifo none s = refl
signal_if-fifo (some c) s = refl

pub ready_at-fifo : (g num : ℕ) (s : System) → (ready_at g num s).fifo ≡ s.fifo
unfolding ready_at
ready_at-fifo g num s = elim (Bool-cases ((s.groups g).fifos_mask num)) [
  | inl on ↦ rw (ready_at, on) refl
  | inr off ↦ rw (ready_at, off) refl
]

pub perform-Counted : (task : Task) (s : System) → Counted s (perform task s).1
unfolding perform clear_readable
perform-Counted make_readable s = λ n ms c. rw (signal_if-fifo s.fifo.consumer_cond s) c
perform-Counted (readable_at g num) s = λ n ms c. rw (ready_at-fifo g num s) c
perform-Counted mark_non_readable s = λ n ms c. c
perform-Counted (non_readable_at g num) s = λ n ms c. c
perform-Counted recheck_readable s = λ n ms c. c
perform-Counted make_writable s = λ n ms c. rw (signal_if-fifo s.fifo.producer_cond s) c
perform-Counted (writable_at g num) s = λ n ms c. rw (ready_at-fifo g num s) c
perform-Counted mark_non_writable s = λ n ms c. c
perform-Counted (non_writable_at g num) s = λ n ms c. c
perform-Counted recheck_writable s = λ n ms c. c
perform-Counted enabled_read s = λ n ms c. c
perform-Counted enabled_write s = λ n ms c. c
perform-Counted signal_producer s = λ n ms c. rw (signal_if-fifo s.fifo.producer_cond s) c
perform-Counted count_enqueued s = λ n ms c.
    Carries-counted n s.fifo ms s.fifo.stats s.fifo.num_enqueue_waiters _ s.fifo.num_dequeued c
perform-Counted count_enqueue_failed s = λ n ms c.
    Carries-counted n s.fifo ms _ s.fifo.num_enqueue_waiters s.fifo.num_enqueued s.fifo.num_dequeued
      c
perform-Counted count_dequeued s = λ n ms c.
    Carries-counted n s.fifo ms s.fifo.stats s.fifo.num_enqueue_waiters s.fifo.num_enqueued _ c
perform-Counted count_dequeue_failed s = λ n ms c.
    Carries-counted n s.fifo ms _ s.fifo.num_enqueue_waiters s.fifo.num_enqueued s.fifo.num_dequeued
      c

pub enable_read_poll-Counted : (s : System) → Counted s (enable_read_poll s).1
unfolding enable_read_poll
enable_read_poll-Counted s = elim (Option-cases s.fifo.read_poll) [
  | inl none_bound ↦ λ n ms c. rw (enable_read_poll, none_bound) c
  | inr bound ↦ λ n ms c. rw (enable_read_poll, bound.1) c
]

pub enable_write_poll-Counted : (s : System) → Counted s (enable_write_poll s).1
unfolding enable_write_poll
enable_write_poll-Counted s = elim (Option-cases s.fifo.write_poll) [
  | inl none_bound ↦ λ n ms c. rw (enable_write_poll, none_bound) c
  | inr bound ↦ λ n ms c. rw (enable_write_poll, bound.1) c
]

pub disable_read_poll-Counted : (s : System) → Counted s (disable_read_poll s)
unfolding disable_read_poll
disable_read_poll-Counted s = elim (Option-cases s.fifo.read_poll) [
  | inl none_bound ↦ λ n ms c. rw (disable_read_poll, none_bound) c
  | inr bound ↦ λ n ms c. rw (disable_read_poll, bound.1) c
]

pub disable_write_poll-Counted : (s : System) → Counted s (disable_write_poll s)
unfolding disable_write_poll
disable_write_poll-Counted s = elim (Option-cases s.fifo.write_poll) [
  | inl none_bound ↦ λ n ms c. rw (disable_write_poll, none_bound) c
  | inr bound ↦ λ n ms c. rw (disable_write_poll, bound.1) c
]
