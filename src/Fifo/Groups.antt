-- ===== src/Fifo/Groups.antt =====
-- A fifo with the poll groups that it is bound to, and what enqueueing and dequeueing have left to do
-- once they have given up the lock of the fifo: xdp2_fifo_make_readable and the like, of
-- src/include/xdp2/fifo.h. A task is what a thread does under one lock; it may leave tasks.
use xdp.Base.{
  ℕ, Bool, true, false, not, List, [], ◌∷◌, ◌++◌, Option, none, some, ◌==◌, ltb, if◌then◌else◌, put,
}
use xdp.Fifo.{count, Fifo, PollGroup, bump_prod, bump_cons, num_in_queue, avail_in_queue, is_empty}

-- `signals` has the condition variables that were signalled, the last one first.
pub record System : Type 0 where
  pub address : ℕ
  pub fifo : Fifo
  pub groups : ℕ → PollGroup
  pub signals : List (Option ℕ)

pub data Task : Type 0 where
  make_readable : Task
  readable_at : ℕ → ℕ → Task
  mark_non_readable : Task
  non_readable_at : ℕ → ℕ → Task
  recheck_readable : Task
  make_writable : Task
  writable_at : ℕ → ℕ → Task
  mark_non_writable : Task
  non_writable_at : ℕ → ℕ → Task
  recheck_writable : Task
  enabled_read : Task
  enabled_write : Task
  signal_producer : Task
  count_enqueued : Task
  count_enqueue_failed : Task
  count_dequeued : Task
  count_dequeue_failed : Task

-- The signal to a condition variable, if there is one
unfoldable pub signal_if : Option ℕ → System → System
signal_if none s = s
signal_if (some cond) s = record s { signals = some cond ∷ s.signals }

-- A poll group changed
abbrev pub with_group : ℕ → (PollGroup → PollGroup) → System → System
with_group g change s = record s { groups = put g (change (s.groups g)) s.groups }

-- A bit of the bitmap of what is ready
abbrev pub with_ready : ℕ → Bool → PollGroup → PollGroup
with_ready num ready group = record group { fifos_ready = put num ready group.fifos_ready }

-- The part of make_readable and make_writable under the lock of the poll group, and the signal
unfoldable pub ready_at : ℕ → ℕ → System → System
ready_at g num s =
    if (s.groups g).fifos_mask num
    then record (with_group g (with_ready num true) s) { signals = (s.groups g).cond ∷ s.signals }
    else s

-- xdp2_fifo_clear_readable, also the part of mark_non_readable and mark_non_writable under that lock
unfoldable pub clear_readable : ℕ → ℕ → System → System
clear_readable g num = with_group g (with_ready num false)

-- __xdp2_poll_group_signal: whoever knows the group may say that a number is ready.
unfoldable pub poll_group_signal : ℕ → ℕ → System → System
poll_group_signal g num s =
    if (s.groups g).fifos_ready num
    then s
    else record (with_group g (with_ready num true) s) { signals = (s.groups g).cond ∷ s.signals }

-- __xdp2_poll_group_unsignal
unfoldable pub poll_group_unsignal : ℕ → ℕ → System → System
poll_group_unsignal g num = with_group g (with_ready num false)

-- What is left to do for the poll group that the fifo is bound to, if any
abbrev pub for_group : Option ℕ → (ℕ → Task) → List Task
for_group none next_task = []
for_group (some g) next_task = next_task g ∷ []

-- What a task leaves to do, and what it changes.
unfoldable pub perform : Task → System → List Task × System
perform make_readable s = (
  for_group s.fifo.read_poll (λ g. readable_at g s.fifo.read_poll_num),
  signal_if s.fifo.consumer_cond s,
)
perform (readable_at g num) s = ([], ready_at g num s)
perform mark_non_readable s =
    (for_group s.fifo.read_poll (λ g. non_readable_at g s.fifo.read_poll_num), s)
perform (non_readable_at g num) s = ([], clear_readable g num s)
perform recheck_readable s = (if not (is_empty s.fifo) then make_readable ∷ [] else [], s)
perform make_writable s = (
  for_group s.fifo.write_poll (λ g. writable_at g s.fifo.write_poll_num),
  signal_if s.fifo.producer_cond s,
)
perform (writable_at g num) s = ([], ready_at g num s)
perform mark_non_writable s =
    (for_group s.fifo.write_poll (λ g. non_writable_at g s.fifo.write_poll_num), s)
perform (non_writable_at g num) s = ([], clear_readable g num s)
perform recheck_writable s =
    (if ltb (num_in_queue s.fifo) s.fifo.low_water_mark then make_writable ∷ [] else [], s)
perform enabled_read s = (if not (num_in_queue s.fifo == 0) then make_readable ∷ [] else [], s)
perform enabled_write s = (if not (avail_in_queue s.fifo == 0) then make_writable ∷ [] else [], s)
perform signal_producer s = ([], signal_if s.fifo.producer_cond s)
perform count_enqueued s =
    ([], record s { fifo = record s.fifo { num_enqueued = count s.fifo.num_enqueued } })
perform count_enqueue_failed s = (
  [],
  record s {
    fifo = record s.fifo {
      stats = bump_prod (λ p. record p { fails = count p.fails }) s.fifo.stats;
    };
  },
)
perform count_dequeued s =
    ([], record s { fifo = record s.fifo { num_dequeued = count s.fifo.num_dequeued } })
perform count_dequeue_failed s = (
  [],
  record s {
    fifo = record s.fifo {
      stats = bump_cons (λ c. record c { fails = count c.fails }) s.fifo.stats;
    };
  },
)

-- What xdp2_fifo_sw_enqueue does after the message is queued, and the count of its caller
unfoldable pub after_enqueue : Bool → Bool → List Task
after_enqueue was_empty full =
    (if full then mark_non_writable ∷ recheck_writable ∷ [] else [])
    ++ ((if was_empty then make_readable ∷ [] else []) ++ (count_enqueued ∷ []))

-- xdp2_fifo_make_non_readable_after_dequeue
abbrev pub make_non_readable_after_dequeue : List Task
make_non_readable_after_dequeue = mark_non_readable ∷ recheck_readable ∷ []

-- What xdp2_fifo_sw_dequeue does after the message is taken, and the count of its caller
unfoldable pub after_dequeue : Bool → Bool → List Task
after_dequeue non_readable unblock =
    (if unblock then make_writable ∷ [] else [])
    ++ ((if non_readable then make_non_readable_after_dequeue else [])
        ++ ((if unblock then signal_producer ∷ [] else []) ++ (count_dequeued ∷ [])))
