-- ===== src/Fifo.antt =====
-- Fifos: src/include/xdp2/fifo.h. A fifo is a ring of messages that producers fill and consumers drain, a
-- poll group the fifos that a thread waits for. The parts that run under one lock are atomic. A
-- poll group and a condition variable are given by their names; addresses are not translated, the magic
-- numbers that each function asserts are left out, and the statistics, if any, are kept with their
-- owner. `none` is NULL.
pub mod Sections
pub mod Groups
pub mod Setup
pub mod Ring
pub mod Queue
pub mod Enqueue
pub mod Dequeue
pub mod Threads
pub mod Carries
pub mod Counted
pub mod Others
pub mod Logs
pub mod Awake
pub mod Performed
pub mod Entered
pub mod Continued
pub mod Started
pub mod Begin
pub mod Wakeups
pub mod Writers
pub mod Polls
mod Tests
use xdp.Base.{
  ℕ, ◌+◌, ◌-◌, ◌*◌, ◌%◌, ◌^◌, Bool, true, false, not, ◌&&◌, Option, none, some, ◌==◌, if◌then◌else◌,
}

abbrev pub uint_mod : ℕ
uint_mod = 2 ^ 32

-- `x++` of an `unsigned long`
abbrev pub count : ℕ → ℕ
count x = (x + 1) % 2 ^ 64

-- `struct xdp2_fifo_prod_stats`
pub record ProdStats : Type 0 where
  pub requests : ℕ
  pub fails : ℕ
  pub waits : ℕ
  pub spurious_wakeups_poll : ℕ
  pub blocked : ℕ
  pub queue_full : ℕ
  pub spurious_wakeups : ℕ
  pub after_wait : ℕ
  pub saw_empty : ℕ
  pub max_enqueued : ℕ

-- `struct xdp2_fifo_cons_stats`
pub record ConsStats : Type 0 where
  pub requests : ℕ
  pub fails : ℕ
  pub waits : ℕ
  pub spurious_wakeups_poll : ℕ
  pub blocked : ℕ
  pub spurious_wakeups : ℕ
  pub after_wait : ℕ
  pub unblocked : ℕ
  pub min_enqueued : ℕ

-- `struct xdp2_fifo_stats`
pub record FifoStats : Type 0 where
  pub consumer : ConsStats
  pub producer : ProdStats

-- `struct xdp2_fifo`, less `unblock_start_pos`, which no function uses
pub record Fifo : Type 0 where
  pub num_ents : ℕ
  pub low_water_mark : ℕ
  pub ent_size : ℕ
  pub initted : Bool
  pub producer : ℕ
  pub consumer : ℕ
  pub queue_full : Bool
  pub consumer_cond : Option ℕ
  pub producer_cond : Option ℕ
  pub stats : Option FifoStats
  pub read_poll : Option ℕ
  pub read_poll_num : ℕ
  pub write_poll : Option ℕ
  pub write_poll_num : ℕ
  pub num_enqueued : ℕ
  pub num_dequeued : ℕ
  pub num_enqueue_waiters : ℕ
  pub queue : ℕ → ℕ

-- `struct xdp2_fifo_poll_group_stats`
pub record GroupStats : Type 0 where
  pub num_wait_polls : ℕ
  pub num_no_wait_polls : ℕ
  pub num_ret_rd_fifo : ℕ
  pub num_ret_wr_fifo : ℕ
  pub num_ret_no_fifo : ℕ
  pub spurious_write_polls : ℕ

-- `struct xdp2_fifo_poll_group`; the two bitmaps say of each number whether its bit is on
pub record PollGroup : Type 0 where
  pub active : Bool
  pub fifo_no_poll : Bool
  pub fifos : ℕ → Option ℕ
  pub fifos_ready : ℕ → Bool
  pub fifos_mask : ℕ → Bool
  pub start_pos : ℕ
  pub cond : Option ℕ
  pub stats : Option GroupStats

-- `*fifo->stats`, if there are statistics
abbrev pub update_stats : (FifoStats → FifoStats) → Option FifoStats → Option FifoStats
update_stats g none = none
update_stats g (some s) = some (g s)

-- __XDP2_FIFO_BUMP_PROD_COUNT of the counters that `g` counts up
abbrev pub bump_prod : (ProdStats → ProdStats) → Option FifoStats → Option FifoStats
bump_prod g = update_stats (λ s. record s { producer = g s.producer })

-- __XDP2_FIFO_BUMP_CONS_COUNT
abbrev pub bump_cons : (ConsStats → ConsStats) → Option FifoStats → Option FifoStats
bump_cons g = update_stats (λ s. record s { consumer = g s.consumer })

-- `(producer - consumer + num_ents) % num_ents`
abbrev pub distance : ℕ → ℕ → ℕ → ℕ
distance producer consumer num_ents =
    (producer + uint_mod - consumer + num_ents) % uint_mod % num_ents

-- xdp2_fifo_sw_num_in_queue
unfoldable pub num_in_queue : Fifo → ℕ
num_in_queue fifo =
    if (fifo.producer == fifo.consumer) && fifo.queue_full
    then fifo.num_ents
    else distance fifo.producer fifo.consumer fifo.num_ents

-- xdp2_fifo_sw_avail_in_queue
unfoldable pub avail_in_queue : Fifo → ℕ
avail_in_queue fifo = (fifo.num_ents + uint_mod - num_in_queue fifo) % uint_mod

-- xdp2_fifo_sw_is_empty
unfoldable pub is_empty : Fifo → Bool
is_empty fifo = (fifo.consumer == fifo.producer) && not fifo.queue_full

-- xdp2_fifo_sw_is_full
unfoldable pub is_full : Fifo → Bool
is_full fifo = (fifo.consumer == fifo.producer) && fifo.queue_full
