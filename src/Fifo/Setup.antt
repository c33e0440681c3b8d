-- ===== src/Fifo/Setup.antt =====
-- Setting up fifos and poll groups, and binding the one to the other: src/include/xdp2/fifo.h. What
-- `calloc` gives is an argument, NULL or not.
use xdp.Base.{
  size_mod, ◌+◌, ◌*◌, ℕ, ◌-◌, ◌%◌, Bool, true, false, List, [], ◌∷◌, Option, none, some, ◌==◌,
  if◌then◌else◌, is_set, put,
}
use xdp.Fifo.{uint_mod, FifoStats, GroupStats, Fifo, PollGroup}
use xdp.Fifo.Groups.{System, Task, enabled_read, enabled_write, with_group, with_ready}

-- xdp2_fifo_init_poll_group_mem: the memory set to zero
unfoldable pub init_poll_group_mem : PollGroup
init_poll_group_mem = record {
  active = false;
  fifo_no_poll = false;
  fifos = λ num. none;
  fifos_ready = λ num. false;
  fifos_mask = λ num. false;
  start_pos = 0;
  cond = none;
  stats = none;
}

-- ___xdp2_fifo_init_poll_group, less the warning
unfoldable pub init_poll_group : Option ℕ → Option GroupStats → Bool → PollGroup → Bool × PollGroup
init_poll_group cond stats fifo_no_poll group =
    if is_set group.cond
    then (false, group)
    else (true, record group { cond = cond; stats = stats; fifo_no_poll = fifo_no_poll })

-- `cond == fifo->cond` of two pointers
abbrev pub same_cond : Option ℕ → Option ℕ → Bool
same_cond none none = true
same_cond none (some b) = false
same_cond (some a) none = false
same_cond (some a) (some b) = a == b

-- xdp2_fifo_uninit_poll_group
unfoldable pub uninit_poll_group : Option ℕ → PollGroup → PollGroup
uninit_poll_group cond group =
    if same_cond cond group.cond
    then record group { cond = none; stats = none; fifo_no_poll = false }
    else group

-- A bit of the bitmap of what is enabled
abbrev pub with_mask : ℕ → Bool → PollGroup → PollGroup
with_mask num enabled group = record group { fifos_mask = put num enabled group.fifos_mask }

-- __xdp2_fifo_finish_bind_fifo_to_poll
unfoldable pub finish_bind : ℕ → ℕ → PollGroup → PollGroup
finish_bind fifo num group =
    with_ready num false
      (with_mask num false (record group { fifos = put num (some fifo) group.fifos }))

-- xdp2_fifo_bind_fifo_to_read_poll
unfoldable pub bind_to_read_poll : ℕ → ℕ → System → System
bind_to_read_poll g num s =
    with_group g (finish_bind s.address num)
      (record s { fifo = record s.fifo { read_poll_num = num; read_poll = some g } })

-- xdp2_fifo_bind_fifo_to_write_poll
unfoldable pub bind_to_write_poll : ℕ → ℕ → System → System
bind_to_write_poll g num s =
    with_group g (finish_bind s.address num)
      (record s { fifo = record s.fifo { write_poll_num = num; write_poll = some g } })

-- xdp2_fifo_enable_read_poll up to the lock of the fifo
unfoldable pub enable_read_poll : System → List Task × System
enable_read_poll s = elim s.fifo.read_poll [
  | none ↦ ([], s)
  | some g ↦ (enabled_read ∷ [], with_group g (with_mask s.fifo.read_poll_num true) s)
]

-- xdp2_fifo_enable_write_poll up to the lock of the fifo
unfoldable pub enable_write_poll : System → List Task × System
enable_write_poll s = elim s.fifo.write_poll [
  | none ↦ ([], s)
  | some g ↦ (enabled_write ∷ [], with_group g (with_mask s.fifo.write_poll_num true) s)
]

-- xdp2_fifo_enable_nonfifo_read_poll and xdp2_fifo_enable_nonfifo_write_poll
unfoldable pub enable_nonfifo_poll : ℕ → PollGroup → PollGroup
enable_nonfifo_poll num = with_mask num true

-- xdp2_fifo_disable_nonfifo_read_poll and xdp2_fifo_disable_nonfifo_write_poll
unfoldable pub disable_nonfifo_poll : ℕ → PollGroup → PollGroup
disable_nonfifo_poll num = with_mask num false

-- xdp2_fifo_disable_read_poll
unfoldable pub disable_read_poll : System → System
disable_read_poll s = elim s.fifo.read_poll [
  | none ↦ s
  | some g ↦ with_group g (with_mask s.fifo.read_poll_num false) s
]

-- xdp2_fifo_disable_write_poll
unfoldable pub disable_write_poll : System → System
disable_write_poll s = elim s.fifo.write_poll [
  | none ↦ s
  | some g ↦ with_group g (with_mask s.fifo.write_poll_num false) s
]

-- __xdp2_fifo_finish_unbind_fifo_from_poll
unfoldable pub finish_unbind : ℕ → PollGroup → PollGroup
finish_unbind num group =
    with_mask num false (with_ready num false (record group { fifos = put num none group.fifos }))

-- `-1U`
abbrev uint_max : ℕ
uint_max = uint_mod - 1

-- xdp2_fifo_unbind_fifo_from_read_poll
unfoldable pub unbind_from_read_poll : System → System
unbind_from_read_poll s = elim s.fifo.read_poll [
  | none ↦ s
  | some g ↦
      with_group g (finish_unbind s.fifo.read_poll_num)
        (record s { fifo = record s.fifo { read_poll_num = uint_max; read_poll = none } })
]

-- xdp2_fifo_unbind_fifo_from_write_poll
unfoldable pub unbind_from_write_poll : System → System
unbind_from_write_poll s = elim s.fifo.write_poll [
  | none ↦ s
  | some g ↦
      with_group g (finish_unbind s.fifo.write_poll_num)
        (record s { fifo = record s.fifo { write_poll_num = uint_max; write_poll = none } })
]

-- Statistics set to zero
abbrev pub no_stats : FifoStats
no_stats = record {
  consumer = record {
    requests = 0;
    fails = 0;
    waits = 0;
    spurious_wakeups_poll = 0;
    blocked = 0;
    spurious_wakeups = 0;
    after_wait = 0;
    unblocked = 0;
    min_enqueued = 0;
  };
  producer = record {
    requests = 0;
    fails = 0;
    waits = 0;
    spurious_wakeups_poll = 0;
    blocked = 0;
    queue_full = 0;
    spurious_wakeups = 0;
    after_wait = 0;
    saw_empty = 0;
    max_enqueued = 0;
  };
}

-- __xdp2_fifo_init, of a fifo whose queue has these words; `ent_size` becomes a `__u8`.
unfoldable pub init_fifo : (ℕ → ℕ) → ℕ → ℕ → ℕ → Bool → Fifo
init_fifo queue num_ents ent_size low_water_mark stats = record {
  num_ents = num_ents;
  low_water_mark = low_water_mark;
  ent_size = ent_size % 256;
  initted = true;
  producer = 0;
  consumer = 0;
  queue_full = false;
  consumer_cond = none;
  producer_cond = none;
  stats = if stats then some no_stats else none;
  read_poll = none;
  read_poll_num = 0;
  write_poll = none;
  write_poll_num = 0;
  num_enqueued = 0;
  num_dequeued = 0;
  num_enqueue_waiters = 0;
  queue = queue;
}

-- xdp2_fifo_size, of a structure of `header` bytes
unfoldable pub fifo_size : ℕ → ℕ → ℕ → ℕ
fifo_size header num_ents ent_size = (header + ((num_ents * ent_size) % uint_mod) * 8) % size_mod

-- __xdp2_fifo_create
unfoldable pub create : Bool → ℕ → ℕ → ℕ → Bool → Option Fifo
create allocated num_ents ent_size low_water_mark stats =
    if allocated then some (init_fifo (λ place. 0) num_ents ent_size low_water_mark stats) else none

-- __xdp2_fifo_init_producer, less the warning; `none` where the assertion fails
unfoldable pub init_producer : Option ℕ → Fifo → Option (Bool × Fifo)
init_producer cond fifo =
    if fifo.initted
    then (if is_set fifo.producer_cond
        then some (false, fifo)
        else some (true, record fifo { producer_cond = cond }))
    else none

-- xdp2_fifo_uninit_producer
unfoldable pub uninit_producer : Option ℕ → Fifo → Option Fifo
uninit_producer cond fifo =
    if fifo.initted
    then some
        (if same_cond cond fifo.producer_cond then record fifo { producer_cond = none } else fifo)
    else none

-- __xdp2_fifo_init_consumer, less the warning
unfoldable pub init_consumer : Option ℕ → Fifo → Option (Bool × Fifo)
init_consumer cond fifo =
    if fifo.initted
    then (if is_set fifo.consumer_cond
        then some (false, fifo)
        else some (true, record fifo { consumer_cond = cond }))
    else none

-- xdp2_fifo_uninit_consumer
unfoldable pub uninit_consumer : Option ℕ → Fifo → Option Fifo
uninit_consumer cond fifo =
    if fifo.initted
    then some
        (if same_cond cond fifo.consumer_cond then record fifo { consumer_cond = none } else fifo)
    else none
