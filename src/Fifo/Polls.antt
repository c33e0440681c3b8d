-- ===== src/Fifo/Polls.antt =====
-- Polling a poll group: __xdp2_fifo_poll and the functions that it calls, of src/include/xdp2/fifo.h.
-- The search for a bit that is on, of src/include/xdp2/bitmap_helpers.h, goes bit by bit here.
use xdp.Base.{
  ℕ, zero, suc, ◌+◌, ◌-◌, ◌/◌, ◌%◌, ◌≤◌, ◌<◌, Bool, true, false, ◌&&◌, Option, none, some, ◌==◌,
  ltb, if◌then◌else◌,
}
use xdp.Fifo.{count, GroupStats, PollGroup}
pub mod Find
pub mod Turns

-- XDP2_POLL_GROUP_MAX_FIFOS
abbrev pub max_fifos : ℕ
max_fifos = 128

-- xdp2_bitmap64_find: the first of `left` bits from `pos` on that is on, else the one after them
unfoldable pub find : (ℕ → Bool) → ℕ → ℕ → ℕ
find bits pos zero = pos
find bits pos (suc left) = let rest = find bits (suc pos) left in if bits pos then pos else rest

-- xdp2_bitmap64_find_roll
unfoldable pub find_roll : (ℕ → Bool) → ℕ → ℕ → ℕ
find_roll bits pos nbits =
    let w = find bits pos (nbits - pos) in if ltb w nbits then w else find bits 0 nbits

-- What is ready and enabled, and the first of it
unfoldable pub next_ready : PollGroup → ℕ
next_ready group =
    find_roll (λ num. group.fifos_ready num && group.fifos_mask num) group.start_pos max_fifos

-- __xdp2_fifo_sw_poll up to the first wait or the end; `none` where the thread waits.
unfoldable pub sw_poll : Bool → PollGroup → Option ℕ × PollGroup
sw_poll wait group =
    let v = next_ready group in
    if ltb v max_fifos
    then (some v, record group { start_pos = (v + 1) % max_fifos })
    else (if wait then (none, group) else (some max_fifos, group))

-- One round of the loop of __xdp2_fifo_sw_poll, after the wait
unfoldable pub sw_poll_woken : PollGroup → Option ℕ
sw_poll_woken group = let v = next_ready group in if ltb v max_fifos then some v else none

-- xdp2_fifo_poll_no_poll
unfoldable pub poll_no_poll : PollGroup → Option ℕ × PollGroup
poll_no_poll group =
    let v = find_roll group.fifos_mask group.start_pos max_fifos in
    if ltb v max_fifos
    then (some v, record group { start_pos = (v + 1) % max_fifos })
    else (some v, group)

-- __XDP2_FIFO_POLL_GROUP_BUMP_COUNT of the counters that `f` counts up
abbrev pub bump_group : (GroupStats → GroupStats) → Option GroupStats → Option GroupStats
bump_group f none = none
bump_group f (some s) = some (f s)

-- __xdp2_fifo_poll before the poll
unfoldable pub count_poll : Bool → PollGroup → PollGroup
count_poll wait group = record group {
  stats =
      if wait
      then bump_group (λ s. record s { num_wait_polls = count s.num_wait_polls }) group.stats
      else bump_group (λ s. record s { num_no_wait_polls = count s.num_no_wait_polls }) group.stats;
}

-- __xdp2_fifo_poll after the poll
unfoldable pub count_polled : ℕ → PollGroup → PollGroup
count_polled v group =
    if ltb v (max_fifos / 2)
    then record group {
      stats = bump_group (λ s. record s { num_ret_rd_fifo = count s.num_ret_rd_fifo }) group.stats;
      active = true;
    }
    else if ltb v max_fifos
    then record group {
      stats = bump_group (λ s. record s { num_ret_wr_fifo = count s.num_ret_wr_fifo }) group.stats;
      active = true;
    }
    else record group {
      stats = bump_group (λ s. record s { num_ret_no_fifo = count s.num_ret_no_fifo }) group.stats;
    }

-- __xdp2_fifo_poll, less the warning, up to the first wait or the end
unfoldable pub poll : Bool → PollGroup → Option ℕ × PollGroup
poll wait group =
    let counted = count_poll wait group in
    let done = if group.fifo_no_poll then poll_no_poll counted else sw_poll wait counted in
    elim done.0 [ none ↦ done | some v ↦ (some v, count_polled v done.1) ]
