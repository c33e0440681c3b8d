-- ===== src/Timers.antt =====
-- Timers: src/include/xdp2/timer.h and the part of src/lib/xdp2/timer.c that adds and removes timers. A
-- timer is an object, by its address. A slot is a circular queue of sys/queue.h, here a list from the
-- head on. The clock is an argument, the time at which it is read. `pops` has the times that
-- set_next_timer_pop was called with, the last one first. A failed assertion is `none`.
pub mod Wheels
pub mod Updates
pub mod Late
mod Tests
use xdp.Base.{
  ℕ, ◌+◌, ◌/◌, ◌%◌, ◌^◌, ℤ, Bool, true, false, ◌||◌, not, List, [], ◌∷◌, Option, none, some, ◌==◌,
  ltb, if◌then◌else◌, size_mod, sub_size, remove, put, int_succ, int_pred,
}

-- `struct xdp2_timer`, less the callback
pub record Timer : Type 0 where
  pub timer_set : Bool
  pub gen : ℕ
  pub index : ℕ

-- `struct xdp2_timer_wheel_stats`, the counters that adding and removing change
pub record Stats : Type 0 where
  pub add_timers : ℕ
  pub add_already_running : ℕ
  pub remove_timers : ℕ
  pub change_timers : ℕ
  pub remove_wheel_running : ℕ

-- `struct xdp2_timer_wheel` with the timers, less the fields that only creating and running the wheel
-- use, and `where`, a note for debugging
pub record Wheel : Type 0 where
  pub num_slots : ℕ
  pub slots : ℕ → List ℕ
  pub slot_bitmap : ℕ → Bool
  pub next_expire_time : ℕ
  pub last_runtime : ℕ
  pub timer_count : ℤ
  pub running : Bool
  pub stats : Stats
  pub timers : ℕ → Timer
  pub pops : List ℕ

-- xdp2_seqno_ul_lt
unfoldable pub seqno_lt : ℕ → ℕ → Bool
seqno_lt x y = ltb (2 ^ 63) (sub_size x y)

-- xdp2_seqno_ul_gt
unfoldable pub seqno_gt : ℕ → ℕ → Bool
seqno_gt x y = ltb (2 ^ 63) (sub_size y x)

-- CIRCLEQ_EMPTY
abbrev pub is_empty : List ℕ → Bool
is_empty [] = true
is_empty (x ∷ xs) = false

-- What timer_remove_locked does to a timer that is set.
unfoldable pub removed : ℕ → Wheel → Wheel
removed timer w =
    let index = (w.timers timer).index in
    let slot = remove timer (w.slots index) in
    record w {
      slots = put index slot w.slots;
      slot_bitmap = if is_empty slot then put index false w.slot_bitmap else w.slot_bitmap;
      timers = put timer (record (w.timers timer) { timer_set = false }) w.timers;
      timer_count = int_pred w.timer_count;
    }

-- timer_remove_locked
unfoldable pub timer_remove_locked : ℕ → Wheel → Option Wheel
timer_remove_locked timer w = elim (w.timers timer).timer_set [
  | false ↦ none
  | true ↦ some (removed timer w)
]

-- The counters.
abbrev pub bump_remove_wheel_running : Wheel → Wheel
bump_remove_wheel_running w = record w {
  stats = record (w.stats) { remove_wheel_running = (w.stats.remove_wheel_running + 1) % size_mod };
}

abbrev pub bump_remove_timers : Wheel → Wheel
bump_remove_timers w = record w {
  stats = record (w.stats) { remove_timers = (w.stats.remove_timers + 1) % size_mod };
}

abbrev pub bump_already_running : Wheel → Wheel
bump_already_running w = record w {
  stats = record (w.stats) { add_already_running = (w.stats.add_already_running + 1) % size_mod };
}

abbrev pub bump_change_timers : Wheel → Wheel
bump_change_timers w = record w {
  stats = record (w.stats) { change_timers = (w.stats.change_timers + 1) % size_mod };
}

abbrev pub bump_add_timers : Wheel → Wheel
bump_add_timers w = record w {
  stats = record (w.stats) { add_timers = (w.stats.add_timers + 1) % size_mod };
}

-- xdp2_timer_remove from the test of `timer_set` on.
unfoldable pub remove_if_set : Bool → ℕ → Wheel → Option (Bool × Wheel)
remove_if_set ret timer w = elim (w.timers timer).timer_set [
  | false ↦ some (ret, w)
  | true ↦ elim (timer_remove_locked timer w) [
    | none ↦ none
    | some w1 ↦ some (ret, bump_remove_timers w1)
  ]
]

-- xdp2_timer_remove: whether the wheel is running.
unfoldable pub timer_remove : ℕ → Wheel → Option (Bool × Wheel)
timer_remove timer w =
    remove_if_set w.running timer (if w.running then bump_remove_wheel_running w else w)

-- The part of __xdp2_timer_add that sets up a timer.
unfoldable pub setup_timer : ℕ → ℕ → Wheel → Wheel
setup_timer timer expire_time w =
    let index = expire_time % w.num_slots in
    record w {
      slots = put index (timer ∷ w.slots index) w.slots;
      slot_bitmap = put index true w.slot_bitmap;
      timers =
          put timer (record { timer_set = true; gen = expire_time / w.num_slots; index = index })
            w.timers;
      timer_count = int_succ w.timer_count;
    }

-- The part of __xdp2_timer_add that sets the pop time.
unfoldable pub setup_pop : ℕ → ℕ → Wheel → Option Wheel
setup_pop current_time expire_time w =
    let last = if w.next_expire_time == w.last_runtime then current_time else w.last_runtime in
    if seqno_lt expire_time w.next_expire_time || (w.next_expire_time == w.last_runtime)
    then (if seqno_gt expire_time last
        then some (record w {
          last_runtime = last;
          next_expire_time = expire_time;
          pops = expire_time ∷ w.pops;
        })
        else none)
    else some w

-- __xdp2_timer_add from the label on which a timer that is set has been removed.
unfoldable pub add_unset : ℕ → ℕ → ℕ → Wheel → Option Wheel
add_unset timer current_time expire_time w =
    elim (setup_pop current_time expire_time (setup_timer timer expire_time w)) [
      | none ↦ none
      | some w1 ↦ some (bump_add_timers w1)
    ]

-- __xdp2_timer_add from the assertion on.
unfoldable pub add_at : ℕ → ℕ → ℕ → Bool → Wheel → Option Wheel
add_at current_time timer expire_time not_running w =
    if not (seqno_gt expire_time current_time) then none else elim (w.timers timer).timer_set [
      | false ↦ add_unset timer current_time expire_time w
      | true ↦ elim not_running [
        | true ↦ some (bump_already_running w)
        | false ↦ elim (timer_remove_locked timer (bump_change_timers w)) [
          | none ↦ none
          | some w1 ↦ add_unset timer current_time expire_time w1
        ]
      ]
    ]

-- __xdp2_timer_add
unfoldable pub timer_add : ℕ → ℕ → ℕ → Bool → Wheel → Option Wheel
timer_add current_time timer delay not_running w =
    add_at current_time timer ((current_time + (if delay == 0 then 1 else delay)) % size_mod)
      not_running w
