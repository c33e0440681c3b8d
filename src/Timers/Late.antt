-- ===== src/Timers/Late.antt =====
-- __xdp2_timer_add of src/lib/xdp2/timer.c after a late run of the wheel.
use xdp.Base.{
  put-here, ℕ, ◌+◌, ◌/◌, ◌%◌, ◌^◌, ◌≤◌, ◌<◌, Bool, true, false, some, ◌≡◌, ◌≢◌, refl, ap, ◌∙◌, ◌==◌,
  if◌then◌else◌, size_mod, arith,
}
use xdp.Timers.{
  Timer, Wheel, bump_add_timers, setup_timer, setup_pop, add_unset, add_at, timer_add, seqno_lt,
  seqno_gt,
}
use xdp.Timers.Updates.{seqno_lt_small, seqno_gt_small}

-- `t` is set in `w'`, and of when the wheel is to run nothing has changed.
abbrev pub Late : ℕ → Wheel → Wheel → Type 0
Late t w w' =
    ((w'.timers t).timer_set ≡ true)
    × (w'.pops ≡ w.pops)
    × (w'.next_expire_time ≡ w.next_expire_time)

setup_pop-late :
    (now expire_time : ℕ) (w : Wheel)
    → now < expire_time
    → expire_time < 2 ^ 63
    → w.next_expire_time ≤ now
    → w.next_expire_time ≢ w.last_runtime
    → setup_pop now expire_time w ≡ some w
unfolding setup_pop
setup_pop-late now expire_time w later bound late apart =
    let passed : seqno_lt expire_time w.next_expire_time ≡ false =
      seqno_lt_small expire_time w.next_expire_time bound (omega arith)
      ∙ ground (arith, late, later) in
    let other : (w.next_expire_time == w.last_runtime) ≡ false = ground (arith, apart) in
    rw (setup_pop, passed, other) refl

add_at-Late :
    (now t expire_time : ℕ) (not_running : Bool) (w : Wheel)
    → (w.timers t).timer_set ≡ false
    → now < expire_time
    → expire_time < 2 ^ 63
    → w.next_expire_time ≤ now
    → w.next_expire_time ≢ w.last_runtime
    → (w' : Wheel) × (add_at now t expire_time not_running w ≡ some w') × Late t w w'
unfolding add_at add_unset setup_timer
add_at-Late now t expire_time not_running w unset later bound late apart =
    let after : seqno_gt expire_time now ≡ true =
      seqno_gt_small expire_time now bound (omega arith) ∙ ground (arith, later) in
    let set_up = setup_timer t expire_time w in
    let kept = setup_pop-late now expire_time set_up later bound late apart in
    let timer : Timer = record {
      timer_set = true;
      gen = expire_time / w.num_slots;
      index = expire_time % w.num_slots;
    } in
    (
      bump_add_timers set_up,
      rw (add_at, after, unset, add_unset, kept) refl,
      (ap (λ tm. tm.timer_set) (put-here t timer w.timers), refl, refl),
    )

-- Where `next_expire_time` has passed but is not `last_runtime`, as a late run of the wheel that leaves
-- no timer has it: adding a timer that is not set, with times that do not wrap around, raises no
-- assertion, but it asks for no pop and leaves `next_expire_time` as it is.
pub timer_add-Late :
    (now t delay : ℕ) (not_running : Bool) (w : Wheel)
    → (w.timers t).timer_set ≡ false
    → now + (if delay == 0 then 1 else delay) < 2 ^ 63
    → w.next_expire_time ≤ now
    → w.next_expire_time ≢ w.last_runtime
    → (w' : Wheel) × (timer_add now t delay not_running w ≡ some w') × Late t w w'
unfolding timer_add
timer_add-Late now t delay not_running w unset bound late apart =
    let step : ℕ = if delay == 0 then 1 else delay in
    let exact : (now + step) % size_mod ≡ now + step = ground arith in
    let moves : 0 < step = ground arith in
    rw (timer_add, exact)
      (add_at-Late now t (now + step) not_running w unset (omega (arith, moves)) bound late apart)
