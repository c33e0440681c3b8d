-- ===== src/Timers/Updates.antt =====
-- Adding and removing timers: xdp2_timer_remove and __xdp2_timer_add of src/lib/xdp2/timer.c.
use xdp.Base.{
  List, ◌⊎◌, put-here, put-other, ℕ, ◌+◌, ◌*◌, ◌/◌, ◌%◌, ◌^◌, ◌≤◌, ◌<◌, Bool, true, false, ◌&&◌,
  ◌∷◌, some, ◌≡◌, ◌≢◌, refl, sym, ap, ◌∙◌, ◌==◌, ltb, if◌then◌else◌, size_mod, sub_size, Bool-cases,
  inl, inr, arith,
}
use xdp.Timers.{
  Timer, Wheel, remove_if_set, removed, bump_remove_timers, bump_remove_wheel_running,
  bump_change_timers, bump_add_timers, timer_remove_locked, timer_remove, setup_timer, setup_pop,
  add_unset, add_at, timer_add, seqno_lt, seqno_gt,
}
use xdp.Timers.Wheels.{WheelOk, removed-SlotsOk, entered-SlotsOk}

-- `w'` is in order, `t` is not set in it, and the other timers are as in `w`, as is what says when the
-- wheel is to run.
abbrev pub Removed : ℕ → Wheel → Wheel → Type 0
Removed t w w' =
    WheelOk w'
    × ((w'.timers t).timer_set ≡ false)
    × ((r : ℕ) → r ≢ t → w'.timers r ≡ w.timers r)
    × (w'.num_slots ≡ w.num_slots)
    × (w'.next_expire_time ≡ w.next_expire_time)
    × (w'.last_runtime ≡ w.last_runtime)

removed-Removed : (t : ℕ) (w : Wheel) → WheelOk w → Removed t w (removed t w)
unfolding removed
removed-Removed t w ok = (
  removed-SlotsOk w.slots w.timers w.slot_bitmap t ok,
  ap (λ tm. tm.timer_set) (put-here t (record (w.timers t) { timer_set = false }) w.timers),
  (λ r d. put-other t (record (w.timers t) { timer_set = false }) w.timers r d),
  refl,
  refl,
  refl,
)

remove_if_set-Removed :
    (ret : Bool) (t : ℕ) (w : Wheel)
    → WheelOk w
    → (w' : Wheel) × (remove_if_set ret t w ≡ some (ret, w')) × Removed t w w'
unfolding remove_if_set timer_remove_locked
remove_if_set-Removed ret t w ok = elim (Bool-cases (w.timers t).timer_set) [
  | inl set ↦ (
    bump_remove_timers (removed t w),
    rw (remove_if_set, set, timer_remove_locked, set) refl,
    removed-Removed t w ok,
  )
  | inr unset ↦ (w, rw (remove_if_set, unset) refl, (ok, unset, (λ r d. refl), refl, refl, refl))
]

-- Removing a timer, set or not, raises no assertion and tells whether the wheel is running; the timer is
-- not set afterwards and in no slot, and the other timers are as they were.
pub timer_remove-Removed :
    (t : ℕ) (w : Wheel)
    → WheelOk w
    → (w' : Wheel) × (timer_remove t w ≡ some (w.running, w')) × Removed t w w'
unfolding timer_remove
timer_remove-Removed t w ok = elim (Bool-cases w.running) [
  | inl on ↦
      let done = remove_if_set-Removed w.running t (bump_remove_wheel_running w) ok in
      (done.0, rw (timer_remove, on) (rw on at done.1), done.2)
  | inr off ↦
      let done = remove_if_set-Removed w.running t w ok in
      (done.0, rw (timer_remove, off) (rw off at done.1), done.2)
]

pub seqno_lt_small : (a b : ℕ) → a < 2 ^ 63 → b < 2 ^ 63 → seqno_lt a b ≡ ltb a b
unfolding seqno_lt sub_size
seqno_lt_small a b h k = ground arith

pub seqno_gt_small : (a b : ℕ) → a < 2 ^ 63 → b < 2 ^ 63 → seqno_gt a b ≡ ltb b a
unfolding seqno_gt sub_size
seqno_gt_small a b h k = ground arith

split_time : (n e : ℕ) → 0 < n → (e / n) * n + e % n ≡ e
split_time n e h = ground arith

-- The pop that was asked for last is at `next_expire_time`, which is still to come.
abbrev pub Pending : ℕ → Wheel → Type 0
Pending now w = (now < w.next_expire_time) × (rest : List ℕ) × (w.pops ≡ w.next_expire_time ∷ rest)

-- The two times are equal, which says that no pop is to come, or one is.
abbrev pub Armed : ℕ → Wheel → Type 0
Armed now w = (w.next_expire_time ≡ w.last_runtime) ⊎ Pending now w

-- `w'` is `w` but for the times, and a pop is to come at `expire_time` at the latest.
abbrev Popped : ℕ → ℕ → Wheel → Wheel → Type 0
Popped now expire_time w w' =
    (WheelOk w → WheelOk w')
    × (w'.timers ≡ w.timers)
    × (w'.next_expire_time ≤ expire_time)
    × Pending now w'

pending :
    (now : ℕ) (w : Wheel)
    → Armed now w
    → (w.next_expire_time == w.last_runtime) ≡ false
    → Pending now w
pending now w (inl same) apart = absurd (ground (arith, same, apart))
pending now w (inr p) apart = p

setup_pop-Popped :
    (now expire_time : ℕ) (w : Wheel)
    → now < expire_time
    → expire_time < 2 ^ 63
    → w.last_runtime ≤ now
    → w.next_expire_time < 2 ^ 63
    → Armed now w
    → (w' : Wheel) × (setup_pop now expire_time w ≡ some w') × Popped now expire_time w w'
unfolding setup_pop
setup_pop-Popped now expire_time w later bound past next armed =
    let sooner = seqno_lt_small expire_time w.next_expire_time bound next in
    elim (Bool-cases (w.next_expire_time == w.last_runtime)) [
      | inl idle ↦
          let after : seqno_gt expire_time now ≡ true =
            seqno_gt_small expire_time now bound (omega arith) ∙ ground (arith, later) in
          (
            record w {
              last_runtime = now;
              next_expire_time = expire_time;
              pops = expire_time ∷ w.pops;
            },
            elim (Bool-cases (seqno_lt expire_time w.next_expire_time)) [
              | inl less ↦ rw (setup_pop, idle, less, after) refl
              | inr more ↦ rw (setup_pop, idle, more, after) refl
            ],
            ((λ ok. ok), refl, omega arith, (later, w.pops, refl)),
          )
      | inr running ↦ elim (Bool-cases (seqno_lt expire_time w.next_expire_time)) [
        | inl less ↦
            let after : seqno_gt expire_time w.last_runtime ≡ true =
              seqno_gt_small expire_time w.last_runtime bound (omega arith)
              ∙ ground (arith, later, past) in
            (
              record w { next_expire_time = expire_time; pops = expire_time ∷ w.pops },
              rw (setup_pop, running, less, after) refl,
              ((λ ok. ok), refl, omega arith, (later, w.pops, refl)),
            )
        | inr more ↦
            let not_less : ltb expire_time w.next_expire_time ≡ false = sym sooner ∙ more in
            (
              w,
              rw (setup_pop, running, more) refl,
              ((λ ok. ok), refl, ground (arith, not_less), pending now w armed running),
            )
      ]
    ]

-- `t` is set in `w'`, to expire at `expire_time`, and the other timers are as in `w`; the wheel is in
-- order, and a pop is to come at that time at the latest.
abbrev pub Added : ℕ → ℕ → ℕ → Wheel → Wheel → Type 0
Added now t expire_time w w' =
    WheelOk w'
    × ((w'.timers t).timer_set ≡ true)
    × ((w'.timers t).gen * w.num_slots + (w'.timers t).index ≡ expire_time)
    × ((r : ℕ) → r ≢ t → w'.timers r ≡ w.timers r)
    × (w'.next_expire_time ≤ expire_time)
    × Pending now w'

add_unset-Added :
    (t now expire_time : ℕ) (w : Wheel)
    → WheelOk w
    → (w.timers t).timer_set ≡ false
    → 0 < w.num_slots
    → now < expire_time
    → expire_time < 2 ^ 63
    → w.last_runtime ≤ now
    → w.next_expire_time < 2 ^ 63
    → Armed now w
    → (w' : Wheel) × (add_unset t now expire_time w ≡ some w') × Added now t expire_time w w'
unfolding add_unset setup_timer
add_unset-Added t now expire_time w ok unset size later bound past next armed =
    let timer : Timer = record {
      timer_set = true;
      gen = expire_time / w.num_slots;
      index = expire_time % w.num_slots;
    } in
    let popped =
      setup_pop-Popped now expire_time (setup_timer t expire_time w) later bound past next armed in
    let entered = entered-SlotsOk w.slots w.timers w.slot_bitmap t ok unset timer refl in
    let at_t = ap (λ ts. ts t) popped.2.1 ∙ put-here t timer w.timers in
    (
      bump_add_timers popped.0,
      rw (add_unset, popped.1) refl,
      (
        popped.2.0 entered,
        ap (λ tm. tm.timer_set) at_t,
        ap (λ tm. tm.gen * w.num_slots + tm.index) at_t ∙ split_time w.num_slots expire_time size,
        (λ r d. ap (λ ts. ts r) popped.2.1 ∙ put-other t timer w.timers r d),
        popped.2.2,
        popped.2.3,
      ),
    )

add_at-Added :
    (now t expire_time : ℕ) (not_running : Bool) (w : Wheel)
    → WheelOk w
    → ((w.timers t).timer_set && not_running) ≡ false
    → 0 < w.num_slots
    → now < expire_time
    → expire_time < 2 ^ 63
    → w.last_runtime ≤ now
    → w.next_expire_time < 2 ^ 63
    → Armed now w
    → (w' : Wheel) × (add_at now t expire_time not_running w ≡ some w')
      × Added now t expire_time w w'
unfolding add_at timer_remove_locked removed
add_at-Added now t expire_time not_running w ok may size later bound past next armed =
    let after : seqno_gt expire_time now ≡ true =
      seqno_gt_small expire_time now bound (omega arith) ∙ ground (arith, later) in
    elim (Bool-cases (w.timers t).timer_set) [
      | inr unset ↦
          let added =
            add_unset-Added t now expire_time w ok unset size later bound past next armed in
          (added.0, rw (add_at, after, unset) added.1, added.2)
      | inl set ↦
          let change : not_running ≡ false = rw set at may in
          let gone = removed-Removed t (bump_change_timers w) ok in
          let added =
            add_unset-Added t now expire_time (removed t (bump_change_timers w)) gone.0 gone.1 size
              later bound past next armed in
          (
            added.0,
            rw (add_at, after, set, change, timer_remove_locked, set) added.1,
            (
              added.2.0,
              added.2.1,
              added.2.2,
              (λ r d. added.2.3 r d ∙ gone.2 r d),
              added.2.4,
              added.2.5,
            ),
          )
    ]

-- Adding a timer that is not set, or one that is set and may be changed, with times that do not wrap
-- around, where `next_expire_time` is `last_runtime` or is still to come and the pop that was asked for
-- last: no assertion is raised, the timer is set to expire after the delay (1 for 0), the others are as
-- they were, and afterwards the pop that was asked for last is still to come and is not later than the
-- timer.
pub timer_add-Added :
    (now t delay : ℕ) (not_running : Bool) (w : Wheel)
    → WheelOk w
    → ((w.timers t).timer_set && not_running) ≡ false
    → 0 < w.num_slots
    → now + (if delay == 0 then 1 else delay) < 2 ^ 63
    → w.last_runtime ≤ now
    → w.next_expire_time < 2 ^ 63
    → Armed now w
    → (w' : Wheel) × (timer_add now t delay not_running w ≡ some w')
      × Added now t (now + (if delay == 0 then 1 else delay)) w w'
unfolding timer_add
timer_add-Added now t delay not_running w ok may size bound past next armed =
    let step : ℕ = if delay == 0 then 1 else delay in
    let exact : (now + step) % size_mod ≡ now + step = ground arith in
    let moves : 0 < step = ground arith in
    rw (timer_add, exact)
      (add_at-Added now t (now + step) not_running w ok may size (omega (arith, moves)) bound past
        next armed)
