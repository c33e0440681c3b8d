-- ===== src/Timers/Tests.antt =====
-- A wheel of four slots with one timer, to expire at 6.
use xdp.Base.{inr, put, pos, true, false, [], ◌∷◌, some, ◌≡◌, refl, arith}
use xdp.Timers.{Timer, Wheel, timer_remove, timer_add}
use xdp.Timers.Wheels.{SlotsOk, WheelOk, entered-SlotsOk}
use xdp.Timers.Updates.{Removed, Added, timer_remove-Removed, timer_add-Added}
use xdp.Timers.Late.{Late, timer_add-Late}

abbrev idle : Timer
idle = record { timer_set = false; gen = 0; index = 0 }

abbrev at_six : Timer
at_six = record { timer_set = true; gen = 1; index = 2 }

abbrev one_timer : Wheel
one_timer = record {
  num_slots = 4;
  slots = put 2 (1 ∷ []) (λ i. []);
  slot_bitmap = put 2 true (λ i. false);
  next_expire_time = 6;
  last_runtime = 3;
  timer_count = pos 1;
  running = false;
  stats = record {
    add_timers = 1;
    add_already_running = 0;
    remove_timers = 0;
    change_timers = 0;
    remove_wheel_running = 0;
  };
  timers = put 1 at_six (λ r. idle);
  pops = 6 ∷ [];
}

no_timers : SlotsOk (λ i. []) (λ r. idle) (λ i. false)
no_timers = record {
  slot_set = λ i r h. absurd h;
  set_slot = λ r h. absurd (cc);
  nodup = λ i. tt;
  bit = λ i. refl;
}

one_timer-WheelOk : WheelOk one_timer
one_timer-WheelOk = entered-SlotsOk (λ i. []) (λ r. idle) (λ i. false) 1 no_timers refl at_six refl

timer_remove-Removed_example :
    (w' : Wheel) × (timer_remove 1 one_timer ≡ some (false, w')) × Removed 1 one_timer w'
timer_remove-Removed_example = timer_remove-Removed 1 one_timer one_timer-WheelOk

timer_add-Added_example :
    (w' : Wheel) × (timer_add 3 1 2 false one_timer ≡ some w') × Added 3 1 5 one_timer w'
unfolding put
timer_add-Added_example =
    timer_add-Added 3 1 2 false one_timer one_timer-WheelOk refl (omega arith) (omega arith)
      (omega arith) (omega arith) (inr (omega arith, [], refl))

-- A wheel without timers that was to run at 6 and ran at 7.
abbrev ran_late : Wheel
ran_late = record one_timer {
  slots = λ i. [];
  slot_bitmap = λ i. false;
  last_runtime = 7;
  timer_count = pos 0;
  timers = λ r. idle;
}

timer_add-Late_example :
    (w' : Wheel) × (timer_add 8 1 5 false ran_late ≡ some w') × Late 1 ran_late w'
timer_add-Late_example =
    timer_add-Late 8 1 5 false ran_late refl (omega arith) (omega arith)
      (λ e. absurd (omega (arith, e)))
