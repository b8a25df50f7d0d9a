-- ===== src/Timer/Tests.antt =====
-- The timers of rednet-src/utimer.h in concrete runs.
use rednet.Common.{
  ℕ, ◌+◌, ◌/◌, ◌%◌, ◌≡◌, refl, Bool, true, Option, none, some, List, [], ◌∷◌, arith,
}
use rednet.Timer.{
  Handle, Outgoing, expired, Timer, level_of, local_append, local_move, update_wheel, tick,
  time_out,
}
use rednet.Timer.Move.{update_wheel-endless}
use rednet.Timer.Late.{Every, IsOffTime, new_timer, Reach, here, asks, ticks, Reach-IsOffTime}

-- a handle for 300, set at 0, when the wheel is at 255
abbrev waiting : Timer
waiting = record (new_timer 255 0 100) {
  levels = λ level i. record { expire = 300; id = 8; session = 1 } ∷ [];
}

placed : (time_out 8 300 1 (new_timer 0 0 100)).levels 0 1 ≡ waiting.levels 0 1
unfolding time_out local_append level_of rednet.Common.update
placed = refl

update_wheel-endless_example : update_wheel 1000 waiting ≡ none
update_wheel-endless_example =
    update_wheel-endless 1000 waiting (omega arith) refl (λ e. absurd (omega arith)) refl

-- a handle for 511, set at 316, is handed out at 319
abbrev after_tick : Option Timer → Timer
after_tick none = new_timer 0 0 0
after_tick (some v) = v

early :
    Reach (new_timer 316 0 100) (after_tick (tick 2 103 (time_out 8 195 1 (new_timer 316 0 100))))
unfolding time_out local_append tick rednet.Timer.updates update_wheel rednet.Timer.local_shift
    rednet.Timer.local_execute rednet.Timer.shift_rounds local_move
early =
    ticks (time_out 8 195 1 (new_timer 316 0 100))
      (after_tick (tick 2 103 (time_out 8 195 1 (new_timer 316 0 100)))) 2 103
      (asks (new_timer 316 0 100) 8 195 1 here) refl

early_sent :
    (after_tick (tick 2 103 (time_out 8 195 1 (new_timer 316 0 100)))).sent
    ≡ expired (record { expire = 511; id = 8; session = 1 }) 319 ∷ []
unfolding time_out local_append level_of rednet.Common.update tick rednet.Timer.updates update_wheel
    rednet.Timer.local_shift rednet.Timer.local_execute rednet.Timer.shift_rounds local_move
early_sent = refl

Reach-IsOffTime_example :
    Every IsOffTime (after_tick (tick 2 103 (time_out 8 195 1 (new_timer 316 0 100)))).sent
Reach-IsOffTime_example =
    Reach-IsOffTime 316 0 100 (after_tick (tick 2 103 (time_out 8 195 1 (new_timer 316 0 100))))
      early
