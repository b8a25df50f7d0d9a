-- ===== src/Workers/Tests.antt =====
-- The workers of rednet-src/uwork.cc in a run of one worker that waits when the process stops.
use rednet.Common.{◌*◌, ◌≤◌, ◌≡◌, ◌⊎◌, refl, true, [], ◌∷◌, length}
use rednet.Common.Int.{pos, ◌-ℤ◌}
use rednet.Workers.{
  append, Works, testing, dispatching, locking, locked, waiting, woken, unlocking, worker_act,
  signal, wakeup, broadcast, ticking, stopping, owning, flagged, cast, stopped, System, timer_act,
  worked, timed, Reach, here, next, new_works, start_workers, startup,
}
use rednet.Workers.Invariant.{Inv}
use rednet.Workers.Steps.{Reach-IsSound}
use rednet.Workers.Stop.{Run, begin, works}
use rednet.Workers.Ends.{AllDone, CanGo, stop_ends}

-- one thread inside `wait`
abbrev asleep : Works
asleep = record new_works { sleep = 1 }

abbrev at_rest : System
at_rest = record { works = asleep; timer = ticking; workers = waiting ∷ [] }

abbrev after_stop : System
after_stop = record {
  works = record asleep { shutdown = true };
  timer = stopped;
  workers = woken ∷ [];
}

at_rest_reached : Reach (startup 1) at_rest
unfolding startup start_workers append worker_act
at_rest_reached =
    next
      (next
        (next (next here (worked new_works ticking [] testing [] true dispatching new_works refl))
          (worked new_works ticking [] dispatching [] true locking new_works refl))
        (worked new_works ticking [] locking [] true locked (record asleep { held = true }) refl))
      (worked (record asleep { held = true }) ticking [] locked [] true waiting asleep refl)

after_stop_reached : Reach (startup 1) after_stop
unfolding timer_act broadcast
after_stop_reached =
    let s1 : System = record at_rest { timer = stopping } in
    let s2 : System = record at_rest { timer = owning; works = record asleep { held = true } } in
    let s3 : System = record at_rest {
      timer = flagged;
      works = record asleep { held = true; shutdown = true };
    } in
    let s4 : System = record s3 { timer = cast; workers = woken ∷ [] } in
    next
      (next
        (next (next (next at_rest_reached (timed at_rest s1 true 0 refl)) (timed s1 s2 true 0 refl))
          (timed s2 s3 true 0 refl))
        (timed s3 s4 true 0 refl))
      (timed s4 after_stop true 0 refl)

Reach-IsSound_example : Inv at_rest.works at_rest.timer at_rest.workers
Reach-IsSound_example = Reach-IsSound 1 at_rest_reached

-- the worker takes the mutex again
abbrev leaving : Works
leaving = record { count = 0; sleep = 1; shutdown = true; held = true }

one_more : Run after_stop 1 (record { works = leaving; timer = stopped; workers = unlocking ∷ [] })
unfolding worker_act
one_more = works (after_stop.works) [] woken [] true unlocking leaving begin refl

stop_ends_example :
    (1 ≤ 5 * length after_stop.workers)
    × (AllDone (unlocking ∷ []) ⊎ CanGo leaving (unlocking ∷ []))
stop_ends_example = stop_ends 1 1 after_stop _ after_stop_reached refl one_more

-- A wake-up before any thread waits wakes none, and the thread that waits later waits on.
early : wakeup (pos 0) 0 new_works (locking ∷ []) ≡ locking ∷ []
unfolding wakeup signal ◌-ℤ◌
early = refl
