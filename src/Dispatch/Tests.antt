-- ===== src/Dispatch/Tests.antt =====
-- The dispatch of rednet-src/uframework.cc in a run of one worker.
use rednet.Common.{update, ℕ, ◌≤◌, ◌≡◌, ◌≢◌, refl, [], ◌∷◌}
use rednet.EventQueue.{Event, init, put, push}
use rednet.EventQueue.Ring.{contents}
use rednet.Dispatch.{
  System, places, Reach, here, next, launched, worked, sent, boot, idle, act, launch, send, free,
  launching, finished, count, held, held_all,
}
use rednet.Dispatch.Exclusive.{places-le, places-eq}

abbrev event : ℕ → Event
event n = record { source = n; session = 0; data_ptr = 0; type = 1; sz = 0 }

-- one worker, and a service 5 that was launched and sent an event
abbrev running : System
running =
    let s = (act (launching 5) (launch 5 (boot 1).shared)).1 in
    record { shared = send 5 (event 9) s; workers = finished ∷ free ∷ [] }

running_reached : Reach (boot 1) running
unfolding boot idle count held held_all act
running_reached =
    next
      (next (next here (launched (boot 1).shared (free ∷ []) 5 refl))
        (worked (launch 5 (boot 1).shared) [] (launching 5) (free ∷ [])))
      (sent (act (launching 5) (launch 5 (boot 1).shared)).1 (finished ∷ free ∷ []) 5 (event 9))

running_holds : contents (running.shared.queues 5) ≢ []
unfolding send act launch update boot push put init
running_holds e = cc

places-le_example : places 5 running ≤ 1
places-le_example = places-le 1 running 5 running_reached

places-eq_example : places 5 running ≡ 1
unfolding send act launch update
places-eq_example = places-eq 1 running 5 running_reached refl running_holds
