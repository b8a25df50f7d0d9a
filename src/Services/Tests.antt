-- ===== src/Services/Tests.antt =====
-- `disponseAll` of rednet-src/ucontext.cc on a queue of two events.
use rednet.Common.{ℕ, ◌+◌, ◌≡◌, refl, true, [], some, arith, ◌==◌}
use rednet.EventQueue.{Event, init, put, push}
use rednet.EventQueue.Ring.{contents, IsValid}
use rednet.EventQueue.Fifo.{push_lem}
use rednet.Services.{Answered, Service, disposed, disponse_all}
use rednet.Services.Dispose.{Drained, disponse_all-Drained}

abbrev event : ℕ → Event
event n = record { source = 1; session = 0; data_ptr = n; type = 2; sz = 3 }

-- it counts its events, and keeps the data at 8
abbrev counting : ℕ → Event → Answered ℕ
counting n e = record { keeps = e.data_ptr == 8; ud = n + 1; sends = [] }

new-IsValid : IsValid (init 5)
unfolding init
new-IsValid = record { array = refl; head_in = omega arith; tail_in = omega arith }

abbrev two_events : Service ℕ
two_events = record {
  ptr = 5;
  queue = (push (event 8) 5 (push (event 7) 5 (init 5) []).0 []).0;
  global = [];
  inited = true;
  ud = 0;
  freed = [];
}

two_events-IsValid : IsValid two_events.queue
two_events-IsValid =
    (push_lem (event 8) 5 _ [] (push_lem (event 7) 5 (init 5) [] new-IsValid).valid).valid

disponse_all-Drained_example :
    (t : Service ℕ) × (disponse_all 3 (some counting) two_events ≡ disposed t)
    × Drained counting two_events (contents two_events.queue) t
unfolding push put init
disponse_all-Drained_example =
    disponse_all-Drained counting 3 two_events (λ ud e. refl) refl two_events-IsValid (omega arith)
