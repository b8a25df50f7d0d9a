-- ===== src/EventQueue/Tests.antt =====
-- The queue of rednet-src/uevent_queue.h at a concrete ring.
use rednet.Common.{ℕ, refl, [], ◌∷◌, arith}
use rednet.EventQueue.{Event, EventQueue, push, pop}
use rednet.EventQueue.Ring.{IsValid}
use rednet.EventQueue.Fifo.{Pushed, push_lem, Popped, pop_lem}

-- a ring of four places that goes round its end, one event short of full
abbrev event : ℕ → Event
event n = record { source = n; session = 0; data_ptr = 0; type = 1; sz = 0 }

abbrev four : EventQueue
four = record {
  id = 7;
  eqs = event 3 ∷ event 4 ∷ event 1 ∷ event 2 ∷ [];
  cap = 4;
  head = 2;
  tail = 1;
  inglobal = 0;
  overload = 0;
  overload_threshold = 1;
}

four-IsValid : IsValid four
four-IsValid = record { array = refl; head_in = omega arith; tail_in = omega arith }

push_lem_example : Pushed (event 9) 7 four (5 ∷ []) (push (event 9) 7 four (5 ∷ []))
push_lem_example = push_lem (event 9) 7 four (5 ∷ []) four-IsValid

pop_lem_example : Popped four (pop four)
pop_lem_example = pop_lem four four-IsValid
