-- ===== src/Dispatch.antt =====
-- rednet-src/uframework.cc, `onDispatchEvent` as `onWorkLogic` calls it (weight -1): worker threads
-- that take queues from the global queue, handle an event of one, and give it up or back. Each step
-- below is one call that is atomic under its own lock.
pub mod Invariant
pub mod Steps
pub mod Exclusive
pub mod Tests
use rednet.Common.{
  update, ℕ, zero, suc, ◌≡◌, Bool, true, false, List, [], ◌∷◌, ◌++◌, Option, none, some,
  if◌then◌else◌, ◌==◌, ◌+◌,
}
use rednet.EventQueue.{Event, EventQueue, init, push, pop, global_push, global_pop, take_overload}

-- What the threads share: the queue of each service, the global queue, and whether the service is
-- still registered, which `grab` tells.
pub record Shared : Type 0 where
  pub queues : ℕ → EventQueue
  pub global : List ℕ
  pub registered : ℕ → Bool

-- Where a worker stands. `free`: `q` is NULL. `holding`: about to grab the context of `q`.
-- `granted`: about to pop an event of `q`. `handled`: an event of `q` was executed. `giving`: about
-- to push `q` to the global queue, with `nq` taken from it. `launching`: in `ucontext::init`, where
-- the component's own `init` runs, and `finished`: after it.
pub data Pc : Type 0 where
  free finished : Pc
  holding granted handled launching : ℕ → Pc
  giving : ℕ → ℕ → Pc

abbrev pub after_take : Option ℕ → Pc
after_take none = free
after_take (some q) = holding q

abbrev pub after_pop : ℕ → Option Event → Pc
after_pop q none = free
after_pop q (some e) = handled q

abbrev pub after_next : ℕ → Option ℕ → Pc
after_next q none = holding q
after_next q (some nq) = giving q nq

-- after a `pop` that took an event, `overload()` reports and clears the overload
abbrev pub report : Option Event → EventQueue → EventQueue
report none q = q
report (some e) q = (take_overload q).1

-- One step of a worker. A queue whose context is gone, or that is empty, is given up, and the next
-- step takes another.
unfoldable pub act : Pc → Shared → Pc × Shared
act free s = let (o, rest) = global_pop s.global in (after_take o, record s { global = rest })
act (holding q) s = (if s.registered q then granted q else free, s)
act (granted q) s =
    let (o, left) = pop (s.queues q) in
    (after_pop q o, record s { queues = update s.queues q (report o left) })
act (handled q) s =
    let (o, rest) = global_pop s.global in (after_next q o, record s { global = rest })
act (giving q nq) s = (holding nq, record s { global = global_push q s.global })
act (launching q) s = (finished, record s { global = global_push q s.global })
act finished s = (finished, s)

-- `sendEvent`, by any thread that has the context of `i`
unfoldable pub send : ℕ → Event → Shared → Shared
send i e s =
    let (q, waiting) = push e i (s.queues i) s.global in
    record s { queues = update s.queues i q; global = waiting }

-- `ucontext::init` up to the component's own `init`: the id `i` is registered, and its queue made.
unfoldable pub launch : ℕ → Shared → Shared
launch i s = record s {
  queues = update s.queues i (init i);
  registered = update s.registered i true;
}

-- `unRegister`
unfoldable pub retire : ℕ → Shared → Shared
retire i s = record s { registered = update s.registered i false }

-- how often a list names a queue
unfoldable pub count : ℕ → List ℕ → ℕ
count i [] = 0
count i (q ∷ qs) = (if q == i then 1 else 0) + count i qs

-- how often a worker holds a queue
unfoldable pub held : ℕ → Pc → ℕ
held i free = 0
held i finished = 0
held i (launching q) = if q == i then 1 else 0
held i (holding q) = if q == i then 1 else 0
held i (granted q) = if q == i then 1 else 0
held i (handled q) = if q == i then 1 else 0
held i (giving q nq) = (if q == i then 1 else 0) + (if nq == i then 1 else 0)

unfoldable pub held_all : ℕ → List Pc → ℕ
held_all i [] = 0
held_all i (w ∷ ws) = held i w + held_all i ws

pub record System : Type 0 where
  pub shared : Shared
  pub workers : List Pc

-- the places where a queue is: in the global queue, or in the hands of a worker
abbrev pub places : ℕ → System → ℕ
places i s = held_all i s.workers + count i s.shared.global

-- One step of the system. An id is given out when no place has its queue any more. A component whose
-- `init` fails loses its id, and its queue goes to no worker.
pub data Step : System → System → Type 0 where
  worked :
      (s : Shared) (before : List Pc) (pc : Pc) (after : List Pc)
      → Step
          (record { shared = s; workers = before ++ pc ∷ after })
          (record { shared = (act pc s).1; workers = before ++ (act pc s).0 ∷ after })
  sent :
      (s : Shared) (ws : List Pc) (i : ℕ) (e : Event)
      → Step (record { shared = s; workers = ws }) (record { shared = send i e s; workers = ws })
  launched :
      (s : Shared) (ws : List Pc) (i : ℕ)
      → places i (record { shared = s; workers = ws }) ≡ 0
      → Step
          (record { shared = s; workers = ws })
          (record { shared = launch i s; workers = launching i ∷ ws })
  failed :
      (s : Shared) (before : List Pc) (i : ℕ) (after : List Pc)
      → Step
          (record { shared = s; workers = before ++ launching i ∷ after })
          (record { shared = retire i s; workers = before ++ finished ∷ after })
  retired :
      (s : Shared) (ws : List Pc) (i : ℕ)
      → Step (record { shared = s; workers = ws }) (record { shared = retire i s; workers = ws })

pub data Reach (s : System) : System → Type 0 where
  here : Reach s s
  next : {t u : System} → Reach s t → Step t u → Reach s u

-- before the first service: `n` workers, and no queue registered (a queue is made at its launch)
unfoldable pub idle : ℕ → List Pc
idle zero = []
idle (suc n) = free ∷ idle n

unfoldable pub boot : ℕ → System
boot n = record {
  shared = record { queues = init; global = []; registered = λ i. false };
  workers = idle n;
}
