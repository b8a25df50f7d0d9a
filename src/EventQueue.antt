-- ===== src/EventQueue.antt =====
-- rednet-src/uevent.h, uevent_queue.h and uevent_queue.cc: the event queue of a service, a ring that
-- doubles when it is full, and the global queue of the queues that have work.
pub mod Ring
pub mod Write
pub mod Fifo
pub mod Overload
pub mod Tests
use rednet.Common.{
  ℕ, zero, suc, ◌+◌, ◌-◌, ◌*◌, ◌%◌, Bool, true, false, List, [], ◌∷◌, ◌++◌, Option, none, some,
  if◌then◌else◌, ltb, leb, ◌==◌, get_or, set, replicate,
}

-- struct uevent; the pointer `data` is an address, 0 for NULL.
pub record Event : Type 0 where
  pub source : ℕ
  pub session : ℕ
  pub data_ptr : ℕ
  pub type : ℕ
  pub sz : ℕ

-- what `memset` leaves in a slot
abbrev pub blank : Event
blank = record { source = 0; session = 0; data_ptr = 0; type = 0; sz = 0 }

abbrev pub default_size : ℕ
default_size = 64

abbrev pub eq_overload : ℕ
eq_overload = 1024

pub record EventQueue : Type 0 where
  pub id : ℕ
  pub eqs : List Event
  pub cap : ℕ
  pub head : ℕ
  pub tail : ℕ
  pub inglobal : ℕ
  pub overload : ℕ
  pub overload_threshold : ℕ

-- the constructor
unfoldable pub init : ℕ → EventQueue
init id = record {
  id = id;
  eqs = replicate default_size blank;
  cap = default_size;
  head = 0;
  tail = 0;
  inglobal = 1;
  overload = 0;
  overload_threshold = eq_overload;
}

unfoldable pub length : EventQueue → ℕ
length q = if leb q.head q.tail then q.tail - q.head else q.tail + q.cap - q.head

-- The loop of `local_expand`, for `n` indices from `i` on.
unfoldable pub copy_from : List Event → ℕ → ℕ → ℕ → ℕ → List Event
copy_from eqs cap head zero i = []
copy_from eqs cap head (suc n) i =
    get_or eqs ((head + i) % cap) blank ∷ copy_from eqs cap head n (i + 1)

unfoldable pub local_expand : EventQueue → EventQueue
local_expand q = record q {
  eqs = copy_from q.eqs q.cap q.head q.cap 0 ++ replicate q.cap blank;
  head = 0;
  tail = q.cap;
  cap = q.cap * 2;
}

-- an index one further, back to 0 at the capacity
abbrev pub advance : ℕ → ℕ → ℕ
advance cap i = if leb cap (i + 1) then 0 else i + 1

-- the write of `push`, with the expansion that may follow
unfoldable pub put : Event → EventQueue → EventQueue
put e q =
    let written = record q { eqs = set q.eqs q.tail e; tail = advance q.cap q.tail } in
    if written.head == written.tail then local_expand written else written

-- uglobal_queue: `push` and `pop` on the list of waiting queues, each by its id
unfoldable pub global_push : ℕ → List ℕ → List ℕ
global_push p [] = p ∷ []
global_push p (x ∷ xs) = x ∷ global_push p xs

unfoldable pub global_pop : List ℕ → Option ℕ × List ℕ
global_pop [] = (none, [])
global_pop (x ∷ xs) = (some x, xs)

-- `ptr` is the queue's own eq_ptr, which goes to the global queue if the queue is not there.
unfoldable pub push : Event → ℕ → EventQueue → List ℕ → EventQueue × List ℕ
push e ptr q global =
    let q' = put e q in
    if q'.inglobal == 0 then (record q' { inglobal = 1 }, global_push ptr global) else (q', global)

-- The loop over the threshold; doubling it ends the loop within the fuel (Overload).
unfoldable pub raise_threshold : ℕ → ℕ → ℕ → ℕ → ℕ × ℕ
raise_threshold zero length overload threshold = (overload, threshold)
raise_threshold (suc f) length overload threshold =
    let more = raise_threshold f length length (threshold * 2) in
    if ltb threshold length then more else (overload, threshold)

-- the bookkeeping of `pop` after an event was taken
unfoldable pub note_overload : EventQueue → EventQueue
note_overload q =
    let n = length q in
    let (overload, threshold) = raise_threshold (n + 1) n q.overload q.overload_threshold in
    record q { overload = overload; overload_threshold = threshold }

unfoldable pub pop : EventQueue → Option Event × EventQueue
pop q =
    if q.head == q.tail
    then (none, record q { overload_threshold = eq_overload; inglobal = 0 })
    else (
      some (get_or q.eqs q.head blank),
      note_overload (record q { head = advance q.cap q.head }),
    )

-- `overload()`: the length noted since the last call
unfoldable pub take_overload : EventQueue → ℕ × EventQueue
take_overload q = if q.overload == 0 then (0, q) else (q.overload, record q { overload = 0 })
