-- ===== src/Services.antt =====
-- rednet-src/ucontext.h and ucontext.cc: `execute` and `disponseAll` of a context, which hand the events
-- of its queue to the component's callback.
pub mod Dispose
pub mod Tests
use rednet.Common.{
  ℕ, zero, suc, Bool, true, false, List, [], ◌∷◌, ◌++◌, Option, none, some, if◌then◌else◌,
}
use rednet.EventQueue.{Event, EventQueue, push, pop}

-- What a callback does with an event: whether it keeps the data, its user data after it, and the events
-- that it sends to its own service meanwhile.
pub record Answered {ℓ} (S : Type ℓ) : Type ℓ where
  pub keeps : Bool
  pub ud : S
  pub sends : List Event

-- ucontext with its queue, at the address `ptr`, and the global queue; `ud` is what the callback's `ud__`
-- points to, and `freed` has the data that `execute` freed, in order.
pub record Service {ℓ} (S : Type ℓ) : Type ℓ where
  pub ptr : ℕ
  pub queue : EventQueue
  pub global : List ℕ
  pub inited : Bool
  pub ud : S
  pub freed : List ℕ

-- `callback__`; none where there is no component or no callback
abbrev pub Callback {ℓ} : Type ℓ → Type ℓ
Callback S = Option (S → Event → Answered S)

-- What `disponseAll` comes to; `aborts` is the failing assertion, and `running` a loop that goes on when
-- the fuel is gone.
pub data Disposed {ℓ} (S : Type ℓ) : Type ℓ where
  disposed : Service S → Disposed S
  aborts running : Disposed S

module _ {ℓ} {S : Type ℓ} where
  unfoldable pub push_all : List Event → Service S → Service S
  push_all [] s = s
  push_all (e ∷ es) s =
      let (q, waiting) = push e s.ptr s.queue s.global in
      push_all es (record s { queue = q; global = waiting })

  abbrev pub free : Event → Service S → Service S
  free e s = record s { freed = s.freed ++ e.data_ptr ∷ [] }

  abbrev pub free_unless : Bool → Event → Service S → Service S
  free_unless true e s = s
  free_unless false e s = free e s

  -- after the callback
  abbrev pub answered : Event → Answered S → Service S → Service S
  answered e a s = free_unless a.keeps e (push_all a.sends (record s { ud = a.ud }))

  -- `execute`; none is the failing assertion
  unfoldable pub execute : Callback S → Event → Service S → Option (Service S)
  execute none e s = some (free e s)
  execute (some f) e s = if s.inited then some (answered e (f s.ud e) s) else none

  abbrev pub and_on : (Service S → Disposed S) → Option (Service S) → Disposed S
  and_on go none = aborts
  and_on go (some s) = go s

  abbrev pub with_event :
      (Service S → Disposed S) → Callback S → Service S → Option Event × EventQueue → Disposed S
  with_event go cb s (none, q) = disposed (record s { queue = q })
  with_event go cb s (some e, q) = and_on go (execute cb e (record s { queue = q }))

  -- `disponseAll`: a round costs a unit of fuel
  unfoldable pub disponse_all : ℕ → Callback S → Service S → Disposed S
  disponse_all zero cb s = running
  disponse_all (suc f) cb s = with_event (disponse_all f cb) cb s (pop s.queue)
