-- ===== src/Calls.antt =====
-- rednet-src/ucall.h and ucall.cc: the addresses of services, and the events that one sends to another.
-- `strtoul` is that of the C library, with base 16, on a text without the byte 0 at its end.
pub mod Addresses
pub mod Delivery
pub mod Tests
use rednet.Common.{
  ℕ, zero, suc, ◌+◌, ◌*◌, ◌/◌, ◌%◌, ◌^◌, Bool, true, false, not, List, [], ◌∷◌, Option, none, some,
  if◌then◌else◌, ltb, ◌==◌,
}
use rednet.EventQueue.{Event}
use rednet.Dispatch.{Shared, send}
use rednet.ContextMgr.{Context, ContextMgr, grab, convert_id, session}

-- the table of `toAddr`
abbrev pub hex : ℕ → ℕ
hex d = if ltb d 10 then 48 + d else 55 + d

-- the loop of `toAddr`, with `n` digits to go
unfoldable pub hex_digits : ℕ → ℕ → List ℕ
hex_digits zero id = []
hex_digits (suc n) id = hex (id / 2 ^ (n * 4) % 16) ∷ hex_digits n id

unfoldable pub to_addr : ℕ → List ℕ
to_addr id = 58 ∷ hex_digits 8 id

-- The services by id: their contexts, and their queues with the global one.
pub record Node : Type 0 where
  pub mgr : ContextMgr
  pub shared : Shared

-- `sendEvent` to an id
abbrev pub push_to : ℕ → Event → Option Context → Node → Bool × Node
push_to id e none n = (false, n)
push_to id e (some c) n = (true, record n { shared = send id e n.shared })

unfoldable pub send_event : ℕ → Event → Node → Bool × Node
send_event id e n = push_to id e (grab n.mgr id) n

-- What a call comes to: the session that it answers, none for -1; and whether it freed the data.
pub data Posted : Type 0 where
  assert_failed : Posted
  posted : Option ℕ → Bool → Node → Posted

abbrev pub answer_of : ℕ → ℕ → Bool × Node → Posted
answer_of session data_ptr (true, n) = posted (some session) false n
answer_of session data_ptr (false, n) = posted none (not (data_ptr == 0)) n

-- The event keeps the type in 8 bits and the size, a `size_t`, in 32.
unfoldable pub post : ℕ → ℕ → ℕ → ℕ → ℕ → ℕ → Node → Posted
post source dest type session data_ptr sz n =
    if dest == 0
    then posted (some session) false n
    else answer_of session data_ptr (
        send_event dest
          (record {
            source = source;
            session = session;
            data_ptr = data_ptr;
            type = type % 2 ^ 8;
            sz = sz % 2 ^ 32;
          })
          n)

-- `sendEvent` with a session, or with a context, of which the session before is given
unfoldable pub send_from : ℕ → ℕ → ℕ → ℕ → ℕ → ℕ → Option ℕ → Node → Posted
send_from source dest type session data_ptr sz none n = post source dest type session data_ptr sz n
send_from source dest type session_id data_ptr sz (some before) n =
    if session_id == 0 then post source dest type (session before) data_ptr sz n else assert_failed

module _ (strtoul : List ℕ → ℕ) where
  unfoldable pub addr_to : List ℕ → ContextMgr → ℕ
  addr_to [] m = 0
  addr_to (c ∷ addr) m =
      if c == 58 then strtoul addr % 2 ^ 32 else if c == 46 then convert_id addr m else 0

  -- `sendEvent` to an address
  unfoldable pub send_to : ℕ → List ℕ → ℕ → ℕ → ℕ → ℕ → Option ℕ → Node → Posted
  send_to source addr type session_id data_ptr sz ctx n =
      let dest = addr_to addr n.mgr in
      if source == 0
      then posted none (not (data_ptr == 0)) n
      else if dest == 0
      then posted none (not (data_ptr == 0)) n
      else send_from source dest type session_id data_ptr sz ctx n
