-- ===== src/SocketServer/Wait.antt =====
-- The loop of `onWait` in rednet-src/network/usocket_server.cc, with the flag that
-- rednet-src/network/uchannel.cc keeps for it: the thread of the sockets takes commands while there are
-- some, then handles one event of the last poll, or polls.
use rednet.Common.{
  Bool, true, false, not, List, [], ◌∷◌, Option, none, some, if◌then◌else◌, ◌&&◌, ◌==◌,
}
use rednet.Socket.{
  Status, invalid, listen, connecting, Answer, go_on, data_answer, protocol_tcp, Written,
}
use rednet.SocketServer.{Request, Server, on_channel_recv}
use rednet.SocketServer.Calls.{forward_channel}
use rednet.SocketServer.Poll.{PollEvent, World, on_recv_message, on_event}

-- What the poll returns: one event or more, or none. An event without a socket is that of the
-- channel's pipe. `interrupted` is EINTR.
pub data Polled : Type 0 where
  events : Option PollEvent → List (Option PollEvent) → Polled
  interrupted failed : Polled

-- What a turn of the loop meets: the commands that other threads have sent since the turn before, and
-- what the system calls return.
pub record Input : Type 0 where
  pub asked : List Request
  pub reg_ok : Bool
  pub locked : Bool
  pub written : List Written
  pub polled : Polled
  pub world : World

-- `rested` is cCtrl__ of the channel; `events` are those from evIdx to evNum.
pub record Waiting : Type 0 where
  pub server : Server
  pub rested : Bool
  pub events : List (Option PollEvent)

-- `again`: the loop goes on. `leaves`: `onWait` returns, where `go_on` is NT_ERR.
pub data Turn : Type 0 where
  again : Waiting → Turn
  leaves : Answer → Waiting → Turn

unfoldable pub ask_all : List Request → Server → Server
ask_all [] v = v
ask_all (r ∷ rs) v = ask_all rs (forward_channel r v)

abbrev pub is_data : Answer → Bool
is_data data_answer = true
is_data _ = false

-- the statuses that the switch sends to its default
abbrev pub is_open : Status → Bool
is_open invalid = false
is_open listen = false
is_open connecting = false
is_open _ = true

-- `onRecvMessage` runs and answers NT_SOCKET_DATA, with which `onWait` returns -1.
unfoldable pub has_read : World → PollEvent → Server → Bool
has_read world e v =
    let s = v.socks e.place in
    is_open s.status
    && e.isread
    && s.protocol == protocol_tcp
    && is_data (on_recv_message world.input e.place v).0

-- the event once more, for its write
abbrev pub retry : Option PollEvent → List (Option PollEvent) → List (Option PollEvent)
retry none es = es
retry (some e) es = some e ∷ es

abbrev pub is_go_on : Answer → Bool
is_go_on go_on = true
is_go_on _ = false

-- -1 goes on with the loop, anything else is returned
abbrev pub goes_on_if : Bool → Answer → Waiting → Turn
goes_on_if true a w = again w
goes_on_if false a w = leaves a w

abbrev pub after_event :
    List (Option PollEvent) → Bool → Option PollEvent × Answer × Server → Bool → Turn
after_event es rested (o, a, v) read =
    goes_on_if (is_go_on a && not read) a
      (record { server = v; rested = rested; events = retry o es })

unfoldable pub handle : World → Option PollEvent → List (Option PollEvent) → Waiting → Turn
handle world none es w = again (record w { events = es })
handle world (some e) es w =
    after_event es w.rested (on_event world e w.server) (has_read world e w.server)

-- The poll, with the rest of the turn; `rest` sets the flag of the channel.
unfoldable pub poll : World → Polled → Waiting → Turn
poll world (events e es) w = handle world e es (record w { rested = true })
poll world interrupted w = again (record w { rested = true; events = [] })
poll world failed w = leaves go_on (record w { rested = true; events = [] })

abbrev pub next_event : Input → List (Option PollEvent) → Waiting → Turn
next_event i [] w = poll i.world i.polled w
next_event i (e ∷ es) w = handle i.world e es w

abbrev pub is_nil : List Request → Bool
is_nil [] = true
is_nil _ = false

abbrev pub after_command : Waiting → Answer × Server → Turn
after_command w (a, v) = goes_on_if (is_go_on a) a (record w { server = v })

-- one turn: the channel, and where it is not read or is empty, an event
unfoldable pub turn : Input → Waiting → Turn
turn i w =
    let v = ask_all i.asked w.server in
    let u = record w { server = v } in
    if w.rested
    then if is_nil v.channel
      then next_event i u.events (record u { rested = false })
      else after_command u (on_channel_recv i.reg_ok i.locked i.written v)
    else next_event i u.events u

abbrev pub then_on : Turn → (Waiting → Turn) → Turn
then_on (again w) f = f w
then_on (leaves a w) f = leaves a w

-- `onWait` for as many turns as there are inputs
unfoldable pub on_wait : List Input → Waiting → Turn
on_wait [] w = again w
on_wait (i ∷ is) w = then_on (turn i w) (on_wait is)
