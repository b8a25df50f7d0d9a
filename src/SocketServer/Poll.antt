-- ===== src/SocketServer/Poll.antt =====
-- The events of the poll: `onWait` of usocket_server.cc from the switch on, and what it calls.
use rednet.Common.{ℕ, Bool, true, false, List, [], Option, none, some, if◌then◌else◌, ◌==◌, length}
use rednet.Socket.{
  Status, invalid, listen, connecting, connected, paccept, Answer, go_on, data_answer, close_answer,
  open_answer, accept_answer, err_answer, assert_failed, protocol_tcp, Socket, is_forward, Written,
  Received, on_recv, on_close,
}
use rednet.SocketServer.{
  Server, sock_of, put_sock, forward_socket, Made, failed_assert, refused, made, new_socket,
  on_forward_message,
}
use rednet.SocketServer.Calls.{reserve_id}

-- `onClose` of the socket at a place, with the report that goes with it
abbrev pub closed_at : Answer → ℕ → Option Socket → Server → Answer × Server
closed_at type place none v = (assert_failed, v)
closed_at type place (some t) v =
    let s = v.socks place in (type, forward_socket type s.id s.opaque 0 [] (put_sock place t v))

-- `onConnection`, where `connected_ok` tells that the error of the socket is 0
unfoldable pub on_connection : Bool → ℕ → Server → Answer × Server
on_connection connected_ok place v =
    let s = v.socks place in
    let t = record s { status = connected } in
    if connected_ok
    then (
      open_answer,
      forward_socket open_answer s.id s.opaque 0 []
          (put_sock place (record t { watched = if is_forward t then false else t.watched }) v),
    )
    else closed_at err_answer place (on_close s) v

-- what `accept` returns: a handle, an error for too many open files, or another
pub data Accepted : Type 0 where
  client : ℕ → Accepted
  too_many no_client : Accepted

-- the client's socket, and the report of it to the service of the listener `s`
abbrev pub announce : Socket → ℕ → Server → Made → Answer × Server
announce s id v failed_assert = (assert_failed, v)
announce s id v (refused w) = (go_on, w)
announce s id v (made w) = (
  accept_answer,
  forward_socket accept_answer s.id s.opaque id []
      (put_sock id (record (sock_of w id) { status = paccept }) w),
)

abbrev pub accept_with : Socket → ℕ → Option ℕ × Server → Answer × Server
accept_with s sck (none, v) = (go_on, v)
accept_with s sck (some id, v) = announce s id v (new_socket true id sck protocol_tcp s.opaque v)

abbrev pub handle_or : Option ℕ → ℕ
handle_or none = 0
handle_or (some sck) = sck

-- `onReportAccept`; the report of an error has the handle of the listener for its id
unfoldable pub on_report_accept : Accepted → ℕ → Server → Answer × Server
on_report_accept (client sck) place v = accept_with (v.socks place) sck (reserve_id v)
on_report_accept too_many place v =
    let s = v.socks place in
    (err_answer, forward_socket err_answer (handle_or s.sck) s.opaque 0 [] v)
on_report_accept no_client place v = (go_on, v)

-- the report that follows `onRecv`, by its answer
abbrev pub report_recv : Answer → ℕ → ℕ → List ℕ → Server → Server
report_recv data_answer id opaque bytes v =
    forward_socket data_answer id opaque (length bytes) bytes v
report_recv close_answer id opaque bytes v = forward_socket close_answer id opaque 0 [] v
report_recv err_answer id opaque bytes v = forward_socket err_answer id opaque 0 [] v
report_recv _ id opaque bytes v = v

unfoldable pub on_recv_message : Received → ℕ → Server → Answer × Server
on_recv_message input place v =
    let s = v.socks place in
    let r = on_recv input s in
    (r.answer, report_recv r.answer s.id s.opaque r.bytes (put_sock place r.socket v))

-- struct pollEvent
pub record PollEvent : Type 0 where
  pub place : ℕ
  pub isread : Bool
  pub iswrite : Bool
  pub iserror : Bool
  pub iseof : Bool

-- what the system calls of an event return
pub record World : Type 0 where
  pub connected_ok : Bool
  pub accepted : Accepted
  pub input : Received
  pub locked : Bool
  pub written : List Written

-- an event that is handled once more, for its write
abbrev pub again_for : PollEvent → Answer → Option PollEvent
again_for e close_answer = none
again_for e err_answer = none
again_for e _ = if e.iswrite then some (record e { isread = false }) else none

-- the answer of `onWait` after a read: data goes on as -1
abbrev pub after_read : Answer → Answer
after_read data_answer = go_on
after_read a = a

-- an event that is not handled again
abbrev pub once : Answer × Server → Option PollEvent × Answer × Server
once (a, v) = (none, a, v)

-- the branch for an open socket: a read, or else a write, an error or the end of the stream
unfoldable pub on_ready : World → PollEvent → Server → Option PollEvent × Answer × Server
on_ready world e v =
    let s = v.socks e.place in
    let (a, w) =
      if s.protocol == protocol_tcp then on_recv_message world.input e.place v else (go_on, v) in
    if e.isread
    then (again_for e a, after_read a, w)
    else if e.iswrite
    then once (on_forward_message world.locked world.written e.place v)
    else if e.iserror
    then once (closed_at err_answer e.place (on_close s) v)
    else if e.iseof
    then once (closed_at close_answer e.place (on_close s) v)
    else (none, go_on, v)

-- the switch of `onWait` on the status of the socket
abbrev pub on_event_at : Status → World → PollEvent → Server → Option PollEvent × Answer × Server
on_event_at connecting world e v = once (on_connection world.connected_ok e.place v)
on_event_at listen world e v = once (on_report_accept world.accepted e.place v)
on_event_at invalid world e v = (none, go_on, v)
on_event_at _ world e v = on_ready world e v

unfoldable pub on_event : World → PollEvent → Server → Option PollEvent × Answer × Server
on_event world e v = on_event_at (v.socks e.place).status world e v
