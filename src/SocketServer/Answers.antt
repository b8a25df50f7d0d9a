-- ===== src/SocketServer/Answers.antt =====
-- No event of the poll answers NT_SOCKET_DATA or touches the channel.

use rednet.Common.{ℕ, zero, suc, ◌≡◌, refl, ◌∙◌, Bool, true, List, Option, none, some, arith}
use rednet.Socket.{
  Status, invalid, listen, connecting, Answer, data_answer, close_answer, err_answer, protocol_tcp,
  Socket, Received, on_recv, on_close,
}
use rednet.SocketServer.{Server, Made, failed_assert, refused, made, new_socket}
use rednet.SocketServer.Calls.{next_id, reserve_id, reserve_rounds}
use rednet.SocketServer.Poll.{
  closed_at, on_connection, Accepted, client, too_many, no_client, announce, accept_with,
  on_report_accept, report_recv, on_recv_message, PollEvent, World, after_read, on_ready,
  on_event_at, on_event,
}
use rednet.SocketServer.Exit.{IsOther, Quiet, MadeQuiet, new_socket-Quiet, on_forward_message-Quiet}

closed_at-Quiet :
    (a : Answer) (place : ℕ) (o : Option Socket) (v : Server)
    → IsOther a
    → Quiet v (closed_at a place o v)
closed_at-Quiet a place none v h = record { other = refl; kept = refl }
closed_at-Quiet a place (some s) v h = record { other = h; kept = refl }

on_connection-Quiet : (ok : Bool) (place : ℕ) (v : Server) → Quiet v (on_connection ok place v)
unfolding on_connection
on_connection-Quiet ok place v =
    ground (arith, closed_at-Quiet err_answer place (on_close (v.socks place)) v refl)

reserve_rounds-channel : (n : ℕ) (v : Server) → (reserve_rounds n v).1.channel ≡ v.channel
unfolding reserve_rounds
reserve_rounds-channel zero v = refl
reserve_rounds-channel (suc n) v =
    let w = record v { alloc = next_id v.alloc } in ground (arith, reserve_rounds-channel n w)

announce-Quiet :
    (s : Socket) (id : ℕ) (v : Server) (m : Made) → MadeQuiet v m → Quiet v (announce s id v m)
announce-Quiet s id v failed_assert h = record { other = refl; kept = refl }
announce-Quiet s id v (refused w) h = record { other = refl; kept = h }
announce-Quiet s id v (made w) h = record { other = refl; kept = h }

accept_with-Quiet :
    (s : Socket) (sck : ℕ) (r : Option ℕ × Server) (v : Server)
    → r.1.channel ≡ v.channel
    → Quiet v (accept_with s sck r)
accept_with-Quiet s sck (none, w) v e = record { other = refl; kept = e }
accept_with-Quiet s sck (some id, w) v e =
    let m = new_socket true id sck protocol_tcp s.opaque w in
    let q = announce-Quiet s id w m (new_socket-Quiet true id sck protocol_tcp s.opaque w) in
    record { other = q.other; kept = q.kept ∙ e }

on_report_accept-Quiet :
    (a : Accepted) (place : ℕ) (v : Server) → Quiet v (on_report_accept a place v)
unfolding on_report_accept reserve_id
on_report_accept-Quiet (client sck) place v =
    accept_with-Quiet (v.socks place) sck (reserve_id v) v (reserve_rounds-channel _ v)
on_report_accept-Quiet too_many place v = record { other = refl; kept = refl }
on_report_accept-Quiet no_client place v = record { other = refl; kept = refl }

report_recv-channel :
    (a : Answer) (id opaque : ℕ) (b : List ℕ) (v : Server)
    → (report_recv a id opaque b v).channel ≡ v.channel
report_recv-channel data_answer id opaque b v = refl
report_recv-channel a id opaque b v = refl

after_read-IsOther : (a : Answer) → IsOther (after_read a)
after_read-IsOther data_answer = refl
after_read-IsOther a = refl

abbrev pub QuietEvent : Server → Option PollEvent × Answer × Server → Type 0
QuietEvent v r = Quiet v (r.1, r.2)

recv_message-channel :
    (input : Received) (place : ℕ) (v : Server)
    → (on_recv_message input place v).1.channel ≡ v.channel
unfolding on_recv_message
recv_message-channel input place v =
    let s = v.socks place in
    let r = on_recv input s in report_recv-channel r.answer s.id s.opaque r.bytes _

on_ready-Quiet : (world : World) (e : PollEvent) (v : Server) → QuietEvent v (on_ready world e v)
unfolding on_ready
on_ready-Quiet world e v =
    let s = v.socks e.place in
    ground (
      arith,
      recv_message-channel world.input e.place v,
      after_read-IsOther (on_recv_message world.input e.place v).0,
      on_forward_message-Quiet world.locked world.written e.place v,
      closed_at-Quiet err_answer e.place (on_close s) v refl,
      closed_at-Quiet close_answer e.place (on_close s) v refl,
    )

event_at-Quiet :
    (st : Status) (world : World) (e : PollEvent) (v : Server)
    → QuietEvent v (on_event_at st world e v)
event_at-Quiet connecting world e v = on_connection-Quiet world.connected_ok e.place v
event_at-Quiet listen world e v = on_report_accept-Quiet world.accepted e.place v
event_at-Quiet invalid world e v = record { other = refl; kept = refl }
event_at-Quiet st world e v = on_ready-Quiet world e v

pub on_event-Quiet :
    (world : World) (e : PollEvent) (v : Server) → QuietEvent v (on_event world e v)
unfolding on_event
on_event-Quiet world e v = event_at-Quiet (v.socks e.place).status world e v
