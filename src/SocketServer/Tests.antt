-- ===== src/SocketServer/Tests.antt =====
-- The socket server of rednet-src/network/usocket_server.cc in concrete runs.
use Prim.{tt}
use rednet.Common.{
  update, ℕ, ◌≡◌, ◌≢◌, refl, true, false, List, [], ◌∷◌, ◌++◌, none, some, arith, if◌then◌else◌,
  ◌==◌,
}
use rednet.Socket.{
  Status, invalid, connected, halfclose, Answer, go_on, data_answer, assert_failed, Socket, is_null,
  Written, wrote, tag16, is_close,
}
use rednet.Socket.Tests.{open_socket}
use rednet.SocketServer.{send, Server, sock_of, put_sock, on_channel_recv, oper_close}
use rednet.SocketServer.Calls.{forward_channel, socket_send, reserve_id}
use rednet.Socket.{read_would_block}
use rednet.SocketServer.Poll.{World, PollEvent, no_client, on_event}
use rednet.SocketServer.Live.{IsLive, stream}
use rednet.SocketServer.Stream.{WhenTaken, Sends, socket_send-stream}
use rednet.SocketServer.Runs.{Run, begin, sends, serves, polls, Run-stream}
use rednet.SocketServer.Wait.{Input, Waiting, leaves, events, turn, on_wait}
use rednet.SocketServer.WaitRuns.{state_of, Stays, on_wait-stream}
use rednet.SocketServer.Returns.{on_wait-ne}
use rednet.SocketServer.HalfClose.{oper_close-tagged}
use rednet.SocketServer.Close.{IsClosed, oper_close-closes}
use rednet.SocketServer.Reserve.{reserve_id-finds}

-- one socket is connected, with id 65539 at place 3
abbrev server : Server
server = record {
  socks = λ p.
      if p == 3 then open_socket else record open_socket { id = 0; status = invalid; sck = none };
  alloc = 65539;
  channel = [];
  reports = [];
  wire = λ p. [];
}

server-IsLive : IsLive 65539 server
server-IsLive = record {
  own = refl;
  tcp = refl;
  status = refl;
  counted = refl;
  refs = refl;
  few = omega arith;
}

abbrev bytes : List ℕ
bytes = 5 ∷ 6 ∷ []

-- the id has a tag, so that the bytes go by the channel
abbrev asked : Server
asked =
    forward_channel (send 65539 bytes)
      (put_sock 65539 (record open_socket { forward_in = 65537 }) server)

socket_send-stream_example :
    WhenTaken (Sends 65539 bytes server) (socket_send true (wrote 1) 65539 bytes server)
socket_send-stream_example = socket_send-stream true (wrote 1) 65539 bytes server server-IsLive

asked-Run : Run 65539 server ([] ++ bytes) asked
unfolding socket_send rednet.Socket.is_can_direct_write rednet.Socket.is_forward
    rednet.Socket.inc_forward_ref
asked-Run = sends [] server asked true (wrote 1) bytes begin refl

served-Run : Run 65539 server ([] ++ bytes) (on_channel_recv true true [] asked).1
unfolding on_channel_recv rednet.SocketServer.on_channel_proc rednet.SocketServer.oper_forward
    rednet.SocketServer.queue_bytes rednet.Socket.push_forward_list rednet.SocketServer.warn_size
    rednet.SocketServer.oper_dec_forward rednet.Socket.dec_forward_ref update
served-Run = serves ([] ++ bytes) asked true true [] asked-Run refl

-- the handle takes the first byte
abbrev world : World
world = record {
  connected_ok = true;
  accepted = no_client;
  input = read_would_block;
  locked = true;
  written = wrote 1 ∷ [];
}

abbrev writable : PollEvent
writable = record { place = 3; isread = false; iswrite = true; iserror = false; iseof = false }

abbrev served : Server
served = (on_channel_recv true true [] asked).1

polled-Run : Run 65539 server ([] ++ bytes) (on_event world writable served).2
unfolding on_event rednet.SocketServer.Poll.on_ready rednet.SocketServer.on_forward_message
    rednet.Socket.on_forward rednet.Socket.begin_forward rednet.Socket.begin_forward_list
    rednet.Socket.begin_forward_tcp rednet.Socket.send_list on_channel_recv
    rednet.SocketServer.on_channel_proc rednet.SocketServer.oper_forward
    rednet.SocketServer.queue_bytes rednet.Socket.push_forward_list rednet.SocketServer.warn_size
    rednet.SocketServer.oper_dec_forward rednet.Socket.dec_forward_ref update
polled-Run = polls ([] ++ bytes) served world writable served-Run (omega arith) refl

Run-stream_example :
    IsLive 65539 (on_event world writable served).2
    × (stream 65539 (on_event world writable served).2 ≡ stream 65539 server ++ ([] ++ bytes))
Run-stream_example =
    Run-stream 65539 server ([] ++ bytes) (on_event world writable served).2 polled-Run
      server-IsLive

-- The socket thread takes the command, polls, and writes.
abbrev waiting : Waiting
waiting = record { server = asked; rested = true; events = [] }

abbrev input : Input
input = record {
  asked = [];
  reg_ok = true;
  locked = true;
  written = [];
  polled = events (some writable) [];
  world = world;
}

waiting-Stays : Stays 65539 (input ∷ input ∷ []) waiting
unfolding turn rednet.SocketServer.Wait.poll rednet.SocketServer.Wait.handle
    rednet.SocketServer.Wait.ask_all rednet.SocketServer.Wait.has_read on_event
    rednet.SocketServer.Poll.on_ready rednet.SocketServer.on_forward_message
    rednet.Socket.on_forward rednet.Socket.begin_forward rednet.Socket.begin_forward_list
    rednet.Socket.begin_forward_tcp rednet.Socket.send_list on_channel_recv
    rednet.SocketServer.on_channel_proc rednet.SocketServer.oper_forward
    rednet.SocketServer.queue_bytes rednet.Socket.push_forward_list rednet.SocketServer.warn_size
    rednet.SocketServer.oper_dec_forward rednet.Socket.dec_forward_ref update
waiting-Stays = (((omega arith, tt), tt), refl, (((omega arith, tt), tt), refl, tt))

on_wait-stream_example :
    IsLive 65539 (state_of (on_wait (input ∷ input ∷ []) waiting)).server
    × (stream 65539 (state_of (on_wait (input ∷ input ∷ []) waiting)).server ≡ stream 65539 asked)
on_wait-stream_example =
    on_wait-stream 65539 (input ∷ input ∷ []) waiting
      (Run-stream 65539 server ([] ++ bytes) asked asked-Run server-IsLive).0 tt waiting-Stays

-- The thread takes the command, polls and writes, and goes on.
on_wait-ne_example : on_wait (input ∷ input ∷ []) waiting ≢ leaves data_answer waiting
on_wait-ne_example = on_wait-ne (input ∷ input ∷ []) waiting waiting (refl, tt) (tt, (tt, tt))

oper_close-tagged_example :
    ((oper_close true [] false 65539 7 server).0 ≡ go_on)
    × ((sock_of (oper_close true [] false 65539 7 server).1 65539).status ≡ halfclose)
    × ((oper_close true [] false 65539 7 server).1.reports ≡ server.reports)
oper_close-tagged_example =
    oper_close-tagged true [] 65539 7 server server-IsLive (λ e. absurd (omega arith)) refl refl

oper_close-closes_example : IsClosed 65539 server.reports (oper_close true [] true 65539 7 server)
oper_close-closes_example = oper_close-closes true [] true 65539 7 server server-IsLive refl

-- the last place is free
reserve_id-finds_example : is_null (reserve_id server).0 ≡ false
reserve_id-finds_example = reserve_id-finds server 65535 (omega arith) refl
