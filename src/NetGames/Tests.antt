-- ===== src/NetGames/Tests.antt =====
-- The gateway of service-src/service_netgames.cc in concrete runs.
use rednet.NetGames.Replying.{Replies}
use rednet.Common.{replicate, ℕ, ◌≡◌, refl, true, false, List, [], ◌∷◌, ◌++◌, some, arith}
use rednet.EventQueue.{init}
use rednet.ContextMgr.{start}
use rednet.NetDrive.{NetSocket, NetDrive, new_socket, grab}
use rednet.Calls.{Node}
use rednet.NetGames.{enter_room, proto_analyze, command_of, stopped, on_recv}
use rednet.NetGames.Requests.{listed, on_recv_lem}

abbrev node : Node
node = record {
  mgr = start 0;
  shared = record { queues = λ i. init i; global = []; registered = λ i. false };
}

abbrev zero_of : List ℕ → ℕ
zero_of text = 0

-- a request to enter room 7 by user 5
abbrev enter_packet : List ℕ
enter_packet = 6 ∷ 0 ∷ 2 ∷ 0 ∷ 5 ∷ 0 ∷ 0 ∷ 0 ∷ 7 ∷ 0 ∷ []

-- two packets wait
abbrev two_packets : NetSocket
two_packets = record (new_socket 3 0) { connected = true; buffer = enter_packet ++ enter_packet }

first_size : proto_analyze two_packets.buffer ≡ some 10
unfolding proto_analyze
first_size = refl

first_command : command_of 3 two_packets.buffer ≡ some (enter_room 3 (5 ∷ 0 ∷ 0 ∷ 0 ∷ 7 ∷ 0 ∷ []))
unfolding command_of
first_command = refl

on_recv_lem_example :
    (after : NetDrive) × (on_recv zero_of 1 9 2 3 (two_packets ∷ []) node
      ≡ stopped (listed (command_of 3 two_packets.buffer)) false after node)
    × (grab after 3 ≡ some (record two_packets { buffer = [] }))
unfolding grab
on_recv_lem_example =
    on_recv_lem zero_of 1 9 0 3 9 (two_packets ∷ []) two_packets node refl refl (omega arith)
      (omega arith) first_size

-- what a login answers: socket 7, user 300
abbrev login_answer : List ℕ
login_answer = 7 ∷ 0 ∷ 0 ∷ 0 ∷ 44 ∷ 1 ∷ 0 ∷ 0 ∷ []

-- an answer to a start for socket 3 with the texts "a" and "s", the port 0x1234 and the code 1
abbrev start_answer : List ℕ
start_answer =
    3 ∷ 0 ∷ 0 ∷ 0 ∷ 97 ∷ 0 ∷ replicate 17 7
    ++ (0x34 ∷ 0x12 ∷ 0 ∷ 0 ∷ 115 ∷ 0 ∷ replicate 62 7 ++ (1 ∷ 0 ∷ 0 ∷ 0 ∷ []))

abbrev reply_memory : List ℕ
reply_memory = replicate 256 85
