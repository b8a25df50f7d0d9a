-- ===== src/NetGames.antt =====
-- service-src/service_netgames.cc and gameevent.h: the packets of the game gateway, and the requests that
-- it sends to the service of the games. The pointers that `malloc` returns, and `strtoul`, are arguments.
pub mod Requests
pub mod Replies
pub mod Bytes
pub mod Heads
pub mod Starts
pub mod Replying
pub mod Tests
use rednet.Common.{
  ℕ, zero, suc, ◌+◌, ◌*◌, ◌/◌, ◌%◌, ◌^◌, Bool, true, false, List, [], ◌∷◌, ◌++◌, Option, none, some,
  if◌then◌else◌, ltb, ◌==◌, length, take, drop, get_or,
}
use rednet.NetDrive.{
  NetDrive, socket_buffer_max, check, clone, Read, assert_failed, nothing, copied, read,
}
use rednet.Calls.{Node, Posted, posted, send_to}

abbrev pub packet_size : ℕ
packet_size = 2

abbrev pub packet_cmd_size : ℕ
packet_cmd_size = 2

abbrev pub socket_pack_max : ℕ
socket_pack_max = socket_buffer_max / 2

-- EP_USER
abbrev pub ep_user : ℕ
ep_user = 8

-- a 16-bit word of the bytes, the low byte first
abbrev pub word_at : List ℕ → ℕ → ℕ
word_at bytes i = get_or bytes i 0 + get_or bytes (i + 1) 0 * 2 ^ 8

-- the size of the first packet, 0 for one that is not whole, and none for -1
unfoldable pub proto_analyze : List ℕ → Option ℕ
proto_analyze bytes =
    let count = (packet_size + packet_cmd_size + word_at bytes 0) % 2 ^ 16 in
    if ltb (length bytes) (packet_size + packet_cmd_size)
    then some 0
    else if ltb socket_pack_max count
    then none
    else if ltb (length bytes) count
    then some 0
    else some count

-- the command of a packet, for a socket, with the bytes of its struct
pub data Command : Type 0 where
  login enter_room exit_room start_room : ℕ → List ℕ → Command

-- a command whose length is that of its struct
abbrev pub sized : ℕ → List ℕ → (List ℕ → Command) → Option Command
sized size bytes c =
    if size == word_at bytes 0
    then some (c (take size (drop (packet_size + packet_cmd_size) bytes)))
    else none

-- the switch of `onRecv`
unfoldable pub command_of : ℕ → List ℕ → Option Command
command_of id bytes =
    let cmd = word_at bytes packet_size in
    if cmd == 1
    then sized 32 bytes (login id)
    else if cmd == 2
    then sized 6 bytes (enter_room id)
    else if cmd == 3
    then sized 6 bytes (exit_room id)
    else if cmd == 4
    then sized 6 bytes (start_room id)
    else none

-- "gamemanage"
abbrev pub game_manage : List ℕ
game_manage = 103 ∷ 97 ∷ 109 ∷ 101 ∷ 109 ∷ 97 ∷ 110 ∷ 97 ∷ 103 ∷ 101 ∷ []

-- What `onRecv` comes to: the commands that it ran, in their order, and whether it closed the socket. It
-- may write behind its buffer or read what is not set (`undefined`), or fail an assertion (`aborted`);
-- `unfinished` is a loop that goes on when the fuel is gone.
pub data Outcome : Type 0 where
  stopped : List Command → Bool → NetDrive → Node → Outcome
  undefined aborted unfinished : Outcome

abbrev pub copied_into : NetDrive → Read → NetDrive
copied_into d assert_failed = d
copied_into d nothing = d
copied_into d (copied bytes left) = left

abbrev pub command_in : ℕ → Read → Option Command
command_in id (copied bytes left) = command_of id bytes
command_in id _ = none

abbrev pub and_ran : Option Command → Outcome → Outcome
and_ran (some c) (stopped cs closed d n) = stopped (c ∷ cs) closed d n
and_ran _ o = o

-- the end of a round, after a `read` to the buffer of 2048 bytes
abbrev pub by_read : Read → Option Command → Outcome → Outcome
by_read assert_failed c rest = aborted
by_read nothing c rest = undefined
by_read (copied bytes left) c rest = if ltb 2048 (length bytes) then undefined else and_ran c rest

-- what `check` and `protoAnalyze` find: none for NULL, and then the size
abbrev pub analyzed : Option (List ℕ) → Option (Option ℕ)
analyzed none = none
analyzed (some bytes) = some (proto_analyze bytes)

abbrev pub size_of : Option (Option ℕ) → ℕ
size_of (some (some size)) = size
size_of _ = 0

abbrev pub by_packet : Option (Option ℕ) → ℕ → NetDrive → Node → Outcome → Outcome
by_packet none id d n rest = stopped [] false d n
by_packet (some none) id d n rest = stopped [] true (clone id d) n
by_packet (some (some zero)) id d n rest = stopped [] false d n
by_packet (some (some (suc size))) id d n rest = rest

module _ (strtoul : List ℕ → ℕ) (self data_ptr : ℕ) where
  -- `sendEvent` as loginProc and the others call it, with the size of what they allocate. That they free
  -- the data once more where it answers 0 is left out: for this address it always answers -1.
  unfoldable pub submit : Command → Node → Posted
  submit (login id bytes) n = send_to strtoul self game_manage (ep_user + 1) 0 data_ptr 128 none n
  submit (enter_room id bytes) n =
      send_to strtoul self game_manage (ep_user + 2) 0 data_ptr 64 none n
  submit (exit_room id bytes) n =
      send_to strtoul self game_manage (ep_user + 3) 0 data_ptr 64 none n
  submit (start_room id bytes) n =
      send_to strtoul self game_manage (ep_user + 4) 0 data_ptr 64 none n

  abbrev pub node_of : Node → Posted → Node
  node_of n (posted session freed m) = m
  node_of n _ = n

  unfoldable pub perform : Option Command → Node → Node
  perform none n = n
  perform (some c) n = node_of n (submit c n)

  -- `onRecv`: a round of its loop costs a unit of fuel.
  unfoldable pub on_recv : ℕ → ℕ → NetDrive → Node → Outcome
  on_recv zero id d n = unfinished
  on_recv (suc f) id d n =
      let found = analyzed (check id d) in
      let r = read id (size_of found) d in
      let c = command_in id r in
      let rest = on_recv f id (copied_into d r) (perform c n) in
      by_packet found id d n (by_read r c rest)
