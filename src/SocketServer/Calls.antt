-- ===== src/SocketServer/Calls.antt =====
-- The static methods of usocket_server.cc, which any thread calls, and `reserveId`.
use rednet.Common.{
  ℕ, zero, suc, ◌+◌, ◌%◌, ◌^◌, Bool, true, false, not, ◌&&◌, ◌||◌, List, [], ◌∷◌, ◌++◌, Option,
  none, some, if◌then◌else◌, leb, ◌==◌,
}
use rednet.Socket.{
  reserve, protocol_unknown, Socket, is_can_direct_write, inc_forward_ref, Written, on_forward_data,
}
use rednet.SocketServer.{
  Request, send, start, bind_to, listen_on, close, exit, Server, max_socket, sock_of, put_sock,
  put_done, is_invalid,
}

-- `forwardChannel`
abbrev pub forward_channel : Request → Server → Server
forward_channel r v = record v { channel = v.channel ++ r ∷ [] }

-- the counter after `ATOM_INC`, and after the `ATOM_AND` that takes away the sign
abbrev pub next_id : ℕ → ℕ
next_id alloc =
    if leb (2 ^ 31) ((alloc + 1) % 2 ^ 32) then (alloc + 1) % 2 ^ 31 else (alloc + 1) % 2 ^ 32

-- the place of the id, reserved
abbrev pub reserve_at : ℕ → Server → Server
reserve_at id v =
    put_sock id
      (record (sock_of v id) { id = id; protocol = protocol_unknown; sck = none; status = reserve })
      v

-- The loop of `reserveId`, for `n` rounds; no other thread takes the place between the test and the
-- compare and swap.
unfoldable pub reserve_rounds : ℕ → Server → Option ℕ × Server
reserve_rounds zero v = (none, v)
reserve_rounds (suc n) v =
    let id = next_id v.alloc in
    let w = record v { alloc = id } in
    let later = reserve_rounds n w in
    if is_invalid (sock_of v id).status then (some id, reserve_at id w) else later

unfoldable pub reserve_id : Server → Option ℕ × Server
reserve_id v = reserve_rounds max_socket v

-- a command to the socket of the id that was reserved, if one was
abbrev pub with_id : (ℕ → Request) → Option ℕ × Server → Option ℕ × Server
with_id r (none, v) = (none, v)
with_id r (some id, v) = (some id, forward_channel (r id) v)

-- `socketListen`; `listener` is what `createListen` returns
abbrev pub listen_with : ℕ → Option ℕ → Server → Option ℕ × Server
listen_with opaque none v = (none, v)
listen_with opaque (some sck) v = with_id (λ id. listen_on id opaque sck) (reserve_id v)

unfoldable pub socket_listen : ℕ → Option ℕ → Server → Option ℕ × Server
socket_listen opaque listener v = listen_with opaque listener v

unfoldable pub socket_bind : ℕ → ℕ → Server → Option ℕ × Server
socket_bind opaque sck v = with_id (λ id. bind_to id opaque sck) (reserve_id v)

unfoldable pub socket_start : ℕ → ℕ → Server → Server
socket_start opaque id v = forward_channel (start id opaque) v

unfoldable pub socket_close : ℕ → ℕ → Server → Server
socket_close opaque id v = forward_channel (close id opaque false) v

unfoldable pub socket_shutdown : ℕ → ℕ → Server → Server
socket_shutdown opaque id v = forward_channel (close id opaque true) v

unfoldable pub socket_exit : Server → Server
socket_exit v = forward_channel exit v

-- What `socketSend` comes to: `refused` is -1, `busy` the wait of `incForwardRef`.
pub data SendResult : Type 0 where
  refused busy : SendResult
  taken : Server → SendResult

-- the command of `socketSend`, after `incForwardRef`
abbrev pub send_later : ℕ → List ℕ → Option Socket → Server → SendResult
send_later id buffer none v = busy
send_later id buffer (some s) v = taken (forward_channel (send id buffer) (put_sock id s v))

-- `socketSend`, where `locked` is the result of `trylock` and `w` what a direct `write` returns
unfoldable pub socket_send : Bool → Written → ℕ → List ℕ → Server → SendResult
socket_send locked w id buffer v =
    let s = sock_of v id in
    if not (s.id == id) || is_invalid s.status
    then refused
    else if is_can_direct_write id s && locked
    then taken (put_done id (on_forward_data w buffer s) v)
    else send_later id buffer (inc_forward_ref s) v
