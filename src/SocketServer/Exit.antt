-- ===== src/SocketServer/Exit.antt =====
-- What ends the thread of the sockets: `onWait` returns NT_SOCKET_DATA, which is 0, only for the
-- command `exit`.
use Prim.{Unit, tt}
use rednet.Common.{
  ℕ, ◌≡◌, refl, Bool, true, false, List, [], ◌∷◌, Option, none, some, either_way, arith,
}
use rednet.Socket.{
  Status, plisten, paccept, Answer, close_answer, err_answer, protocol_tcp, Socket, Written, wrote,
  interrupted, would_block, broken, send_list, Done, begin_forward_tcp, begin_forward_list,
  begin_forward, requeue, on_close, then_close, on_forward,
}
use rednet.SocketServer.{
  Request, send, start, bind_to, listen_on, close, exit, Server, is_reserve, sock_of, Made,
  failed_assert, refused, made, new_socket, closed_with, start_at, oper_start, on_forward_message,
  finish_close, oper_close, bound, oper_bind, listening, oper_listen, warn_size, oper_forward,
  put_or_abort, dec_forward_ref, oper_dec_forward, on_channel_proc,
}
use rednet.SocketServer.Wait.{is_data}

abbrev pub IsOther : Answer → Type 0
IsOther a = is_data a ≡ false

send_list-IsOther : (ws : List Written) (bs : List (List ℕ)) → IsOther (send_list ws bs).answer
unfolding send_list
send_list-IsOther ws [] = refl
send_list-IsOther [] (b ∷ bs) = refl
send_list-IsOther (interrupted ∷ ws) (b ∷ bs) = send_list-IsOther ws (b ∷ bs)
send_list-IsOther (would_block ∷ ws) (b ∷ bs) = refl
send_list-IsOther (broken ∷ ws) (b ∷ bs) = refl
send_list-IsOther (wrote n ∷ ws) (b ∷ bs) = ground (arith, send_list-IsOther ws bs)

abbrev DoneOther : Done → Type 0
DoneOther r = IsOther r.answer

begin_forward-IsOther : (ws : List Written) (s : Socket) → DoneOther (begin_forward ws s)
unfolding begin_forward begin_forward_list begin_forward_tcp
begin_forward-IsOther ws s = ground (arith, send_list-IsOther ws s.forward_list)

then_close-IsOther : (r : Done) (o : Option Socket) → DoneOther r → DoneOther (then_close r o)
then_close-IsOther r none h = refl
then_close-IsOther r (some s) h = h

pub on_forward-IsOther :
    (locked : Bool) (ws : List Written) (s : Socket) → IsOther (on_forward locked ws s).answer
unfolding on_forward
on_forward-IsOther locked ws s =
    let r = begin_forward ws (requeue s.forward_buffer s) in
    let h = begin_forward-IsOther ws (requeue s.forward_buffer s) in
    ground (arith, h, then_close-IsOther r (on_close r.socket) h)

-- An operation that does not answer NT_SOCKET_DATA and leaves the channel alone.
pub record Quiet (v : Server) (r : Answer × Server) : Type 0 where
  pub other : IsOther r.0
  pub kept : r.1.channel ≡ v.channel

closed_with-Quiet :
    (a : Answer) (id opaque : ℕ) (o : Option Socket) (v : Server)
    → IsOther a
    → Quiet v (closed_with a id opaque o v)
closed_with-Quiet a id opaque none v h = record { other = refl; kept = refl }
closed_with-Quiet a id opaque (some s) v h = record { other = h; kept = refl }

start_at-Quiet :
    (st : Status) (reg_ok : Bool) (id opaque : ℕ) (v : Server)
    → Quiet v (start_at st reg_ok id opaque v)
start_at-Quiet paccept reg_ok id opaque v =
    ground (arith, closed_with-Quiet err_answer id opaque (on_close (sock_of v id)) v refl)
start_at-Quiet plisten reg_ok id opaque v =
    ground (arith, closed_with-Quiet err_answer id opaque (on_close (sock_of v id)) v refl)
start_at-Quiet st reg_ok id opaque v = ground arith

-- a server that `newSocket` leaves, with the channel of `v`
abbrev pub MadeQuiet : Server → Made → Type 0
MadeQuiet v failed_assert = Unit
MadeQuiet v (refused w) = w.channel ≡ v.channel
MadeQuiet v (made w) = w.channel ≡ v.channel

pub new_socket-Quiet :
    (reg_ok : Bool) (id sck protocol opaque : ℕ) (v : Server)
    → MadeQuiet v (new_socket reg_ok id sck protocol opaque v)
unfolding new_socket
new_socket-Quiet reg_ok id sck protocol opaque v =
    either_way (MadeQuiet v) (is_reserve (sock_of v id).status) _ _
      (either_way (MadeQuiet v) reg_ok _ _ refl refl) tt

bound-Quiet :
    (id opaque : ℕ) (v : Server) (m : Made) → MadeQuiet v m → Quiet v (bound id opaque v m)
bound-Quiet id opaque v failed_assert h = record { other = refl; kept = refl }
bound-Quiet id opaque v (refused w) h = record { other = refl; kept = h }
bound-Quiet id opaque v (made w) h = record { other = refl; kept = h }

listening-Quiet :
    (id opaque : ℕ) (v : Server) (m : Made) → MadeQuiet v m → Quiet v (listening id opaque v m)
listening-Quiet id opaque v failed_assert h = record { other = refl; kept = refl }
listening-Quiet id opaque v (refused w) h = record { other = refl; kept = h }
listening-Quiet id opaque v (made w) h = record { other = refl; kept = h }

pub on_forward_message-Quiet :
    (locked : Bool) (ws : List Written) (id : ℕ) (v : Server)
    → Quiet v (on_forward_message locked ws id v)
unfolding on_forward_message
on_forward_message-Quiet locked ws id v =
    ground (arith, on_forward-IsOther locked ws (sock_of v id))

finish_close-Quiet :
    (shutdown : Bool) (id opaque : ℕ) (v : Server) → Quiet v (finish_close shutdown id opaque v)
finish_close-Quiet shutdown id opaque v =
    ground (arith, closed_with-Quiet close_answer id opaque (on_close (sock_of v id)) v refl)

oper_close-Quiet :
    (locked : Bool) (ws : List Written) (shutdown : Bool) (id opaque : ℕ) (v : Server)
    → Quiet v (oper_close locked ws shutdown id opaque v)
unfolding oper_close
oper_close-Quiet locked ws shutdown id opaque v =
    let w = (on_forward_message locked ws id v).1 in
    ground (
      arith,
      finish_close-Quiet shutdown id opaque v,
      finish_close-Quiet shutdown id opaque w,
      on_forward_message-Quiet locked ws id v,
    )

oper_forward-Quiet : (id : ℕ) (b : List ℕ) (v : Server) → Quiet v (oper_forward id b v)
unfolding oper_forward warn_size
oper_forward-Quiet id b v = ground arith

put_or_abort-Quiet :
    (id : ℕ) (o : Option Socket) (u : Server) (r : Answer × Server)
    → Quiet u r
    → Quiet u (put_or_abort id o r)
put_or_abort-Quiet id none u (a, v) h = record { other = refl; kept = h.kept }
put_or_abort-Quiet id (some s) u (a, v) h = record { other = h.other; kept = h.kept }

oper_dec_forward-Quiet :
    (id : ℕ) (u : Server) (r : Answer × Server) → Quiet u r → Quiet u (oper_dec_forward id r)
unfolding oper_dec_forward
oper_dec_forward-Quiet id u (a, v) h =
    ground (arith, put_or_abort-Quiet id (dec_forward_ref (sock_of v id)) u (a, v) h)

oper_start-Quiet :
    (reg_ok : Bool) (id opaque : ℕ) (v : Server) → Quiet v (oper_start reg_ok id opaque v)
unfolding oper_start
oper_start-Quiet reg_ok id opaque v =
    ground (arith, start_at-Quiet (sock_of v id).status reg_ok id opaque v)

abbrev pub is_exit : Request → Bool
is_exit exit = true
is_exit _ = false

-- Any command but `exit`.
pub on_channel_proc-Quiet :
    (reg_ok locked : Bool) (ws : List Written) (r : Request) (v : Server)
    → is_exit r ≡ false
    → Quiet v (on_channel_proc reg_ok locked ws r v)
unfolding on_channel_proc oper_bind oper_listen
on_channel_proc-Quiet reg_ok locked ws (send id b) v n =
    oper_dec_forward-Quiet id v (oper_forward id b v) (oper_forward-Quiet id b v)
on_channel_proc-Quiet reg_ok locked ws (start id opaque) v n = oper_start-Quiet reg_ok id opaque v
on_channel_proc-Quiet reg_ok locked ws (bind_to id opaque sck) v n =
    bound-Quiet id opaque v (new_socket reg_ok id sck protocol_tcp opaque v)
      (new_socket-Quiet reg_ok id sck protocol_tcp opaque v)
on_channel_proc-Quiet reg_ok locked ws (listen_on id opaque sck) v n =
    listening-Quiet id opaque v (new_socket true id sck protocol_tcp opaque v)
      (new_socket-Quiet true id sck protocol_tcp opaque v)
on_channel_proc-Quiet reg_ok locked ws (close id opaque shutdown) v n =
    oper_close-Quiet locked ws shutdown id opaque v
on_channel_proc-Quiet reg_ok locked ws exit v n = cc
