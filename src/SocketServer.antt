-- ===== src/SocketServer.antt =====
-- rednet-src/network/usocket_server.h and usocket_server.cc: the places of the sockets, the channel
-- on which the other threads send commands, and the commands. Calls has what those threads run, and
-- Poll what the events of the poll do.
pub mod Calls
pub mod Poll
pub mod Live
pub mod Stream
pub mod Commands
pub mod Apart
pub mod Ready
pub mod Others
pub mod Closing
pub mod Channel
pub mod Accept
pub mod Events
pub mod Runs
pub mod Wait
pub mod Places
pub mod WaitRuns
pub mod Exit
pub mod Answers
pub mod Returns
pub mod HalfClose
pub mod Close
pub mod Reserve
pub mod Tests
use rednet.Common.{
  ℕ, zero, suc, ◌+◌, ◌-◌, ◌*◌, ◌/◌, ◌%◌, ◌^◌, Bool, true, false, not, ◌&&◌, ◌||◌, List, [], ◌∷◌,
  ◌++◌, Option, none, some, if◌then◌else◌, ltb, leb, ◌==◌, length, update,
}
use rednet.Socket.{
  Status, invalid, reserve, plisten, listen, connecting, connected, halfclose, paccept, bind,
  Answer, go_on, data_answer, close_answer, open_answer, err_answer, warning_answer, assert_failed,
  protocol_tcp, Socket, is_empty, is_forward, is_connected, is_halfclose, is_close, dec_forward_ref,
  do_init, push_forward_list, Written, Done, on_close, on_forward,
}

-- The commands of the channel; the last field of a close tells a shutdown.
pub data Request : Type 0 where
  send : ℕ → List ℕ → Request
  start : ℕ → ℕ → Request
  bind_to listen_on : ℕ → ℕ → ℕ → Request
  close : ℕ → ℕ → Bool → Request
  exit : Request

-- What `forwardSocket` sends to a service: its type, the socket, the service, `ud` and the bytes. The
-- texts that go with some reports are left out.
pub record Report : Type 0 where
  pub type : Answer
  pub id : ℕ
  pub opaque : ℕ
  pub ud : ℕ
  pub bytes : List ℕ

-- `wire` has the bytes that were written to the handle of each place since it was set up.
pub record Server : Type 0 where
  pub socks : ℕ → Socket
  pub alloc : ℕ
  pub channel : List Request
  pub reports : List Report
  pub wire : ℕ → List ℕ

abbrev pub max_socket : ℕ
max_socket = 2 ^ 16

abbrev pub warning_size : ℕ
warning_size = 1024 * 1024

-- NT_IDTOPOS
abbrev pub place_of : ℕ → ℕ
place_of id = id % max_socket

abbrev pub sock_of : Server → ℕ → Socket
sock_of v id = v.socks (place_of id)

abbrev pub put_sock : ℕ → Socket → Server → Server
put_sock id s v = record v { socks = update v.socks (place_of id) s }

-- a socket after a method, and what the method wrote
abbrev pub put_done : ℕ → Done → Server → Server
put_done id r v = record v {
  socks = update v.socks (place_of id) r.socket;
  wire = update v.wire (place_of id) (v.wire (place_of id) ++ r.bytes);
}

-- `forwardSocket`
abbrev pub forward_socket : Answer → ℕ → ℕ → ℕ → List ℕ → Server → Server
forward_socket type id opaque ud bytes v = record v {
  reports =
      v.reports ++ (record { type = type; id = id; opaque = opaque; ud = ud; bytes = bytes } ∷ []);
}

abbrev pub is_reserve : Status → Bool
is_reserve reserve = true
is_reserve _ = false

abbrev pub is_invalid : Status → Bool
is_invalid invalid = true
is_invalid _ = false

-- What `newSocket` comes to. `reg_ok` is what the poll returns, and true where it is not asked.
pub data Made : Type 0 where
  failed_assert : Made
  refused made : Server → Made

unfoldable pub new_socket : Bool → ℕ → ℕ → ℕ → ℕ → Server → Made
new_socket reg_ok id sck protocol opaque v =
    let s = sock_of v id in
    if is_reserve s.status
    then if reg_ok
      then made (record (put_sock id (do_init id sck protocol opaque s) v) {
        wire = update v.wire (place_of id) [];
      })
      else refused (put_sock id (record s { status = invalid }) v)
    else failed_assert

-- a test that the commands start with: the socket of the id is not there any more
abbrev pub is_gone : ℕ → Socket → Bool
is_gone id s = is_invalid s.status || not (s.id == id)

-- `onClose` with the report that goes with it
abbrev pub closed_with : Answer → ℕ → ℕ → Option Socket → Server → Answer × Server
closed_with type id opaque none v = (assert_failed, v)
closed_with type id opaque (some s) v = (type, forward_socket type id opaque 0 [] (put_sock id s v))

-- `operStartSocket` on a socket that is there, by its status
abbrev pub start_at : Status → Bool → ℕ → ℕ → Server → Answer × Server
start_at paccept reg_ok id opaque v =
    if reg_ok
    then (
      open_answer,
      forward_socket open_answer id opaque 0 []
          (put_sock id (record (sock_of v id) { status = connected; opaque = opaque }) v),
    )
    else closed_with err_answer id opaque (on_close (sock_of v id)) v
start_at plisten reg_ok id opaque v =
    if reg_ok
    then (
      open_answer,
      forward_socket open_answer id opaque 0 []
          (put_sock id (record (sock_of v id) { status = listen; opaque = opaque }) v),
    )
    else closed_with err_answer id opaque (on_close (sock_of v id)) v
start_at connected reg_ok id opaque v = (
  open_answer,
  forward_socket open_answer id opaque 0 []
      (put_sock id (record (sock_of v id) { opaque = opaque }) v),
)
start_at _ reg_ok id opaque v = (go_on, v)

unfoldable pub oper_start : Bool → ℕ → ℕ → Server → Answer × Server
oper_start reg_ok id opaque v =
    if is_gone id (sock_of v id)
    then (err_answer, forward_socket err_answer id opaque 0 [] v)
    else start_at (sock_of v id).status reg_ok id opaque v

-- `onForwardMessage`. The warning that `onForward` returns is compared with NT_WARNING_SIZE, a size,
-- so that it is never reported.
unfoldable pub on_forward_message : Bool → List Written → ℕ → Server → Answer × Server
on_forward_message locked ws id v =
    let s = sock_of v id in
    let r = on_forward locked ws s in
    let w = put_done id r v in
    (r.answer, if is_close r.answer then forward_socket close_answer s.id s.opaque 0 [] w else w)

-- the answers after which `operCloseSocket` goes on
abbrev pub goes_on : Answer → Bool
goes_on go_on = true
goes_on warning_answer = true
goes_on _ = false

-- the second half of `operCloseSocket`
abbrev pub finish_close : Bool → ℕ → ℕ → Server → Answer × Server
finish_close shutdown id opaque v =
    let s = sock_of v id in
    if shutdown || is_forward s
    then closed_with close_answer id opaque (on_close s) v
    else (go_on, put_sock id (record s { status = halfclose }) v)

unfoldable pub oper_close : Bool → List Written → Bool → ℕ → ℕ → Server → Answer × Server
oper_close locked ws shutdown id opaque v =
    let s = sock_of v id in
    let (a, w) = on_forward_message locked ws id v in
    if is_gone id s
    then (close_answer, forward_socket close_answer id opaque 0 [] v)
    else if is_forward s
    then finish_close shutdown id opaque v
    else if goes_on a
    then finish_close shutdown id opaque w
    else (a, w)

abbrev pub bound : ℕ → ℕ → Server → Made → Answer × Server
bound id opaque v failed_assert = (assert_failed, v)
bound id opaque v (refused w) = (err_answer, forward_socket err_answer id opaque 0 [] w)
bound id opaque v (made w) = (
  open_answer,
  forward_socket open_answer id opaque 0 []
      (put_sock id (record (sock_of w id) { status = bind }) w),
)

unfoldable pub oper_bind : Bool → ℕ → ℕ → ℕ → Server → Answer × Server
oper_bind reg_ok id opaque sck v =
    bound id opaque v (new_socket reg_ok id sck protocol_tcp opaque v)

abbrev pub listening : ℕ → ℕ → Server → Made → Answer × Server
listening id opaque v failed_assert = (assert_failed, v)
listening id opaque v (refused w) = (
  err_answer,
  forward_socket err_answer id opaque 0 []
      (put_sock id (record (sock_of w id) { status = invalid }) w),
)
listening id opaque v (made w) = (go_on, put_sock id (record (sock_of w id) { status = plisten }) w)

-- `operListenSocket`, which does not ask the poll
unfoldable pub oper_listen : ℕ → ℕ → ℕ → Server → Answer × Server
oper_listen id opaque sck v = listening id opaque v (new_socket true id sck protocol_tcp opaque v)

-- the statuses in which `operForwardSocket` drops the bytes
abbrev pub drops : Status → Bool
drops invalid = true
drops halfclose = true
drops paccept = true
drops plisten = true
drops listen = true
drops _ = false

-- the bytes on the list, with the watch that starts on an empty one
unfoldable pub queue_bytes : List ℕ → Socket → Socket
queue_bytes buffer s =
    let t = if s.protocol == protocol_tcp then push_forward_list buffer s else s in
    if is_empty s.forward_list && is_connected s.status then record t { watched = true } else t

-- the next threshold, and the size in KB that is reported: one more where it is a whole number
abbrev pub next_warn : ℕ → ℕ
next_warn warn = if warn == 0 then warning_size * 2 else warn * 2

abbrev pub warn_kb : ℕ → ℕ
warn_kb warn = if warn % 1024 == 0 then warn / 1024 + 1 else warn / 1024

unfoldable pub warn_size : ℕ → Server → Answer × Server
warn_size id v =
    let s = sock_of v id in
    let warn = next_warn s.forward_warn_size in
    if leb warning_size s.forward_size && leb s.forward_warn_size s.forward_size
    then (
      warning_answer,
      forward_socket warning_answer id s.opaque (warn_kb warn) []
          (put_sock id (record s { forward_warn_size = warn }) v),
    )
    else (go_on, v)

unfoldable pub oper_forward : ℕ → List ℕ → Server → Answer × Server
oper_forward id buffer v =
    let s = sock_of v id in
    if drops s.status || not (s.id == id)
    then (go_on, v)
    else warn_size id (put_sock id (queue_bytes buffer s) v)

abbrev pub put_or_abort : ℕ → Option Socket → Answer × Server → Answer × Server
put_or_abort id none (a, v) = (assert_failed, v)
put_or_abort id (some s) (a, v) = (a, put_sock id s v)

-- `operDecForwardSocket` after a command with the answer that it keeps
unfoldable pub oper_dec_forward : ℕ → Answer × Server → Answer × Server
oper_dec_forward id (a, v) =
    let s = sock_of v id in
    if s.id == id then put_or_abort id (dec_forward_ref s) (a, v) else (a, v)

-- `onChannelProc`, with what the system calls on the way return
unfoldable pub on_channel_proc : Bool → Bool → List Written → Request → Server → Answer × Server
on_channel_proc reg_ok locked ws (send id buffer) v = oper_dec_forward id (oper_forward id buffer v)
on_channel_proc reg_ok locked ws (start id opaque) v = oper_start reg_ok id opaque v
on_channel_proc reg_ok locked ws (bind_to id opaque sck) v = oper_bind reg_ok id opaque sck v
on_channel_proc reg_ok locked ws (listen_on id opaque sck) v = oper_listen id opaque sck v
on_channel_proc reg_ok locked ws (close id opaque shutdown) v =
    oper_close locked ws shutdown id opaque v
on_channel_proc reg_ok locked ws exit v = (data_answer, v)

-- `onChannelRecv` takes the oldest command.
abbrev pub take_command : Bool → Bool → List Written → List Request → Server → Answer × Server
take_command reg_ok locked ws [] v = (go_on, v)
take_command reg_ok locked ws (r ∷ rest) v =
    on_channel_proc reg_ok locked ws r (record v { channel = rest })

unfoldable pub on_channel_recv : Bool → Bool → List Written → Server → Answer × Server
on_channel_recv reg_ok locked ws v = take_command reg_ok locked ws v.channel v
