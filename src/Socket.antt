-- ===== src/Socket.antt =====
-- rednet-src/network/usocket.h and usocket.cc: a socket of the socket server, with the bytes that
-- wait to be written. What a system call returns is an argument.
pub mod Pending
pub mod Direct
pub mod Answers
pub mod Tests
use rednet.Common.{
  ℕ, zero, suc, ◌+◌, ◌-◌, ◌*◌, ◌/◌, ◌%◌, ◌^◌, min, Bool, true, false, ◌&&◌, List, [], ◌∷◌, ◌++◌,
  Option, none, some, if◌then◌else◌, ltb, leb, ◌==◌, length, take, drop,
}

-- enum socketStatus
pub data Status : Type 0 where
  invalid reserve plisten listen connecting connected halfclose paccept bind : Status

-- What the methods return: `go_on` is -1, the others are the NT_SOCKET values. `assert_failed` ends
-- the process.
pub data Answer : Type 0 where
  go_on data_answer close_answer open_answer accept_answer err_answer warning_answer : Answer
  assert_failed : Answer

abbrev pub protocol_tcp : ℕ
protocol_tcp = 0

abbrev pub protocol_unknown : ℕ
protocol_unknown = 255

abbrev pub min_read_buffer : ℕ
min_read_buffer = 64

-- A pending buffer of the list is the list of its bytes from `ptr` on. `forward_buffer` has a buffer
-- and its offset. `sck` is none for NT_INVALID, and `watched` tells that the poll reports when the
-- handle can be written.
pub record Socket : Type 0 where
  pub id : ℕ
  pub opaque : ℕ
  pub sck : Option ℕ
  pub forward_in : ℕ
  pub forward_buffer : Option (List ℕ × ℕ)
  pub forward_list : List (List ℕ)
  pub forward_size : ℕ
  pub forward_warn_size : ℕ
  pub read_size : ℕ
  pub protocol : ℕ
  pub status : Status
  pub watched : Bool
  pub wr_bytes : ℕ
  pub rv_bytes : ℕ

abbrev pub is_null {ℓ} : {A : Type ℓ} → Option A → Bool
is_null none = true
is_null (some a) = false

abbrev pub is_empty {ℓ} : {A : Type ℓ} → List A → Bool
is_empty [] = true
is_empty (x ∷ xs) = false

-- NT_ID_TAG16
abbrev pub tag16 : ℕ → ℕ
tag16 id = id / 2 ^ 16 % 2 ^ 16

-- `isForward`. The test `(forwardIn__ && 0xffff) == 0` is a logical and: it holds for 0 only.
unfoldable pub is_forward : Socket → Bool
is_forward s = is_empty s.forward_list && (is_null s.forward_buffer && (s.forward_in == 0))

abbrev pub is_connected : Status → Bool
is_connected connected = true
is_connected _ = false

unfoldable pub is_can_direct_write : ℕ → Socket → Bool
is_can_direct_write id s = (s.id == id) && (is_forward s && is_connected s.status)

-- `incForwardRef`; none is the busy wait for the counter to go down
unfoldable pub inc_forward_ref : Socket → Option Socket
inc_forward_ref s =
    if s.protocol == protocol_tcp
    then if s.forward_in / 2 ^ 16 == tag16 s.id
      then if s.forward_in % 2 ^ 16 == 2 ^ 16 - 1
        then none
        else some (record s { forward_in = s.forward_in + 1 })
      else some s
    else some s

-- `decForwardRef`; none is the failing assertion
unfoldable pub dec_forward_ref : Socket → Option Socket
dec_forward_ref s =
    if s.protocol == protocol_tcp
    then if s.forward_in % 2 ^ 16 == 0
      then none
      else some (record s { forward_in = s.forward_in - 1 })
    else some s

-- `doInit`, with `doForwardListClear`
unfoldable pub do_init : ℕ → ℕ → ℕ → ℕ → Socket → Socket
do_init id sck protocol opaque s = record s {
  id = id;
  sck = some sck;
  protocol = protocol;
  opaque = opaque;
  forward_in = tag16 id * 2 ^ 16;
  read_size = min_read_buffer;
  forward_buffer = none;
  forward_size = 0;
  forward_warn_size = 0;
  forward_list = [];
}

-- The node of the list is taken to have room for its fields: the source allocates as many bytes for it as
-- the data have.
unfoldable pub push_forward_list : List ℕ → Socket → Socket
push_forward_list buffer s = record s {
  forward_list = s.forward_list ++ buffer ∷ [];
  forward_size = s.forward_size + length buffer;
}

-- what a call of `write` returns: a count, at most the size, or an error
pub data Written : Type 0 where
  wrote : ℕ → Written
  interrupted would_block broken : Written

-- what the loops of `beginForwardTCP` come to: the answer, the list left, and the bytes written
pub record Sent : Type 0 where
  pub answer : Answer
  pub left : List (List ℕ)
  pub bytes : List ℕ

abbrev pub and_sent : List ℕ → Sent → Sent
and_sent b r = record r { bytes = b ++ r.bytes }

-- A call of `write` takes the first result of the list; when there is none left, the handle blocks.
unfoldable pub send_list : List Written → List (List ℕ) → Sent
send_list ws [] = record { answer = go_on; left = []; bytes = [] }
send_list [] (b ∷ bs) = record { answer = go_on; left = b ∷ bs; bytes = [] }
send_list (interrupted ∷ ws) (b ∷ bs) = send_list ws (b ∷ bs)
send_list (would_block ∷ ws) (b ∷ bs) = record { answer = go_on; left = b ∷ bs; bytes = [] }
send_list (broken ∷ ws) (b ∷ bs) = record { answer = close_answer; left = b ∷ bs; bytes = [] }
send_list (wrote n ∷ ws) (b ∷ bs) =
    let more = and_sent b (send_list ws bs) in
    if leb (length b) n
    then more
    else record { answer = go_on; left = drop n b ∷ bs; bytes = take n b }

-- a method's answer, the socket after it, and the bytes that it wrote to the handle
pub record Done : Type 0 where
  pub answer : Answer
  pub socket : Socket
  pub bytes : List ℕ

unfoldable pub begin_forward_tcp : List Written → Socket → Done
begin_forward_tcp ws s =
    let r = send_list ws s.forward_list in
    record {
      answer = r.answer;
      socket = record s {
        forward_list = r.left;
        forward_size = s.forward_size - length r.bytes;
        wr_bytes = s.wr_bytes + length r.bytes;
      };
      bytes = r.bytes;
    }

unfoldable pub begin_forward_list : List Written → Socket → Done
begin_forward_list ws s =
    if s.protocol == protocol_tcp
    then begin_forward_tcp ws s
    else record { answer = go_on; socket = s; bytes = [] }

abbrev pub is_close : Answer → Bool
is_close close_answer = true
is_close _ = false

abbrev pub is_halfclose : Status → Bool
is_halfclose halfclose = true
is_halfclose _ = false

-- the end of `beginForward`, where the list is empty
abbrev pub drained : Done → Done
drained r =
    let s = record r.socket { watched = false } in
    if r.socket.forward_size == 0
    then if is_halfclose s.status
      then record r { answer = close_answer; socket = s }
      else if ltb 0 s.forward_warn_size
      then record r { answer = warning_answer; socket = record s { forward_warn_size = 0 } }
      else record r { answer = go_on; socket = s }
    else record r { answer = assert_failed }

unfoldable pub begin_forward : List Written → Socket → Done
begin_forward ws s =
    let r = begin_forward_list ws s in
    if is_close r.answer
    then r
    else if is_empty r.socket.forward_list
    then drained r
    else record r { answer = go_on }

-- `onClose`: what stays of the socket, where it is not reserved
abbrev pub closed_socket : Socket → Socket
closed_socket s = record s {
  forward_list = [];
  forward_buffer = none;
  watched = false;
  status = invalid;
}

-- none is the failing assertion
abbrev pub close_in : Status → Socket → Option Socket
close_in invalid s = some s
close_in reserve s = none
close_in _ s = some (closed_socket s)

unfoldable pub on_close : Socket → Option Socket
on_close s = close_in s.status s

-- the rest of a buffer that was written in part, in front of the list
abbrev pub requeue : Option (List ℕ × ℕ) → Socket → Socket
requeue none s = s
requeue (some (buffer, offset)) s = record s {
  forward_size = s.forward_size + (length buffer - offset);
  forward_list = drop offset buffer ∷ s.forward_list;
  forward_buffer = none;
}

abbrev pub then_close : Done → Option Socket → Done
then_close r none = record r { answer = assert_failed }
then_close r (some s) = record r { socket = s }

-- `onForward`, where `locked` is the result of `trylock`
unfoldable pub on_forward : Bool → List Written → Socket → Done
on_forward locked ws s =
    let r = begin_forward ws (requeue s.forward_buffer s) in
    if locked
    then (if is_close r.answer then then_close r (on_close r.socket) else r)
    else record { answer = go_on; socket = s; bytes = [] }

-- the count that `onForwardData` goes on with: an error counts as 0
abbrev pub count_of : Written → ℕ → ℕ
count_of (wrote n) sz = min n sz
count_of interrupted sz = 0
count_of would_block sz = 0
count_of broken sz = 0

-- the end of `onForwardData`, of which `n` bytes were written
abbrev pub leave : ℕ → List ℕ → Socket → Done
leave n buffer s =
    if n == length buffer then record { answer = go_on; socket = s; bytes = buffer } else record {
      answer = go_on;
      socket = record s { forward_buffer = some (buffer, n); watched = true };
      bytes = take n buffer;
    }

unfoldable pub on_forward_data : Written → List ℕ → Socket → Done
on_forward_data w buffer s =
    leave (if s.protocol == protocol_tcp then count_of w (length buffer) else 0) buffer s

-- what a call of `read` returns: bytes, of which there are at most as many as the buffer has places,
-- or an error; no bytes are the end of the stream
pub data Received : Type 0 where
  got : List ℕ → Received
  read_interrupted read_would_block read_broken : Received

-- the size of the next read, after one of `n` bytes
unfoldable pub next_size : ℕ → ℕ → ℕ
next_size sz n =
    if n == sz then sz * 2 else if ltb min_read_buffer sz && ltb sz (n * 2) then sz / 2 else sz

abbrev pub closing : Answer → Socket → Option Socket → Done
closing a s none = record { answer = assert_failed; socket = s; bytes = [] }
closing a s (some t) = record { answer = a; socket = t; bytes = [] }

-- `onRecv`; the bytes of the result are those read
unfoldable pub on_recv : Received → Socket → Done
on_recv read_interrupted s = record { answer = go_on; socket = s; bytes = [] }
on_recv read_would_block s = record { answer = go_on; socket = s; bytes = [] }
on_recv read_broken s = closing err_answer s (on_close s)
on_recv (got bytes) s =
    let part = take s.read_size bytes in
    let n = length part in
    if n == 0
    then closing close_answer s (on_close s)
    else if is_halfclose s.status
    then record { answer = go_on; socket = s; bytes = [] }
    else record {
      answer = data_answer;
      socket = record s { read_size = next_size s.read_size n; rv_bytes = s.rv_bytes + n };
      bytes = part;
    }
