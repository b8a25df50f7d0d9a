-- ===== src/NetDrive.antt =====
-- rednet-src/unetdrive.h and unetdrive.cc: the sockets of a service, with the buffer in which the
-- bytes of each wait for the service.
pub mod Sockets
pub mod Receive
pub mod Known
pub mod Tests
use rednet.Common.{
  ℕ, zero, suc, ◌+◌, ◌-◌, ◌%◌, ◌^◌, Bool, true, false, List, [], ◌∷◌, ◌++◌, Option, none, some,
  if◌then◌else◌, ltb, leb, ◌==◌, length, take, drop,
}

abbrev pub socket_buffer_max : ℕ
socket_buffer_max = 4096

-- A callback is a number, 0 for none. `buffer` has the first `sz` bytes of it.
pub record NetSocket : Type 0 where
  pub socket_id : ℕ
  pub connected : Bool
  pub buffer : List ℕ
  pub on_recv : ℕ
  pub on_callback : ℕ
  pub on_warning : ℕ

-- What a method calls outside the component: the socket server, or the log.
pub data Call : Type 0 where
  socket_start socket_close socket_shutdown : ℕ → Call
  log : Call

-- netSocketMap__
abbrev pub NetDrive : Type 0
NetDrive = List NetSocket

unfoldable pub insert : NetSocket → NetDrive → NetDrive
insert s [] = s ∷ []
insert s (t ∷ d) = let later = t ∷ insert s d in if t.socket_id == s.socket_id then s ∷ d else later

unfoldable pub grab : NetDrive → ℕ → Option NetSocket
grab [] id = none
grab (t ∷ d) id = let later = grab d id in if t.socket_id == id then some t else later

unfoldable pub erase : ℕ → NetDrive → NetDrive
erase id [] = []
erase id (t ∷ d) = let later = t ∷ erase id d in if t.socket_id == id then d else later

-- `beginAccept` and `endAccept` make the same entry; what the memory of `onRecv` holds is empty.
abbrev pub new_socket : ℕ → ℕ → NetSocket
new_socket id asyn_fun = record {
  socket_id = id;
  connected = false;
  buffer = [];
  on_recv = 0;
  on_callback = asyn_fun;
  on_warning = 0;
}

unfoldable pub begin_accept : ℕ → ℕ → NetDrive → NetDrive × List Call
begin_accept id asyn_fun d = (insert (new_socket id asyn_fun) d, socket_start id ∷ [])

unfoldable pub end_accept : ℕ → ℕ → NetDrive → NetDrive
end_accept id asyn_fun d = insert (new_socket id asyn_fun) d

-- the rest of `beginRecv`, for what `grab` returned; false is -1
abbrev pub set_recv : ℕ → ℕ → NetDrive → Option NetSocket → Bool × NetDrive × List Call
set_recv id recv d none = (false, d, log ∷ [])
set_recv id recv d (some s) = (true, insert (record s { on_recv = recv }) d, socket_start id ∷ [])

unfoldable pub begin_recv : ℕ → ℕ → NetDrive → Bool × NetDrive × List Call
begin_recv id recv d = set_recv id recv d (grab d id)

abbrev pub set_warning_of : ℕ → NetDrive → Option NetSocket → NetDrive
set_warning_of warn d none = d
set_warning_of warn d (some s) = insert (record s { on_warning = warn }) d

unfoldable pub set_warning : ℕ → ℕ → NetDrive → NetDrive
set_warning id warn d = set_warning_of warn d (grab d id)

abbrev pub peek : Option NetSocket → Option (List ℕ)
peek none = none
peek (some s) = if s.connected then (if length s.buffer == 0 then none else some s.buffer) else none

-- `check`: the waiting bytes, none for NULL
unfoldable pub check : ℕ → NetDrive → Option (List ℕ)
check id d = peek (grab d id)

abbrev pub emptied : NetDrive → Option NetSocket → NetDrive
emptied d none = d
emptied d (some s) = if s.connected then insert (record s { buffer = [] }) d else d

unfoldable pub clone : ℕ → NetDrive → NetDrive
clone id d = emptied d (grab d id)

-- The size that `read` takes. `maxBuffer - s->buffer.sz` is unsigned, a 32-bit word.
unfoldable pub read_size : ℕ → ℕ → ℕ
read_size max sz = if ltb 0 ((max + 2 ^ 32 - sz) % 2 ^ 32) then sz else max

-- `assert_failed` without a socket or a size, `nothing` for -1, and what is copied to `outBuffer`
pub data Read : Type 0 where
  assert_failed nothing : Read
  copied : List ℕ → NetDrive → Read

abbrev pub read_from : ℕ → NetDrive → Option NetSocket → Read
read_from max d none = assert_failed
read_from max d (some s) =
    let n = read_size max (length s.buffer) in
    if max == 0
    then assert_failed
    else if length s.buffer == 0
    then nothing
    else copied (take n s.buffer) (insert (record s { buffer = drop n s.buffer }) d)

unfoldable pub read : ℕ → ℕ → NetDrive → Read
read id max d = read_from max d (grab d id)

-- `struct asynResult` of data: its buffer has `ud` bytes.
pub data Delivered : Type 0 where
  done : NetDrive → Delivered
  waiting overread dangling : Delivered

-- how many bytes a round reads of `sz`, of which `write` are delivered, into `space`
abbrev pub share : ℕ → ℕ → ℕ → ℕ
share sz write space = if ltb (sz + write) space then sz - write else space

-- One round of the loop of `onData` on the socket `s`, with `write` of the bytes delivered. `recv`
-- is what the callback `onRecv` does to the sockets, and `again` is the next round.
abbrev pub deliver :
    (ℕ → NetDrive → NetDrive)
    → ℕ
    → List ℕ
    → ℕ
    → NetDrive
    → (ℕ → NetDrive → Delivered)
    → Option NetSocket
    → Delivered
deliver recv id bytes write d again none = dangling
deliver recv id bytes write d again (some s) =
    let sz = length bytes in
    let n = share sz write (socket_buffer_max - length s.buffer) in
    let filled = insert (record s { buffer = s.buffer ++ take n (drop write bytes) }) d in
    let after = if s.on_recv == 0 then filled else recv id filled in
    let next = again (write + n) after in
    if s.connected
    then (if ltb sz (write + n) then overread else if leb sz (write + n) then done after else next)
    else done d

-- The loop of `onData`: a round costs a unit of fuel. After the first round the pointer to the socket
-- is used again, `dangling` if the callback erased it.
unfoldable pub data_rounds : ℕ → (ℕ → NetDrive → NetDrive) → ℕ → List ℕ → ℕ → NetDrive → Delivered
data_rounds zero recv id bytes write d = waiting
data_rounds (suc f) recv id bytes write d =
    deliver recv id bytes write d (data_rounds f recv id bytes) (grab d id)

abbrev pub on_data_of :
    ℕ → (ℕ → NetDrive → NetDrive) → ℕ → List ℕ → NetDrive → Option NetSocket → Delivered
on_data_of f recv id bytes d none = done d
on_data_of f recv id bytes d (some s) = data_rounds f recv id bytes 0 d

unfoldable pub on_data : ℕ → (ℕ → NetDrive → NetDrive) → ℕ → List ℕ → NetDrive → Delivered
on_data f recv id bytes d = on_data_of f recv id bytes d (grab d id)

abbrev pub run_callback : (ℕ → NetDrive → NetDrive) → ℕ → NetDrive → NetDrive
run_callback run f d = if f == 0 then d else run f d

abbrev pub close_of : (ℕ → NetDrive → NetDrive) → ℕ → NetDrive → Option NetSocket → NetDrive
close_of run id d none = d
close_of run id d (some s) =
    erase id (run_callback run s.on_callback (insert (record s { connected = false }) d))

-- `onClose`, where `run f` is what the callback `f` does to the sockets
unfoldable pub on_close : (ℕ → NetDrive → NetDrive) → ℕ → NetDrive → NetDrive
on_close run id d = close_of run id d (grab d id)

abbrev pub open_of : (ℕ → NetDrive → NetDrive) → NetDrive → Option NetSocket → NetDrive
open_of run d none = d
open_of run d (some s) = run_callback run s.on_callback (insert (record s { connected = true }) d)

unfoldable pub on_open : (ℕ → NetDrive → NetDrive) → ℕ → NetDrive → NetDrive
on_open run id d = open_of run d (grab d id)

abbrev pub accept_of :
    (ℕ → NetDrive → NetDrive) → ℕ → NetDrive → Option NetSocket → NetDrive × List Call
accept_of run id d none = (d, socket_close id ∷ [])
accept_of run id d (some s) = (if s.connected then run_callback run s.on_callback d else d, [])

unfoldable pub on_accept : (ℕ → NetDrive → NetDrive) → ℕ → NetDrive → NetDrive × List Call
on_accept run id d = accept_of run id d (grab d id)

abbrev pub abandon_of : ℕ → NetDrive → Option NetSocket → NetDrive
abandon_of id d none = d
abandon_of id d (some s) = erase id d

unfoldable pub abandon : ℕ → NetDrive → NetDrive
abandon id d = abandon_of id d (grab d id)

abbrev pub close_calls : ℕ → Option NetSocket → List Call
close_calls id none = []
close_calls id (some s) = if s.connected then socket_close id ∷ [] else []

-- `close` asks the socket server; the entry stays until `onClose`.
unfoldable pub close : ℕ → NetDrive → List Call
close id d = close_calls id (grab d id)

abbrev pub error_of :
    (ℕ → NetDrive → NetDrive) → ℕ → NetDrive → Option NetSocket → NetDrive × List Call
error_of run id d none = (d, log ∷ [])
error_of run id d (some s) =
    let calls = socket_shutdown id ∷ [] in
    (run_callback run s.on_callback d, if s.connected then log ∷ calls else calls)

unfoldable pub on_error : (ℕ → NetDrive → NetDrive) → ℕ → NetDrive → NetDrive × List Call
on_error run id d = error_of run id d (grab d id)

abbrev pub warn_of : (ℕ → NetDrive → NetDrive) → NetDrive → Option NetSocket → NetDrive × List Call
warn_of run d none = (d, [])
warn_of run d (some s) = if s.on_warning == 0 then (d, log ∷ []) else (run s.on_warning d, [])

unfoldable pub on_warn : (ℕ → NetDrive → NetDrive) → ℕ → NetDrive → NetDrive × List Call
on_warn run id d = warn_of run d (grab d id)

abbrev pub shutdown_calls : ℕ → Option NetSocket → List Call
shutdown_calls id none = []
shutdown_calls id (some s) = socket_shutdown id ∷ []

unfoldable pub shutdown : ℕ → NetDrive → List Call
shutdown id d = shutdown_calls id (grab d id)

-- the results that the socket server delivers; `other` is a UDP packet or an unknown type
pub data AsynResult : Type 0 where
  accepted opened failed closed warned : ℕ → AsynResult
  received : ℕ → List ℕ → AsynResult
  other : AsynResult

abbrev pub handled : NetDrive × List Call → Delivered × List Call
handled (d, calls) = (done d, calls)

-- `onEvent`: callbacks run by `run`, and `onRecv` of a socket by `recv`
unfoldable pub on_event :
    ℕ
    → (ℕ → NetDrive → NetDrive)
    → (ℕ → NetDrive → NetDrive)
    → AsynResult
    → NetDrive
    → Delivered × List Call
on_event f run recv (accepted id) d = handled (on_accept run id d)
on_event f run recv (received id bytes) d = (on_data f recv id bytes d, [])
on_event f run recv (opened id) d = (done (on_open run id d), [])
on_event f run recv (failed id) d = handled (on_error run id d)
on_event f run recv (closed id) d = (done (on_close run id d), [])
on_event f run recv (warned id) d = handled (on_warn run id d)
on_event f run recv other d = (done d, [])
