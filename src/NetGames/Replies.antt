-- ===== src/NetGames/Replies.antt =====
-- service-src/service_netgames.cc, `onCallback` and what it calls: the answers of the service of the games
-- become replies to the clients, with the structs of gameevent.h. `mem` is what the 256 bytes of the reply
-- hold when `malloc` returns them, and `bytes` is the event's data.
use rednet.Common.{
  ℕ, zero, suc, ◌+◌, ◌*◌, ◌/◌, ◌%◌, ◌^◌, Bool, ◌&&◌, List, [], ◌∷◌, Option, none, some,
  if◌then◌else◌, ltb, leb, ◌==◌, length, take, drop, get_or,
}
use rednet.Socket.{Written}
use rednet.SocketServer.{Server}
use rednet.SocketServer.Calls.{SendResult, refused, socket_send}
use rednet.NetDrive.{NetDrive, NetSocket, grab}
use rednet.NetGames.{ep_user}

-- sizeof(Reponse)
abbrev pub reply_size : ℕ
reply_size = 132

-- NC_LOGIN and the others
abbrev pub nc_login : ℕ
nc_login = 1

abbrev pub nc_enterroom : ℕ
nc_enterroom = 2

abbrev pub nc_exitroom : ℕ
nc_exitroom = 3

-- PGE_LOGIN and the others
abbrev pub pge_login : ℕ
pge_login = ep_user + 1

abbrev pub pge_enter : ℕ
pge_enter = ep_user + 2

abbrev pub pge_exit : ℕ
pge_exit = ep_user + 3

abbrev pub pge_start : ℕ
pge_start = ep_user + 4

-- an `int` of the bytes as its 32-bit pattern, the low byte first
abbrev pub int_at : List ℕ → ℕ → ℕ
int_at bytes i =
    get_or bytes i 0
    + get_or bytes (i + 1) 0 * 2 ^ 8
    + get_or bytes (i + 2) 0 * 2 ^ 16
    + get_or bytes (i + 3) 0 * 2 ^ 24

abbrev pub word_bytes : ℕ → List ℕ
word_bytes n = n % 256 ∷ n / 256 % 256 ∷ []

-- A buffer after a write of bytes to its first ones, and to those from `n` on, where it has room for them.
unfoldable pub overlay : List ℕ → List ℕ → List ℕ
overlay [] mem = mem
overlay (b ∷ bs) [] = []
overlay (b ∷ bs) (m ∷ mem) = b ∷ overlay bs mem

unfoldable pub put_at : ℕ → List ℕ → List ℕ → List ℕ
put_at zero bs mem = overlay bs mem
put_at (suc n) bs [] = []
put_at (suc n) bs (m ∷ mem) = m ∷ put_at n bs mem

-- a write from `n` on: none where it goes past the end of the buffer
unfoldable pub write_at : ℕ → List ℕ → List ℕ → Option (List ℕ)
write_at n bs mem = if leb (n + length bs) (length mem) then some (put_at n bs mem) else none

abbrev pub and_char : ℕ → Option (List ℕ) → Option (List ℕ)
and_char b none = none
and_char b (some bs) = some (b ∷ bs)

-- What `strcpy` copies: the bytes up to the first 0, with it. It reads past the end of bytes without a 0:
-- none.
unfoldable pub c_string : List ℕ → Option (List ℕ)
c_string [] = none
c_string (b ∷ bs) = let later = and_char b (c_string bs) in if b == 0 then some (b ∷ []) else later

-- a reply to a socket
pub record Reply : Type 0 where
  pub socket : ℕ
  pub bytes : List ℕ

-- `code`, for a pattern that is 0 or negative as an `int`
abbrev pub login_code : ℕ → ℕ
login_code user = if ltb 0 user && ltb user (2 ^ 31) then 0 else 1

abbrev pub with_head : ℕ → ℕ → List ℕ → List ℕ
with_head cmd code mem = put_at 2 (word_bytes code) (put_at 0 (word_bytes cmd) mem)

unfoldable pub login_back : List ℕ → List ℕ → Reply
login_back mem bytes = record {
  socket = int_at bytes 0;
  bytes =
      take reply_size
        (put_at 4 (take 4 (drop 4 bytes)) (with_head nc_login (login_code (int_at bytes 4)) mem));
}

-- `enterRoomBackProc` and `exitRoomBackProc`
unfoldable pub room_back : ℕ → List ℕ → List ℕ → Reply
room_back cmd mem bytes = record {
  socket = int_at bytes 0;
  bytes = take reply_size (with_head cmd 0 mem);
}

-- sizeof(startBack)
abbrev pub start_back_size : ℕ
start_back_size = 95

-- the reply of `startBackProc` from the buffer that its writes leave
abbrev pub start_reply : List ℕ → Option (List ℕ) → Option Reply
start_reply bytes none = none
start_reply bytes (some mem) =
    some (record { socket = int_at bytes 0; bytes = take reply_size mem })

-- a `strcpy` into the buffer
abbrev pub copy_at : ℕ → Option (List ℕ) → Option (List ℕ) → Option (List ℕ)
copy_at n none mem = none
copy_at n (some text) none = none
copy_at n (some text) (some mem) = write_at n text mem

abbrev pub with_port : List ℕ → Option (List ℕ) → Option (List ℕ)
with_port bytes none = none
with_port bytes (some mem) = write_at 23 (take 4 (drop 23 bytes)) mem

-- `startBackProc`, whose command is PGE_START: none where it reads past the end of the data or writes past
-- the end of the buffer
unfoldable pub start_back : List ℕ → List ℕ → Option Reply
start_back mem bytes =
    let head = some (with_head pge_start (int_at bytes 91) mem) in
    let ip = copy_at 4 (c_string (drop 4 bytes)) head in
    let session = copy_at 27 (c_string (drop 27 bytes)) (with_port bytes ip) in
    if leb start_back_size (length bytes) then start_reply bytes session else none

-- What `onCallback` comes to for an event that is not of a socket: no reply, a reply, or an access outside
-- the data or the buffer, from where C++ leaves open what happens.
pub data Called : Type 0 where
  no_reply outside : Called
  replied : Reply → Called

abbrev pub reply_or_outside : Option Reply → Called
reply_or_outside none = outside
reply_or_outside (some r) = replied r

-- a reply from the first `n` bytes of the data
abbrev pub from_first : ℕ → List ℕ → Reply → Called
from_first n bytes r = if leb n (length bytes) then replied r else outside

unfoldable pub on_callback : ℕ → List ℕ → List ℕ → Called
on_callback type mem bytes =
    if type == pge_login
    then from_first 8 bytes (login_back mem bytes)
    else if type == pge_enter
    then from_first 4 bytes (room_back nc_enterroom mem bytes)
    else if type == pge_exit
    then from_first 4 bytes (room_back nc_exitroom mem bytes)
    else if type == pge_start
    then reply_or_outside (start_back mem bytes)
    else no_reply

-- `unetdrive::send`
abbrev pub send_on : Bool → Written → ℕ → List ℕ → Option NetSocket → Server → SendResult
send_on locked w id bytes none v = refused
send_on locked w id bytes (some s) v =
    if s.connected then socket_send locked w id bytes v else refused

unfoldable pub drive_send : Bool → Written → ℕ → List ℕ → NetDrive → Server → SendResult
drive_send locked w id bytes d v = send_on locked w id bytes (grab d id) v
