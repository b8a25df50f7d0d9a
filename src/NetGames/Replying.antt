-- ===== src/NetGames/Replying.antt =====
-- What the clients get from `onCallback`.
use Prim.{tt}
use rednet.Common.{ℕ, ◌≡◌, Bool, List, Option, none, some, either_way}
use rednet.Socket.{Written}
use rednet.SocketServer.{Server}
use rednet.SocketServer.Live.{IsLive}
use rednet.SocketServer.Stream.{WhenTaken, Sends, socket_send-stream}
use rednet.NetDrive.{NetDrive, NetSocket, grab}
use rednet.NetGames.Replies.{int_at, drive_send, send_on, Called, no_reply, outside, replied}
use rednet.NetGames.Heads.{Headed}
use rednet.NetGames.Starts.{Started}

-- A reply to the socket that the answer names, with a command and a code.
abbrev pub Replies : ℕ → ℕ → List ℕ → Called → Type 0
Replies cmd code bytes no_reply = ⊥
Replies cmd code bytes outside = ⊥
Replies cmd code bytes (replied r) = (r.socket ≡ int_at bytes 0) × Headed cmd code r.bytes

-- A reply to a start.
abbrev pub StartReplies : List ℕ → Called → Type 0
StartReplies bytes no_reply = ⊥
StartReplies bytes outside = ⊥
StartReplies bytes (replied r) = Started bytes r

send_on-stream :
    (locked : Bool) (w : Written) (id : ℕ) (b : List ℕ) (o : Option NetSocket) (v : Server)
    → IsLive id v
    → WhenTaken (Sends id b v) (send_on locked w id b o v)
send_on-stream locked w id b none v h = tt
send_on-stream locked w id b (some s) v h =
    either_way (WhenTaken (Sends id b v)) s.connected _ _ (socket_send-stream locked w id b v h) tt

-- Where the socket server takes what `unetdrive::send` gives it for a connected socket, the bytes come at
-- the end of the socket's stream.
pub drive_send-stream :
    (locked : Bool) (w : Written) (id : ℕ) (b : List ℕ) (d : NetDrive) (v : Server)
    → IsLive id v
    → WhenTaken (Sends id b v) (drive_send locked w id b d v)
unfolding drive_send
drive_send-stream locked w id b d v h = send_on-stream locked w id b (grab d id) v h
