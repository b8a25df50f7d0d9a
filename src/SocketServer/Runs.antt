-- ===== src/SocketServer/Runs.antt =====
-- Runs of the threads and of the socket thread, for a connected socket.
use rednet.Common.{
  ℕ, ◌≡◌, ◌≢◌, refl, ap, sym, subst, ◌∙◌, Bool, List, [], ◌∷◌, ◌++◌, append_assoc, append-nil,
}
use rednet.Socket.{connected, Written}
use rednet.SocketServer.{Request, Server, sock_of, on_channel_recv}
use rednet.SocketServer.Calls.{taken, socket_send, forward_channel, reserve_id}
use rednet.SocketServer.Poll.{World, PollEvent, on_event}
use rednet.SocketServer.Live.{sent_in, sent_to, sent_to-append, stream, IsLive}
use rednet.SocketServer.Stream.{WhenTaken, Sends, socket_send-stream}
use rednet.SocketServer.Commands.{Holds}
use rednet.SocketServer.Apart.{Apart, Apart-Holds, socket_send-other}
use rednet.SocketServer.Accept.{reserve-Apart}
use rednet.SocketServer.Channel.{on_channel_recv-IsCalm}
use rednet.SocketServer.Events.{IsPlace, on_event-IsCalm}

-- From the server `v`, any threads call `socketSend` for any ids, reserve ids and ask for anything else by
-- the channel, which is what the other calls are made of, the socket thread takes any commands, and the
-- poll reports any events at any places, in any order and with any results of the system calls,
-- as long as the socket of `id` is still connected after each command and event. The list has the bytes
-- that `socketSend` took for `id`, in the order of the calls.
pub data Run (id : ℕ) (v : Server) : List ℕ → Server → Type 0 where
  begin : Run id v [] v
  sends :
      (sent : List ℕ) (w u : Server) (locked : Bool) (r : Written) (b : List ℕ)
      → Run id v sent w
      → socket_send locked r id b w ≡ taken u
      → Run id v (sent ++ b) u
  sends_other :
      (sent : List ℕ) (w u : Server) (locked : Bool) (r : Written) (k : ℕ) (b : List ℕ)
      → Run id v sent w
      → k ≢ id
      → socket_send locked r k b w ≡ taken u
      → Run id v sent u
  asks :
      (sent : List ℕ) (w : Server) (r : Request)
      → Run id v sent w
      → sent_in id r ≡ []
      → Run id v sent (forward_channel r w)
  reserves : (sent : List ℕ) (w : Server) → Run id v sent w → Run id v sent (reserve_id w).1
  serves :
      (sent : List ℕ) (w : Server) (reg_ok locked : Bool) (ws : List Written)
      → Run id v sent w
      → (sock_of (on_channel_recv reg_ok locked ws w).1 id).status ≡ connected
      → Run id v sent (on_channel_recv reg_ok locked ws w).1
  polls :
      (sent : List ℕ) (w : Server) (world : World) (e : PollEvent)
      → Run id v sent w
      → IsPlace e.place
      → (sock_of (on_event world e w).2 id).status ≡ connected
      → Run id v sent (on_event world e w).2

asked-Apart :
    (id : ℕ) (r : Request) (w : Server) → sent_in id r ≡ [] → Apart id w (forward_channel r w)
asked-Apart id r w e = record {
  sock = refl;
  wire = refl;
  sent = sent_to-append id w.channel (r ∷ []) ∙ rw e (append-nil (sent_to id w.channel));
}

reserve_id-Apart : (id : ℕ) (w : Server) → IsLive id w → Apart id w (reserve_id w).1
unfolding reserve_id
reserve_id-Apart id w o = reserve-Apart _ id w o

hold :
    (id : ℕ) (v w u : Server) (sent : List ℕ)
    → IsLive id w × (stream id w ≡ stream id v ++ sent)
    → Holds id w u
    → IsLive id u × (stream id u ≡ stream id v ++ sent)
hold id v w u sent (o, e) (p, f) = (p, f ∙ e)

-- Let the socket of an id be connected, with its counter right. After any run of sends, other calls,
-- commands and events of the poll in any order, as long as the socket is still connected after each of
-- them, the bytes written to its handle, then those that wait in the socket, then those of the commands
-- for it are what they were before the run, followed by the bytes that `socketSend` took in it for the id,
-- in the order of the calls; and its counter is right.
pub Run-stream :
    (id : ℕ) (v : Server) (sent : List ℕ) (w : Server)
    → Run id v sent w
    → IsLive id v
    → IsLive id w × (stream id w ≡ stream id v ++ sent)
Run-stream id v _ _ begin o = (o, sym (append-nil (stream id v)))
Run-stream id v _ _ (sends sent w u locked r b run e) o =
    let (p, f) = Run-stream id v sent w run o in
    let (q, g) = subst (WhenTaken (Sends id b w)) e (socket_send-stream locked r id b w p) in
    (q, g ∙ ap (λ k. k ++ b) f ∙ append_assoc (stream id v) sent b)
Run-stream id v _ _ (sends_other sent w u locked r k b run n e) o =
    let h = Run-stream id v sent w run o in
    hold id v w u sent h
      (subst (WhenTaken (Holds id w)) e (socket_send-other locked r id k b w n h.0))
Run-stream id v _ _ (asks sent w r run e) o =
    let h = Run-stream id v sent w run o in
    hold id v w (forward_channel r w) sent h (Apart-Holds (asked-Apart id r w e) h.0)
Run-stream id v _ _ (reserves sent w run) o =
    let h = Run-stream id v sent w run o in
    hold id v w (reserve_id w).1 sent h (Apart-Holds (reserve_id-Apart id w h.0) h.0)
Run-stream id v _ _ (serves sent w reg_ok locked ws run c) o =
    let h = Run-stream id v sent w run o in
    hold id v w (on_channel_recv reg_ok locked ws w).1 sent h
      (on_channel_recv-IsCalm reg_ok locked ws id w h.0 c)
Run-stream id v _ _ (polls sent w world e run p c) o =
    let h = Run-stream id v sent w run o in
    hold id v w (on_event world e w).2 sent h (on_event-IsCalm world e id w p h.0 c)
