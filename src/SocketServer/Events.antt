-- ===== src/SocketServer/Events.antt =====
-- Any event of the poll, for a connected socket.
use rednet.Common.{
  ℕ, ◌≡◌, ◌≢◌, ◌<◌, ◌^◌, refl, ap, sym, subst, ◌∙◌, Bool, true, false, List, Option, arith,
  Bool-cases, inl, inr, ◌⊎◌, ◌==◌, length, take, update, update_self,
}
use rednet.Socket.{
  connected, Answer, go_on, data_answer, close_answer, err_answer, open_answer, accept_answer,
  warning_answer, assert_failed, protocol_tcp, Socket, is_close, is_halfclose, Written, Received,
  got, read_interrupted, read_would_block, read_broken, closing, on_recv, on_close, on_forward,
}
use rednet.Socket.Pending.{pending, on_forward_lem}
use rednet.SocketServer.{Server, place_of, sock_of, put_sock, on_forward_message}
use rednet.SocketServer.Poll.{
  closed_at, report_recv, on_recv_message, PollEvent, World, on_ready, on_event,
}
use rednet.SocketServer.Live.{sent_to, IsOpen, IsLive}
use rednet.SocketServer.Apart.{Apart-Holds}
use rednet.SocketServer.Ready.{on_forward_message-Holds}
use rednet.SocketServer.Close.{connected≢reserve}
use rednet.SocketServer.Others.{IsCalm}
use rednet.SocketServer.Closing.{over}
use rednet.SocketServer.Accept.{either_event, event-Apart}

abbrev pub IsPlace : ℕ → Type 0
IsPlace p = p < 2 ^ 16

-- a socket that is not connected any more, or is as it was for the stream
Fate : ℕ → ℕ → Socket → Socket → Type 0
Fate id n s t = (t.status ≢ connected) ⊎ (IsOpen id n t × (pending t ≡ pending s))

recv_closed :
    (a : Answer) (id n : ℕ) (s : Socket)
    → s.status ≡ connected
    → Fate id n s (closing a s (on_close s)).socket
unfolding on_close Fate
recv_closed a id n s e = rw e (inl (over _ refl))

recv_lem :
    (input : Received) (id n : ℕ) (s : Socket)
    → IsOpen id n s
    → Fate id n s (on_recv input s).socket
unfolding on_recv Fate
recv_lem read_interrupted id n s o = inr (o, refl)
recv_lem read_would_block id n s o = inr (o, refl)
recv_lem read_broken id n s o = recv_closed err_answer id n s o.status
recv_lem (got bytes) id n s o = elim (Bool-cases (length (take s.read_size bytes) == 0)) [
  | inl z ↦ rw z (recv_closed close_answer id n s o.status)
  | inr z ↦
      let open_still : is_halfclose s.status ≡ false = ap is_halfclose o.status in
      rw (z, open_still)
        (inr (
          record {
            own = o.own;
            tcp = o.tcp;
            status = o.status;
            counted = o.counted;
            refs = o.refs;
            few = o.few;
          },
          refl,
        ))
]

module _ (id p : ℕ) (v : Server) (o : IsLive id v) (at : place_of p ≡ place_of id) where
  put_here : (t : Socket) → update v.socks (place_of p) t (place_of id) ≡ t
  put_here t = ap (λ q. update v.socks q t (place_of id)) at ∙ update_self v.socks (place_of id) t

  -- the socket of the id, put back in another form
  put-IsCalm :
      (t : Socket)
      → Fate id (length (sent_to id v.channel)) (sock_of v id) t
      → IsCalm id v (put_sock p t v)
  unfolding Fate
  put-IsCalm t (inl n) c = absurd (n (ap (λ s. s.status) (sym (put_here t)) ∙ c))
  put-IsCalm t (inr (q, e)) c = rw (put_here t, e) (q, refl)

  report_recv-IsCalm :
      (a : Answer) (k opaque : ℕ) (b : List ℕ) (w : Server)
      → IsCalm id v w
      → IsCalm id v (report_recv a k opaque b w)
  report_recv-IsCalm data_answer k opaque b w x = x
  report_recv-IsCalm close_answer k opaque b w x = x
  report_recv-IsCalm err_answer k opaque b w x = x
  report_recv-IsCalm go_on k opaque b w x = x
  report_recv-IsCalm open_answer k opaque b w x = x
  report_recv-IsCalm accept_answer k opaque b w x = x
  report_recv-IsCalm warning_answer k opaque b w x = x
  report_recv-IsCalm assert_failed k opaque b w x = x

  -- the socket that `onForward` closed
  written_off :
      (locked : Bool) (ws : List Written)
      → is_close (on_forward_message locked ws p v).0 ≡ true
      → (sock_of (on_forward_message locked ws p v).1 id).status ≢ connected
  unfolding on_forward_message
  written_off locked ws e =
      let s = sock_of v p in
      let r = on_forward locked ws s in
      let q : IsOpen id (length (sent_to id v.channel)) s =
        subst (λ k. IsOpen id (length (sent_to id v.channel)) (v.socks k)) (sym at) o in
      let f = on_forward_lem locked ws s q.counted (λ k. connected≢reserve (sym q.status ∙ k)) in
      rw e (over _ (ap (λ t. t.status) (put_here r.socket) ∙ f.gone e))

  forward_message-IsCalm :
      (locked : Bool) (ws : List Written) → IsCalm id v (on_forward_message locked ws p v).1
  forward_message-IsCalm locked ws =
      elim (Bool-cases (is_close (on_forward_message locked ws p v).0)) [
        | inr e ↦ λ c. on_forward_message-Holds locked ws id p v o (λ q. e)
        | inl e ↦ λ c. absurd (written_off locked ws e c)
      ]

  module _ (here : v.socks p ≡ sock_of v id) where
    recv_message-IsCalm : (input : Received) → IsCalm id v (on_recv_message input p v).1
    unfolding on_recv_message
    recv_message-IsCalm input =
        let r = on_recv input (v.socks p) in
        let fate = recv_lem input id _ (sock_of v id) o in
        report_recv-IsCalm r.answer (v.socks p).id (v.socks p).opaque r.bytes
          (put_sock p r.socket v)
          (put-IsCalm r.socket (
            subst
              (λ s. Fate id (length (sent_to id v.channel)) (sock_of v id) (on_recv input s).socket)
              (sym here) fate))

    closed_at-IsCalm : (a : Answer) → IsCalm id v (closed_at a p (on_close (v.socks p)) v).1
    unfolding on_close
    closed_at-IsCalm a =
        let open_still : (v.socks p).status ≡ connected = ap (λ s. s.status) here ∙ o.status in
        rw open_still (λ c. absurd (over _ (ap (λ t. t.status) (put_here _)) c))

ready-IsCalm :
    (world : World) (e : PollEvent) (id : ℕ) (v : Server)
    → IsLive id v
    → place_of e.place ≡ place_of id
    → v.socks e.place ≡ sock_of v id
    → IsCalm id v (on_ready world e v).2
unfolding on_ready
ready-IsCalm world e id v o at here =
    let P : Option PollEvent × Answer × Server → Type 0 = λ r. IsCalm id v r.2 in
    let protocol : (v.socks e.place).protocol ≡ protocol_tcp = ap (λ s. s.protocol) here ∙ o.tcp in
    let tcp : ((v.socks e.place).protocol == protocol_tcp) ≡ true = rw protocol refl in
    let read = recv_message-IsCalm id e.place v o at here world.input in
    let closed = λ (a : Answer). closed_at-IsCalm id e.place v o at here a in
    rw tcp (
      either_event P e.isread _ _ read (
        either_event P e.iswrite _ _
          (forward_message-IsCalm id e.place v o at world.locked world.written)
          (either_event P e.iserror _ _ (closed err_answer)
            (either_event P e.iseof _ _ (closed close_answer) (λ c. (o, refl))))))

-- Any event of the poll at any place keeps the stream of a connected socket, where it is still connected
-- afterwards.
pub on_event-IsCalm :
    (world : World) (e : PollEvent) (id : ℕ) (v : Server)
    → IsPlace e.place
    → IsLive id v
    → IsCalm id v (on_event world e v).2
unfolding on_event
on_event-IsCalm world e id v p o = elim (Bool-cases (place_of e.place == place_of id)) [
  | inr h ↦ λ c. Apart-Holds (event-Apart (v.socks e.place).status world e id v o h) o
  | inl h ↦
      let at : place_of e.place ≡ place_of id = ground arith in
      let place : e.place ≡ place_of id = omega (arith, at, p) in
      let here : v.socks e.place ≡ sock_of v id = ap v.socks place in
      let status : (v.socks e.place).status ≡ connected = ap (λ s. s.status) here ∙ o.status in
      rw status (ready-IsCalm world e id v o at here)
]
