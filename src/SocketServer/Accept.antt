-- ===== src/SocketServer/Accept.antt =====
-- The events of the poll at a place that is not the one of a connected socket, and the clients that a
-- listener accepts.
use rednet.Common.{
  ℕ, zero, suc, ◌≡◌, refl, ap, sym, ◌∙◌, Bool, true, false, false≢true, List, [], Option, none,
  some, if◌then◌else◌, arith, Bool-cases, inl, inr, ◌==◌,
}
use rednet.Socket.{
  Status, invalid, reserve, plisten, listen, connecting, connected, halfclose, paccept, bind,
  Answer, go_on, data_answer, close_answer, open_answer, accept_answer, err_answer, warning_answer,
  assert_failed, protocol_tcp, Socket, Received, on_recv, on_close,
}
use rednet.SocketServer.{
  Server, place_of, sock_of, put_sock, is_invalid, Made, failed_assert, refused, made,
}
use rednet.SocketServer.Calls.{next_id, reserve_rounds, reserve_id}
use rednet.SocketServer.Poll.{
  closed_at, on_connection, Accepted, client, too_many, no_client, announce, accept_with,
  on_report_accept, report_recv, on_recv_message, PollEvent, World, on_ready, on_event_at,
}
use rednet.SocketServer.Live.{IsLive}
use rednet.SocketServer.Apart.{Apart, Apart-Holds, Apart-refl, Apart-trans, put-Apart}
use rednet.SocketServer.Others.{noted, either_way}
use rednet.SocketServer.Closing.{forward_message-Apart}
use rednet.SocketServer.Channel.{MadeApart, new_socket-MadeApart}

free_elsewhere :
    (id k : ℕ) (v : Server)
    → IsLive id v
    → is_invalid (sock_of v k).status ≡ true
    → (place_of k == place_of id) ≡ false
free_elsewhere id k v o e = elim (Bool-cases (place_of k == place_of id)) [
  | inr h ↦ h
  | inl h ↦
      let at : place_of k ≡ place_of id = ground arith in
      let used : is_invalid (sock_of v k).status ≡ false =
        ap (λ p. is_invalid (v.socks p).status) at ∙ ap is_invalid o.status in
      absurd (false≢true (sym used ∙ e))
]

counted_on : (id n : ℕ) (v : Server) → Apart id v (record v { alloc = n })
counted_on id n v = record { sock = refl; wire = refl; sent = refl }

pub reserve-Apart : (n id : ℕ) (v : Server) → IsLive id v → Apart id v (reserve_rounds n v).1
unfolding reserve_rounds
reserve-Apart zero id v o = Apart-refl
reserve-Apart (suc n) id v o =
    let k = next_id v.alloc in
    let w = record v { alloc = k } in
    let first = counted_on id k v in
    let later = reserve-Apart n id w (Apart-Holds first o).0 in
    elim (Bool-cases (is_invalid (sock_of v k).status)) [
      | inl e ↦ rw e (Apart-trans first (put-Apart id k _ w (free_elsewhere id k v o e)))
      | inr e ↦ rw e (Apart-trans first later)
    ]

announce-Apart :
    (id k : ℕ) (s : Socket) (v : Server) (m : Made)
    → MadeApart id k v m
    → Apart id v (announce s k v m).1
announce-Apart id k s v failed_assert a = Apart-refl
announce-Apart id k s v (refused w) (h, a) = a
announce-Apart id k s v (made w) (h, a) =
    noted _ s.id s.opaque k [] (Apart-trans a (put-Apart id k _ w h))

accept_with-Apart :
    (id sck : ℕ) (s : Socket) (r : Option ℕ × Server)
    → IsLive id r.1
    → Apart id r.1 (accept_with s sck r).1
accept_with-Apart id sck s (none, w) o = Apart-refl
accept_with-Apart id sck s (some k, w) o =
    announce-Apart id k s w _ (new_socket-MadeApart true id k sck protocol_tcp s.opaque w o)

report_accept-Apart :
    (a : Accepted) (id place : ℕ) (v : Server)
    → IsLive id v
    → Apart id v (on_report_accept a place v).1
unfolding on_report_accept reserve_id
report_accept-Apart (client sck) id place v o =
    let first = reserve-Apart _ id v o in
    Apart-trans first
      (accept_with-Apart id sck (v.socks place) (reserve_id v) (Apart-Holds first o).0)
report_accept-Apart too_many id place v o = noted _ _ _ 0 [] Apart-refl
report_accept-Apart no_client id place v o = Apart-refl

module _ (id place : ℕ) (v : Server) (h : (place_of place == place_of id) ≡ false) where
  closed_at-Apart : (a : Answer) (o : Option Socket) → Apart id v (closed_at a place o v).1
  closed_at-Apart a none = Apart-refl
  closed_at-Apart a (some t) = noted a _ _ 0 [] (put-Apart id place t v h)

  connection-Apart : (ok : Bool) → Apart id v (on_connection ok place v).1
  unfolding on_connection
  connection-Apart ok =
      either_way (λ r. Apart id v r.1) ok _ _ (noted _ _ _ 0 [] (put-Apart id place _ v h))
        (closed_at-Apart _ (on_close (v.socks place)))

  report_recv-Apart :
      (a : Answer) (k opaque : ℕ) (b : List ℕ) (w : Server)
      → Apart id v w
      → Apart id v (report_recv a k opaque b w)
  report_recv-Apart data_answer k opaque b w x = noted _ k opaque _ b x
  report_recv-Apart close_answer k opaque b w x = noted _ k opaque 0 [] x
  report_recv-Apart err_answer k opaque b w x = noted _ k opaque 0 [] x
  report_recv-Apart go_on k opaque b w x = x
  report_recv-Apart open_answer k opaque b w x = x
  report_recv-Apart accept_answer k opaque b w x = x
  report_recv-Apart warning_answer k opaque b w x = x
  report_recv-Apart assert_failed k opaque b w x = x

  recv_message-Apart : (input : Received) → Apart id v (on_recv_message input place v).1
  unfolding on_recv_message
  recv_message-Apart input =
      let s = v.socks place in
      let r = on_recv input s in
      report_recv-Apart r.answer s.id s.opaque r.bytes (put_sock place r.socket v)
        (put-Apart id place r.socket v h)

-- one of two results of an event
pub either_event :
    (P : Option PollEvent × Answer × Server → Type 0) (b : Bool)
    (x y : Option PollEvent × Answer × Server)
    → P x
    → P y
    → P (if b then x else y)
either_event P true x y h k = h
either_event P false x y h k = k

ready-Apart :
    (world : World) (e : PollEvent) (id : ℕ) (v : Server)
    → (place_of e.place == place_of id) ≡ false
    → Apart id v (on_ready world e v).2
unfolding on_ready
ready-Apart world e id v h =
    let P : Option PollEvent × Answer × Server → Type 0 = λ r. Apart id v r.2 in
    let read =
      either_way (λ r. Apart id v r.1) ((v.socks e.place).protocol == protocol_tcp)
        (on_recv_message world.input e.place v) (go_on, v)
        (recv_message-Apart id e.place v h world.input) Apart-refl in
    let closed = λ (a : Answer). closed_at-Apart id e.place v h a (on_close (v.socks e.place)) in
    either_event P e.isread _ _ read (
      either_event P e.iswrite _ _ (forward_message-Apart world.locked world.written id e.place v h)
        (either_event P e.iserror _ _ (closed err_answer)
          (either_event P e.iseof _ _ (closed close_answer) Apart-refl)))

-- An event at another place leaves a connected socket alone, whatever it is.
pub event-Apart :
    (st : Status) (world : World) (e : PollEvent) (id : ℕ) (v : Server)
    → IsLive id v
    → (place_of e.place == place_of id) ≡ false
    → Apart id v (on_event_at st world e v).2
event-Apart connecting world e id v o h = connection-Apart id e.place v h world.connected_ok
event-Apart listen world e id v o h = report_accept-Apart world.accepted id e.place v o
event-Apart invalid world e id v o h = Apart-refl
event-Apart reserve world e id v o h = ready-Apart world e id v h
event-Apart plisten world e id v o h = ready-Apart world e id v h
event-Apart connected world e id v o h = ready-Apart world e id v h
event-Apart halfclose world e id v o h = ready-Apart world e id v h
event-Apart paccept world e id v o h = ready-Apart world e id v h
event-Apart bind world e id v o h = ready-Apart world e id v h
