-- ===== src/SocketServer/HalfClose.antt =====
-- A close that leaves a socket half closed.
use rednet.Common.{
  ℕ, ◌≡◌, ◌≢◌, refl, ap, sym, subst, ◌∙◌, Bool, true, false, List, [], ◌∷◌, none, arith, Bool-cases,
  inl, inr, ltb, ◌==◌, length, update_self,
}
use rednet.Socket.{
  connected, halfclose, go_on, Socket, Written, Done, protocol_tcp, tag16, is_empty, is_null,
  is_forward, is_close, send_list, begin_forward_tcp, begin_forward_list, begin_forward, on_forward,
}
use rednet.Socket.Pending.{joined}
use rednet.SocketServer.{
  Server, place_of, sock_of, is_gone, goes_on, on_forward_message, oper_close,
}
use rednet.SocketServer.Live.{IsOpen, IsLive, same}

-- the socket of which nothing waits
abbrev quiet_socket : Socket → Socket
quiet_socket s = record s {
  forward_list = [];
  forward_buffer = none;
  forward_size = 0;
  status = connected;
  protocol = protocol_tcp;
}

send_list-nil :
    (ws : List Written) → send_list ws [] ≡ record { answer = go_on; left = []; bytes = [] }
unfolding send_list
send_list-nil [] = refl
send_list-nil (w ∷ ws) = refl

-- what `onForward` does to a socket of which nothing waits
record Quiet (s : Socket) (r : Done) : Type 0 where
  goes : goes_on r.answer ≡ true
  still : is_close r.answer ≡ false
  forward_in : r.socket.forward_in ≡ s.forward_in

quiet_socket-Quiet :
    (locked : Bool) (ws : List Written) (s : Socket)
    → Quiet s (on_forward locked ws (quiet_socket s))
unfolding on_forward begin_forward begin_forward_list begin_forward_tcp
quiet_socket-Quiet false ws s = record { goes = refl; still = refl; forward_in = refl }
quiet_socket-Quiet true ws s =
    rw (send_list-nil ws) (elim (Bool-cases (ltb 0 s.forward_warn_size)) [
      | inl e ↦ rw e (record { goes = refl; still = refl; forward_in = refl })
      | inr e ↦ rw e (record { goes = refl; still = refl; forward_in = refl })
    ])

quiet :
    (locked : Bool) (ws : List Written) (id n : ℕ) (s : Socket)
    → IsOpen id n s
    → s.forward_list ≡ []
    → s.forward_buffer ≡ none
    → Quiet s (on_forward locked ws s)
quiet locked ws id n s o e f =
    let z : s.forward_size ≡ 0 = o.counted ∙ ap (λ l. length (joined l)) e in
    subst (λ l. Quiet s (on_forward locked ws (record s { forward_list = l }))) (sym e)
      (subst
        (λ b. Quiet s (on_forward locked ws (record s { forward_list = []; forward_buffer = b })))
        (sym f)
        (subst
          (λ k. Quiet s (
            on_forward locked ws
              (record s { forward_list = []; forward_buffer = none; forward_size = k })))
          (sym z)
          (subst
            (λ k. Quiet s (
              on_forward locked ws (record s {
                forward_list = [];
                forward_buffer = none;
                forward_size = 0;
                status = k;
              })))
            (sym o.status)
            (subst
              (λ k. Quiet s (
                on_forward locked ws (record s {
                  forward_list = [];
                  forward_buffer = none;
                  forward_size = 0;
                  status = connected;
                  protocol = k;
                })))
              (sym o.tcp) (quiet_socket-Quiet locked ws s)))))

tagged : (s : Socket) → s.forward_in ≢ 0 → is_forward s ≡ false
unfolding is_forward
tagged s n =
    let z : (s.forward_in == 0) ≡ false = ground arith in
    rw z (elim (Bool-cases (is_empty s.forward_list)) [
      | inl e ↦
          rw e
            (elim (Bool-cases (is_null s.forward_buffer)) [ inl f ↦ rw f refl | inr f ↦ rw f refl ])
      | inr e ↦ rw e refl
    ])

pub here : (id n : ℕ) (s : Socket) → IsOpen id n s → is_gone id s ≡ false
here id n s o = let own : (s.id == id) ≡ true = rw o.own (same id) in rw (o.status, own) refl

-- A close without shutdown of a connected socket whose id has a tag, where nothing waits to be written,
-- does not close it: the socket is half closed, and nothing is reported. Where the tag is 0 it would be
-- closed: the test of `isForward` compares the whole counter, with the tag in it, with 0.
pub oper_close-tagged :
    (locked : Bool) (ws : List Written) (id opaque : ℕ) (v : Server)
    → IsLive id v
    → tag16 id ≢ 0
    → (sock_of v id).forward_list ≡ []
    → (sock_of v id).forward_buffer ≡ none
    → ((oper_close locked ws false id opaque v).0 ≡ go_on)
      × ((sock_of (oper_close locked ws false id opaque v).1 id).status ≡ halfclose)
      × ((oper_close locked ws false id opaque v).1.reports ≡ v.reports)
unfolding oper_close on_forward_message
oper_close-tagged locked ws id opaque v o t e f =
    let s = sock_of v id in
    let q = quiet locked ws id _ s o e f in
    let r = on_forward locked ws s in
    let busy = tagged s (λ z. t (omega (arith, o.refs))) in
    let busy2 = tagged r.socket (λ z. t (omega (arith, o.refs, q.forward_in))) in
    rw
      (
        here id _ s o,
        busy,
        q.goes,
        q.still,
        update_self v.socks (place_of id) r.socket,
        busy2,
        update_self,
      )
      (refl, refl, refl)
