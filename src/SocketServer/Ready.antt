-- ===== src/SocketServer/Ready.antt =====
-- A handle that can be written: `onForwardMessage` and the stream of a connected socket.
use rednet.Common.{
  ℕ, ◌≡◌, ◌≢◌, ap, sym, subst, ◌∙◌, Bool, false, List, [], ◌++◌, arith, Bool-cases, inl, inr, ◌==◌,
  append_assoc, append-nil, update, update_self,
}
use rednet.Socket.{connected, reserve, close_answer, Written, is_close, on_forward}
use rednet.Socket.Pending.{pending, joined, on_forward_lem}
use rednet.SocketServer.{Server, place_of, sock_of, put_done, forward_socket, on_forward_message}
use rednet.SocketServer.Live.{sent_to, IsLive, on_forward-Keeps}
use rednet.SocketServer.Commands.{Holds}
use rednet.SocketServer.Apart.{Apart, Apart-Holds, done-Apart}

reported :
    {id : ℕ} {v w : Server} (k opaque : ℕ)
    → Apart id v w
    → Apart id v (forward_socket close_answer k opaque 0 [] w)
reported k opaque a = record { sock = a.sock; wire = a.wire; sent = a.sent }

written_end :
    (xs ys zs b lost l : List ℕ)
    → ys ++ (zs ++ lost) ≡ b
    → lost ≡ []
    → (xs ++ ys) ++ (zs ++ l) ≡ xs ++ (b ++ l)
written_end xs ys zs b lost l e n =
    let whole : ys ++ zs ≡ b =
      ap (λ k. ys ++ k) (sym (append-nil zs) ∙ ap (λ k. zs ++ k) (sym n)) ∙ e in
    append_assoc xs ys (zs ++ l)
    ∙ ap (λ k. xs ++ k) (sym (append_assoc ys zs l) ∙ ap (λ k. k ++ l) whole)

connected≢reserve : connected ≢ reserve
connected≢reserve e = cc e

written-Holds :
    (locked : Bool) (ws : List Written) (id : ℕ) (v : Server)
    → IsLive id v
    → is_close (on_forward locked ws (sock_of v id)).answer ≡ false
    → Holds id v (put_done id (on_forward locked ws (sock_of v id)) v)
written-Holds locked ws id v o c =
    let s = sock_of v id in
    let r = on_forward locked ws s in
    let f = on_forward_lem locked ws s o.counted (λ e. connected≢reserve (sym o.status ∙ e)) in
    let k = on_forward-Keeps locked ws s in
    let (none_lost, counted, status) = f.stays c in
    rw
      (
        update_self v.socks (place_of id) r.socket,
        update_self v.wire (place_of id) (v.wire (place_of id) ++ r.bytes),
      )
      (
        record {
          own = k.id ∙ o.own;
          tcp = k.protocol ∙ o.tcp;
          status = status ∙ o.status;
          counted = counted;
          refs = k.forward_in ∙ o.refs;
          few = o.few;
        },
        written_end (v.wire (place_of id)) r.bytes (pending r.socket) (pending s) f.lost
            (joined (sent_to id v.channel)) f.stream none_lost,
      )

-- Where the poll reports that the handle of a place can be written, and `onForward` does not close the
-- socket that is connected there, the bytes that are written are the first of those that wait: the
-- stream is the same. An event at another place leaves it alone, whatever happens.
pub on_forward_message-Holds :
    (locked : Bool) (ws : List Written) (id k : ℕ) (v : Server)
    → IsLive id v
    → (place_of k ≡ place_of id → is_close (on_forward_message locked ws k v).0 ≡ false)
    → Holds id v (on_forward_message locked ws k v).1
unfolding on_forward_message
on_forward_message-Holds locked ws id k v o c = elim (Bool-cases (place_of k == place_of id)) [
  | inl h ↦
      let at : place_of k ≡ place_of id = ground arith in
      let r = on_forward locked ws (sock_of v id) in
      let open_still : is_close r.answer ≡ false =
        subst (λ p. is_close (on_forward locked ws (v.socks p)).answer ≡ false) at (c at) in
      rw (c at) (
        subst
          (λ p. Holds id v (record v {
            socks = update v.socks p (on_forward locked ws (v.socks p)).socket;
            wire = update v.wire p (v.wire p ++ (on_forward locked ws (v.socks p)).bytes);
          }))
          (sym at) (written-Holds locked ws id v o open_still))
  | inr h ↦ elim (Bool-cases (is_close (on_forward locked ws (sock_of v k)).answer)) [
    | inl d ↦ rw d (
        Apart-Holds
          (reported (sock_of v k).id (sock_of v k).opaque
            (done-Apart id k (on_forward locked ws (sock_of v k)) v h))
          o)
    | inr d ↦ rw d (Apart-Holds (done-Apart id k (on_forward locked ws (sock_of v k)) v h) o)
  ]
]
