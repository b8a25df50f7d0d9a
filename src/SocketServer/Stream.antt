-- ===== src/SocketServer/Stream.antt =====
-- The bytes that services send to a connected socket, from the threads that send them to the handle.
use Prim.{Unit, tt}
use rednet.Common.{
  ℕ, ◌+◌, ◌-◌, ◌/◌, ◌^◌, ◌≡◌, refl, ap, sym, ◌∙◌, Bool, true, List, [], ◌∷◌, ◌++◌, none, some,
  arith, Bool-cases, inl, inr, if◌then◌else◌, ◌==◌, length, length-append, append_assoc, append-nil,
  update_self,
}
use rednet.Socket.{
  Socket, Written, protocol_tcp, tag16, is_forward, is_can_direct_write, inc_forward_ref,
  on_forward_data,
}
use rednet.Socket.Pending.{pending, joined, joined-append}
use rednet.Socket.Direct.{on_forward_data-Direct}
use rednet.SocketServer.{Request, send, Server, place_of, sock_of, put_done}
use rednet.SocketServer.Calls.{SendResult, refused, busy, taken, send_later, socket_send}
use rednet.SocketServer.Live.{
  sent_to, sent_to-append, stream, IsOpen, IsLive, is_forward-IsIdle, counter, same,
}

-- a statement on the server after a call that was not refused
abbrev pub WhenTaken : (Server → Type 0) → SendResult → Type 0
WhenTaken P refused = Unit {0}
WhenTaken P busy = Unit {0}
WhenTaken P (taken v) = P v

-- The socket of the id is still connected, and the bytes came at the end of its stream.
abbrev pub Sends : ℕ → List ℕ → Server → Server → Type 0
Sends id bytes v w = IsLive id w × (stream id w ≡ stream id v ++ bytes)

sent_more :
    (id : ℕ) (b : List ℕ) (rs : List Request)
    → sent_to id (rs ++ send id b ∷ []) ≡ sent_to id rs ++ b ∷ []
sent_more id b rs = sent_to-append id rs (send id b ∷ []) ∙ rw (same id) refl

at_end :
    (xs ys b : List ℕ) (l : List (List ℕ))
    → xs ++ (ys ++ joined (l ++ b ∷ [])) ≡ (xs ++ (ys ++ joined l)) ++ b
at_end xs ys b l = rw (joined-append l (b ∷ []), append-nil b, append_assoc, append_assoc) refl

inc_forward_ref_lem :
    (id n : ℕ) (s : Socket)
    → IsOpen id n s
    → inc_forward_ref s
      ≡ (if n == 2 ^ 16 - 1 then none else some (record s { forward_in = s.forward_in + 1 }))
unfolding inc_forward_ref
inc_forward_ref_lem id n s o =
    let (tag, few) = counter id n s o in
    let same_tag : (s.forward_in / 2 ^ 16 == tag16 s.id) ≡ true =
      rw (tag, o.own) (same (tag16 id)) in
    let tcp : (s.protocol == protocol_tcp) ≡ true = rw o.tcp refl in rw (tcp, same_tag, few) refl

later-Sends :
    (id : ℕ) (b : List ℕ) (v : Server)
    → IsLive id v
    → WhenTaken (Sends id b v) (send_later id b (inc_forward_ref (sock_of v id)) v)
later-Sends id b v o =
    rw (inc_forward_ref_lem id (length (sent_to id v.channel)) (sock_of v id) o)
      (elim (Bool-cases (length (sent_to id v.channel) == 2 ^ 16 - 1)) [
        | inl e ↦ rw e tt
        | inr e ↦
            let t = record (sock_of v id) { forward_in = (sock_of v id).forward_in + 1 } in
            rw
              (
                e,
                update_self v.socks (place_of id) t,
                sent_more id b v.channel,
                length-append (sent_to id v.channel) (b ∷ []),
              )
              (
                record {
                  own = o.own;
                  tcp = o.tcp;
                  status = o.status;
                  counted = o.counted;
                  refs = omega (arith, o.refs);
                  few = ground arith;
                },
                at_end (v.wire (place_of id)) (pending (sock_of v id)) b (sent_to id v.channel),
              )
      ])

no_length : (l : List (List ℕ)) → length l ≡ 0 → l ≡ []
no_length [] e = refl
no_length (b ∷ l) e = absurd (omega arith)

-- where nothing waits, a direct write is the next bytes of the stream
direct_end : (xs ys zs b : List ℕ) → ys ++ zs ≡ b → (xs ++ ys) ++ (zs ++ []) ≡ (xs ++ []) ++ b
direct_end xs ys zs b e =
    rw (append-nil zs, append-nil xs) (append_assoc xs ys zs ∙ ap (λ k. xs ++ k) e)

direct-Sends :
    (w : Written) (id : ℕ) (b : List ℕ) (v : Server)
    → IsLive id v
    → is_forward (sock_of v id) ≡ true
    → Sends id b v (put_done id (on_forward_data w b (sock_of v id)) v)
direct-Sends w id b v o h =
    let s = sock_of v id in
    let idle = is_forward-IsIdle s h in
    let d = on_forward_data-Direct w b s idle.list idle.buffer in
    let r = on_forward_data w b s in
    let nothing : sent_to id v.channel ≡ [] =
      no_length (sent_to id v.channel) (omega (arith, idle.refs, o.refs)) in
    rw
      (
        update_self v.socks (place_of id) r.socket,
        update_self v.wire (place_of id) (v.wire (place_of id) ++ r.bytes),
      )
      (
        record {
          own = d.id ∙ o.own;
          tcp = d.protocol ∙ o.tcp;
          status = d.status ∙ o.status;
          counted = d.size ∙ o.counted ∙ ap (λ l. length (joined l)) (sym d.list);
          refs = d.forward_in ∙ o.refs;
          few = o.few;
        },
        rw (nothing, idle.list, idle.buffer)
            (direct_end (v.wire (place_of id)) r.bytes (pending r.socket) b d.stream),
      )

-- `socketSend` to a connected TCP socket, whose counter has the commands that wait for it, lets the
-- bytes come at the end of the stream of the socket, and the socket stays as it was in this: whether
-- it writes them directly, whole or in part, or sends a command.
pub socket_send-stream :
    (locked : Bool) (w : Written) (id : ℕ) (buffer : List ℕ) (v : Server)
    → IsLive id v
    → WhenTaken (Sends id buffer v) (socket_send locked w id buffer v)
unfolding socket_send is_can_direct_write
socket_send-stream locked w id buffer v o =
    let s = sock_of v id in
    let later = later-Sends id buffer v o in
    let own : (s.id == id) ≡ true = rw o.own (same id) in
    rw (own, o.status)
      (elim (Bool-cases (is_forward s)) [
        | inr h ↦ rw h later
        | inl h ↦ rw h (elim (Bool-cases locked) [
          | inr l ↦ rw l later
          | inl l ↦ rw l (direct-Sends w id buffer v o h)
        ])
      ])
