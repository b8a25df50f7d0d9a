-- ===== src/SocketServer/Commands.antt =====
-- What the socket thread does with the commands that send, for the stream of a connected socket.
use rednet.Common.{
  ℕ, suc, ◌+◌, ◌-◌, ◌≡◌, ◌≢◌, refl, ap, sym, subst, ◌∙◌, Bool, true, false, ◌&&◌, List, [], ◌∷◌,
  ◌++◌, some, arith, Bool-cases, inl, inr, leb, ◌==◌, length, length-append, append_assoc,
  append-nil, update_self, update_ne,
}
use rednet.Socket.{
  Answer, assert_failed, Socket, Written, protocol_tcp, is_empty, is_connected, dec_forward_ref,
  push_forward_list,
}
use rednet.Socket.Pending.{pending, rest_of, joined, joined-append}
use rednet.SocketServer.{
  Request, send, Server, place_of, sock_of, put_sock, queue_bytes, next_warn, warning_size,
  warn_size, oper_forward, oper_dec_forward, on_channel_proc, take_command, on_channel_recv,
}
use rednet.SocketServer.Live.{sent_to, stream, IsOpen, IsLive, counter, same}

-- The socket of the id is still connected, and its stream is the same.
abbrev pub Holds : ℕ → Server → Server → Type 0
Holds id v w = IsLive id w × (stream id w ≡ stream id v)

-- A place that changed in the threshold of the warning only, and other places that did not change.
pub record Warned (id : ℕ) (v w : Server) : Type 0 where
  pub size : ℕ
  pub sock : sock_of w id ≡ record (sock_of v id) { forward_warn_size = size }
  pub other : (j : ℕ) → (place_of id == j) ≡ false → w.socks j ≡ v.socks j
  pub wire : w.wire ≡ v.wire
  pub channel : w.channel ≡ v.channel

pub warn_size-Warned :
    (id : ℕ) (v : Server) → Warned id v (warn_size id v).1 × ((warn_size id v).0 ≢ assert_failed)
unfolding warn_size
warn_size-Warned id v =
    let s = sock_of v id in
    let t = record s { forward_warn_size = next_warn s.forward_warn_size } in
    elim (Bool-cases (leb warning_size s.forward_size && leb s.forward_warn_size s.forward_size)) [
      | inl h ↦ rw h (
        record {
          size = next_warn s.forward_warn_size;
          sock = update_self v.socks (place_of id) t;
          other = λ j e. update_ne v.socks (place_of id) t j e;
          wire = refl;
          channel = refl;
        },
        λ k. cc,
      )
      | inr h ↦ rw h (
        record {
          size = s.forward_warn_size;
          sock = refl;
          other = λ j e. refl;
          wire = refl;
          channel = refl;
        },
        λ k. cc,
      )
    ]

queued :
    (id n : ℕ) (b : List ℕ) (s : Socket)
    → IsOpen id n s
    → IsOpen id n (queue_bytes b s) × (pending (queue_bytes b s) ≡ pending s ++ b)
unfolding queue_bytes push_forward_list
queued id n b s o =
    let tcp : (s.protocol == protocol_tcp) ≡ true = rw o.tcp refl in
    let more =
      joined-append s.forward_list (b ∷ []) ∙ ap (λ k. joined s.forward_list ++ k) (append-nil b) in
    let counted : s.forward_size + length b ≡ length (joined (s.forward_list ++ b ∷ [])) =
      omega (arith, ap length more, length-append (joined s.forward_list) b, o.counted) in
    let bytes : rest_of s.forward_buffer ++ joined (s.forward_list ++ b ∷ []) ≡ pending s ++ b =
      ap (λ k. rest_of s.forward_buffer ++ k) more
      ∙ sym (append_assoc (rest_of s.forward_buffer) (joined s.forward_list) b) in
    rw tcp (elim (Bool-cases (is_empty s.forward_list && is_connected s.status)) [
      | inl h ↦ rw h (
        record {
          own = o.own;
          tcp = o.tcp;
          status = o.status;
          counted = counted;
          refs = o.refs;
          few = o.few;
        },
        bytes,
      )
      | inr h ↦ rw h (
        record {
          own = o.own;
          tcp = o.tcp;
          status = o.status;
          counted = counted;
          refs = o.refs;
          few = o.few;
        },
        bytes,
      )
    ])

dec_forward_ref_lem :
    (id n : ℕ) (s : Socket)
    → IsOpen id (suc n) s
    → dec_forward_ref s ≡ some (record s { forward_in = s.forward_in - 1 })
unfolding dec_forward_ref
dec_forward_ref_lem id n s o =
    let (tag, few) = counter id (suc n) s o in
    let tcp : (s.protocol == protocol_tcp) ≡ true = rw o.tcp refl in
    let positive : (suc n == 0) ≡ false = ground arith in rw (tcp, few, positive) refl

-- the rest of the command, on a socket that has the bytes already
dec-Holds :
    (id n : ℕ) (v : Server) (p : Answer × Server)
    → Warned id v p.1
    → IsOpen id (suc n) (sock_of v id)
    → n ≡ length (sent_to id v.channel)
    → Holds id v (oper_dec_forward id p).1 × ((oper_dec_forward id p).0 ≡ p.0)
unfolding oper_dec_forward
dec-Holds id n v p h o e =
    let t = record (sock_of v id) { forward_warn_size = h.size } in
    let u : IsOpen id (suc n) t = record {
      own = o.own;
      tcp = o.tcp;
      status = o.status;
      counted = o.counted;
      refs = o.refs;
      few = o.few;
    } in
    let own : ((sock_of v id).id == id) ≡ true = rw o.own (same id) in
    rw
      (
        h.sock,
        own,
        dec_forward_ref_lem id n t u,
        update_self p.1.socks (place_of id) (record t { forward_in = t.forward_in - 1 }),
        h.wire,
        h.channel,
      )
      (
        (
          record {
            own = o.own;
            tcp = o.tcp;
            status = o.status;
            counted = o.counted;
            refs = omega (arith, o.refs);
            few = omega (arith, o.few);
          },
          refl,
        ),
        refl,
      )

same_buffer :
    (id : ℕ) (b : List ℕ) (rest : List Request)
    → sent_to id (send id b ∷ rest) ≡ b ∷ sent_to id rest
same_buffer id b rest = rw (same id) refl

oper_forward-own :
    (id : ℕ) (b : List ℕ) (v : Server) (n : ℕ)
    → IsOpen id n (sock_of v id)
    → oper_forward id b v ≡ warn_size id (put_sock id (queue_bytes b (sock_of v id)) v)
unfolding oper_forward
oper_forward-own id b v n o =
    let own : ((sock_of v id).id == id) ≡ true = rw o.own (same id) in rw (o.status, own) refl

-- The command for the id of a connected socket, with the commands `rest` after it.
own-Holds :
    (id : ℕ) (b : List ℕ) (rest : List Request) (v : Server)
    → sent_to id v.channel ≡ b ∷ sent_to id rest
    → IsLive id v
    → Holds id v (oper_dec_forward id (oper_forward id b (record v { channel = rest }))).1
      × ((oper_dec_forward id (oper_forward id b (record v { channel = rest }))).0 ≢ assert_failed)
own-Holds id b rest v sent o =
    let u = record v { channel = rest } in
    let s = sock_of v id in
    let n = length (sent_to id rest) in
    let o1 : IsOpen id (suc n) s = subst (λ k. IsOpen id k s) (ap length sent) o in
    let (o2, bytes) = queued id (suc n) b s o1 in
    let w = put_sock id (queue_bytes b s) u in
    let put = update_self v.socks (place_of id) (queue_bytes b s) in
    let o3 : IsOpen id (suc n) (sock_of w id) = rw put o2 in
    let (h, fine) = warn_size-Warned id w in
    let (d, answer) = dec-Holds id n w (warn_size id w) h o3 refl in
    let moved : stream id w ≡ stream id v =
      rw (put, bytes, sent)
        (ap (λ k. v.wire (place_of id) ++ k)
          (append_assoc (pending s) b (joined (sent_to id rest)))) in
    subst (λ p. Holds id v (oper_dec_forward id p).1 × ((oper_dec_forward id p).0 ≢ assert_failed))
      (sym (oper_forward-own id b u (suc n) o1)) ((d.0, d.1 ∙ moved), λ k. fine (sym answer ∙ k))

-- A command that sends to a connected socket of its id moves the bytes from the channel to the socket,
-- so that the stream of the socket is the same, and counts the command down; its assertion does not
-- fail.
pub on_channel_recv-own :
    (reg_ok locked : Bool) (ws : List Written) (id : ℕ) (b : List ℕ) (rest : List Request)
    (v : Server)
    → v.channel ≡ send id b ∷ rest
    → IsLive id v
    → Holds id v (on_channel_recv reg_ok locked ws v).1
      × ((on_channel_recv reg_ok locked ws v).0 ≢ assert_failed)
unfolding on_channel_recv on_channel_proc
on_channel_recv-own reg_ok locked ws id b rest v e o =
    subst
      (λ c.
        Holds id v (take_command reg_ok locked ws c v).1
        × ((take_command reg_ok locked ws c v).0 ≢ assert_failed))
      (sym e) (own-Holds id b rest v (ap (sent_to id) e ∙ same_buffer id b rest) o)
