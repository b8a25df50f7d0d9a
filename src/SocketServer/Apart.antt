-- ===== src/SocketServer/Apart.antt =====
-- What the calls and the commands that send to one id leave alone for another.
use Prim.{tt}
use rednet.Common.{
  ℕ, ◌≡◌, ◌≢◌, refl, ap, sym, subst, ◌∙◌, Bool, true, false, false≢true, not, ◌&&◌, ◌||◌, List, [],
  ◌∷◌, ◌++◌, Option, none, some, arith, Bool-cases, inl, inr, ◌==◌, append-nil, update_ne,
}
use rednet.Socket.{
  Answer, Socket, Written, Done, inc_forward_ref, dec_forward_ref, on_forward_data,
  is_can_direct_write,
}
use rednet.SocketServer.{
  Request, send, Server, place_of, sock_of, put_sock, put_done, is_invalid, drops, queue_bytes,
  warn_size, oper_forward, put_or_abort, oper_dec_forward, on_channel_proc, take_command,
  on_channel_recv,
}
use rednet.SocketServer.Calls.{send_later, socket_send}
use rednet.SocketServer.Live.{sent_to, sent_to-append, IsLive}
use rednet.SocketServer.Stream.{WhenTaken}
use rednet.SocketServer.Commands.{Holds, Warned, warn_size-Warned}

-- what a server has that is the same for the id
pub record Apart (id : ℕ) (v w : Server) : Type 0 where
  pub sock : sock_of w id ≡ sock_of v id
  pub wire : w.wire (place_of id) ≡ v.wire (place_of id)
  pub sent : sent_to id w.channel ≡ sent_to id v.channel

pub Apart-Holds : {id : ℕ} {v w : Server} → Apart id v w → IsLive id v → Holds id v w
Apart-Holds a o = rw (a.sock, a.wire, a.sent) (o, refl)

pub Apart-refl : {id : ℕ} {v : Server} → Apart id v v
Apart-refl = record { sock = refl; wire = refl; sent = refl }

pub Apart-trans : {id : ℕ} {u v w : Server} → Apart id u v → Apart id v w → Apart id u w
Apart-trans a b = record { sock = b.sock ∙ a.sock; wire = b.wire ∙ a.wire; sent = b.sent ∙ a.sent }

-- a place that is not the one of the id
pub put-Apart :
    (id k : ℕ) (t : Socket) (v : Server)
    → (place_of k == place_of id) ≡ false
    → Apart id v (put_sock k t v)
put-Apart id k t v h = record {
  sock = update_ne v.socks (place_of k) t (place_of id) h;
  wire = refl;
  sent = refl;
}

pub done-Apart :
    (id k : ℕ) (r : Done) (v : Server)
    → (place_of k == place_of id) ≡ false
    → Apart id v (put_done k r v)
done-Apart id k r v h = record {
  sock = update_ne v.socks (place_of k) r.socket (place_of id) h;
  wire = update_ne v.wire (place_of k) (v.wire (place_of k) ++ r.bytes) (place_of id) h;
  sent = refl;
}

dec-Apart :
    (id k : ℕ) (v : Server) (a : Answer) (o : Option Socket)
    → (place_of k == place_of id) ≡ false
    → Apart id v (put_or_abort k o (a, v)).1
dec-Apart id k v a none h = record { sock = refl; wire = refl; sent = refl }
dec-Apart id k v a (some t) h = put-Apart id k t v h

Warned-Apart :
    (id k : ℕ) (v w : Server) → Warned k v w → (place_of k == place_of id) ≡ false → Apart id v w
Warned-Apart id k v w h e = record {
  sock = h.other (place_of id) e;
  wire = ap (λ f. f (place_of id)) h.wire;
  sent = ap (sent_to id) h.channel;
}

other_sent :
    (id k : ℕ) (b : List ℕ) (rs : List Request)
    → k ≢ id
    → sent_to id (rs ++ send k b ∷ []) ≡ sent_to id rs
other_sent id k b rs n =
    let e : (k == id) ≡ false = ground arith in
    sent_to-append id rs (send k b ∷ []) ∙ rw e (append-nil (sent_to id rs))

-- where an id has the place of another that is in use, its socket is gone
pub gone_same :
    (id k : ℕ) (v : Server)
    → k ≢ id
    → (sock_of v id).id ≡ id
    → (place_of k == place_of id) ≡ true
    → ((sock_of v k).id == k) ≡ false
gone_same id k v n o e =
    let at : place_of k ≡ place_of id = ground arith in
    let own : (sock_of v k).id ≡ id = ap (λ p. (v.socks p).id) at ∙ o in ground arith

send_later-Apart :
    (id k : ℕ) (b : List ℕ) (o : Option Socket) (v : Server)
    → k ≢ id
    → (place_of k == place_of id) ≡ false
    → WhenTaken (λ w. Apart id v w) (send_later k b o v)
send_later-Apart id k b none v n h = tt
send_later-Apart id k b (some t) v n h = record {
  sock = update_ne v.socks (place_of k) t (place_of id) h;
  wire = refl;
  sent = other_sent id k b v.channel n;
}

-- `socketSend` to another id leaves the stream of a connected socket alone, also where both ids have
-- the same place.
pub socket_send-other :
    (locked : Bool) (w : Written) (id k : ℕ) (b : List ℕ) (v : Server)
    → k ≢ id
    → IsLive id v
    → WhenTaken (Holds id v) (socket_send locked w k b v)
unfolding socket_send
socket_send-other locked w id k b v n o =
    let s = sock_of v k in
    elim (Bool-cases (place_of k == place_of id)) [
      | inl h ↦ rw (gone_same id k v n o.own h) tt
      | inr h ↦ elim (Bool-cases (not (s.id == k) || is_invalid s.status)) [
        | inl g ↦ rw g tt
        | inr g ↦ rw g (elim (Bool-cases (is_can_direct_write k s && locked)) [
          | inl d ↦ rw d (Apart-Holds (done-Apart id k (on_forward_data w b s) v h) o)
          | inr d ↦ rw d (later (inc_forward_ref s) h)
        ])
      ]
    ]
  where
    later :
        (t : Option Socket)
        → (place_of k == place_of id) ≡ false
        → WhenTaken (Holds id v) (send_later k b t v)
    later none h = tt
    later (some t) h = Apart-Holds (send_later-Apart id k b (some t) v n h) o

-- the commands of another id, and what the counter does after them
forward-Apart :
    (id k : ℕ) (b : List ℕ) (v : Server)
    → k ≢ id
    → (sock_of v id).id ≡ id
    → Apart id v (oper_forward k b v).1
      × ((place_of k == place_of id) ≡ true → (oper_forward k b v).1 ≡ v)
unfolding oper_forward
forward-Apart id k b v n o = elim (Bool-cases (place_of k == place_of id)) [
  | inl h ↦ rw (gone_same id k v n o h) (elim (Bool-cases (drops (sock_of v k).status)) [
    | inl d ↦ rw d (Apart-refl, λ e. refl)
    | inr d ↦ rw d (Apart-refl, λ e. refl)
  ])
  | inr h ↦ elim (Bool-cases (drops (sock_of v k).status || not ((sock_of v k).id == k))) [
    | inl d ↦ rw d (Apart-refl, λ e. refl)
    | inr d ↦
        let w = put_sock k (queue_bytes b (sock_of v k)) v in
        let (q, fine) = warn_size-Warned k w in
        rw d (
          Apart-trans (put-Apart id k (queue_bytes b (sock_of v k)) v h)
              (Warned-Apart id k w (warn_size k w).1 q h),
          λ e. absurd (false≢true (sym h ∙ e)),
        )
  ]
]

dec_forward-Apart :
    (id k : ℕ) (p : Answer × Server)
    → k ≢ id
    → (sock_of p.1 id).id ≡ id
    → Apart id p.1 (oper_dec_forward k p).1
unfolding oper_dec_forward
dec_forward-Apart id k p n o = elim (Bool-cases (place_of k == place_of id)) [
  | inl h ↦ rw (gone_same id k p.1 n o h) Apart-refl
  | inr h ↦ elim (Bool-cases ((sock_of p.1 k).id == k)) [
    | inl d ↦ rw d (dec-Apart id k p.1 p.0 (dec_forward_ref (sock_of p.1 k)) h)
    | inr d ↦ rw d Apart-refl
  ]
]

-- A command that sends to another id leaves the stream of a connected socket alone, also where both
-- ids have the same place.
pub on_channel_recv-other :
    (reg_ok locked : Bool) (ws : List Written) (id k : ℕ) (b : List ℕ) (rest : List Request)
    (v : Server)
    → v.channel ≡ send k b ∷ rest
    → k ≢ id
    → IsLive id v
    → Holds id v (on_channel_recv reg_ok locked ws v).1
unfolding on_channel_recv on_channel_proc
on_channel_recv-other reg_ok locked ws id k b rest v e n o =
    let u = record v { channel = rest } in
    let skip : (k == id) ≡ false = ground arith in
    let first : Apart id v u = record {
      sock = refl;
      wire = refl;
      sent = sym (ap (sent_to id) e ∙ rw skip refl);
    } in
    let (a, at) = forward-Apart id k b u n o.own in
    let more = dec_forward-Apart id k (oper_forward k b u) n (ap (λ s. s.id) a.sock ∙ o.own) in
    subst (λ c. Holds id v (take_command reg_ok locked ws c v).1) (sym e)
      (Apart-Holds (Apart-trans first (Apart-trans a more)) o)
