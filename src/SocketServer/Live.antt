-- ===== src/SocketServer/Live.antt =====
-- A connected socket with the commands that wait for it, and what the methods keep of a socket.
use rednet.Common.{
  ℕ, ◌+◌, ◌*◌, ◌/◌, ◌%◌, ◌^◌, ◌<◌, ◌≡◌, refl, ◌∙◌, Bool, true, false, false≢true, ◌&&◌, List, [],
  ◌∷◌, ◌++◌, Option, none, some, arith, Bool-cases, inl, inr, if◌then◌else◌, ltb, ◌==◌, length,
  append_assoc,
}
use rednet.Socket.{
  Status, invalid, reserve, plisten, listen, connecting, connected, halfclose, paccept, bind,
  Socket, Done, Written, protocol_tcp, tag16, is_empty, is_null, is_forward, is_close, is_halfclose,
  begin_forward_tcp, begin_forward_list, drained, begin_forward, close_in, on_close, requeue,
  then_close, on_forward,
}
use rednet.Socket.Pending.{pending, joined, IsCounted, is_empty-nil}
use rednet.SocketServer.{
  Request, send, start, bind_to, listen_on, close, exit, Server, place_of, sock_of,
}

abbrev pub sent_in : ℕ → Request → List (List ℕ)
sent_in id (send k b) = if k == id then b ∷ [] else []
sent_in id (start k opaque) = []
sent_in id (bind_to k opaque sck) = []
sent_in id (listen_on k opaque sck) = []
sent_in id (close k opaque shutdown) = []
sent_in id exit = []

-- the buffers of the commands for an id, in the order of the commands
abbrev pub sent_to : ℕ → List Request → List (List ℕ)
sent_to id [] = []
sent_to id (r ∷ rs) = sent_in id r ++ sent_to id rs

pub sent_to-append :
    (id : ℕ) (xs ys : List Request) → sent_to id (xs ++ ys) ≡ sent_to id xs ++ sent_to id ys
sent_to-append id [] ys = refl
sent_to-append id (r ∷ xs) ys = rw (sent_to-append id xs ys, append_assoc)

-- What was written to the handle of the id, what waits in its socket, and what waits in the channel.
abbrev pub stream : ℕ → Server → List ℕ
stream id v = v.wire (place_of id) ++ (pending (sock_of v id) ++ joined (sent_to id v.channel))

-- a connected socket of the id, for which `n` commands wait
pub record IsOpen (id n : ℕ) (s : Socket) : Type 0 where
  pub own : s.id ≡ id
  pub tcp : s.protocol ≡ protocol_tcp
  pub status : s.status ≡ connected
  pub counted : IsCounted s
  pub refs : s.forward_in ≡ tag16 id * 2 ^ 16 + n
  pub few : n < 2 ^ 16

-- The socket of the id is connected, and the counter has the commands that wait for it.
abbrev pub IsLive : ℕ → Server → Type 0
IsLive id v = IsOpen id (length (sent_to id v.channel)) (sock_of v id)

pub record Keeps (s t : Socket) : Type 0 where
  pub id : t.id ≡ s.id
  pub protocol : t.protocol ≡ s.protocol
  pub forward_in : t.forward_in ≡ s.forward_in

Keeps-refl : {s : Socket} → Keeps s s
Keeps-refl = record { id = refl; protocol = refl; forward_in = refl }

Keeps-trans : {s t u : Socket} → Keeps s t → Keeps t u → Keeps s u
Keeps-trans h k = record {
  id = k.id ∙ h.id;
  protocol = k.protocol ∙ h.protocol;
  forward_in = k.forward_in ∙ h.forward_in;
}

drained-Keeps : (r : Done) → Keeps r.socket (drained r).socket
drained-Keeps r = elim (Bool-cases (r.socket.forward_size == 0)) [
  | inr z ↦ rw z Keeps-refl
  | inl z ↦ rw z (elim (Bool-cases (is_halfclose r.socket.status)) [
    | inl h ↦ rw h (record { id = refl; protocol = refl; forward_in = refl })
    | inr h ↦ rw h (elim (Bool-cases (ltb 0 r.socket.forward_warn_size)) [
      | inl v ↦ rw v (record { id = refl; protocol = refl; forward_in = refl })
      | inr v ↦ rw v (record { id = refl; protocol = refl; forward_in = refl })
    ])
  ])
]

begin_forward_list-Keeps :
    (ws : List Written) (s : Socket) → Keeps s (begin_forward_list ws s).socket
unfolding begin_forward_list begin_forward_tcp
begin_forward_list-Keeps ws s = elim (Bool-cases (s.protocol == protocol_tcp)) [
  | inl e ↦ rw e (record { id = refl; protocol = refl; forward_in = refl })
  | inr e ↦ rw e Keeps-refl
]

begin_forward-Keeps : (ws : List Written) (s : Socket) → Keeps s (begin_forward ws s).socket
unfolding begin_forward
begin_forward-Keeps ws s =
    let r = begin_forward_list ws s in
    let k = begin_forward_list-Keeps ws s in
    elim (Bool-cases (is_close r.answer)) [
      | inl e ↦ rw e k
      | inr e ↦ rw e (elim (Bool-cases (is_empty r.socket.forward_list)) [
        | inl h ↦ rw h (Keeps-trans k (drained-Keeps r))
        | inr h ↦ rw h k
      ])
    ]

then_close-Keeps :
    (r : Done) (st : Status) → Keeps r.socket (then_close r (close_in st r.socket)).socket
then_close-Keeps r invalid = Keeps-refl
then_close-Keeps r reserve = Keeps-refl
then_close-Keeps r plisten = record { id = refl; protocol = refl; forward_in = refl }
then_close-Keeps r listen = record { id = refl; protocol = refl; forward_in = refl }
then_close-Keeps r connecting = record { id = refl; protocol = refl; forward_in = refl }
then_close-Keeps r connected = record { id = refl; protocol = refl; forward_in = refl }
then_close-Keeps r halfclose = record { id = refl; protocol = refl; forward_in = refl }
then_close-Keeps r paccept = record { id = refl; protocol = refl; forward_in = refl }
then_close-Keeps r bind = record { id = refl; protocol = refl; forward_in = refl }

requeue-Keeps : (o : Option (List ℕ × ℕ)) (s : Socket) → Keeps s (requeue o s)
requeue-Keeps none s = Keeps-refl
requeue-Keeps (some (b, offset)) s = record { id = refl; protocol = refl; forward_in = refl }

-- `onForward` changes neither the id nor the counter of a socket, even when it closes it.
pub on_forward-Keeps :
    (locked : Bool) (ws : List Written) (s : Socket) → Keeps s (on_forward locked ws s).socket
unfolding on_forward on_close
on_forward-Keeps false ws s = Keeps-refl
on_forward-Keeps true ws s =
    let t = requeue s.forward_buffer s in
    let r = begin_forward ws t in
    let k = Keeps-trans (requeue-Keeps s.forward_buffer s) (begin_forward-Keeps ws t) in
    elim (Bool-cases (is_close r.answer)) [
      | inl e ↦ rw e (Keeps-trans k (then_close-Keeps r r.socket.status))
      | inr e ↦ rw e k
    ]

-- what the tests of `isForward` come to
pub record IsIdle (s : Socket) : Type 0 where
  pub list : s.forward_list ≡ []
  pub buffer : s.forward_buffer ≡ none
  pub refs : s.forward_in ≡ 0

is_none-none : (o : Option (List ℕ × ℕ)) → is_null o ≡ true → o ≡ none
is_none-none none h = refl
is_none-none (some b) h = absurd (false≢true h)

and_left : (a b : Bool) → (a && b) ≡ true → a ≡ true
and_left true b h = refl
and_left false b h = h

and_right : (a b : Bool) → (a && b) ≡ true → b ≡ true
and_right true b h = h
and_right false b h = absurd (false≢true h)

pub is_forward-IsIdle : (s : Socket) → is_forward s ≡ true → IsIdle s
unfolding is_forward
is_forward-IsIdle s h =
    let l =
      and_left (is_empty s.forward_list) (is_null s.forward_buffer && (s.forward_in == 0)) h in
    let more =
      and_right (is_empty s.forward_list) (is_null s.forward_buffer && (s.forward_in == 0)) h in
    let b = and_left (is_null s.forward_buffer) (s.forward_in == 0) more in
    let z = and_right (is_null s.forward_buffer) (s.forward_in == 0) more in
    record {
      list = is_empty-nil s.forward_list l;
      buffer = is_none-none s.forward_buffer b;
      refs = ground arith;
    }

-- the parts of the counter
pub counter :
    (id n : ℕ) (s : Socket)
    → IsOpen id n s
    → (s.forward_in / 2 ^ 16 ≡ tag16 id) × (s.forward_in % 2 ^ 16 ≡ n)
counter id n s o = (omega (arith, o.refs, o.few), omega (arith, o.refs, o.few))

pub same : (k : ℕ) → (k == k) ≡ true
same k = ground arith
