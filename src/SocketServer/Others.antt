-- ===== src/SocketServer/Others.antt =====
-- The command that starts a socket, for a connected socket: it keeps its stream or leaves it alone.

use rednet.Common.{
  ℕ, ◌≡◌, ◌≢◌, refl, subst, Bool, true, false, List, [], Option, none, some, if◌then◌else◌, arith,
  Bool-cases, inl, inr, ◌==◌, update_self,
}
use rednet.Socket.{
  Status, invalid, reserve, plisten, listen, connecting, connected, halfclose, paccept, bind,
  Answer, Socket, on_close,
}
use rednet.SocketServer.{
  Server, place_of, sock_of, forward_socket, is_invalid, is_gone, closed_with, start_at, oper_start,
}
use rednet.SocketServer.Live.{IsLive, same}
use rednet.SocketServer.Commands.{Holds}
use rednet.SocketServer.Apart.{Apart, Apart-Holds, Apart-refl, put-Apart, gone_same}

-- Where the socket of the id is still connected after a step, its stream is the same.
abbrev pub IsCalm : ℕ → Server → Server → Type 0
IsCalm id v w = (sock_of w id).status ≡ connected → Holds id v w

pub noted :
    {id : ℕ} {v w : Server} (a : Answer) (k opaque ud : ℕ) (b : List ℕ)
    → Apart id v w
    → Apart id v (forward_socket a k opaque ud b w)
noted a k opaque ud b h = record { sock = h.sock; wire = h.wire; sent = h.sent }

pub closed-Apart :
    (id k opaque : ℕ) (a : Answer) (o : Option Socket) (v : Server)
    → (place_of k == place_of id) ≡ false
    → Apart id v (closed_with a k opaque o v).1
closed-Apart id k opaque a none v h = Apart-refl
closed-Apart id k opaque a (some t) v h = noted a k opaque 0 [] (put-Apart id k t v h)

start_at-Apart :
    (st : Status) (reg_ok : Bool) (id k opaque : ℕ) (v : Server)
    → (place_of k == place_of id) ≡ false
    → Apart id v (start_at st reg_ok k opaque v).1
start_at-Apart paccept true id k opaque v h = noted _ k opaque 0 [] (put-Apart id k _ v h)
start_at-Apart paccept false id k opaque v h =
    closed-Apart id k opaque _ (on_close (sock_of v k)) v h
start_at-Apart plisten true id k opaque v h = noted _ k opaque 0 [] (put-Apart id k _ v h)
start_at-Apart plisten false id k opaque v h =
    closed-Apart id k opaque _ (on_close (sock_of v k)) v h
start_at-Apart connected reg_ok id k opaque v h = noted _ k opaque 0 [] (put-Apart id k _ v h)
start_at-Apart invalid reg_ok id k opaque v h = Apart-refl
start_at-Apart reserve reg_ok id k opaque v h = Apart-refl
start_at-Apart listen reg_ok id k opaque v h = Apart-refl
start_at-Apart connecting reg_ok id k opaque v h = Apart-refl
start_at-Apart halfclose reg_ok id k opaque v h = Apart-refl
start_at-Apart bind reg_ok id k opaque v h = Apart-refl

-- a socket that another service takes over
taken_over :
    (reg_ok : Bool) (id opaque : ℕ) (v : Server)
    → IsLive id v
    → Holds id v (start_at connected reg_ok id opaque v).1
taken_over reg_ok id opaque v o =
    rw (update_self v.socks (place_of id) (record (sock_of v id) { opaque = opaque })) (
      record {
        own = o.own;
        tcp = o.tcp;
        status = o.status;
        counted = o.counted;
        refs = o.refs;
        few = o.few;
      },
      refl,
    )

-- a command that starts with the test for the id of the socket
pub gone :
    (id k : ℕ) (v : Server)
    → k ≢ id
    → IsLive id v
    → (place_of k == place_of id) ≡ true
    → is_gone k (sock_of v k) ≡ true
gone id k v n o h =
    rw (gone_same id k v n o.own h) (elim (Bool-cases (is_invalid (sock_of v k).status)) [
      | inl e ↦ rw e refl
      | inr e ↦ rw e refl
    ])

pub here : (id : ℕ) (v : Server) → IsLive id v → is_gone id (sock_of v id) ≡ false
here id v o =
    let own : ((sock_of v id).id == id) ≡ true = rw o.own (same id) in rw (o.status, own) refl

pub either_way :
    (P : Answer × Server → Type 0) (b : Bool) (x y : Answer × Server)
    → P x
    → P y
    → P (if b then x else y)
either_way P true x y h k = h
either_way P false x y h k = k

start_own :
    (reg_ok : Bool) (id opaque : ℕ) (v : Server)
    → IsLive id v
    → Holds id v (oper_start reg_ok id opaque v).1
unfolding oper_start
start_own reg_ok id opaque v o = rw (here id v o, o.status) (taken_over reg_ok id opaque v o)

start_other :
    (reg_ok : Bool) (id k opaque : ℕ) (v : Server)
    → k ≢ id
    → IsLive id v
    → Apart id v (oper_start reg_ok k opaque v).1
unfolding oper_start
start_other reg_ok id k opaque v n o = elim (Bool-cases (place_of k == place_of id)) [
  | inl h ↦ rw (gone id k v n o h) (noted _ k opaque 0 [] Apart-refl)
  | inr h ↦ elim (Bool-cases (is_gone k (sock_of v k))) [
    | inl g ↦ rw g (noted _ k opaque 0 [] Apart-refl)
    | inr g ↦ rw g (start_at-Apart (sock_of v k).status reg_ok id k opaque v h)
  ]
]

-- where a command is for the id, or leaves it alone
pub own_or_other :
    (id k : ℕ) (v : Server) (f : ℕ → Server)
    → IsLive id v
    → IsCalm id v (f id)
    → (k ≢ id → Apart id v (f k))
    → IsCalm id v (f k)
own_or_other id k v f o own other = elim (Bool-cases (k == id)) [
  | inl e ↦ let at : id ≡ k = ground arith in subst (λ j. IsCalm id v (f j)) at own
  | inr e ↦ λ c. Apart-Holds (other (λ z. absurd (ground arith))) o
]

pub oper_start-IsCalm :
    (reg_ok : Bool) (id k opaque : ℕ) (v : Server)
    → IsLive id v
    → IsCalm id v (oper_start reg_ok k opaque v).1
oper_start-IsCalm reg_ok id k opaque v o =
    own_or_other id k v (λ j. (oper_start reg_ok j opaque v).1) o
      (λ c. start_own reg_ok id opaque v o) (λ n. start_other reg_ok id k opaque v n o)
