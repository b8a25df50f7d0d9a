-- ===== src/SocketServer/Channel.antt =====
-- Any command of the channel, for a connected socket.
use Prim.{Unit, tt}
use rednet.Common.{
  ℕ, ◌≡◌, refl, ap, sym, subst, ◌∙◌, Bool, true, false, List, [], ◌∷◌, arith, Bool-cases, inl, inr,
  ◌==◌, update_ne,
}
use rednet.Socket.{Written, protocol_tcp, do_init}
use rednet.SocketServer.{
  Request, send, start, bind_to, listen_on, close, exit, Server, place_of, sock_of, is_reserve,
  Made, failed_assert, refused, made, new_socket, bound, oper_bind, listening, oper_listen,
  on_channel_proc, take_command, on_channel_recv,
}
use rednet.SocketServer.Live.{sent_to, IsLive}
use rednet.SocketServer.Commands.{Holds, on_channel_recv-own}
use rednet.SocketServer.Apart.{
  Apart, Apart-Holds, Apart-refl, Apart-trans, put-Apart, on_channel_recv-other,
}
use rednet.SocketServer.Others.{IsCalm, noted, oper_start-IsCalm}
use rednet.SocketServer.Closing.{oper_close-IsCalm}

-- a new socket at the place of `k`
abbrev pub MadeApart : ℕ → ℕ → Server → Made → Type 0
MadeApart id k v failed_assert = Unit {0}
MadeApart id k v (refused w) = ((place_of k == place_of id) ≡ false) × Apart id v w
MadeApart id k v (made w) = ((place_of k == place_of id) ≡ false) × Apart id v w

pub new_socket-MadeApart :
    (reg_ok : Bool) (id k sck protocol opaque : ℕ) (v : Server)
    → IsLive id v
    → MadeApart id k v (new_socket reg_ok k sck protocol opaque v)
unfolding new_socket
new_socket-MadeApart reg_ok id k sck protocol opaque v o =
    elim (Bool-cases (place_of k == place_of id)) [
      | inl h ↦
          let at : place_of k ≡ place_of id = ground arith in
          let taken : is_reserve (sock_of v k).status ≡ false =
            ap (λ p. is_reserve (v.socks p).status) at ∙ ap is_reserve o.status in
          rw taken tt
      | inr h ↦ elim (Bool-cases (is_reserve (sock_of v k).status)) [
        | inr r ↦ rw r tt
        | inl r ↦ rw r (elim (Bool-cases reg_ok) [
          | inl g ↦ rw g (
            h,
            record {
              sock =
                  update_ne v.socks (place_of k) (do_init k sck protocol opaque (sock_of v k))
                    (place_of id) h;
              wire = update_ne v.wire (place_of k) [] (place_of id) h;
              sent = refl;
            },
          )
          | inr g ↦ rw g (h, put-Apart id k _ v h)
        ])
      ]
    ]

bound-Apart :
    (id k opaque : ℕ) (v : Server) (m : Made)
    → MadeApart id k v m
    → Apart id v (bound k opaque v m).1
bound-Apart id k opaque v failed_assert a = Apart-refl
bound-Apart id k opaque v (refused w) (h, a) = noted _ k opaque 0 [] a
bound-Apart id k opaque v (made w) (h, a) =
    noted _ k opaque 0 [] (Apart-trans a (put-Apart id k _ w h))

listening-Apart :
    (id k opaque : ℕ) (v : Server) (m : Made)
    → MadeApart id k v m
    → Apart id v (listening k opaque v m).1
listening-Apart id k opaque v failed_assert a = Apart-refl
listening-Apart id k opaque v (refused w) (h, a) =
    noted _ k opaque 0 [] (Apart-trans a (put-Apart id k _ w h))
listening-Apart id k opaque v (made w) (h, a) = Apart-trans a (put-Apart id k _ w h)

oper_bind-Apart :
    (reg_ok : Bool) (id k opaque sck : ℕ) (v : Server)
    → IsLive id v
    → Apart id v (oper_bind reg_ok k opaque sck v).1
unfolding oper_bind
oper_bind-Apart reg_ok id k opaque sck v o =
    bound-Apart id k opaque v _ (new_socket-MadeApart reg_ok id k sck protocol_tcp opaque v o)

oper_listen-Apart :
    (id k opaque sck : ℕ) (v : Server) → IsLive id v → Apart id v (oper_listen k opaque sck v).1
unfolding oper_listen
oper_listen-Apart id k opaque sck v o =
    listening-Apart id k opaque v _ (new_socket-MadeApart true id k sck protocol_tcp opaque v o)

-- a step after one that left the socket alone
after-IsCalm :
    (id : ℕ) (v u w : Server)
    → Apart id v u
    → IsLive id v
    → (IsLive id u → IsCalm id u w)
    → IsCalm id v w
after-IsCalm id v u w a o f c = let (p, e) = Apart-Holds a o in let (q, g) = f p c in (q, g ∙ e)

taken :
    (v : Server) (rest : List Request) (id : ℕ)
    → sent_to id v.channel ≡ sent_to id rest
    → Apart id v (record v { channel = rest })
taken v rest id e = record { sock = refl; wire = refl; sent = sym e }

command-IsCalm :
    (reg_ok locked : Bool) (ws : List Written) (id : ℕ) (v : Server) (c : List Request)
    → v.channel ≡ c
    → IsLive id v
    → IsCalm id v (take_command reg_ok locked ws c v).1
unfolding on_channel_proc on_channel_recv
command-IsCalm reg_ok locked ws id v [] e o x = (o, refl)
command-IsCalm reg_ok locked ws id v (send k b ∷ rest) e o x =
    subst (λ c. Holds id v (take_command reg_ok locked ws c v).1) e
      (elim (Bool-cases (k == id)) [
        | inl h ↦
            let at : k ≡ id = ground arith in
            (on_channel_recv-own reg_ok locked ws id b rest v (e ∙ ap (λ j. send j b ∷ rest) at)
              o).0
        | inr h ↦
            on_channel_recv-other reg_ok locked ws id k b rest v e (λ z. absurd (ground arith)) o
      ])
command-IsCalm reg_ok locked ws id v (start k opaque ∷ rest) e o x =
    after-IsCalm id v (record v { channel = rest })
      (take_command reg_ok locked ws (start k opaque ∷ rest) v).1
      (taken v rest id (ap (sent_to id) e)) o
      (λ p. oper_start-IsCalm reg_ok id k opaque (record v { channel = rest }) p) x
command-IsCalm reg_ok locked ws id v (bind_to k opaque sck ∷ rest) e o x =
    after-IsCalm id v (record v { channel = rest })
      (take_command reg_ok locked ws (bind_to k opaque sck ∷ rest) v).1
      (taken v rest id (ap (sent_to id) e)) o
      (λ p c.
        Apart-Holds (oper_bind-Apart reg_ok id k opaque sck (record v { channel = rest }) p) p)
      x
command-IsCalm reg_ok locked ws id v (listen_on k opaque sck ∷ rest) e o x =
    after-IsCalm id v (record v { channel = rest })
      (take_command reg_ok locked ws (listen_on k opaque sck ∷ rest) v).1
      (taken v rest id (ap (sent_to id) e)) o
      (λ p c. Apart-Holds (oper_listen-Apart id k opaque sck (record v { channel = rest }) p) p) x
command-IsCalm reg_ok locked ws id v (close k opaque shutdown ∷ rest) e o x =
    after-IsCalm id v (record v { channel = rest })
      (take_command reg_ok locked ws (close k opaque shutdown ∷ rest) v).1
      (taken v rest id (ap (sent_to id) e)) o
      (λ p. oper_close-IsCalm locked ws shutdown id k opaque (record v { channel = rest }) p) x
command-IsCalm reg_ok locked ws id v (exit ∷ rest) e o x =
    after-IsCalm id v (record v { channel = rest })
      (take_command reg_ok locked ws (exit ∷ rest) v).1 (taken v rest id (ap (sent_to id) e)) o
      (λ p c. (p, refl)) x

-- Any command that the socket thread takes keeps the stream of a connected socket, where it is still
-- connected afterwards.
pub on_channel_recv-IsCalm :
    (reg_ok locked : Bool) (ws : List Written) (id : ℕ) (v : Server)
    → IsLive id v
    → IsCalm id v (on_channel_recv reg_ok locked ws v).1
unfolding on_channel_recv
on_channel_recv-IsCalm reg_ok locked ws id v o =
    command-IsCalm reg_ok locked ws id v v.channel refl o
