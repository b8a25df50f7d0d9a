-- ===== src/SocketServer/Returns.antt =====
-- What `onWait` returns.
use Prim.{Unit, tt}
use rednet.Common.{
  ◌≡◌, ◌≢◌, refl, sym, subst, Bool, true, false, List, [], ◌∷◌, ◌++◌, Option, none, some,
  either_way,
}
use rednet.Socket.{Answer, data_answer, Written}
use rednet.SocketServer.{Request, Server, take_command, on_channel_recv}
use rednet.SocketServer.Poll.{PollEvent, World, on_event}
use rednet.SocketServer.Wait.{
  events, interrupted, failed, Input, Waiting, Turn, again, leaves, ask_all, goes_on_if, handle,
  poll, next_event, is_nil, turn, then_on, on_wait,
}
use rednet.SocketServer.Answers.{on_event-Quiet}
use rednet.SocketServer.Exit.{IsOther, is_exit, on_channel_proc-Quiet}

abbrev pub NoExit : List Request → Type 0
NoExit [] = Unit
NoExit (r ∷ rs) = (is_exit r ≡ false) × NoExit rs

NoExit-append : (xs ys : List Request) → NoExit xs → NoExit ys → NoExit (xs ++ ys)
NoExit-append [] ys p q = q
NoExit-append (x ∷ xs) ys p q = (p.0, NoExit-append xs ys p.1 q)

-- no `exit` in the channel, or another answer than NT_SOCKET_DATA
abbrev pub IsGoing : Turn → Type 0
IsGoing (again w) = NoExit w.server.channel
IsGoing (leaves a w) = IsOther a

goes_on_if-IsGoing :
    (b : Bool) (a : Answer) (w : Waiting)
    → IsOther a
    → NoExit w.server.channel
    → IsGoing (goes_on_if b a w)
goes_on_if-IsGoing true a w h n = n
goes_on_if-IsGoing false a w h n = h

ask_all-NoExit :
    (rs : List Request) (v : Server) → NoExit rs → NoExit v.channel → NoExit (ask_all rs v).channel
unfolding ask_all
ask_all-NoExit [] v p q = q
ask_all-NoExit (r ∷ rs) v p q =
    ask_all-NoExit rs _ p.1 (NoExit-append v.channel (r ∷ []) q (p.0, tt))

handle-IsGoing :
    (world : World) (e : Option PollEvent) (es : List (Option PollEvent)) (w : Waiting)
    → NoExit w.server.channel
    → IsGoing (handle world e es w)
unfolding handle
handle-IsGoing world none es w n = n
handle-IsGoing world (some e) es w n =
    let q = on_event-Quiet world e w.server in
    goes_on_if-IsGoing _ (on_event world e w.server).1 _ q.other (subst NoExit (sym q.kept) n)

next_event-IsGoing :
    (i : Input) (es : List (Option PollEvent)) (w : Waiting)
    → NoExit w.server.channel
    → IsGoing (next_event i es w)
unfolding poll
next_event-IsGoing i (e ∷ es) w n = handle-IsGoing i.world e es w n
next_event-IsGoing i [] w n = elim i.polled as (λ p. IsGoing (poll i.world p w)) [
  | events e es ↦ handle-IsGoing i.world e es (record w { rested = true }) n
  | interrupted ↦ n
  | failed ↦ refl
]

command-Quiet :
    (reg_ok locked : Bool) (ws : List Written) (rs : List Request) (v : Server)
    → rs ≡ v.channel
    → NoExit rs
    → IsOther (take_command reg_ok locked ws rs v).0
      × NoExit (take_command reg_ok locked ws rs v).1.channel
command-Quiet reg_ok locked ws [] v e n = (refl, subst NoExit e tt)
command-Quiet reg_ok locked ws (r ∷ rs) v e n =
    let q = on_channel_proc-Quiet reg_ok locked ws r (record v { channel = rs }) n.0 in
    (q.other, subst NoExit (sym q.kept) n.1)

turn-IsGoing :
    (i : Input) (w : Waiting) → NoExit i.asked → NoExit w.server.channel → IsGoing (turn i w)
unfolding turn on_channel_recv
turn-IsGoing i w a n =
    let u = ask_all i.asked w.server in
    let m = ask_all-NoExit i.asked w.server a n in
    let (q, l) = command-Quiet i.reg_ok i.locked i.written u.channel u refl m in
    either_way IsGoing w.rested _ _
      (either_way IsGoing (is_nil u.channel) _ _
        (next_event-IsGoing i w.events (record { server = u; rested = false; events = w.events }) m)
        (goes_on_if-IsGoing _ (on_channel_recv i.reg_ok i.locked i.written u).0 _ q l))
      (next_event-IsGoing i w.events (record w { server = u }) m)

-- no thread asks for `exit` meanwhile
abbrev pub NoneAsks : List Input → Type 0
NoneAsks [] = Unit
NoneAsks (i ∷ is) = NoExit i.asked × NoneAsks is

then_on-IsGoing :
    (t : Turn) (f : Waiting → Turn)
    → IsGoing t
    → ((w : Waiting) → NoExit w.server.channel → IsGoing (f w))
    → IsGoing (then_on t f)
then_on-IsGoing (again w) f g h = h w g
then_on-IsGoing (leaves a w) f g h = g

on_wait-IsGoing :
    (is : List Input) (w : Waiting) → NoneAsks is → NoExit w.server.channel → IsGoing (on_wait is w)
unfolding on_wait
on_wait-IsGoing [] w a n = n
on_wait-IsGoing (i ∷ is) w a n =
    then_on-IsGoing (turn i w) (on_wait is) (turn-IsGoing i w a.0 n)
      (λ u m. on_wait-IsGoing is u a.1 m)

-- However many turns `onWait` takes, with whatever events and results of the system calls: if no `exit`
-- stands in the channel at its start and none is sent meanwhile, it does not return NT_SOCKET_DATA, which
-- is 0, the answer with which the loop of `onWorkSocket` ends.
pub on_wait-ne :
    (is : List Input) (w u : Waiting)
    → NoExit w.server.channel
    → NoneAsks is
    → on_wait is w ≢ leaves data_answer u
on_wait-ne is w u n a e =
    let h : IsGoing (leaves data_answer u) = subst IsGoing e (on_wait-IsGoing is w a n) in cc h
