-- ===== src/SocketServer/WaitRuns.antt =====
-- Runs of `onWait` for a connected socket.
use Prim.{Unit, tt}
use rednet.Common.{
  either_way, ℕ, ◌≡◌, ◌∙◌, Bool, true, false, not, ◌&&◌, List, [], ◌∷◌, Option, none, some,
  append-nil,
}
use rednet.Socket.{connected, Answer}
use rednet.SocketServer.{Request, Server, sock_of, on_channel_recv}
use rednet.SocketServer.Poll.{PollEvent, World, on_event}
use rednet.SocketServer.Live.{sent_in, stream, IsLive}
use rednet.SocketServer.Runs.{Run, begin, asks, serves, polls, Run-stream}
use rednet.SocketServer.Places.{AtPlaces, on_event-AtPlaces}
use rednet.SocketServer.Wait.{
  Polled, events, interrupted, failed, Input, Waiting, Turn, again, leaves, ask_all, has_read,
  retry, is_go_on, goes_on_if, after_event, handle, poll, next_event, is_nil, turn, then_on,
  on_wait,
}

abbrev pub state_of : Turn → Waiting
state_of (again w) = w
state_of (leaves a w) = w

abbrev pub PolledPlaces : Polled → Type 0
PolledPlaces (events e es) = AtPlaces (e ∷ es)
PolledPlaces _ = Unit

-- commands that carry no bytes for the id
abbrev pub NoneFor : ℕ → List Request → Type 0
NoneFor id [] = Unit
NoneFor id (r ∷ rs) = (sent_in id r ≡ []) × NoneFor id rs

-- the poll reports events at places of the table, and the other threads send nothing to the id
abbrev pub IsInput : ℕ → Input → Type 0
IsInput id i = PolledPlaces i.polled × NoneFor id i.asked

-- where the loop goes on
abbrev pub Later : (Waiting → Type 0) → Turn → Type 0
Later P (again w) = P w
Later P (leaves a w) = Unit

-- The socket of the id is connected after each turn.
abbrev pub Stays : ℕ → List Input → Waiting → Type 0
Stays id [] w = Unit
Stays id (i ∷ is) w =
    IsInput id i
    × ((sock_of (state_of (turn i w)).server id).status ≡ connected)
    × Later (Stays id is) (turn i w)

module _ (id : ℕ) (v : Server) (sent : List ℕ) where
  record Going (w : Waiting) : Type 0 where
    run : Run id v sent w.server
    places : AtPlaces w.events

  -- where the socket is still connected
  abbrev Onward : Turn → Type 0
  Onward t = (sock_of (state_of t).server id).status ≡ connected → Going (state_of t)

  ask_all-Run :
      (rs : List Request) (w : Server)
      → NoneFor id rs
      → Run id v sent w
      → Run id v sent (ask_all rs w)
  unfolding ask_all
  ask_all-Run [] w n r = r
  ask_all-Run (q ∷ rs) w (e, n) r = ask_all-Run rs _ n (asks sent w q r e)

  retry-AtPlaces :
      (o : Option PollEvent) (es : List (Option PollEvent))
      → AtPlaces (o ∷ [])
      → AtPlaces es
      → AtPlaces (retry o es)
  retry-AtPlaces none es p q = q
  retry-AtPlaces (some e) es p q = (p.0, q)

  goes_on_if-Onward :
      (b : Bool) (a : Answer) (w : Waiting)
      → ((sock_of w.server id).status ≡ connected → Going w)
      → Onward (goes_on_if b a w)
  goes_on_if-Onward true a w g = g
  goes_on_if-Onward false a w g = g

  after_event-Onward :
      (es : List (Option PollEvent)) (rested : Bool) (r : Option PollEvent × Answer × Server)
      (t : Bool)
      → AtPlaces (r.0 ∷ [])
      → AtPlaces es
      → ((sock_of r.2 id).status ≡ connected → Run id v sent r.2)
      → Onward (after_event es rested r t)
  after_event-Onward es rested (o, a, u) t p q run =
      goes_on_if-Onward (is_go_on a && not t) a _
        (λ c. record { run = run c; places = retry-AtPlaces o es p q })

  handle-Onward :
      (world : World) (e : Option PollEvent) (es : List (Option PollEvent)) (w : Waiting)
      → AtPlaces (e ∷ es)
      → Run id v sent w.server
      → Onward (handle world e es w)
  unfolding handle
  handle-Onward world none es w p r = λ c. record { run = r; places = p }
  handle-Onward world (some e) es w p r =
      after_event-Onward es w.rested (on_event world e w.server) (has_read world e w.server)
        (on_event-AtPlaces world e w.server p.0) p.1 (λ c. polls sent w.server world e r p.0 c)

  poll-Onward :
      (world : World) (p : Polled) (w : Waiting)
      → PolledPlaces p
      → Run id v sent w.server
      → Onward (poll world p w)
  unfolding poll
  poll-Onward world (events e es) w p r = handle-Onward world e es (record w { rested = true }) p r
  poll-Onward world interrupted w p r = λ c. record { run = r; places = tt }
  poll-Onward world failed w p r = λ c. record { run = r; places = tt }

  next_event-Onward :
      (i : Input) (es : List (Option PollEvent)) (w : Waiting)
      → PolledPlaces i.polled
      → AtPlaces es
      → Run id v sent w.server
      → Onward (next_event i es w)
  next_event-Onward i [] w p q r = poll-Onward i.world i.polled w p r
  next_event-Onward i (e ∷ es) w p q r = handle-Onward i.world e es w q r

  turn-Onward : (i : Input) (w : Waiting) → IsInput id i → Going w → Onward (turn i w)
  unfolding turn
  turn-Onward i w (p, n) g =
      let u = ask_all i.asked w.server in
      let r = ask_all-Run i.asked w.server n g.run in
      let took = on_channel_recv i.reg_ok i.locked i.written u in
      either_way Onward w.rested _ _
        (either_way Onward (is_nil u.channel) _ _
          (next_event-Onward i w.events (record { server = u; rested = false; events = w.events }) p
            g.places r)
          (goes_on_if-Onward (is_go_on took.0) took.0 (record w { server = took.1 })
            (λ c. record {
              run = serves sent u i.reg_ok i.locked i.written r c;
              places = g.places;
            })))
        (next_event-Onward i w.events (record w { server = u }) p g.places r)

  onward :
      (is : List Input) (t : Turn)
      → Later (Stays id is) t
      → Going (state_of t)
      → ((u : Waiting) → Stays id is u → Going u → Going (state_of (on_wait is u)))
      → Going (state_of (then_on t (on_wait is)))
  onward is (again u) s g f = f u s g
  onward is (leaves a u) s g f = g

  on_wait-Going :
      (is : List Input) (w : Waiting) → Stays id is w → Going w → Going (state_of (on_wait is w))
  unfolding on_wait
  on_wait-Going [] w s g = g
  on_wait-Going (i ∷ is) w s g =
      onward is (turn i w) s.2 (turn-Onward i w s.0 g s.1) (on_wait-Going is)

-- Let the socket of an id be connected, with its counter right. However many turns `onWait` takes, of
-- whatever commands for others, commands that wait and events of the poll, as long as the socket is
-- still connected after each turn: the bytes written to its handle, then those that wait in the socket,
-- then those of the commands for it are together what they were; and its counter is right.
pub on_wait-stream :
    (id : ℕ) (is : List Input) (w : Waiting)
    → IsLive id w.server
    → AtPlaces w.events
    → Stays id is w
    → IsLive id (state_of (on_wait is w)).server
      × (stream id (state_of (on_wait is w)).server ≡ stream id w.server)
on_wait-stream id is w o p s =
    let g = on_wait-Going id w.server [] is w s (record { run = begin; places = p }) in
    let (q, e) = Run-stream id w.server [] _ g.run o in (q, e ∙ append-nil (stream id w.server))
