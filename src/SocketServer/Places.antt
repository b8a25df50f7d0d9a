-- ===== src/SocketServer/Places.antt =====
-- The events that `onWait` handles again stay at their places.
use Prim.{Unit, tt}
use rednet.Common.{Bool, true, false, if◌then◌else◌, List, [], ◌∷◌, Option, none, some}
use rednet.Socket.{
  Status, invalid, reserve, plisten, listen, connecting, connected, halfclose, paccept, bind,
  Answer, go_on, data_answer, close_answer, open_answer, accept_answer, err_answer, warning_answer,
  assert_failed,
}
use rednet.SocketServer.{Server}
use rednet.SocketServer.Poll.{PollEvent, World, again_for, on_ready, on_event_at, on_event}
use rednet.SocketServer.Events.{IsPlace}
use rednet.SocketServer.Accept.{either_event}

abbrev pub AtPlaces : List (Option PollEvent) → Type 0
AtPlaces [] = Unit
AtPlaces (none ∷ es) = AtPlaces es
AtPlaces (some e ∷ es) = IsPlace e.place × AtPlaces es

-- an event that is handled again is at the same place
again_if :
    (e : PollEvent) (b : Bool)
    → IsPlace e.place
    → AtPlaces ((if b then some (record e { isread = false }) else none) ∷ [])
again_if e true p = (p, tt)
again_if e false p = tt

again-AtPlaces : (e : PollEvent) (a : Answer) → IsPlace e.place → AtPlaces (again_for e a ∷ [])
again-AtPlaces e close_answer p = tt
again-AtPlaces e err_answer p = tt
again-AtPlaces e go_on p = again_if e e.iswrite p
again-AtPlaces e data_answer p = again_if e e.iswrite p
again-AtPlaces e open_answer p = again_if e e.iswrite p
again-AtPlaces e accept_answer p = again_if e e.iswrite p
again-AtPlaces e warning_answer p = again_if e e.iswrite p
again-AtPlaces e assert_failed p = again_if e e.iswrite p

on_ready-AtPlaces :
    (world : World) (e : PollEvent) (v : Server)
    → IsPlace e.place
    → AtPlaces ((on_ready world e v).0 ∷ [])
unfolding on_ready
on_ready-AtPlaces world e v p =
    let P : Option PollEvent × Answer × Server → Type 0 = λ r. AtPlaces (r.0 ∷ []) in
    either_event P e.isread _ _ (again-AtPlaces e _ p) (
      either_event P e.iswrite _ _ tt
        (either_event P e.iserror _ _ tt (either_event P e.iseof _ _ tt tt)))

place_of_status :
    (st : Status) (world : World) (e : PollEvent) (v : Server)
    → IsPlace e.place
    → AtPlaces ((on_event_at st world e v).0 ∷ [])
place_of_status connecting world e v p = tt
place_of_status listen world e v p = tt
place_of_status invalid world e v p = tt
place_of_status reserve world e v p = on_ready-AtPlaces world e v p
place_of_status plisten world e v p = on_ready-AtPlaces world e v p
place_of_status connected world e v p = on_ready-AtPlaces world e v p
place_of_status halfclose world e v p = on_ready-AtPlaces world e v p
place_of_status paccept world e v p = on_ready-AtPlaces world e v p
place_of_status bind world e v p = on_ready-AtPlaces world e v p

pub on_event-AtPlaces :
    (world : World) (e : PollEvent) (v : Server)
    → IsPlace e.place
    → AtPlaces ((on_event world e v).0 ∷ [])
unfolding on_event
on_event-AtPlaces world e v p = place_of_status (v.socks e.place).status world e v p
