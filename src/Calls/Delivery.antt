-- ===== src/Calls/Delivery.antt =====
-- rednet-src/ucall.cc: what `sendEvent` does with the event and its data.
use rednet.Common.{
  ℕ, ◌%◌, ◌^◌, ◌≡◌, ◌≢◌, refl, ap, Bool, true, false, not, [], ◌∷◌, ◌++◌, Option, none, some, ◌∙◌,
  ◌==◌, arith, update_self, update_ne,
}
use rednet.EventQueue.{Event, push}
use rednet.EventQueue.Ring.{contents, IsValid}
use rednet.EventQueue.Fifo.{push_lem}
use rednet.Dispatch.{Shared, send}
use rednet.ContextMgr.{Context, is_none, grab}
use rednet.Calls.{
  Node, push_to, send_event, Posted, assert_failed, posted, answer_of, post, send_from,
}

-- What `sendEvent` of the event comes to. The call that answers its session gave the event to the queue
-- of the context, behind the others, and touched no other queue; the call that answers -1 found no
-- context, changed nothing, and freed the data, if there were any.
abbrev pub IsAnswered : Event → ℕ → Node → Posted → Type 0
IsAnswered e dest n assert_failed = ◌≡◌ {A = Bool} true false
IsAnswered e dest n (posted (some session) freed m) =
    (session ≡ e.session)
    × (freed ≡ false)
    × (is_none (grab n.mgr dest) ≡ false)
    × (contents (m.shared.queues dest) ≡ contents (n.shared.queues dest) ++ e ∷ [])
    × ((other : ℕ) → (dest == other) ≡ false → m.shared.queues other ≡ n.shared.queues other)
IsAnswered e dest n (posted none freed m) =
    (freed ≡ not (e.data_ptr == 0)) × (is_none (grab n.mgr dest) ≡ true) × (m ≡ n)

send-contents :
    (i : ℕ) (e : Event) (s : Shared)
    → IsValid (s.queues i)
    → (contents ((send i e s).queues i) ≡ contents (s.queues i) ++ e ∷ [])
      × ((other : ℕ) → (i == other) ≡ false → (send i e s).queues other ≡ s.queues other)
unfolding send
send-contents i e s v =
    let p = push_lem e i (s.queues i) s.global v in
    let q = (push e i (s.queues i) s.global).0 in
    (ap contents (update_self s.queues i q) ∙ p.holds, λ other k. update_ne s.queues i q other k)

push_to-IsAnswered :
    (dest : ℕ) (e : Event) (o : Option Context) (n : Node)
    → grab n.mgr dest ≡ o
    → IsValid (n.shared.queues dest)
    → IsAnswered e dest n (answer_of e.session e.data_ptr (push_to dest e o n))
push_to-IsAnswered dest e none n g v = (refl, ap is_none g, refl)
push_to-IsAnswered dest e (some c) n g v =
    let (holds, others) = send-contents dest e n.shared v in
    (refl, refl, ap is_none g, holds, others)

-- `sendEvent`, without a context of the sender, to an id that is not 0 and whose queue is valid either
-- answers the session, and the event, with its type modulo 2^8 and its size modulo 2^32, is the last in
-- the queue of the context, and no other queue is touched; or it answers -1, and then there is no such
-- context, nothing is changed, and the data are freed, if there are any.
pub send_from-IsAnswered :
    (source dest type session data_ptr sz : ℕ) (n : Node)
    → dest ≢ 0
    → IsValid (n.shared.queues dest)
    → IsAnswered
        (record {
          source = source;
          session = session;
          data_ptr = data_ptr;
          type = type % 2 ^ 8;
          sz = sz % 2 ^ 32;
        })
        dest
        n
        (send_from source dest type session data_ptr sz none n)
unfolding send_from post send_event
send_from-IsAnswered source dest type session data_ptr sz n d v =
    let there : (dest == 0) ≡ false = ground arith in
    rw there (
      push_to-IsAnswered dest
        (record {
          source = source;
          session = session;
          data_ptr = data_ptr;
          type = type % 2 ^ 8;
          sz = sz % 2 ^ 32;
        })
        (grab n.mgr dest) n refl v)
