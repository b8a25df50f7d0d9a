-- ===== src/Dispatch/Exclusive.antt =====
-- A queue is never in two places, and a queue with events is never lost.
use rednet.Common.{ℕ, ◌≤◌, ◌≡◌, ◌≢◌, refl, ◌∙◌, true, [], ◌==◌, arith, Bool-cases, inl, inr}
use rednet.EventQueue.Ring.{contents}
use rednet.Dispatch.{System, places, Reach, boot}
use rednet.Dispatch.Invariant.{flag-le}
use rednet.Dispatch.Steps.{Reach-Good}

-- In every state that `n` workers reach from the start, by steps of workers, sends, launches and
-- retirements in any order, a queue stands in at most one place: in the global queue once, or in the
-- hands of one worker or of the thread that launches its service. So no two threads handle events of
-- one service at a time.
pub places-le : (n : ℕ) (t : System) (i : ℕ) → Reach (boot n) t → places i t ≤ 1
places-le n t i r =
    let good = Reach-Good n r i in omega (arith, good.most, flag-le (t.shared.queues i))

-- In every state that `n` workers reach from the start, the queue of a registered service with events
-- left stands in exactly one place: an event is not left in a queue that no worker can come by.
pub places-eq :
    (n : ℕ) (t : System) (i : ℕ)
    → Reach (boot n) t
    → t.shared.registered i ≡ true
    → contents (t.shared.queues i) ≢ []
    → places i t ≡ 1
places-eq n t i r on some_left =
    let good = Reach-Good n r i in
    elim (Bool-cases ((t.shared.queues i).inglobal == 0)) [
      | inl z ↦ absurd (some_left (good.quiet (ground arith)))
      | inr z ↦ good.exact on ∙ rw z refl
    ]
