-- ===== src/Workers/Ends.antt =====
-- No worker is stuck behind `stop`, and all of them end.
use Prim.{Unit, tt}
use rednet.Common.{
  ℕ, ◌+◌, ◌*◌, ◌≤◌, ◌<◌, ◌≡◌, ◌⊎◌, refl, ap, Bool, true, false, List, [], ◌∷◌, ◌++◌, some, arith,
  Bool-cases, inl, inr, ◌==◌, ◌-◌, length,
}
use rednet.Workers.{
  Works, WorkerPc, testing, dispatching, locking, locked, waiting, woken, unlocking, done,
  worker_act, stopped, System, Reach, startup,
}
use rednet.Workers.Stop.{left, Run, IsStopped, shut, no_waits, Run-Ran}
use rednet.Workers.Invariant.{timer_owns, owns, waits, bit, total, total_split}
use rednet.Workers.Steps.{Reach-IsSound}

-- A worker of the list can go on.
pub record CanGo (w : Works) (ps : List WorkerPc) : Type 0 where
  pub before : List WorkerPc
  pub thread : WorkerPc
  pub after : List WorkerPc
  pub null : Bool
  pub to : WorkerPc
  pub works : Works
  pub split : ps ≡ before ++ thread ∷ after
  pub goes : worker_act null thread w ≡ some (to, works)

-- a thread of the list with its part in a sum
record Found (f : WorkerPc → ℕ) (ps : List WorkerPc) : Type 0 where
  before : List WorkerPc
  thread : WorkerPc
  after : List WorkerPc
  split : ps ≡ before ++ thread ∷ after
  part : 0 < f thread

found : (f : WorkerPc → ℕ) (ps : List WorkerPc) → 0 < total f ps → Found f ps
unfolding total
found f [] h = absurd (omega arith)
found f (p ∷ ps) h = elim (Bool-cases (f p == 0)) [
  | inr n ↦ record { before = []; thread = p; after = ps; split = refl; part = ground arith }
  | inl z ↦
      let r = found f ps (ground arith) in
      record {
        before = p ∷ r.before;
        thread = r.thread;
        after = r.after;
        split = ap (λ qs. p ∷ qs) r.split;
        part = r.part;
      }
]

-- what a thread does behind `stop`
record Goes (p : WorkerPc) (w : Works) : Type 0 where
  to : WorkerPc
  works : Works
  goes : worker_act true p w ≡ some (to, works)

owner-Goes : (p : WorkerPc) (w : Works) → 0 < owns p → w.shutdown ≡ true → Goes p w
unfolding worker_act
owner-Goes locked w o h = record { to = unlocking; works = w; goes = rw h refl }
owner-Goes unlocking w o h = record {
  to = testing;
  works = record w { sleep = w.sleep - 1; held = false };
  goes = refl;
}
owner-Goes testing w o h = absurd (omega arith)
owner-Goes dispatching w o h = absurd (omega arith)
owner-Goes locking w o h = absurd (omega arith)
owner-Goes waiting w o h = absurd (omega arith)
owner-Goes woken w o h = absurd (omega arith)
owner-Goes done w o h = absurd (omega arith)

any-Goes :
    (p : WorkerPc) (w : Works)
    → 0 < left p
    → waits p ≡ 0
    → w.shutdown ≡ true
    → w.held ≡ false
    → Goes p w
unfolding worker_act
any-Goes locked w o n h f = record { to = unlocking; works = w; goes = rw h refl }
any-Goes unlocking w o n h f = owner-Goes unlocking w (omega arith) h
any-Goes testing w o n h f = record { to = done; works = w; goes = rw h refl }
any-Goes dispatching w o n h f = record { to = locking; works = w; goes = refl }
any-Goes locking w o n h f = record {
  to = locked;
  works = record w { sleep = w.sleep + 1; held = true };
  goes = rw f refl;
}
any-Goes waiting w o n h f = absurd (omega arith)
any-Goes woken w o n h f = record {
  to = unlocking;
  works = record w { held = true };
  goes = rw f refl;
}
any-Goes done w o n h f = absurd (omega arith)

going :
    (f : WorkerPc → ℕ) (w : Works) (ps : List WorkerPc) (r : Found f ps)
    → Goes r.thread w
    → CanGo w ps
going f w ps r g = record {
  before = r.before;
  thread = r.thread;
  after = r.after;
  null = true;
  to = g.to;
  works = g.works;
  split = r.split;
  goes = g.goes;
}

can_go : (s : System) → IsStopped s → 0 < total left s.workers → CanGo s.works s.workers
can_go s st h =
    let set = shut st.sound st.ended in
    elim (Bool-cases s.works.held) [
      | inl b ↦
          let r = found owns s.workers (held_owned s st b) in
          going owns s.works s.workers r (owner-Goes r.thread s.works r.part set)
      | inr b ↦
          let r = found left s.workers h in
          going left s.works s.workers r (
            any-Goes r.thread s.works r.part
              (omega (
                arith,
                no_waits st.sound st.ended,
                ap (total waits) r.split,
                total_split waits r.before r.thread r.after,
              ))
              set b)
    ]
  where
    held_owned : (s : System) → IsStopped s → s.works.held ≡ true → 0 < total owns s.workers
    held_owned s st b =
        let one : bit s.works.held ≡ 1 = rw b refl in
        let none : timer_owns s.timer ≡ 0 = rw st.ended refl in
        omega (arith, st.sound.owned, one, none)

abbrev pub AllDone : List WorkerPc → Type 0
AllDone [] = Unit
AllDone (p ∷ ps) = (p ≡ done) × AllDone ps

all_done : (ps : List WorkerPc) → total left ps ≡ 0 → AllDone ps
unfolding total
all_done [] z = tt
all_done (done ∷ ps) z = (refl, all_done ps (omega arith))
all_done (testing ∷ ps) z = absurd (omega arith)
all_done (dispatching ∷ ps) z = absurd (omega arith)
all_done (locking ∷ ps) z = absurd (omega arith)
all_done (locked ∷ ps) z = absurd (omega arith)
all_done (waiting ∷ ps) z = absurd (omega arith)
all_done (woken ∷ ps) z = absurd (omega arith)
all_done (unlocking ∷ ps) z = absurd (omega arith)

left_le : (ps : List WorkerPc) → total left ps ≤ 5 * length ps
unfolding total
left_le [] = omega arith
left_le (p ∷ ps) = ground (arith, left_le ps)

-- In every state that `n` workers, the timer's thread and the thread of the sockets reach and in which
-- `stop` has returned, whatever is then run: the workers take at most five steps for each of them, and
-- behind every run all of them are done, or one of them can go on.
pub stop_ends :
    (n k : ℕ) (s u : System)
    → Reach (startup n) s
    → s.timer ≡ stopped
    → Run s k u
    → (k ≤ 5 * length s.workers) × (AllDone u.workers ⊎ CanGo u.works u.workers)
stop_ends n k s u r e run =
    let ran = Run-Ran run (record { sound = Reach-IsSound n r; ended = e }) in
    (
      omega (arith, ran.few, left_le s.workers),
      elim (Bool-cases (total left u.workers == 0)) [
        | inl z ↦ inl (all_done u.workers (ground arith))
        | inr z ↦ inr (can_go u ran.stays (ground arith))
      ],
    )
