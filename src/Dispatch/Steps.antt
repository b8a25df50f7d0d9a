-- ===== src/Dispatch/Steps.antt =====
-- The scheduling invariant holds for every queue in every reachable state.
use rednet.Common.{
  update_ne, update_self, ℕ, zero, suc, ◌+◌, ◌≤◌, ◌≡◌, refl, ap, sym, ◌∙◌, Bool, true, false, subst,
  List, [], ◌∷◌, ◌++◌, if◌then◌else◌, ◌==◌, arith, Bool-cases, inl, inr,
}
use rednet.EventQueue.{Event, EventQueue, init, push}
use rednet.EventQueue.Fifo.{Pushed, push_lem}
use rednet.Dispatch.{
  Shared, Pc, finished, launching, act, send, launch, retire, count, held, held_all, System, places,
  Step, worked, sent, launched, failed, retired, Reach, here, next, idle, boot,
}
use rednet.Dispatch.Invariant.{
  flag, IsScheduled, count-append, held_all-append, recount, give_up, abandon, act-Keeps,
}

abbrev pub Good : System → Type 0
Good s = (i : ℕ) → IsScheduled (places i s) (s.shared.queues i) (s.shared.registered i)

-- the places of a queue, with those of one worker apart
split_places :
    (i : ℕ) (before : List Pc) (pc : Pc) (after : List Pc) (n : ℕ)
    → held_all i (before ++ pc ∷ after) + n ≡ held_all i before + held_all i after + (held i pc + n)
unfolding held_all
split_places i before pc after n = omega (arith, held_all-append i before (pc ∷ after))

-- what holds at an index, and at each other one, holds everywhere
by_index {ℓ} : (P : ℕ → Type ℓ) (j : ℕ) → P j → ((i : ℕ) → (j == i) ≡ false → P i) → (i : ℕ) → P i
by_index P j own other i = elim (Bool-cases (j == i)) [
  | inl h ↦ let same : j ≡ i = ground arith in subst P same own
  | inr h ↦ other i h
]

at-own : (j : ℕ) → ◌≡◌ {A = ℕ} (if j == j then 1 else 0) 1
at-own j = ground arith

at-other : (j i : ℕ) → (j == i) ≡ false → ◌≡◌ {A = ℕ} (if j == i then 1 else 0) 0
at-other j i h = rw h refl

-- the queue that an event is sent to: it stays where it is, or goes to the global queue
pushed :
    (j c : ℕ) (e : Event) (q : EventQueue) (g : List ℕ) (r : Bool) (q' : EventQueue) (g' : List ℕ)
    → Pushed e j q g (q', g')
    → IsScheduled (c + count j g) q r
    → IsScheduled (c + count j g') q' r
pushed j c e q g r q' g' p h = elim (Bool-cases (q.inglobal == 0)) [
  | inl z ↦
      let up : q'.inglobal ≡ 1 = simp z at p.flag in
      let to : g' ≡ g ++ j ∷ [] = simp z at p.waiting in
      let down : flag q ≡ 0 = rw z refl in
      let more : count j g' ≡ count j g + 1 =
        rw to (count-append j j g ∙ ap (λ k. count j g + k) (at-own j)) in
      let one : flag q' ≡ 1 = rw up refl in
      let least : c + count j g ≡ 0 = omega (arith, h.most) in
      record {
        valid = p.valid;
        most = omega arith;
        exact = λ k. omega arith;
        quiet = λ k. absurd (omega arith);
      }
  | inr z ↦
      let up : q'.inglobal ≡ q.inglobal = simp z at p.flag in
      let to : g' ≡ g = simp z at p.waiting in
      record {
        valid = p.valid;
        most = rw (to, up) h.most;
        exact = λ k. rw (to, up) (h.exact k);
        quiet = λ k. absurd (ground arith);
      }
]

other_push :
    (i j : ℕ) (e : Event) (q : EventQueue) (g : List ℕ) (q' : EventQueue) (g' : List ℕ)
    → Pushed e j q g (q', g')
    → (j == i) ≡ false
    → count i g ≡ count i g'
other_push i j e q g q' g' p h = elim (Bool-cases (q.inglobal == 0)) [
  | inl z ↦
      let to : g' ≡ g ++ j ∷ [] = simp z at p.waiting in
      rw to (omega (arith, count-append i j g, at-other j i h))
  | inr z ↦ ap (count i) (sym (simp z at p.waiting))
]

sent-Good :
    (s : Shared) (ws : List Pc) (j : ℕ) (e : Event)
    → Good (record { shared = s; workers = ws })
    → Good (record { shared = send j e s; workers = ws })
unfolding send
sent-Good s ws j e good =
    by_index
      (λ i.
        IsScheduled (places i (record { shared = send j e s; workers = ws }))
          ((send j e s).queues i) ((send j e s).registered i))
      j
      (let own = good j in
        rw (update_self s.queues j (push e j (s.queues j) s.global).0) (
          pushed j (held_all j ws) e (s.queues j) s.global (s.registered j) _ _
            (push_lem e j (s.queues j) s.global own.valid) own))
      (λ i h. rw (update_ne s.queues j (push e j (s.queues j) s.global).0 i h) (
        recount
          (ap (λ k. held_all i ws + k)
            (other_push i j e (s.queues j) s.global _ _
              (push_lem e j (s.queues j) s.global (good j).valid) h))
          (good i)))

fresh : (j : ℕ) {n : ℕ} → n ≡ 1 → IsScheduled n (init j) true
unfolding init
fresh j e = rw e (record {
  valid = record { array = refl; head_in = omega arith; tail_in = omega arith };
  most = omega arith;
  exact = λ k. refl;
  quiet = λ k. refl;
})

launched-Good :
    (s : Shared) (ws : List Pc) (j : ℕ)
    → places j (record { shared = s; workers = ws }) ≡ 0
    → Good (record { shared = s; workers = ws })
    → Good (record { shared = launch j s; workers = launching j ∷ ws })
unfolding launch held_all held
launched-Good s ws j none good =
    by_index
      (λ i.
        IsScheduled (places i (record { shared = launch j s; workers = launching j ∷ ws }))
          ((launch j s).queues i) ((launch j s).registered i))
      j
      (rw (update_self s.queues j (init j), update_self s.registered j true)
        (fresh j (ground (arith, none))))
      (λ i h.
        rw (update_ne s.queues j (init j) i h, update_ne s.registered j true i h, h)
          (recount (omega arith) (good i)))

retired-Good :
    (s : Shared) (ws : List Pc) (j : ℕ)
    → Good (record { shared = s; workers = ws })
    → Good (record { shared = retire j s; workers = ws })
unfolding retire
retired-Good s ws j good =
    by_index
      (λ i.
        IsScheduled (places i (record { shared = s; workers = ws })) (s.queues i)
          ((retire j s).registered i))
      j (rw (update_self s.registered j false) (abandon (good j)))
      (λ i h. rw (update_ne s.registered j false i h) (good i))

worked-Good :
    (s : Shared) (before : List Pc) (pc : Pc) (after : List Pc)
    → Good (record { shared = s; workers = before ++ pc ∷ after })
    → Good (record { shared = (act pc s).1; workers = before ++ (act pc s).0 ∷ after })
worked-Good s before pc after good i =
    recount (sym (split_places i before (act pc s).0 after (count i (act pc s).1.global))) (
      act-Keeps i (held_all i before + held_all i after) pc s
        (recount (split_places i before pc after (count i s.global)) (good i)))

module _ (s : Shared) (before : List Pc) (j : ℕ) (after : List Pc) where
  abbrev with_worker : Pc → System
  with_worker pc = record { shared = s; workers = before ++ pc ∷ after }

  fewer : (i : ℕ) → places i (with_worker finished) ≤ places i (with_worker (launching j))
  unfolding held_all held
  fewer i = omega (
    arith,
    held_all-append i before (finished ∷ after),
    held_all-append i before (launching j ∷ after),
  )

  same :
      (i : ℕ)
      → (j == i) ≡ false
      → places i (with_worker (launching j)) ≡ places i (with_worker finished)
  unfolding held_all held
  same i h = omega (
    arith,
    at-other j i h,
    held_all-append i before (finished ∷ after),
    held_all-append i before (launching j ∷ after),
  )

failed-Good :
    (s : Shared) (before : List Pc) (j : ℕ) (after : List Pc)
    → Good (record { shared = s; workers = before ++ launching j ∷ after })
    → Good (record { shared = retire j s; workers = before ++ finished ∷ after })
unfolding retire
failed-Good s before j after good =
    by_index
      (λ i.
        IsScheduled (places i (record { shared = s; workers = before ++ finished ∷ after }))
          (s.queues i) ((retire j s).registered i))
      j
      (rw (update_self s.registered j false)
        (give_up _ _ (s.queues j) (fewer s before j after j) (abandon (good j))))
      (λ i h.
        rw (update_ne s.registered j false i h) (recount (same s before j after i h) (good i)))

Step-Good : {s t : System} → Step s t → Good s → Good t
Step-Good (worked s before pc after) good = worked-Good s before pc after good
Step-Good (sent s ws i e) good = sent-Good s ws i e good
Step-Good (launched s ws i h) good = launched-Good s ws i h good
Step-Good (failed s before i after) good = failed-Good s before i after good
Step-Good (retired s ws i) good = retired-Good s ws i good

held_all-idle : (i n : ℕ) → held_all i (idle n) ≡ 0
unfolding held_all idle held
held_all-idle i zero = refl
held_all-idle i (suc n) = omega (arith, held_all-idle i n)

boot-Good : (n : ℕ) → Good (boot n)
unfolding boot count
boot-Good n i =
    let h = fresh i refl in
    recount refl (give_up 1 _ (init i) (omega (arith, held_all-idle i n)) (abandon h))

pub Reach-Good : (n : ℕ) {t : System} → Reach (boot n) t → Good t
Reach-Good n here = boot-Good n
Reach-Good n (next r h) = Step-Good h (Reach-Good n r)
