-- ===== src/Dispatch/Invariant.antt =====
-- Every step keeps the scheduling invariant of each queue.
use rednet.Common.{
  update_self, update_ne, ℕ, ◌+◌, ◌≤◌, ◌≡◌, ◌≢◌, refl, ap, Bool, true, false, List, [], ◌∷◌, ◌++◌,
  Option, none, some, if◌then◌else◌, ◌==◌, arith, Bool-cases, inl, inr, subst, sym, ◌∙◌, false≢true,
}
use rednet.EventQueue.{Event, EventQueue, pop, global_push, global_pop, take_overload}
use rednet.EventQueue.Ring.{contents, IsValid}
use rednet.EventQueue.Fifo.{Popped, pop_lem, global_push-append}
use rednet.Dispatch.{
  Shared, Pc, free, finished, launching, holding, granted, handled, giving, act, count, held,
  after_take, after_pop, report, after_next, held_all,
}

abbrev pub flag : EventQueue → ℕ
flag q = if q.inglobal == 0 then 0 else 1

-- A queue that is in `n` places, and whether its service is registered: its ring is valid, it is in
-- no place that its flag does not allow, in exactly that place while the service is registered, and
-- without events where the flag is down.
pub record IsScheduled (n : ℕ) (q : EventQueue) (registered : Bool) : Type 0 where
  pub valid : IsValid q
  pub most : n ≤ flag q
  pub exact : registered ≡ true → n ≡ flag q
  pub quiet : q.inglobal ≡ 0 → contents q ≡ []

pub count-append :
    (i q : ℕ) (xs : List ℕ) → count i (xs ++ q ∷ []) ≡ count i xs + (if q == i then 1 else 0)
unfolding count
count-append i q [] = ground arith
count-append i q (x ∷ xs) = omega (arith, count-append i q xs)

count-global_push :
    (i q : ℕ) (xs : List ℕ) → count i (global_push q xs) ≡ count i xs + (if q == i then 1 else 0)
count-global_push i q xs = rw global_push-append (count-append i q xs)

pub held_all-append :
    (i : ℕ) (xs ys : List Pc) → held_all i (xs ++ ys) ≡ held_all i xs + held_all i ys
unfolding held_all
held_all-append i [] ys = omega arith
held_all-append i (x ∷ xs) ys = omega (arith, held_all-append i xs ys)

pub flag-le : (q : EventQueue) → flag q ≤ 1
flag-le q = grind arith

cons≢nil : {a : Event} {xs : List Event} → a ∷ xs ≢ []
cons≢nil e = cc e

-- the invariant with another number of places
pub recount : {n m : ℕ} {q : EventQueue} {r : Bool} → n ≡ m → IsScheduled n q r → IsScheduled m q r
recount {q} {r} e h = subst (λ k. IsScheduled k q r) e h

pub abandon : {n : ℕ} {q : EventQueue} {r : Bool} → IsScheduled n q r → IsScheduled n q false
abandon h = record {
  valid = h.valid;
  most = h.most;
  exact = λ e. absurd (false≢true e);
  quiet = h.quiet;
}

-- a queue whose service is gone may be given up
pub give_up : (n m : ℕ) (q : EventQueue) → m ≤ n → IsScheduled n q false → IsScheduled m q false
give_up n m q k h = record {
  valid = h.valid;
  most = omega (arith, h.most);
  exact = λ e. absurd (false≢true e);
  quiet = h.quiet;
}

take_count :
    (i : ℕ) (g : List ℕ)
    → held i free + count i g ≡ held i (after_take (global_pop g).0) + count i (global_pop g).1
unfolding held count global_pop
take_count i [] = refl
take_count i (q ∷ g) = omega arith

next_count :
    (i q : ℕ) (g : List ℕ)
    → held i (handled q) + count i g
      ≡ held i (after_next q (global_pop g).0) + count i (global_pop g).1
unfolding held count global_pop
next_count i q [] = refl
next_count i q (x ∷ g) = omega arith

give_count :
    (i q nq : ℕ) (g : List ℕ)
    → held i (giving q nq) + count i g ≡ held i (holding nq) + count i (global_push q g)
unfolding held
give_count i q nq g = omega (arith, count-global_push i q g)

launch_count :
    (i q : ℕ) (g : List ℕ)
    → held i (launching q) + count i g ≡ held i finished + count i (global_push q g)
unfolding held
launch_count i q g = omega (arith, count-global_push i q g)

grant_count : (i q : ℕ) → held i (holding q) ≡ held i (granted q)
unfolding held
grant_count i q = refl

drop_count : (i q : ℕ) → held i free ≤ held i (holding q)
unfolding held
drop_count i q = omega arith

other_count : (i q : ℕ) → (q == i) ≡ false → held i free ≡ held i (holding q)
unfolding held
other_count i q h = rw h refl

other_popped :
    (i q : ℕ) (o : Option Event) → (q == i) ≡ false → held i (granted q) ≡ held i (after_pop q o)
unfolding held
other_popped i q none h = rw h refl
other_popped i q (some e) h = refl

-- clearing the overload changes nothing that the invariant is about
reported :
    {n : ℕ} {r : Bool} (q : EventQueue) → IsScheduled n q r → IsScheduled n (take_overload q).1 r
unfolding take_overload
reported q h = elim (Bool-cases (q.overload == 0)) [
  | inl z ↦ rw z h
  | inr z ↦ rw z (record {
    valid = record { array = h.valid.array; head_in = h.valid.head_in; tail_in = h.valid.tail_in };
    most = h.most;
    exact = h.exact;
    quiet = h.quiet;
  })
]

-- Handling an event, or finding none: the queue keeps its place, or gives it up with its flag.
popped :
    (i c g : ℕ) (q : EventQueue) (r : Bool) (o : Option Event) (left : EventQueue)
    → Popped q (o, left)
    → IsScheduled (c + (held i (granted i) + g)) q r
    → IsScheduled (c + (held i (after_pop i o) + g)) (report o left) r
unfolding held
popped i c g q r none left (v, e, e', z) h =
    let mine : (i == i) ≡ true = ground arith in
    let few : c + (1 + g) ≤ flag q = simp mine at h.most in
    let one = flag-le q in
    record {
      valid = v;
      most = rw z (omega arith);
      exact = λ k. rw z (omega arith);
      quiet = λ k. e';
    }
popped i c g q r (some a) left (v, e, f) h = reported left (record {
  valid = v;
  most = rw f h.most;
  exact = λ k. rw f (h.exact k);
  quiet = λ k. absurd (cons≢nil (sym e ∙ h.quiet (sym f ∙ k)));
})

module _ (i c : ℕ) where
  abbrev pub Keeps : Shared → Pc → Shared → Pc → Type 0
  Keeps s pc s' pc' =
      IsScheduled (c + (held i pc + count i s.global)) (s.queues i) (s.registered i)
      → IsScheduled (c + (held i pc' + count i s'.global)) (s'.queues i) (s'.registered i)

  hold-Keeps :
      (q : ℕ) (s : Shared) → Keeps s (holding q) s (if s.registered q then granted q else free)
  hold-Keeps q s h = elim (Bool-cases (s.registered q)) [
    | inl r ↦ rw r (recount (ap (λ k. c + (k + count i s.global)) (grant_count i q)) h)
    | inr r ↦ rw r (elim (Bool-cases (q == i)) [
      | inl e ↦
          let gone : s.registered i ≡ false = ap s.registered (sym (ground arith)) ∙ r in
          rw gone (give_up _ _ (s.queues i) (omega (arith, drop_count i q)) (simp gone at h))
      | inr e ↦ recount (ap (λ k. c + (k + count i s.global)) (sym (other_count i q e))) h
    ])
  ]

  own-Keeps : (s : Shared) → Keeps s (granted i) (act (granted i) s).1 (act (granted i) s).0
  unfolding act
  own-Keeps s h = rw (update_self s.queues i (report (pop (s.queues i)).0 (pop (s.queues i)).1)) (
      popped i c (count i s.global) (s.queues i) (s.registered i) (pop (s.queues i)).0
        (pop (s.queues i)).1 (pop_lem (s.queues i) h.valid) h)

  pop-Keeps : (q : ℕ) (s : Shared) → Keeps s (granted q) (act (granted q) s).1 (act (granted q) s).0
  unfolding act
  pop-Keeps q s h = elim (Bool-cases (q == i)) [
    | inl e ↦
        let same : i ≡ q = ground arith in
        subst (λ k. Keeps s (granted k) (act (granted k) s).1 (act (granted k) s).0) same
          (own-Keeps s) h
    | inr e ↦
        rw (update_ne s.queues q (report (pop (s.queues q)).0 (pop (s.queues q)).1) i e) (
          recount (ap (λ k. c + (k + count i s.global)) (other_popped i q (pop (s.queues q)).0 e))
            h)
  ]

  pub act-Keeps : (pc : Pc) (s : Shared) → Keeps s pc (act pc s).1 (act pc s).0
  unfolding act
  act-Keeps free s h = recount (ap (λ k. c + k) (take_count i s.global)) h
  act-Keeps finished s h = h
  act-Keeps (holding q) s h = hold-Keeps q s h
  act-Keeps (granted q) s h = pop-Keeps q s h
  act-Keeps (handled q) s h = recount (ap (λ k. c + k) (next_count i q s.global)) h
  act-Keeps (giving q nq) s h = recount (ap (λ k. c + k) (give_count i q nq s.global)) h
  act-Keeps (launching q) s h = recount (ap (λ k. c + k) (launch_count i q s.global)) h
