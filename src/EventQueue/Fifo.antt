-- ===== src/EventQueue/Fifo.antt =====
-- The ring is a queue without a bound: `push` appends, `pop` takes the oldest event, and the flag
-- `inglobal` follows the queue's place in the global queue.
use rednet.Common.{
  ℕ, suc, ◌+◌, ◌-◌, ◌<◌, ◌≡◌, ◌≢◌, refl, ap, List, [], ◌∷◌, ◌++◌, arith, Bool-cases, inl, inr,
  Option, none, some, if◌then◌else◌, leb, ◌==◌, get_or, drop, length-drop, nil_of_length, true,
  false, ◌∙◌, sym,
}
use native.Mathlib.Decide.{dec_lt}
use rednet.EventQueue.{
  Event, blank, EventQueue, local_expand, advance, put, push, global_push, note_overload, pop,
}
use rednet.EventQueue.Ring.{contents, IsValid, take-drop-suc, drop-suc}
use rednet.EventQueue.Write.{Put, put_lem, contents_low, contents_high}

put-inglobal : (e : Event) (q : EventQueue) → (put e q).inglobal ≡ q.inglobal
unfolding put local_expand
put-inglobal e q = ground arith

pub global_push-append : (p : ℕ) (xs : List ℕ) → global_push p xs ≡ xs ++ p ∷ []
unfolding global_push
global_push-append p [] = refl
global_push-append p (x ∷ xs) = ap (λ k. x ∷ k) (global_push-append p xs)

-- The state after `push`: the ring is valid and holds the event after all others, it counts as
-- global, and it was appended to the global queue exactly if it did not count as global before.
pub record Pushed (e : Event) (p : ℕ) (q : EventQueue) (global : List ℕ) (r : EventQueue × List ℕ)
    : Type 0 where
  pub valid : IsValid r.0
  pub holds : contents r.0 ≡ contents q ++ e ∷ []
  pub flag : r.0.inglobal ≡ (if q.inglobal == 0 then 1 else q.inglobal)
  pub waiting : r.1 ≡ (if q.inglobal == 0 then global ++ p ∷ [] else global)

-- `push` on a valid ring, whether it has room or must expand, gives the state that `Pushed` describes.
pub push_lem :
    (e : Event) (p : ℕ) (q : EventQueue) (global : List ℕ)
    → IsValid q
    → Pushed e p q global (push e p q global)
unfolding push
push_lem e p q global v = elim (Bool-cases (q.inglobal == 0)) [
  | inl h ↦
      rw (put-inglobal e q, h)
        (record {
          valid = record { array = w.array; head_in = w.head_in; tail_in = w.tail_in };
          holds = done.holds;
          flag = rw h;
          waiting = rw h (global_push-append p global);
        })
  | inr h ↦
      let test : ((put e q).inglobal == 0) ≡ false = rw (put-inglobal e q) h in
      rw test
        (record { valid = w; holds = done.holds; flag = rw h (put-inglobal e q); waiting = rw h })
]
  where
    done : Put e q (put e q)
    done = put_lem e q v

    w : IsValid (put e q)
    w = done.valid

-- What `pop` returns and leaves: the oldest event and the rest, or nothing and the flag at 0.
abbrev pub Popped : EventQueue → Option Event × EventQueue → Type 0
Popped q (some e, q') = IsValid q' × (contents q ≡ e ∷ contents q') × (q'.inglobal ≡ q.inglobal)
Popped q (none, q') = IsValid q' × (contents q ≡ []) × (contents q' ≡ []) × (q'.inglobal ≡ 0)

note_overload-keeps :
    (q : EventQueue)
    → let r = note_overload q in
      (contents r ≡ contents q) × (r.inglobal ≡ q.inglobal) × (IsValid q → IsValid r)
unfolding note_overload
note_overload-keeps q =
    (refl, refl, λ v. record { array = v.array; head_in = v.head_in; tail_in = v.tail_in })

-- a ring with its head one further
step : EventQueue → EventQueue
step q = record q { head = advance q.cap q.head }

module _ (q : EventQueue) (v : IsValid q) where
  step-IsValid : IsValid (step q)
  unfolding step
  step-IsValid = record {
    array = v.array;
    head_in = ground (arith, v.head_in);
    tail_in = v.tail_in;
  }

  front_low : q.head < q.tail → contents q ≡ get_or q.eqs q.head blank ∷ contents (step q)
  unfolding step
  front_low h =
      let next : leb q.cap (q.head + 1) ≡ false = ground (arith, v.tail_in) in
      let after : leb (q.head + 1) q.tail ≡ true = ground arith in
      let count : q.tail - q.head ≡ suc (q.tail - (q.head + 1)) = omega arith in
      let place : suc q.head ≡ q.head + 1 = omega arith in
      rw (
        contents_low blank q v (omega arith),
        next,
        after,
        count,
        take-drop-suc q.eqs q.head (q.tail - (q.head + 1)) blank
            (omega (arith, v.array, v.head_in)),
        place,
      )

  front_high : q.tail < q.head → contents q ≡ get_or q.eqs q.head blank ∷ contents (step q)
  unfolding step
  front_high h =
      let front = drop-suc q.eqs q.head blank (omega (arith, v.array, v.head_in)) in
      elim (dec_lt (q.head + 1) q.cap) [
        | yes k ↦
            let next : leb q.cap (q.head + 1) ≡ false = ground arith in
            let after : leb (q.head + 1) q.tail ≡ false = ground arith in
            let place : suc q.head ≡ q.head + 1 = omega arith in
            rw (contents_high blank q v h, next, after, front, ← place)
        | no k ↦
            let next : leb q.cap (q.head + 1) ≡ true = ground arith in
            let after : leb 0 q.tail ≡ true = ground arith in
            let count : q.tail - 0 ≡ q.tail = omega arith in
            let nothing : drop (suc q.head) q.eqs ≡ [] =
              nil_of_length _ (omega (arith, v.array, v.head_in, length-drop (suc q.head) q.eqs)) in
            rw (contents_high blank q v h, next, after, front, nothing, count)
      ]

  front : q.head ≢ q.tail → contents q ≡ get_or q.eqs q.head blank ∷ contents (step q)
  front h = elim (dec_lt q.head q.tail) [ yes k ↦ front_low k | no k ↦ front_high (omega arith) ]

-- On a valid ring `pop` takes the oldest event, if there is one, and otherwise clears `inglobal`.
pub pop_lem : (q : EventQueue) → IsValid q → Popped q (pop q)
unfolding pop step
pop_lem q v = elim (Bool-cases (q.head == q.tail)) [
  | inl h ↦
      rw h (
        record { array = v.array; head_in = v.head_in; tail_in = v.tail_in },
        empty h,
        empty h,
        refl,
      )
  | inr h ↦
      let (held, flag, keeps) = note_overload-keeps (step q) in
      rw h (
        keeps (step-IsValid q v),
        front q v (ground arith) ∙ ap (λ k. get_or q.eqs q.head blank ∷ k) (sym held),
        flag,
      )
]
  where
    empty : (q.head == q.tail) ≡ true → contents q ≡ []
    empty h =
        let none_left : q.tail - q.head ≡ 0 = ground arith in
        rw (contents_low blank q v (ground arith), none_left)
