-- ===== src/Workers/Invariant.antt =====
-- What holds in every state that the threads reach: the mutex has one owner, sleep__ counts the
-- threads inside `wait`, and no thread waits behind the broadcast of `stop`.

use rednet.Common.{
  ℕ, ◌+◌, ◌≤◌, ◌≡◌, refl, sym, ◌∙◌, Bool, true, false, List, [], ◌∷◌, ◌++◌, some, arith,
}
use rednet.Workers.{
  Works, WorkerPc, testing, dispatching, locking, locked, waiting, woken, unlocking, done,
  worker_act, TimerPc, ticking, stopping, owning, flagged, cast, stopped, System,
}

-- between `++sleep__` and `--sleep__`
abbrev pub inside : WorkerPc → ℕ
inside locked = 1
inside waiting = 1
inside woken = 1
inside unlocking = 1
inside _ = 0

-- with the mutex
abbrev pub owns : WorkerPc → ℕ
owns locked = 1
owns unlocking = 1
owns _ = 0

abbrev pub waits : WorkerPc → ℕ
waits waiting = 1
waits _ = 0

abbrev pub timer_owns : TimerPc → ℕ
timer_owns owning = 1
timer_owns flagged = 1
timer_owns cast = 1
timer_owns _ = 0

-- behind `shutdown__ = 1`
abbrev pub has_set : TimerPc → Bool
has_set flagged = true
has_set cast = true
has_set stopped = true
has_set _ = false

-- behind the broadcast
abbrev pub has_cast : TimerPc → Bool
has_cast cast = true
has_cast stopped = true
has_cast _ = false

abbrev pub bit : Bool → ℕ
bit true = 1
bit false = 0

unfoldable pub total : (WorkerPc → ℕ) → List WorkerPc → ℕ
total f [] = 0
total f (p ∷ ps) = f p + total f ps

-- the share of one thread
pub total_split :
    (f : WorkerPc → ℕ) (before : List WorkerPc) (p : WorkerPc) (after : List WorkerPc)
    → total f (before ++ p ∷ after) ≡ total f before + total f after + f p
unfolding total
total_split f [] p after = omega arith
total_split f (x ∷ before) p after = omega (arith, total_split f before p after)

pub record Inv (w : Works) (t : TimerPc) (ps : List WorkerPc) : Type 0 where
  pub asleep : w.sleep ≡ total inside ps
  pub owned : bit w.held ≡ total owns ps + timer_owns t
  pub flag : w.shutdown ≡ has_set t
  pub quiet : has_cast t ≡ true → total waits ps ≡ 0

abbrev pub IsSound : System → Type 0
IsSound s = Inv s.works s.timer s.workers

-- what one step of a worker changes
record Acted (w : Works) (p : WorkerPc) (u : Works) (q : WorkerPc) : Type 0 where
  slept : w.sleep + inside q ≡ u.sleep + inside p
  held : bit w.held + owns q ≡ bit u.held + owns p
  shut : w.shutdown ≡ u.shutdown
  calm : w.shutdown ≡ true → waits q ≤ waits p

worker_act-Acted :
    (null : Bool) (p : WorkerPc) (w : Works) (q : WorkerPc) (u : Works)
    → inside p ≤ w.sleep
    → owns p ≤ bit w.held
    → worker_act null p w ≡ some (q, u)
    → Acted w p u q
unfolding worker_act
worker_act-Acted null testing w q u a b e = ground arith
worker_act-Acted null dispatching w q u a b e = ground arith
worker_act-Acted null locking w q u a b e = ground arith
worker_act-Acted null locked w q u a b e = ground arith
worker_act-Acted null waiting w q u a b e = ground arith
worker_act-Acted null woken w q u a b e = ground arith
worker_act-Acted null unlocking w q u a b e = ground arith
worker_act-Acted null done w q u a b e = ground arith

pub worked-IsSound :
    (w : Works) (t : TimerPc) (before : List WorkerPc) (p : WorkerPc) (after : List WorkerPc)
    (null : Bool) (q : WorkerPc) (u : Works)
    → worker_act null p w ≡ some (q, u)
    → Inv w t (before ++ p ∷ after)
    → Inv u t (before ++ q ∷ after)
worked-IsSound w t before p after null q u e v =
    let was = λ (f : WorkerPc → ℕ). total_split f before p after in
    let now = λ (f : WorkerPc → ℕ). total_split f before q after in
    let a =
      worker_act-Acted null p w q u (omega (arith, v.asleep, was inside))
        (omega (arith, v.owned, was owns)) e in
    record {
      asleep = omega (arith, v.asleep, a.slept, was inside, now inside);
      owned = omega (arith, v.owned, a.held, was owns, now owns);
      flag = sym a.shut ∙ v.flag;
      quiet = λ c. omega (arith, v.quiet c, was waits, now waits, a.calm (v.flag ∙ cast_set t c));
    }
  where
    cast_set : (t : TimerPc) → has_cast t ≡ true → has_set t ≡ true
    cast_set flagged h = refl
    cast_set cast h = refl
    cast_set stopped h = refl
    cast_set ticking h = cc
    cast_set stopping h = cc
    cast_set owning h = cc
