-- ===== src/Workers.antt =====
-- rednet-src/uwork.cc and uwork.h, with the loops `onWorkLogic` and `onWorkTimer` of
-- rednet-src/uframework.cc that call them: worker threads that sleep on a condition variable while
-- no queue waits, and the stop at the end of the process. The mutex and the condition variable are
-- those of POSIX: a thread that waits has given the mutex up, goes on once it is woken (by a signal,
-- by a broadcast or for no reason), and takes the mutex again first.
pub mod Invariant
pub mod Steps
pub mod Stop
pub mod Ends
pub mod Tests
use rednet.Common.{
  ℕ, zero, suc, ◌+◌, ◌-◌, ◌≡◌, Bool, true, false, ◌&&◌, ◌==◌, List, [], ◌∷◌, ◌++◌, Option, none,
  some, if◌then◌else◌,
}
use rednet.Common.Int.{ℤ, pos, ◌-ℤ◌, ltb_ℤ}

-- uworks, without its list of threads; `held` tells that a thread has the mutex tx__.
pub record Works : Type 0 where
  pub count : ℕ
  pub sleep : ℕ
  pub shutdown : Bool
  pub held : Bool

-- Where a worker stands. `testing`: at the head of its loop. `dispatching`: in `onDispatchEvent`. In
-- `wait`: `locking` before the mutex is taken, `locked` after `++sleep__`, `waiting` in
-- `pthread_cond_wait`, `woken` there too, but on the way out, `unlocking` before `--sleep__`.
pub data WorkerPc : Type 0 where
  testing dispatching locking locked waiting woken unlocking done : WorkerPc

-- One step of `onWorkLogic`, where `null` tells that `onDispatchEvent` gave no queue: `none` where the
-- thread cannot go on.
unfoldable pub worker_act : Bool → WorkerPc → Works → Option (WorkerPc × Works)
worker_act null testing w = some (if w.shutdown then done else dispatching, w)
worker_act null dispatching w = some (if null then locking else testing, w)
worker_act null locking w =
    if w.held then none else some (locked, record w { sleep = w.sleep + 1; held = true })
worker_act null locked w =
    if w.shutdown then some (unlocking, w) else some (waiting, record w { held = false })
worker_act null waiting w = none
worker_act null woken w = if w.held then none else some (unlocking, record w { held = true })
worker_act null unlocking w = some (testing, record w { sleep = w.sleep - 1; held = false })
worker_act null done w = none

abbrev pub is_waiting : WorkerPc → Bool
is_waiting waiting = true
is_waiting _ = false

-- `pthread_cond_signal` to one of the threads that wait, with `k` of them before it, or to none
unfoldable pub signal : ℕ → List WorkerPc → List WorkerPc
signal k [] = []
signal k (p ∷ ps) =
    let rest = signal (if is_waiting p then k - 1 else k) ps in
    if is_waiting p && k == 0 then woken ∷ ps else p ∷ rest

unfoldable pub wakeup : ℤ → ℕ → Works → List WorkerPc → List WorkerPc
wakeup busy k w ps = if ltb_ℤ (pos w.sleep) (pos w.count -ℤ busy) then ps else signal k ps

abbrev pub wake : WorkerPc → WorkerPc
wake waiting = woken
wake p = p

-- `pthread_cond_broadcast`
unfoldable pub broadcast : List WorkerPc → List WorkerPc
broadcast [] = []
broadcast (p ∷ ps) = wake p ∷ broadcast ps

-- Where the timer's thread stands: in its loop, before the mutex is taken in `stop`, before
-- `shutdown__ = 1`, before the broadcast, before the mutex is given up, and after `stop`.
pub data TimerPc : Type 0 where
  ticking stopping owning flagged cast stopped : TimerPc

pub record System : Type 0 where
  pub works : Works
  pub timer : TimerPc
  pub workers : List WorkerPc

-- One step of `onWorkTimer`, where `abort` tells that no context is left, and `k` whom its `wakeup`
-- wakes: `none` where the thread cannot go on.
unfoldable pub timer_act : Bool → ℕ → System → TimerPc → Option System
timer_act abort k s ticking =
    if abort
    then some (record s { timer = stopping })
    else (some (record s { workers = wakeup (pos s.works.count -ℤ pos 1) k s.works s.workers }))
timer_act abort k s stopping =
    if s.works.held
    then none
    else some (record s { timer = owning; works = record s.works { held = true } })
timer_act abort k s owning =
    some (record s { timer = flagged; works = record s.works { shutdown = true } })
timer_act abort k s flagged = some (record s { timer = cast; workers = broadcast s.workers })
timer_act abort k s cast =
    some (record s { timer = stopped; works = record s.works { held = false } })
timer_act abort k s stopped = none

-- `worked`: a worker goes on. `timed`: the timer's thread goes on. `served`: the thread of the sockets
-- calls `wakeup`. `stirred`: a thread that waits wakes up for no reason.
pub data ThreadStep : System → System → Type 0 where
  worked :
      (w : Works) (t : TimerPc) (before : List WorkerPc) (p : WorkerPc) (after : List WorkerPc)
      (null : Bool) (q : WorkerPc) (u : Works)
      → worker_act null p w ≡ some (q, u)
      → ThreadStep
          (record { works = w; timer = t; workers = before ++ p ∷ after })
          (record { works = u; timer = t; workers = before ++ q ∷ after })
  timed :
      (s u : System) (abort : Bool) (k : ℕ) → timer_act abort k s s.timer ≡ some u → ThreadStep s u
  served :
      (s : System) (k : ℕ)
      → ThreadStep s (record s { workers = wakeup (pos 0) k s.works s.workers })
  stirred :
      (w : Works) (t : TimerPc) (before after : List WorkerPc)
      → ThreadStep
          (record { works = w; timer = t; workers = before ++ waiting ∷ after })
          (record { works = w; timer = t; workers = before ++ woken ∷ after })

pub data Reach (s : System) : System → Type 0 where
  here : Reach s s
  next : {t u : System} → Reach s t → ThreadStep t u → Reach s u

-- the constructor
abbrev pub new_works : Works
new_works = record { count = 0; sleep = 0; shutdown = false; held = false }

-- `append` starts a thread, here one that runs `onWorkLogic`, and leaves count__ alone.
unfoldable pub append : List WorkerPc → List WorkerPc
append ws = ws ++ testing ∷ []

-- the loop at the end of `startup`
unfoldable pub start_workers : ℕ → List WorkerPc
start_workers zero = []
start_workers (suc n) = append (start_workers n)

-- the process when `startup` has begun to `join` its threads, with `n` workers
unfoldable pub startup : ℕ → System
startup n = record { works = new_works; timer = ticking; workers = start_workers n }
