-- ===== src/Workers/Stop.antt =====
-- The end of the workers after `stop`.

use rednet.Common.{
  ℕ, suc, ◌+◌, ◌≤◌, ◌<◌, ◌≡◌, refl, sym, ap, ◌∙◌, Bool, true, List, [], ◌∷◌, ◌++◌, none, some,
  arith, Bool-cases, inl, inr, length, length-append,
}
use rednet.Common.Int.{ℤ, pos, ◌-ℤ◌, ltb_ℤ}
use rednet.Workers.{
  Works, WorkerPc, testing, dispatching, locking, locked, waiting, woken, unlocking, done,
  worker_act, signal, wakeup, TimerPc, stopped, System, timer_act, ThreadStep, worked, timed,
  served, stirred,
}
use rednet.Workers.Invariant.{waits, total, total_split, Inv, IsSound}
use rednet.Workers.Steps.{ThreadStep-IsSound}

-- how many steps a worker has left at most, once shutdown__ is set; 0 for a thread that is done
abbrev pub left : WorkerPc → ℕ
left done = 0
left testing = 1
left unlocking = 2
left woken = 3
left locked = 3
left locking = 4
left dispatching = 5
left waiting = 4

-- Steps of any threads, of which `k` are steps of workers.
pub data Run (s : System) : ℕ → System → Type 0 where
  begin : Run s 0 s
  works :
      {k : ℕ} (w : Works) (before : List WorkerPc) (p : WorkerPc) (after : List WorkerPc)
      (null : Bool) (q : WorkerPc) (u : Works)
      → Run s k (record { works = w; timer = stopped; workers = before ++ p ∷ after })
      → worker_act null p w ≡ some (q, u)
      → Run s (suc k) (record { works = u; timer = stopped; workers = before ++ q ∷ after })
  others : {k : ℕ} {t u : System} → Run s k t → ThreadStep t u → Run s k u

-- One step brings a worker nearer to its end.
worker_act-left :
    (null : Bool) (p : WorkerPc) (w : Works) (q : WorkerPc) (u : Works)
    → w.shutdown ≡ true
    → worker_act null p w ≡ some (q, u)
    → left q < left p
unfolding worker_act
worker_act-left null testing w q u h e = ground arith
worker_act-left null dispatching w q u h e = ground arith
worker_act-left null locking w q u h e = ground arith
worker_act-left null locked w q u h e = ground arith
worker_act-left null waiting w q u h e = ground arith
worker_act-left null woken w q u h e = ground arith
worker_act-left null unlocking w q u h e = ground arith
worker_act-left null done w q u h e = ground arith

signal-left : (k : ℕ) (ps : List WorkerPc) → total waits ps ≡ 0 → signal k ps ≡ ps
unfolding signal total
signal-left k [] z = refl
signal-left k (waiting ∷ ps) z = absurd (omega arith)
signal-left k (testing ∷ ps) z = ap (λ qs. testing ∷ qs) (signal-left k ps (omega arith))
signal-left k (dispatching ∷ ps) z = ap (λ qs. dispatching ∷ qs) (signal-left k ps (omega arith))
signal-left k (locking ∷ ps) z = ap (λ qs. locking ∷ qs) (signal-left k ps (omega arith))
signal-left k (locked ∷ ps) z = ap (λ qs. locked ∷ qs) (signal-left k ps (omega arith))
signal-left k (woken ∷ ps) z = ap (λ qs. woken ∷ qs) (signal-left k ps (omega arith))
signal-left k (unlocking ∷ ps) z = ap (λ qs. unlocking ∷ qs) (signal-left k ps (omega arith))
signal-left k (done ∷ ps) z = ap (λ qs. done ∷ qs) (signal-left k ps (omega arith))

wakeup-left :
    (busy : ℤ) (k : ℕ) (w : Works) (ps : List WorkerPc)
    → total waits ps ≡ 0
    → wakeup busy k w ps ≡ ps
unfolding wakeup
wakeup-left busy k w ps z = elim (Bool-cases (ltb_ℤ (pos w.sleep) (pos w.count -ℤ busy))) [
  | inl h ↦ rw h refl
  | inr h ↦ rw h (signal-left k ps z)
]

-- behind `stop`: its thread has returned from it, and shutdown__ is set
pub record IsStopped (s : System) : Type 0 where
  pub sound : IsSound s
  pub ended : s.timer ≡ stopped

-- Behind `stop` no step brings a worker farther from its end, and the timer's thread takes none.
record Nearer (s u : System) : Type 0 where
  stays : IsStopped u
  near : total left u.workers ≤ total left s.workers
  pub same : length u.workers ≡ length s.workers

pub shut :
    {w : Works} {t : TimerPc} {ps : List WorkerPc} → Inv w t ps → t ≡ stopped → w.shutdown ≡ true
shut v e = v.flag ∙ rw e refl

pub no_waits :
    {w : Works} {t : TimerPc} {ps : List WorkerPc} → Inv w t ps → t ≡ stopped → total waits ps ≡ 0
no_waits v e = v.quiet (rw e refl)

length_split :
    (before : List WorkerPc) (p q : WorkerPc) (after : List WorkerPc)
    → length (before ++ q ∷ after) ≡ length (before ++ p ∷ after)
length_split before p q after =
    length-append before (q ∷ after) ∙ sym (length-append before (p ∷ after))

worked-Nearer :
    (w : Works) (t : TimerPc) (before : List WorkerPc) (p : WorkerPc) (after : List WorkerPc)
    (null : Bool) (q : WorkerPc) (u : Works)
    → worker_act null p w ≡ some (q, u)
    → IsStopped (record { works = w; timer = t; workers = before ++ p ∷ after })
    → (total left (before ++ q ∷ after) < total left (before ++ p ∷ after))
worked-Nearer w t before p after null q u e s = omega (
  arith,
  worker_act-left null p w q u (shut s.sound s.ended) e,
  total_split left before p after,
  total_split left before q after,
)

kept :
    (s : System) (ps : List WorkerPc)
    → IsStopped s
    → ps ≡ s.workers
    → Nearer s (record s { workers = ps })
kept s ps st e = record {
  stays = record { sound = rw e st.sound; ended = st.ended };
  near = rw e (omega arith);
  same = rw e refl;
}

returned :
    (abort : Bool) (k : ℕ) (s : System) (t : TimerPc) → t ≡ stopped → timer_act abort k s t ≡ none
unfolding timer_act
returned abort k s t e = rw e refl

none-ne-some {ℓ} : {A : Type ℓ} {a : A} → none ≡ some a → ⊥
none-ne-some e = cc

ThreadStep-Nearer : {s u : System} → ThreadStep s u → IsStopped s → Nearer s u
ThreadStep-Nearer (worked w t before p after null q u e) st =
    let less = worked-Nearer w t before p after null q u e st in
    record {
      stays = record {
        sound = ThreadStep-IsSound (worked w t before p after null q u e) st.sound;
        ended = st.ended;
      };
      near = omega (arith, less);
      same = length_split before p q after;
    }
ThreadStep-Nearer (timed s u abort k e) st =
    absurd (none-ne-some (sym (returned abort k s s.timer st.ended) ∙ e))
ThreadStep-Nearer (served s k) st =
    kept s (wakeup (pos 0) k s.works s.workers) st
      (wakeup-left (pos 0) k s.works s.workers (no_waits st.sound st.ended))
ThreadStep-Nearer (stirred w t before after) st =
    absurd (omega (arith, no_waits st.sound st.ended, total_split waits before waiting after))

-- what a run from behind `stop` leaves
pub record Ran (s : System) (k : ℕ) (u : System) : Type 0 where
  pub stays : IsStopped u
  pub few : k + total left u.workers ≤ total left s.workers
  pub same : length u.workers ≡ length s.workers

pub Run-Ran : {s u : System} {k : ℕ} → Run s k u → IsStopped s → Ran s k u
Run-Ran begin st = record { stays = st; few = omega arith; same = refl }
Run-Ran (works w before p after null q u r e) st =
    let h = Run-Ran r st in
    let n = ThreadStep-Nearer (worked w stopped before p after null q u e) h.stays in
    record {
      stays = n.stays;
      few = omega (arith, h.few, worked-Nearer w stopped before p after null q u e h.stays);
      same = n.same ∙ h.same;
    }
Run-Ran (others r step) st =
    let h = Run-Ran r st in
    let n = ThreadStep-Nearer step h.stays in
    record { stays = n.stays; few = omega (arith, h.few, n.near); same = n.same ∙ h.same }
