-- ===== src/Workers/Steps.antt =====
-- Each step of the threads keeps what holds.
use Prim.{Unit, tt}
use rednet.Common.{
  ℕ, zero, suc, ◌+◌, ◌≤◌, ◌≡◌, refl, sym, ap, ◌∙◌, Bool, true, false, List, [], ◌∷◌, ◌++◌, Option,
  none, some, subst, if◌then◌else◌, arith, Bool-cases, inl, inr, ◌&&◌, ◌==◌, ◌-◌,
}
use rednet.Common.Int.{ℤ, pos, ◌-ℤ◌, ltb_ℤ}
use rednet.Workers.{
  Works, WorkerPc, testing, dispatching, locking, locked, waiting, woken, unlocking, done, signal,
  wakeup, is_waiting, wake, broadcast, TimerPc, ticking, stopping, owning, flagged, cast, stopped,
  System, timer_act, ThreadStep, worked, served, stirred, Reach, here, next, append, start_workers,
  startup,
}
use rednet.Workers.Invariant.{
  inside, owns, waits, bit, total, total_split, Inv, IsSound, worked-IsSound,
}

-- Waking a thread moves none in or out of `wait`.
record Roused (ps qs : List WorkerPc) : Type 0 where
  within : total inside qs ≡ total inside ps
  owning : total owns qs ≡ total owns ps
  fewer : total waits qs ≤ total waits ps

Roused-refl : {ps : List WorkerPc} → Roused ps ps
Roused-refl = record { within = refl; owning = refl; fewer = omega arith }

Roused-cons : (p : WorkerPc) {ps qs : List WorkerPc} → Roused ps qs → Roused (p ∷ ps) (p ∷ qs)
unfolding total
Roused-cons p r = record {
  within = ap (λ n. inside p + n) r.within;
  owning = ap (λ n. owns p + n) r.owning;
  fewer = omega (arith, r.fewer);
}

rouse_one : (ps : List WorkerPc) → Roused (waiting ∷ ps) (woken ∷ ps)
unfolding total
rouse_one ps = record { within = refl; owning = refl; fewer = omega arith }

roused :
    (p : WorkerPc) (ps : List WorkerPc) (b : Bool)
    → (is_waiting p && b) ≡ true
    → Roused (p ∷ ps) (woken ∷ ps)
roused waiting ps b e = rouse_one ps
roused testing ps b e = cc
roused dispatching ps b e = cc
roused locking ps b e = cc
roused locked ps b e = cc
roused woken ps b e = cc
roused unlocking ps b e = cc
roused done ps b e = cc

signal-Roused : (k : ℕ) (ps : List WorkerPc) → Roused ps (signal k ps)
unfolding signal
signal-Roused k [] = Roused-refl
signal-Roused k (p ∷ ps) = elim (Bool-cases (is_waiting p && k == 0)) [
  | inl h ↦ rw h (roused p ps (k == 0) h)
  | inr h ↦ rw h (Roused-cons p (signal-Roused (if is_waiting p then k - 1 else k) ps))
]

wakeup-Roused : (busy : ℤ) (k : ℕ) (w : Works) (ps : List WorkerPc) → Roused ps (wakeup busy k w ps)
unfolding wakeup
wakeup-Roused busy k w ps = elim (Bool-cases (ltb_ℤ (pos w.sleep) (pos w.count -ℤ busy))) [
  | inl h ↦ rw h Roused-refl
  | inr h ↦ rw h (signal-Roused k ps)
]

stirred-Roused :
    (before after : List WorkerPc) → Roused (before ++ waiting ∷ after) (before ++ woken ∷ after)
stirred-Roused [] after = rouse_one after
stirred-Roused (p ∷ before) after = Roused-cons p (stirred-Roused before after)

Roused-Inv :
    {w : Works} {t : TimerPc} {ps qs : List WorkerPc} → Roused ps qs → Inv w t ps → Inv w t qs
Roused-Inv r v = record {
  asleep = v.asleep ∙ sym r.within;
  owned = omega (arith, v.owned, r.owning);
  flag = v.flag;
  quiet = λ c. omega (arith, v.quiet c, r.fewer);
}

-- the broadcast
record Cast (ps qs : List WorkerPc) : Type 0 where
  within : total inside qs ≡ total inside ps
  owning : total owns qs ≡ total owns ps
  none_left : total waits qs ≡ 0

one_woken :
    (p : WorkerPc) → (inside (wake p) ≡ inside p) × (owns (wake p) ≡ owns p) × (waits (wake p) ≡ 0)
one_woken waiting = (refl, refl, refl)
one_woken testing = (refl, refl, refl)
one_woken dispatching = (refl, refl, refl)
one_woken locking = (refl, refl, refl)
one_woken locked = (refl, refl, refl)
one_woken woken = (refl, refl, refl)
one_woken unlocking = (refl, refl, refl)
one_woken done = (refl, refl, refl)

broadcast-Cast : (ps : List WorkerPc) → Cast ps (broadcast ps)
unfolding total broadcast
broadcast-Cast [] = record { within = refl; owning = refl; none_left = refl }
broadcast-Cast (p ∷ ps) =
    let c = broadcast-Cast ps in
    let (a, b, z) = one_woken p in
    record {
      within = omega (arith, c.within, a);
      owning = omega (arith, c.owning, b);
      none_left = omega (arith, c.none_left, z);
    }

abbrev SoundIfAny : Option System → Type 0
SoundIfAny none = Unit {0}
SoundIfAny (some u) = IsSound u

timed :
    (s : System) (t : TimerPc) (abort : Bool) (k : ℕ)
    → s.timer ≡ t
    → Inv s.works t s.workers
    → SoundIfAny (timer_act abort k s t)
unfolding timer_act
timed s ticking true k at v = record {
  asleep = v.asleep;
  owned = v.owned;
  flag = v.flag;
  quiet = λ c. cc;
}
timed s ticking false k at v =
    Roused-Inv (wakeup-Roused (pos s.works.count -ℤ pos 1) k s.works s.workers) (rw at v)
timed s stopping abort k at v = elim (Bool-cases s.works.held) [
  | inl h ↦ rw h tt
  | inr h ↦ rw h (record {
    asleep = v.asleep;
    owned = let free : bit s.works.held ≡ 0 = rw h refl in omega (arith, v.owned, free);
    flag = v.flag;
    quiet = λ c. cc;
  })
]
timed s owning abort k at v = record {
  asleep = v.asleep;
  owned = v.owned;
  flag = refl;
  quiet = λ c. cc;
}
timed s flagged abort k at v =
    let c = broadcast-Cast s.workers in
    record {
      asleep = v.asleep ∙ sym c.within;
      owned = omega (arith, v.owned, c.owning);
      flag = v.flag;
      quiet = λ q. c.none_left;
    }
timed s cast abort k at v = record {
  asleep = v.asleep;
  owned = omega (arith, v.owned, total_owns_le v);
  flag = v.flag;
  quiet = λ q. v.quiet refl;
}
  where
    total_owns_le : {w : Works} {ps : List WorkerPc} → Inv w cast ps → total owns ps ≡ 0
    total_owns_le i = ground (arith, i.owned)
timed s stopped abort k at v = tt

pub ThreadStep-IsSound : {s u : System} → ThreadStep s u → IsSound s → IsSound u
ThreadStep-IsSound (worked w t before p after null q u e) v =
    worked-IsSound w t before p after null q u e v
ThreadStep-IsSound (ThreadStep.timed s u abort k e) v =
    subst SoundIfAny e (timed s s.timer abort k refl v)
ThreadStep-IsSound (served s k) v = Roused-Inv (wakeup-Roused (pos 0) k s.works s.workers) v
ThreadStep-IsSound (stirred w t before after) v = Roused-Inv (stirred-Roused before after) v

total_start : (f : WorkerPc → ℕ) (n : ℕ) → f testing ≡ 0 → total f (start_workers n) ≡ 0
unfolding total start_workers append
total_start f zero e = refl
total_start f (suc n) e =
    let more = total_split f (start_workers n) testing [] in
    let none : total f [] ≡ 0 = refl in omega (arith, e, total_start f n e, more, none)

-- The three facts in every state that `n` workers reach.
pub Reach-IsSound : (n : ℕ) {s : System} → Reach (startup n) s → IsSound s
unfolding startup
Reach-IsSound n here = record {
  asleep = sym (total_start inside n refl);
  owned = omega (arith, total_start owns n refl);
  flag = refl;
  quiet = λ c. cc;
}
Reach-IsSound n (next r st) = ThreadStep-IsSound st (Reach-IsSound n r)
