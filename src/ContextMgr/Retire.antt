-- ===== src/ContextMgr/Retire.antt =====
-- `retireAll` of rednet-src/ucontext.cc, which the destructor and the command of ucall.cc call.
use rednet.Common.{
  ℕ, zero, suc, ◌+◌, ◌%◌, ◌<◌, ◌≤◌, ◌≡◌, ◌≢◌, refl, ap, ◌∙◌, true, false, Option, none, some,
  if◌then◌else◌, ◌==◌, arith, Bool-cases, Option-cases, inl, inr,
}
use native.Mathlib.Nat.{mod-lt}
use rednet.ContextMgr.{Context, ContextMgr, slot, if_id, grab, unregister}
use rednet.ContextMgr.Grab.{grab-unregister}

-- the body of the inner loop, for the entry that it read: an id of 0 counts as no entry
unfoldable pub retire_at : ContextMgr → Option Context → ContextMgr
retire_at m none = m
retire_at m (some c) = let after = (unregister c.id m).1 in if c.id == 0 then m else after

-- the inner loop, for `n` rounds from `i` on
unfoldable pub retire_from : ℕ → ℕ → ContextMgr → ContextMgr
retire_from zero i m = m
retire_from (suc n) i m = retire_from n (i + 1) (retire_at m (slot m.ctxs i))

-- The table after `f` rounds of the outer loop, which nothing leaves.
unfoldable pub retire_all : ℕ → ContextMgr → ContextMgr
retire_all zero m = m
retire_all (suc f) m = retire_all f (retire_from m.cap 0 m)

cap-unregister : (id : ℕ) (m : ContextMgr) → (unregister id m).1.cap ≡ m.cap
unfolding unregister
cap-unregister id m = elim (Option-cases (grab m id)) [ inl e ↦ rw e | inr (c, e) ↦ rw e ]

cap-retire_at : (m : ContextMgr) (o : Option Context) → (retire_at m o).cap ≡ m.cap
unfolding retire_at
cap-retire_at m none = refl
cap-retire_at m (some c) = elim (Bool-cases (c.id == 0)) [
  | inl e ↦ rw e
  | inr e ↦ rw e (cap-unregister c.id m)
]

unregister-gone :
    (id other : ℕ) (m : ContextMgr) → grab m other ≡ none → grab (unregister id m).1 other ≡ none
unregister-gone id other m gone = elim (Bool-cases (other == id)) [
  | inl e ↦ rw (grab-unregister id other m, e)
  | inr e ↦ rw (grab-unregister id other m, e) gone
]

retire_at-gone :
    (id : ℕ) (m : ContextMgr) (o : Option Context)
    → grab m id ≡ none
    → grab (retire_at m o) id ≡ none
unfolding retire_at
retire_at-gone id m none gone = gone
retire_at-gone id m (some c) gone = elim (Bool-cases (c.id == 0)) [
  | inl e ↦ rw e gone
  | inr e ↦ rw e (unregister-gone c.id id m gone)
]

retire_from-gone :
    (id n i : ℕ) (m : ContextMgr) → grab m id ≡ none → grab (retire_from n i m) id ≡ none
unfolding retire_from
retire_from-gone id zero i m gone = gone
retire_from-gone id (suc n) i m gone =
    retire_from-gone id n (i + 1) _ (retire_at-gone id m (slot m.ctxs i) gone)

-- the round for the place of an id takes the id away
retire_at-clears :
    (id : ℕ) (m : ContextMgr) (o : Option Context)
    → id ≢ 0
    → grab m id ≡ if_id id o
    → grab (retire_at m o) id ≡ none
unfolding retire_at
retire_at-clears id m none n e = e
retire_at-clears id m (some c) n e = elim (Bool-cases (c.id == id)) [
  | inl p ↦
      let same : c.id ≡ id = ground arith in
      let some_id : (c.id == 0) ≡ false = ground (arith, n, same) in
      let self : (id == c.id) ≡ true = ground (arith, same) in
      rw (some_id, grab-unregister c.id id m, self)
  | inr p ↦ let gone : grab m id ≡ none = rw p at e in retire_at-gone id m (some c) gone
]

grab-slot : (id : ℕ) (m : ContextMgr) → grab m id ≡ if_id id (slot m.ctxs (id % m.cap))
unfolding grab
grab-slot id m = refl

retire_from-clears :
    (id n i : ℕ) (m : ContextMgr)
    → id ≢ 0
    → i ≤ id % m.cap
    → id % m.cap < i + n
    → grab (retire_from n i m) id ≡ none
unfolding retire_from
retire_from-clears id zero i m some_id low high = absurd (omega arith)
retire_from-clears id (suc n) i m some_id low high =
    let next = retire_at m (slot m.ctxs i) in
    let same : id % next.cap ≡ id % m.cap = ap (λ k. id % k) (cap-retire_at m (slot m.ctxs i)) in
    elim (Bool-cases (id % m.cap == i)) [
      | inl e ↦
          let at : id % m.cap ≡ i = ground arith in
          let found : grab m id ≡ if_id id (slot m.ctxs i) =
            grab-slot id m ∙ ap (λ k. if_id id (slot m.ctxs k)) at in
          retire_from-gone id n (i + 1) next (retire_at-clears id m (slot m.ctxs i) some_id found)
      | inr e ↦
          let after : i ≢ id % m.cap = ground arith in
          retire_from-clears id n (i + 1) next some_id (omega (arith, same, low, after))
            (omega (arith, same, high))
    ]

retire_all-gone : (f id : ℕ) (m : ContextMgr) → grab m id ≡ none → grab (retire_all f m) id ≡ none
unfolding retire_all
retire_all-gone zero id m gone = gone
retire_all-gone (suc f) id m gone = retire_all-gone f id _ (retire_from-gone id m.cap 0 m gone)

-- After the first round of the outer loop of `retireAll`, and after every later one, no id other than
-- 0 gives a context, whatever the table was, where it has places.
pub grab-retire_all :
    (f id : ℕ) (m : ContextMgr) → 0 < m.cap → id ≢ 0 → grab (retire_all (suc f) m) id ≡ none
unfolding retire_all
grab-retire_all f id m places some_id =
    let inside : id % m.cap < m.cap = mod-lt id places in
    retire_all-gone f id _ (retire_from-clears id m.cap 0 m some_id (omega arith) (omega arith))
