-- ===== src/ContextMgr/Grab.antt =====
-- `grab` after `unRegister`.
use rednet.Common.{
  ℕ, ◌%◌, ◌≡◌, ◌≢◌, ap, sym, ◌∙◌, false, Option, none, some, if◌then◌else◌, ◌==◌, arith, Bool-cases,
  Option-cases, inl, inr, get_or-set_ne, get_or-set_default,
}
use rednet.ContextMgr.{Context, ContextMgr, slot, if_id, grab, unregister}

if_id-some :
    (id : ℕ) (o : Option Context) (c : Context) → if_id id o ≡ some c → (o ≡ some c) × (c.id ≡ id)
if_id-some id none c h = absurd (cc)
if_id-some id (some d) c h = elim (Bool-cases (d.id == id)) [
  | inl e ↦
      let same : some d ≡ some c = simp e at h in
      let inner : d ≡ c = cc in (same, ap (λ k. k.id) (sym inner) ∙ ground arith)
  | inr e ↦ let no : none ≡ some c = simp e at h in absurd cc
]

if_id-ne : (id other : ℕ) (c : Context) → c.id ≡ id → other ≢ id → if_id other (some c) ≡ none
if_id-ne id other c e n = let no : (c.id == other) ≡ false = ground (arith, n, e) in rw no

-- After `unRegister` the id gives no context, and every other id gives what it gave before.
pub grab-unregister :
    (id other : ℕ) (m : ContextMgr)
    → grab (unregister id m).1 other ≡ (if other == id then none else grab m other)
unfolding unregister grab
grab-unregister id other m = elim (Option-cases (grab m id)) [
  | inl e ↦ rw e (elim (Bool-cases (other == id)) [
    | inl k ↦ let same : other ≡ id = ground arith in rw (k, same, e)
    | inr k ↦ rw k
  ])
  | inr (c, e) ↦ rw e (elim (Bool-cases (other == id)) [
    | inl k ↦
        let same : other ≡ id = ground arith in
        rw (k, same) (ap (if_id id) (get_or-set_default m.ctxs (id % m.cap) none))
    | inr k ↦ rw k (elim (Bool-cases (other % m.cap == id % m.cap)) [
      | inl p ↦
          let place : other % m.cap ≡ id % m.cap = ground arith in
          let (at, mine) = if_id-some id (slot m.ctxs (id % m.cap)) c e in
          rw (place, get_or-set_default m.ctxs (id % m.cap) none, at)
            (sym (if_id-ne id other c mine (ground arith)))
      | inr p ↦ rw (get_or-set_ne m.ctxs (id % m.cap) (other % m.cap) none none (ground arith))
    ])
  ])
]
