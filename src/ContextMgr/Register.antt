-- ===== src/ContextMgr/Register.antt =====
-- `registerId`: what it returns, and what it does to the table.
use rednet.Common.{
  ℕ, zero, suc, ◌+◌, ◌*◌, ◌-◌, ◌%◌, ◌^◌, ◌<◌, ◌≤◌, ◌≡◌, ◌≢◌, ◌⊎◌, refl, ap, sym, ◌∙◌, true, false,
  false≢true, List, Option, none, some, if◌then◌else◌, leb, ◌==◌, arith, Bool-cases, Option-cases,
  inl, inr, set, length, length-set, length-append, length-replicate, replicate, get_or-set_self,
  get_or-set_ne,
}
use native.Mathlib.Nat.{add-mul-mod_self_right, mod-lt, one-le-pow, pow-le-pow_right, pow-succ'}
use native.Mathlib.Decide.{dec_le}
use rednet.ContextMgr.{
  Context, ContextMgr, id_span, slot, is_none, find_place, move_one, move_entries, resize, expand,
  registered, full, occupy, register_id, if_id, grab,
}

-- A table of a power of two of places, within the ids.
pub record IsSized (m : ContextMgr) : Type 0 where
  pub exponent : ℕ
  pub power : m.cap ≡ 2 ^ exponent
  pub small : exponent ≤ 24
  pub places : m.cap ≤ length m.ctxs

power_pos : (k : ℕ) → 0 < 2 ^ k
power_pos k = one-le-pow k 2 (omega arith)

pub cap_pos : (m : ContextMgr) → IsSized m → 0 < m.cap
cap_pos m h = rw h.power (power_pos h.exponent)

pow_split : (d k : ℕ) → 2 ^ (d + k) ≡ 2 ^ d * 2 ^ k
pow_split zero k = let e : 0 + k ≡ k = omega arith in rw e (omega arith)
pow_split (suc d) k =
    let e : suc d + k ≡ suc (d + k) = omega arith in
    rw e (rw (pow-succ' 2 (d + k), pow-succ' 2 d, pow_split d k) (grind arith))

-- the server group does not change the place of an id
group_mod : (i g k : ℕ) → k ≤ 24 → (i + g * id_span) % 2 ^ k ≡ i % 2 ^ k
group_mod i g k h =
    let sum : 24 - k + k ≡ 24 = omega arith in
    let split : id_span ≡ 2 ^ (24 - k) * 2 ^ k = sym (ap (λ x. 2 ^ x) sum) ∙ pow_split (24 - k) k in
    let shape : i + g * id_span ≡ i + g * 2 ^ (24 - k) * 2 ^ k = grind (arith, split) in
    ap (λ x. x % 2 ^ k) shape ∙ add-mul-mod_self_right i (g * 2 ^ (24 - k)) (2 ^ k)

find_place-free :
    (m : ContextMgr) (n i id : ℕ)
    → find_place m n i ≡ some id
    → is_none (slot m.ctxs (id % m.cap)) ≡ true
unfolding find_place
find_place-free m zero i id h = absurd cc
find_place-free m (suc n) i id h =
    elim (Bool-cases (is_none (slot m.ctxs ((i + m.ser) % id_span % m.cap)))) [
      | inl e ↦
          let found : some ((i + m.ser) % id_span) ≡ some id = simp e at h in
          let same : (i + m.ser) % id_span ≡ id = cc in rw (← same) e
      | inr e ↦ find_place-free m n (i + 1) id (simp e at h)
    ]

module _ (nwcap : ℕ) where
  -- the loop keeps the number of entries, and the capacity or the new one
  pub record Moved (m : ContextMgr) (r : ContextMgr) : Type 0 where
    pub count : length r.ctxs ≡ length m.ctxs
    pub cap : (r.cap ≡ m.cap) ⊎ (r.cap ≡ nwcap)

  Moved-trans : (m r t : ContextMgr) → Moved m r → Moved r t → Moved m t
  Moved-trans m r t p q = record { count = q.count ∙ p.count; cap = grind (arith, p.cap, q.cap) }

  move_one-Moved : (i : ℕ) (m : ContextMgr) (o : Option Context) → Moved m (move_one nwcap i m o)
  unfolding move_one
  move_one-Moved i m none = record { count = refl; cap = inl refl }
  move_one-Moved i m (some c) = elim (Bool-cases (c.id % nwcap == i)) [
    | inl e ↦ rw e (record { count = refl; cap = inl refl })
    | inr e ↦ rw e (record { count = length-set m.ctxs (c.id % nwcap) (some c); cap = inr refl })
  ]

  move_entries-Moved : (n i : ℕ) (m : ContextMgr) → Moved m (move_entries nwcap n i m)
  unfolding move_entries
  move_entries-Moved zero i m = record { count = refl; cap = inl refl }
  move_entries-Moved (suc n) i m =
      Moved-trans m _ _ (move_one-Moved i m (slot m.ctxs i)) (move_entries-Moved n (i + 1) _)

length-resize : (n : ℕ) (ctxs : List (Option Context)) → n ≤ length (resize n ctxs)
length-resize n ctxs =
    let empty : Option Context = none in
    omega (
      arith,
      length-append ctxs (replicate (n - length ctxs) empty),
      length-replicate (n - length ctxs) empty,
    )

length-resize_old : (n : ℕ) (ctxs : List (Option Context)) → length ctxs ≤ length (resize n ctxs)
length-resize_old n ctxs =
    let empty : Option Context = none in
    omega (arith, length-append ctxs (replicate (n - length ctxs) empty))

exponent_lt : (k : ℕ) → 2 ^ k * 2 ≤ id_span → k < 24
exponent_lt k h = elim (dec_le 24 k) [
  | yes e ↦ absurd (omega (arith, pow-le-pow_right {n = 2} (omega arith) e))
  | no e ↦ omega arith
]

expand-IsSized : (m : ContextMgr) → IsSized m → m.cap * 2 ≤ id_span → IsSized (expand m)
unfolding expand
expand-IsSized m h few =
    let r : ContextMgr = record m { ctxs = resize (m.cap * 2) m.ctxs } in
    let moved = move_entries-Moved (m.cap * 2) (m.cap * 2) 0 r in
    elim moved.cap [
      | inl e ↦ record {
        exponent = h.exponent;
        power = e ∙ h.power;
        small = h.small;
        places = omega (arith, e, moved.count, h.places, length-resize_old (m.cap * 2) m.ctxs);
      }
      | inr e ↦ record {
        exponent = suc h.exponent;
        power = rw (e, pow-succ' 2 h.exponent, h.power) (omega arith);
        small = exponent_lt h.exponent (rw (← h.power) few);
        places = omega (arith, e, moved.count, length-resize (m.cap * 2) m.ctxs);
      }
    ]

is_none-none : (o : Option Context) → is_none o ≡ true → o ≡ none
is_none-none none h = refl
is_none-none (some c) h = absurd (false≢true h)

-- the id and the table after `occupy`
module _ (address i : ℕ) (m : ContextMgr) (h : IsSized m) where
  abbrev whole : ℕ
  whole = i + m.group * id_span

  abbrev entered : Context
  entered = record { address = address; id = whole }

  abbrev occupied : ContextMgr
  occupied = record m { ctxs = set m.ctxs (i % m.cap) (some entered); ser = i + 1 }

  occupy_lem : occupy address i m ≡ registered whole occupied
  unfolding occupy
  occupy_lem = refl

  occupied-IsSized : IsSized occupied
  occupied-IsSized = record {
    exponent = h.exponent;
    power = h.power;
    small = h.small;
    places = omega (arith, h.places, length-set m.ctxs (i % m.cap) (some entered));
  }

  same_place : whole % m.cap ≡ i % m.cap
  same_place = rw h.power (group_mod i m.group h.exponent h.small)

  grab-occupied_self : grab occupied whole ≡ some entered
  unfolding grab
  grab-occupied_self =
      let inside : i % m.cap < length m.ctxs = omega (arith, h.places, mod-lt i (cap_pos m h)) in
      let same : (whole == whole) ≡ true = ground arith in
      rw (same_place, get_or-set_self m.ctxs (i % m.cap) (some entered) none inside, same)

  grab-occupied_ne :
      (other : ℕ)
      → is_none (slot m.ctxs (i % m.cap)) ≡ true
      → other ≢ whole
      → grab occupied other ≡ grab m other
  unfolding grab
  grab-occupied_ne other free n = elim (Bool-cases (other % m.cap == i % m.cap)) [
    | inl p ↦
        let at : other % m.cap ≡ i % m.cap = ground arith in
        let inside : i % m.cap < length m.ctxs = omega (arith, h.places, mod-lt i (cap_pos m h)) in
        let differ : (whole == other) ≡ false = ground (arith, n) in
        rw (at, get_or-set_self m.ctxs (i % m.cap) (some entered) none inside, differ)
          (sym (ap (if_id other) (is_none-none (slot m.ctxs (i % m.cap)) free)))
    | inr p ↦
        ap (if_id other)
          (get_or-set_ne m.ctxs (i % m.cap) (other % m.cap) (some entered) none (ground arith))
  ]

-- After `registerId` the returned id gives the context, in a table of a power of two of places,
-- however often the table was expanded.
pub grab-register_id :
    (f address id : ℕ) (m after : ContextMgr)
    → IsSized m
    → register_id f address m ≡ registered id after
    → (grab after id ≡ some (record { address = address; id = id })) × IsSized after
unfolding register_id
grab-register_id zero address id m after h e = absurd cc
grab-register_id (suc f) address id m after h e = elim (Option-cases (find_place m m.cap 0)) [
  | inl none_free ↦ elim (Bool-cases (leb (m.cap * 2) id_span)) [
    | inl few ↦
        let again : register_id f address (expand m) ≡ registered id after =
          simp (none_free, few) at e in
        grab-register_id f address id (expand m) after (expand-IsSized m h (ground arith)) again
    | inr many ↦ let no : full ≡ registered id after = simp (none_free, many) at e in absurd cc
  ]
  | inr (i, free) ↦
      let taken : occupy address i m ≡ registered id after = simp free at e in
      let both : registered (i + m.group * id_span) (occupied address i m h) ≡ registered id after =
        sym (occupy_lem address i m h) ∙ taken in
      let same : i + m.group * id_span ≡ id = cc in
      let left : occupied address i m h ≡ after = cc in
      rw (← left, ← same) (grab-occupied_self address i m h, occupied-IsSized address i m h)
]

-- Where a place is free without an expansion, `registerId` returns at once, and changes what `grab`
-- gives for the new id only.
pub grab-register_id_free :
    (f address i other : ℕ) (m : ContextMgr)
    → IsSized m
    → find_place m m.cap 0 ≡ some i
    → (after : ContextMgr) × (register_id (suc f) address m
        ≡ registered (i + m.group * id_span) after)
      × (grab after other ≡ (
          if other == i + m.group * id_span
          then some (record { address = address; id = i + m.group * id_span })
          else grab m other))
unfolding register_id
grab-register_id_free f address i other m h free = (
  occupied address i m h,
  rw free (occupy_lem address i m h),
  elim (Bool-cases (other == i + m.group * id_span)) [
    | inl e ↦
        let same : other ≡ i + m.group * id_span = ground arith in
        rw e (ap (grab (occupied address i m h)) same ∙ grab-occupied_self address i m h)
    | inr e ↦
        rw e
          (grab-occupied_ne address i m h other (find_place-free m m.cap 0 i free) (ground arith))
  ],
)
