-- ===== src/EventQueue/Write.antt =====
-- The write of `push`, with the expansion that may follow, on each position of the two indices.
use rednet.Common.{
  ℕ, zero, suc, ◌+◌, ◌-◌, ◌*◌, ◌%◌, ◌<◌, ◌≤◌, ◌≡◌, ◌≢◌, refl, ap, List, [], ◌∷◌, ◌++◌, arith,
  Bool-cases, inl, inr, Option, none, some, if◌then◌else◌, leb, ◌==◌, get_or, set, take, drop,
  length-append, length-take, length-drop, length-set, take_all, append-nil, append_assoc, true,
  false, ap₂, ◌∙◌, sym,
}
use native.Mathlib.Decide.{dec_le, dec_lt, ℕ_discrete}
use rednet.Common as C
use rednet.EventQueue.{Event, EventQueue, advance, put}
use rednet.EventQueue.Ring.{contents, IsValid, local_expand-contents}

module _ {ℓ} {A : Type ℓ} where
  -- a write at the end of a slice extends it
  take-set :
      (xs : List A) (n : ℕ) (x : A)
      → n < C.length xs
      → take (suc n) (set xs n x) ≡ take n xs ++ x ∷ []
  take-set [] n x h = absurd (omega arith)
  take-set (y ∷ ys) zero x h = refl
  take-set (y ∷ ys) (suc n) x h = ap (λ k. y ∷ k) (take-set ys n x (omega arith))

  drop-set_low : (xs : List A) (i n : ℕ) (x : A) → i < n → drop n (set xs i x) ≡ drop n xs
  drop-set_low [] i zero x h = refl
  drop-set_low [] i (suc n) x h = refl
  drop-set_low (y ∷ ys) i zero x h = absurd (omega arith)
  drop-set_low (y ∷ ys) zero (suc n) x h = refl
  drop-set_low (y ∷ ys) (suc i) (suc n) x h = drop-set_low ys i n x (omega arith)

  drop-set_high :
      (xs : List A) (i n : ℕ) (x : A) → n ≤ i → drop n (set xs i x) ≡ set (drop n xs) (i - n) x
  drop-set_high xs i zero x h = let e : i - 0 ≡ i = omega arith in rw e
  drop-set_high [] i (suc n) x h = refl
  drop-set_high (y ∷ ys) zero (suc n) x h = absurd (omega arith)
  drop-set_high (y ∷ ys) (suc i) (suc n) x h =
      let e : suc i - suc n ≡ i - n = omega arith in rw e (drop-set_high ys i n x (omega arith))

  take-set_high : (xs : List A) (i n : ℕ) (x : A) → n ≤ i → take n (set xs i x) ≡ take n xs
  take-set_high xs i zero x h = refl
  take-set_high [] i (suc n) x h = refl
  take-set_high (y ∷ ys) zero (suc n) x h = absurd (omega arith)
  take-set_high (y ∷ ys) (suc i) (suc n) x h =
      ap (λ k. y ∷ k) (take-set_high ys i n x (omega arith))

-- What a write of `e` promises: the invariant, and the event at the end.
pub record Put (e : Event) (q q' : EventQueue) : Type 0 where
  pub valid : IsValid q'
  pub holds : contents q' ≡ contents q ++ e ∷ []

module _ (e : Event) (q : EventQueue) (v : IsValid q) where
  straight :
      q.head ≤ q.tail
      → take (q.tail + 1 - q.head) (drop q.head (set q.eqs q.tail e))
        ≡ take (q.tail - q.head) (drop q.head q.eqs) ++ e ∷ []
  straight h =
      let k : q.tail + 1 - q.head ≡ suc (q.tail - q.head) = omega arith in
      rw (drop-set_high q.eqs q.tail q.head e h, k)
        (take-set (drop q.head q.eqs) (q.tail - q.head) e
          (omega (arith, v.array, v.tail_in, length-drop q.head q.eqs)))

  size : C.length (set q.eqs q.tail e) ≡ q.cap
  size = length-set q.eqs q.tail e ∙ v.array

  -- the tail at the end of the array
  upto :
      q.head ≤ q.tail
      → q.tail + 1 ≡ q.cap
      → drop q.head (set q.eqs q.tail e) ≡ take (q.tail - q.head) (drop q.head q.eqs) ++ e ∷ []
  upto h k =
      sym (
        take_all (q.tail + 1 - q.head) (drop q.head (set q.eqs q.tail e))
          (omega (arith, size, length-drop q.head (set q.eqs q.tail e))))
      ∙ straight h

  -- the tail before the head
  turned :
      q.tail < q.head
      → drop q.head (set q.eqs q.tail e) ++ take (q.tail + 1) (set q.eqs q.tail e)
        ≡ (drop q.head q.eqs ++ take q.tail q.eqs) ++ e ∷ []
  turned h =
      let k : q.tail + 1 ≡ suc q.tail = omega arith in
      rw (
        k,
        drop-set_low q.eqs q.tail q.head e h,
        take-set q.eqs q.tail e (omega (arith, v.array, v.tail_in)),
        append_assoc,
      )

  moved : EventQueue
  moved = record q { eqs = set q.eqs q.tail e; tail = advance q.cap q.tail }

  -- a write that fills the ring, and one that does not
  put_full :
      q.head ≡ advance q.cap q.tail
      → drop q.head (set q.eqs q.tail e) ++ take q.head (set q.eqs q.tail e) ≡ contents q ++ e ∷ []
      → Put e q (put e q)
  unfolding put moved
  put_full h k =
      let same : (q.head == advance q.cap q.tail) ≡ true = ground arith in
      let (held, valid) = local_expand-contents moved size v.head_in in
      rw same (record { valid = valid; holds = held ∙ k })

  put_room :
      q.head ≢ advance q.cap q.tail → contents moved ≡ contents q ++ e ∷ [] → Put e q (put e q)
  unfolding put moved
  put_room h k =
      let other : (q.head == advance q.cap q.tail) ≡ false = ground arith in
      rw other (record {
        valid = record { array = size; head_in = v.head_in; tail_in = ground arith };
        holds = k;
      })

  pub contents_low : q.head ≤ q.tail → contents q ≡ take (q.tail - q.head) (drop q.head q.eqs)
  contents_low h = let e : leb q.head q.tail ≡ true = ground arith in rw e

  pub contents_high : q.tail < q.head → contents q ≡ drop q.head q.eqs ++ take q.tail q.eqs
  contents_high h = let e : leb q.head q.tail ≡ false = ground arith in rw e

  pub put_lem : Put e q (put e q)
  unfolding moved
  put_lem = elim (dec_le q.head q.tail) [
    | yes h ↦ elim (dec_lt (q.tail + 1) q.cap) [
      | yes k ↦
          let next : leb q.cap (q.tail + 1) ≡ false = ground arith in
          let after : leb q.head (q.tail + 1) ≡ true = ground arith in
          put_room (rw next (omega arith)) (rw (contents_low h, next, after) (straight h))
      | no k ↦
          let last : q.tail + 1 ≡ q.cap = omega (arith, v.tail_in) in
          let next : leb q.cap (q.tail + 1) ≡ true = ground arith in
          elim (dec_lt 0 q.head) [
            | yes p ↦
                let after : leb q.head 0 ≡ false = ground arith in
                put_room (rw next (omega arith))
                  (rw (contents_low h, next, after, append-nil) (upto h last))
            | no p ↦
                let zero_head : q.head ≡ 0 = omega arith in
                put_full (rw next zero_head) (
                  rw (contents_low h) (
                    rw (ap (λ k. take k (set q.eqs q.tail e)) zero_head, append-nil) (upto h last)))
          ]
    ]
    | no h ↦
        let next : leb q.cap (q.tail + 1) ≡ false = ground (arith, v.head_in) in
        elim (ℕ_discrete q.head (q.tail + 1)) [
          | yes p ↦ put_full (rw next p) (
              rw (contents_high (omega arith)) (
                ap (λ k. drop q.head (set q.eqs q.tail e) ++ take k (set q.eqs q.tail e)) p
                ∙ turned (omega arith)))
          | no p ↦
              let after : leb q.head (q.tail + 1) ≡ false = ground arith in
              put_room (rw next p)
                (rw (contents_high (omega arith), next, after) (turned (omega arith)))
        ]
  ]
