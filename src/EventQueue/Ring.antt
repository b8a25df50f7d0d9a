-- ===== src/EventQueue/Ring.antt =====
-- The ring as a list: what it holds, its invariant, and its expansion.
use rednet.Common.{
  ℕ, zero, suc, ◌+◌, ◌-◌, ◌*◌, ◌%◌, ◌<◌, ◌≤◌, ◌≡◌, refl, ap, List, [], ◌∷◌, ◌++◌, arith, Bool-cases,
  inl, inr, if◌then◌else◌, leb, ◌==◌, get_or, set, take, drop, replicate, length-append,
  length-replicate, length-take, length-drop, take_all, take-append, false, true, ap₂, ◌∙◌,
}
use rednet.Common as C
use native.Mathlib.Nat.{mod-eq_of_lt, mod-eq-sub-mod}
use rednet.EventQueue.{Event, blank, EventQueue, length, copy_from, local_expand}

-- from head to tail, round the end of the array
abbrev pub contents : EventQueue → List Event
contents q =
    if leb q.head q.tail
    then take (q.tail - q.head) (drop q.head q.eqs)
    else drop q.head q.eqs ++ take q.tail q.eqs

pub record IsValid (q : EventQueue) : Type 0 where
  pub array : C.length q.eqs ≡ q.cap
  pub head_in : q.head < q.cap
  pub tail_in : q.tail < q.cap

-- `length()` is the number of events held.
pub length-contents : (q : EventQueue) → IsValid q → length q ≡ C.length (contents q)
unfolding length
length-contents q v = elim (Bool-cases (leb q.head q.tail)) [
  | inl h ↦
      rw h
        (omega (arith, length-take (q.tail - q.head) (drop q.head q.eqs), length-drop q.head q.eqs))
  | inr h ↦ rw h (
      omega (
        arith,
        length-append (drop q.head q.eqs) (take q.tail q.eqs),
        length-take q.tail q.eqs,
        length-drop q.head q.eqs,
        above q h,
      ))
]
  where
    above : (q : EventQueue) → leb q.head q.tail ≡ false → q.tail < q.head
    above q h = ground arith

module _ {ℓ} {A : Type ℓ} where
  -- a slice that starts at an index holds the element there
  pub take-drop-suc :
      (xs : List A) (i n : ℕ) (d : A)
      → i < C.length xs
      → take (suc n) (drop i xs) ≡ get_or xs i d ∷ take n (drop (suc i) xs)
  take-drop-suc [] i n d h = absurd (omega arith)
  take-drop-suc (x ∷ xs) zero n d h = refl
  take-drop-suc (x ∷ xs) (suc i) n d h = take-drop-suc xs i n d (omega arith)

  pub drop-suc :
      (xs : List A) (i : ℕ) (d : A) → i < C.length xs → drop i xs ≡ get_or xs i d ∷ drop (suc i) xs
  drop-suc [] i d h = absurd (omega arith)
  drop-suc (x ∷ xs) zero d h = refl
  drop-suc (x ∷ xs) (suc i) d h = drop-suc xs i d (omega arith)

module _ (eqs : List Event) (cap head : ℕ) (size : C.length eqs ≡ cap) (inside : head < cap) where
  -- before the end of the array the loop copies a slice
  copy_from-low :
      (n i : ℕ) → head + i + n ≤ cap → copy_from eqs cap head n i ≡ take n (drop (head + i) eqs)
  unfolding copy_from
  copy_from-low zero i h = refl
  copy_from-low (suc n) i h =
      let e : head + (i + 1) ≡ suc (head + i) = omega arith in
      rw (
        mod-eq_of_lt {n = head + i} {m = cap} (omega arith),
        take-drop-suc eqs (head + i) n blank (omega arith),
        copy_from-low n (i + 1) (omega arith),
        e,
      )

  copy_from-high :
      (n i : ℕ)
      → cap ≤ head + i
      → head + i + n ≤ cap + head
      → copy_from eqs cap head n i ≡ take n (drop (head + i - cap) eqs)
  unfolding copy_from
  copy_from-high zero i h k = refl
  copy_from-high (suc n) i h k =
      let e : head + (i + 1) - cap ≡ suc (head + i - cap) = omega arith in
      let turned : (head + i) % cap ≡ head + i - cap =
        mod-eq-sub-mod {n = head + i} {m = cap} (omega arith)
        ∙ mod-eq_of_lt {n = head + i - cap} {m = cap} (omega arith) in
      rw (
        turned,
        take-drop-suc eqs (head + i - cap) n blank (omega arith),
        copy_from-high n (i + 1) (omega arith) (omega arith),
        e,
      )

  copy_from-split :
      (n m i : ℕ)
      → copy_from eqs cap head (n + m) i
        ≡ copy_from eqs cap head n i ++ copy_from eqs cap head m (i + n)
  unfolding copy_from
  copy_from-split zero m i =
      let e : 0 + m ≡ m = omega arith in let z : i + 0 ≡ i = omega arith in rw (e, z)
  copy_from-split (suc n) m i =
      let e : suc n + m ≡ suc (n + m) = omega arith in
      let z : i + 1 + n ≡ i + suc n = omega arith in rw (e, copy_from-split n m (i + 1), z)

  -- the whole loop turns the array so that it starts at the head
  pub copy_from-rotate : copy_from eqs cap head cap 0 ≡ drop head eqs ++ take head eqs
  copy_from-rotate =
      ap (λ k. copy_from eqs cap head k 0) whole
      ∙ copy_from-split (cap - head) head 0
      ∙ ap₂ ◌++◌ (copy_from-low (cap - head) 0 (omega arith) ∙ first)
          (copy_from-high head (0 + (cap - head)) (omega arith) (omega arith) ∙ second)
    where
      whole : cap ≡ cap - head + head
      whole = omega arith

      first : take (cap - head) (drop (head + 0) eqs) ≡ drop head eqs
      first =
          let e : head + 0 ≡ head = omega arith in
          rw (e, take_all (cap - head) (drop head eqs) (omega (arith, length-drop head eqs)))

      second : take head (drop (head + (0 + (cap - head)) - cap) eqs) ≡ take head eqs
      second = let e : head + (0 + (cap - head)) - cap ≡ 0 = omega arith in rw e

-- Expanding a full ring keeps its events in order.
pub local_expand-contents :
    (q : EventQueue)
    → C.length q.eqs ≡ q.cap
    → q.head < q.cap
    → (contents (local_expand q) ≡ drop q.head q.eqs ++ take q.head q.eqs)
      × IsValid (local_expand q)
unfolding local_expand
local_expand-contents q size inside = (
  rw (low, turned)
      (take-append (q.cap - 0) turn (replicate q.cap blank) (omega (arith, size_turn))),
  record {
    array = rw turned (
        omega (
          arith,
          size_turn,
          length-append turn (replicate q.cap blank),
          length-replicate q.cap blank,
        ));
    head_in = omega arith;
    tail_in = omega arith;
  },
)
  where
    turn : List Event
    turn = drop q.head q.eqs ++ take q.head q.eqs

    turned : copy_from q.eqs q.cap q.head q.cap 0 ≡ turn
    turned = copy_from-rotate q.eqs q.cap q.head size inside

    low : leb 0 q.cap ≡ true
    low = ground arith

    size_turn : C.length turn ≡ q.cap
    size_turn = omega (
      arith,
      length-append (drop q.head q.eqs) (take q.head q.eqs),
      length-drop q.head q.eqs,
      length-take q.head q.eqs,
    )
