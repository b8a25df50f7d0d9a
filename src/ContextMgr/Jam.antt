-- ===== src/ContextMgr/Jam.antt =====
-- `registerId`: the tables on which it does not return.
use rednet.Common.{
  ℕ, zero, suc, ◌+◌, ◌*◌, ◌-◌, ◌%◌, ◌<◌, ◌≤◌, ◌≡◌, refl, ap, sym, ◌∙◌, true, false, List, [], ◌∷◌,
  ◌++◌, Option, none, some, leb, ◌==◌, arith, length, replicate,
}
use native.Mathlib.Nat.{mod-lt}
use rednet.ContextMgr.{
  Context, ContextMgr, id_span, slot, is_none, find_place, move_one, move_entries, resize, expand,
  waiting, register_id,
}

-- A full table in which every entry has the place that it has in a table of twice the capacity too.
pub record IsJammed (m : ContextMgr) : Type 0 where
  pub some_place : 0 < m.cap
  pub small : m.cap * 2 ≤ id_span
  pub taken : (i : ℕ) → i < m.cap → is_none (slot m.ctxs i) ≡ false
  pub settled : (i : ℕ) (c : Context) → slot m.ctxs i ≡ some c → c.id % (m.cap * 2) ≡ i

find_place-none : (m : ContextMgr) (n i : ℕ) → IsJammed m → find_place m n i ≡ none
unfolding find_place
find_place-none m zero i j = refl
find_place-none m (suc n) i j =
    rw (j.taken ((i + m.ser) % id_span % m.cap) (mod-lt ((i + m.ser) % id_span) j.some_place))
      (find_place-none m n (i + 1) j)

move_one-same :
    (i : ℕ) (m : ContextMgr) (nwcap : ℕ) (o : Option Context)
    → ((c : Context) → o ≡ some c → c.id % nwcap ≡ i)
    → move_one nwcap i m o ≡ m
unfolding move_one
move_one-same i m nwcap none h = refl
move_one-same i m nwcap (some c) h =
    let e : (c.id % nwcap == i) ≡ true = ground (arith, h c refl) in rw e refl

move_entries-same :
    (nwcap n i : ℕ) (m : ContextMgr)
    → ((k : ℕ) (c : Context) → slot m.ctxs k ≡ some c → c.id % nwcap ≡ k)
    → move_entries nwcap n i m ≡ m
unfolding move_entries
move_entries-same nwcap zero i m h = refl
move_entries-same nwcap (suc n) i m h =
    rw (move_one-same i m nwcap (slot m.ctxs i) (h i)) (move_entries-same nwcap n (i + 1) m h)

slot-resize :
    (ctxs : List (Option Context)) (n i : ℕ) → slot (ctxs ++ replicate n none) i ≡ slot ctxs i
slot-resize [] zero i = refl
slot-resize [] (suc n) zero = refl
slot-resize [] (suc n) (suc i) = slot-resize [] n i
slot-resize (x ∷ xs) n zero = refl
slot-resize (x ∷ xs) n (suc i) = slot-resize xs n i

expand-IsJammed : (m : ContextMgr) → IsJammed m → IsJammed (expand m)
unfolding expand
expand-IsJammed m j =
    let n = m.cap * 2 - length m.ctxs in
    rw
      (move_entries-same (m.cap * 2) (m.cap * 2) 0 (record m { ctxs = resize (m.cap * 2) m.ctxs })
        (λ k c e. j.settled k c (sym (slot-resize m.ctxs n k) ∙ e)))
      (record {
        some_place = j.some_place;
        small = j.small;
        taken = λ i l. ap is_none (slot-resize m.ctxs n i) ∙ j.taken i l;
        settled = λ k c e. j.settled k c (sym (slot-resize m.ctxs n k) ∙ e);
      })

-- On a full table where no entry would move, `registerId` does not return, whatever the fuel: it
-- looks for a place and resizes the table again and again, for the capacity stays.
pub register_id-waiting :
    (f address : ℕ) (m : ContextMgr) → IsJammed m → register_id f address m ≡ waiting
unfolding register_id
register_id-waiting zero address m j = refl
register_id-waiting (suc f) address m j =
    let few : leb (m.cap * 2) id_span ≡ true = ground (arith, j.small) in
    rw (find_place-none m m.cap 0 j, few)
      (register_id-waiting f address (expand m) (expand-IsJammed m j))
