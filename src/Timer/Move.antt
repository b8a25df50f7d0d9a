-- ===== src/Timer/Move.antt =====
-- rednet-src/utimer.h: `local_move` on a list with handles of the current 256 ticks.
use rednet.Common.{
  ℕ, zero, suc, ◌+◌, ◌*◌, ◌/◌, ◌%◌, ◌^◌, ◌<◌, ◌≡◌, ◌≢◌, refl, ap, sym, ◌∙◌, Bool, true, false,
  false≢true, not, ◌&&◌, ◌||◌, List, [], ◌∷◌, ◌++◌, none, arith, Bool-cases, inl, inr, ◌==◌, update,
  update_self, update_ne,
}
use rednet.Timer.{
  Handle, Timer, time_slot, fill, with_slot, in_round, same_block, level_of, index_of, set_level,
  push_level, local_append, moved, no_handles, local_move, shift_rounds, local_shift, local_execute,
  update_wheel,
}

-- a handle whose time is in the 256 ticks that start at `t`, and not the last of them
abbrev pub is_due : ℕ → Handle → Bool
is_due t h = (h.expire / 256 == t / 256) && not (h.expire % 256 == 255)

abbrev pub any_due : ℕ → List Handle → Bool
any_due t [] = false
any_due t (h ∷ hs) = is_due t h || any_due t hs

or_assoc : (a b c : Bool) → ((a || b) || c) ≡ (a || (b || c))
or_assoc true b c = refl
or_assoc false b c = refl

or_true : (a : Bool) → (a || true) ≡ true
or_true true = refl
or_true false = refl

any_due-append :
    (t : ℕ) (xs ys : List Handle) → any_due t (xs ++ ys) ≡ (any_due t xs || any_due t ys)
any_due-append t [] ys = refl
any_due-append t (h ∷ xs) ys =
    ap (λ k. is_due t h || k) (any_due-append t xs ys)
    ∙ sym (or_assoc (is_due t h) (any_due t xs) (any_due t ys))

due_parts :
    (t : ℕ) (h : Handle) → is_due t h ≡ true → (h.expire / 256 ≡ t / 256) × (h.expire % 256 ≢ 255)
due_parts t h e = (grind arith, λ k. grind arith)

-- only the last of 256 ticks passes the test for the current round
pub in_round-last : (a t : ℕ) → in_round a t ≡ true → a % 256 ≡ 255
in_round-last a t e =
    let same : with_slot a ≡ fill time_slot t = ground arith in
    let low : with_slot a % 256 ≡ a % 256 = grind arith in omega arith

not_in_round : (t : ℕ) (h : Handle) → is_due t h ≡ true → in_round h.expire t ≡ false
not_in_round t h e = elim (Bool-cases (in_round h.expire t)) [
  | inl r ↦ absurd ((due_parts t h e).1 (in_round-last h.expire t r))
  | inr r ↦ r
]

due_level : (t : ℕ) (h : Handle) → is_due t h ≡ true → level_of h.expire t ≡ 0
unfolding level_of
due_level t h e =
    let (block, last) = due_parts t h e in
    let same : same_block (2 ^ 14) h.expire t ≡ true = ground arith in rw same refl

due_index : (t : ℕ) (h : Handle) → is_due t h ≡ true → index_of h.expire 0 ≡ t / 256 % 64
due_index t h e = let (block, last) = due_parts t h e in ap (λ k. k % 64) block

-- what is in one list stays there when a handle is appended, wherever it goes
append_keeps :
    (h : Handle) (u : Timer) (t i : ℕ)
    → any_due t (u.levels 0 i) ≡ true
    → ((local_append h u).time ≡ u.time) × (any_due t ((local_append h u).levels 0 i) ≡ true)
unfolding local_append
append_keeps h u t i e =
    let level = level_of h.expire u.time in
    let j = index_of h.expire level in
    elim (Bool-cases (in_round h.expire u.time)) [
      | inl r ↦ rw r (refl, e)
      | inr r ↦ rw r (
        refl,
        elim (Bool-cases (level == 0)) [
          | inl z ↦ pushed level j (ground arith)
          | inr z ↦
              rw
                (update_ne u.levels level (update (u.levels level) j (u.levels level j ++ h ∷ [])) 0
                  z)
                e
        ],
      )
    ]
  where
    pushed : (level j : ℕ) → level ≡ 0 → any_due t ((push_level level j h u).levels 0 i) ≡ true
    pushed level j z =
        rw (z, update_self u.levels 0 (update (u.levels 0) j (u.levels 0 j ++ h ∷ [])))
          (elim (Bool-cases (j == i)) [
            | inl s ↦
                let at : j ≡ i = ground arith in
                rw
                  (
                    at,
                    update_self (u.levels 0) i (u.levels 0 i ++ h ∷ []),
                    any_due-append t (u.levels 0 i) (h ∷ []),
                    e,
                  )
                  refl
            | inr s ↦ rw (update_ne (u.levels 0) j (u.levels 0 j ++ h ∷ []) i s) e
          ])

appended_due :
    (h : Handle) (u : Timer) (i : ℕ)
    → is_due u.time h ≡ true
    → index_of h.expire 0 ≡ i
    → ((local_append h u).time ≡ u.time) × (any_due u.time ((local_append h u).levels 0 i) ≡ true)
unfolding local_append
appended_due h u i d j =
    rw
      (
        not_in_round u.time h d,
        due_level u.time h d,
        j,
        update_self u.levels 0 (update (u.levels 0) i (u.levels 0 i ++ h ∷ [])),
        update_self (u.levels 0) i (u.levels 0 i ++ h ∷ []),
        any_due-append u.time (u.levels 0 i) (h ∷ []),
        d,
      )
      (refl, or_true (any_due u.time (u.levels 0 i)))

moved_keeps :
    (v : Timer) (l : List Handle) (i : ℕ)
    → v.time / 256 % 64 ≡ i
    → any_due v.time l ≡ true
    → ((moved 0 i l v).time ≡ v.time) × (any_due v.time ((moved 0 i l v).levels 0 i) ≡ true)
moved_keeps v [] i at e = absurd (false≢true e)
moved_keeps v (h ∷ hs) i at e =
    let u = set_level 0 i hs v in
    let left : u.levels 0 i ≡ hs =
      ap (λ f. f i) (update_self v.levels 0 (update (v.levels 0) i hs))
      ∙ update_self (v.levels 0) i hs in
    elim (Bool-cases (is_due v.time h)) [
      | inl d ↦ appended_due h u i d (due_index v.time h d ∙ at)
      | inr d ↦
          append_keeps h u v.time i (rw (left, (sym (ap (λ k. k || any_due v.time hs) d) ∙ e)) refl)
    ]

endless :
    (n i : ℕ) (v : Timer)
    → v.time / 256 % 64 ≡ i
    → any_due v.time (v.levels 0 i) ≡ true
    → local_move n 0 i v ≡ none
unfolding local_move
endless zero i v at e = refl
endless (suc n) i v at e =
    let w = moved 0 i (v.levels 0 i) v in
    let (time, more) = moved_keeps v (v.levels 0 i) i at e in
    let rest =
      endless n i w (ap (λ t. t / 256 % 64) time ∙ at)
        (ap (λ t. any_due t (w.levels 0 i)) time ∙ more) in
    rw (full (v.levels 0 i) e, rest) refl
  where
    full : (l : List Handle) → any_due v.time l ≡ true → no_handles l ≡ false
    full [] e = absurd (false≢true e)
    full (h ∷ l) e = refl

-- Where the list of the current 256 ticks has a handle of them, and not of their last tick, the loop of
-- `local_move` over it does not end: the handle comes back to the end of the list that it was taken from.
pub local_move-endless :
    (n : ℕ) (v : Timer)
    → any_due v.time (v.levels 0 (v.time / 256 % 64)) ≡ true
    → local_move n 0 (v.time / 256 % 64) v ≡ none
local_move-endless n v e = endless n (v.time / 256 % 64) v refl e

-- Where the next tick starts 256 others that are not the first in their 2^14, and does not wrap the time, and
-- the list of level 0 for these 256 holds a handle for one of them but the last, `update` does not return,
-- and keeps the lock.
pub update_wheel-endless :
    (n : ℕ) (v : Timer)
    → v.time + 1 < 2 ^ 32
    → (v.time + 1) % 256 ≡ 0
    → (v.time + 1) / 256 % 64 ≢ 0
    → any_due (v.time + 1) (v.levels 0 ((v.time + 1) / 256 % 64)) ≡ true
    → update_wheel n v ≡ none
unfolding update_wheel local_shift local_execute shift_rounds
update_wheel-endless n v l m z e =
    let whole : (v.time + 1) % 2 ^ 32 ≡ v.time + 1 = omega arith in
    let nonzero : (v.time + 1 == 0) ≡ false = ground arith in
    let low : ((v.time + 1) % 2 ^ (8 + 0 * 6) == 0) ≡ true = ground arith in
    let index : (index_of (v.time + 1) 0 == 0) ≡ false = ground arith in
    let w = record (local_execute v) { time = v.time + 1 } in
    rw (whole, nonzero, low, index, endless n ((v.time + 1) / 256 % 64) w refl e) refl
