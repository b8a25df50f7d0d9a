-- ===== src/Timer/Late.antt =====
-- rednet-src/utimer.h: the times at which the handles of the slots are handed out.
use Prim.{Unit, tt}
use rednet.Common.{
  ℕ, zero, suc, ◌+◌, ◌-◌, ◌%◌, ◌^◌, ◌≡◌, ◌≢◌, ap, sym, subst, ◌∙◌, List, [], ◌∷◌, ◌++◌, Option,
  none, some, arith, Bool-cases, inl, inr, ltb, ◌==◌, update, update_self, update_ne,
}
use rednet.Timer.{
  Handle, Outgoing, at_once, expired, Timer, in_round, set_level, local_append, moved, no_handles,
  local_move, to_move, move_if, local_shift, expired_at, local_execute, execute_if, update_wheel,
  update_if, updates, tick, time_out,
}
use rednet.Timer.Move.{in_round-last}

abbrev pub Every {ℓ} : {A : Type ℓ} → (A → Type 0) → List A → Type 0
Every P [] = Unit {0}
Every P (x ∷ xs) = P x × Every P xs

-- An event at once, or one for a handle, at another time than that of the handle.
abbrev pub IsOffTime : Outgoing → Type 0
IsOffTime (at_once id session) = Unit {0}
IsOffTime (expired h t) = h.expire ≢ t

-- a handle in the slot `i`
abbrev Slotted : ℕ → Handle → Type 0
Slotted i h = (i ≡ 63) × (h.expire % 256 ≡ 255)

record IsGood (v : Timer) : Type 0 where
  slots : (i : ℕ) → Every (Slotted i) (v.slots i)
  sent : Every IsOffTime v.sent

Every-append {ℓ} :
    {A : Type ℓ} (P : A → Type 0) (xs ys : List A) → Every P xs → Every P ys → Every P (xs ++ ys)
Every-append P [] ys h k = k
Every-append P (x ∷ xs) ys (a, h) k = (a, Every-append P xs ys h k)

append-IsGood : (h : Handle) (v : Timer) → IsGood v → IsGood (local_append h v)
unfolding local_append
append-IsGood h v g = elim (Bool-cases (in_round h.expire v.time)) [
  | inr r ↦ rw r (record { slots = g.slots; sent = g.sent })
  | inl r ↦
      let last = in_round-last h.expire v.time r in
      let i = h.expire % 64 in
      rw r (record {
        slots = λ j. elim (Bool-cases (i == j)) [
          | inl e ↦
              let at : i ≡ j = ground arith in
              subst (λ k. Every (Slotted k) (update v.slots i (v.slots i ++ h ∷ []) k)) at
                (rw (update_self v.slots i (v.slots i ++ h ∷ [])) (
                  Every-append (Slotted i) (v.slots i) (h ∷ []) (g.slots i)
                    ((omega arith, last), tt)))
          | inr e ↦ rw (update_ne v.slots i (v.slots i ++ h ∷ []) j e) (g.slots j)
        ];
        sent = g.sent;
      })
]

moved-IsGood : (level i : ℕ) (l : List Handle) (v : Timer) → IsGood v → IsGood (moved level i l v)
moved-IsGood level i [] v g = g
moved-IsGood level i (h ∷ hs) v g =
    append-IsGood h (set_level level i hs v) (record { slots = g.slots; sent = g.sent })

-- where a loop ended
abbrev IsGoodIf : Option Timer → Type 0
IsGoodIf none = Unit {0}
IsGoodIf (some v) = IsGood v

move-IsGood : (n level i : ℕ) (v : Timer) → IsGood v → IsGoodIf (local_move n level i v)
unfolding local_move
move-IsGood zero level i v g = tt
move-IsGood (suc n) level i v g =
    let rest =
      move-IsGood n level i (moved level i (v.levels level i) v)
        (moved-IsGood level i (v.levels level i) v g) in
    elim (Bool-cases (no_handles (v.levels level i))) [ inl e ↦ rw e g | inr e ↦ rw e rest ]

move_if-IsGood : (n : ℕ) (o : Option (ℕ × ℕ)) (v : Timer) → IsGood v → IsGoodIf (move_if n o v)
move_if-IsGood n none v g = g
move_if-IsGood n (some (level, i)) v g = move-IsGood n level i v g

off_time :
    (t : ℕ) (l : List Handle) → Every (Slotted (t % 256)) l → Every IsOffTime (expired_at t l)
off_time t [] h = tt
off_time t (h ∷ l) ((at, last), k) = (λ e. absurd (omega (arith, e)), off_time t l k)

execute-IsGood : (v : Timer) → IsGood v → IsGood (local_execute v)
unfolding local_execute
execute-IsGood v g = record {
  slots = λ j. elim (Bool-cases (v.time % 256 == j)) [
    | inl e ↦
        let at : v.time % 256 ≡ j = ground arith in
        rw
          (ap (λ k. update v.slots (v.time % 256) [] k) (sym at)
            ∙ update_self v.slots (v.time % 256) [])
          tt
    | inr e ↦ rw (update_ne v.slots (v.time % 256) [] j e) (g.slots j)
  ];
  sent =
      Every-append IsOffTime v.sent (expired_at v.time (v.slots (v.time % 256))) g.sent
        (off_time v.time (v.slots (v.time % 256)) (g.slots (v.time % 256)));
}

execute_if-IsGood : (o : Option Timer) → IsGoodIf o → IsGoodIf (execute_if o)
execute_if-IsGood none g = tt
execute_if-IsGood (some v) g = execute-IsGood v g

update-IsGood : (n : ℕ) (v : Timer) → IsGood v → IsGoodIf (update_wheel n v)
unfolding update_wheel local_shift
update-IsGood n v g =
    let w = local_execute v in
    let ct = (w.time + 1) % 2 ^ 32 in
    let h = execute-IsGood v g in
    execute_if-IsGood (move_if n (to_move ct) (record w { time = ct })) (
      move_if-IsGood n (to_move ct) (record w { time = ct })
        (record { slots = h.slots; sent = h.sent }))

update_if-IsGood : (n : ℕ) (o : Option Timer) → IsGoodIf o → IsGoodIf (update_if n o)
update_if-IsGood n none g = tt
update_if-IsGood n (some v) g = update-IsGood n v g

updates-IsGood : (n k : ℕ) (v : Timer) → IsGood v → IsGoodIf (updates n k v)
unfolding updates
updates-IsGood n zero v g = g
updates-IsGood n (suc k) v g = update_if-IsGood n (updates n k v) (updates-IsGood n k v g)

tick-IsGood : (n now : ℕ) (v : Timer) → IsGood v → IsGoodIf (tick n now v)
unfolding tick
tick-IsGood n now v g =
    let diff = (now - v.current_point) % 2 ^ 32 in
    let later =
      updates-IsGood n diff
        (record v { current_point = now; current = (v.current + diff) % 2 ^ 64 })
        (record { slots = g.slots; sent = g.sent }) in
    elim (Bool-cases (ltb now v.current_point)) [
      | inl e ↦ rw e (record { slots = g.slots; sent = g.sent })
      | inr e ↦
          rw e (elim (Bool-cases (now == v.current_point)) [ inl f ↦ rw f g | inr f ↦ rw f later ])
    ]

time_out-IsGood : (id time session : ℕ) (v : Timer) → IsGood v → IsGood (time_out id time session v)
unfolding time_out
time_out-IsGood id time session v g = elim (Bool-cases (time == 0)) [
  | inl e ↦ rw e (record {
    slots = g.slots;
    sent = Every-append IsOffTime v.sent (at_once id session ∷ []) g.sent (tt, tt);
  })
  | inr e ↦
      rw e (
        append-IsGood (record { expire = (time + v.time) % 2 ^ 32; id = id; session = session }) v
          g)
]

-- A timer without handles, which the constructor makes at time 0 of the wheel.
abbrev pub new_timer : ℕ → ℕ → ℕ → Timer
new_timer time current point = record {
  slots = λ i. [];
  levels = λ level i. [];
  time = time;
  current = current;
  current_point = point;
  sent = [];
}

-- what calls of `timeOut` and of `tick` that return come to, in any order
pub data Reach (v : Timer) : Timer → Type 0 where
  here : Reach v v
  asks : (w : Timer) (id time session : ℕ) → Reach v w → Reach v (time_out id time session w)
  ticks : (w u : Timer) (n now : ℕ) → Reach v w → tick n now w ≡ some u → Reach v u

Reach-IsGood : (v w : Timer) → Reach v w → IsGood v → IsGood w
Reach-IsGood v _ here g = g
Reach-IsGood v _ (asks w id time session r) g =
    time_out-IsGood id time session w (Reach-IsGood v w r g)
Reach-IsGood v _ (ticks w u n now r e) g =
    subst IsGoodIf e (tick-IsGood n now w (Reach-IsGood v w r g))

-- From a timer without handles, whatever `timeOut` and `tick` are called with, in any order, as long as
-- each call of `tick` returns, no event of a handle is sent at the tick that the handle was set for.
pub Reach-IsOffTime :
    (time current point : ℕ) (w : Timer)
    → Reach (new_timer time current point) w
    → Every IsOffTime w.sent
Reach-IsOffTime time current point w r =
    (Reach-IsGood (new_timer time current point) w r (record { slots = λ i. tt; sent = tt })).sent
