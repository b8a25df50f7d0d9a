-- ===== src/Timer.antt =====
-- rednet-src/utimer.h and utimer.cc: the wheel of the timers. The sections under the lock are taken as
-- one step each: no other thread calls `timeOut` while `update` hands out the handles of a slot.
pub mod Move
pub mod Late
pub mod Tests
use rednet.Common.{
  ℕ, zero, suc, ◌+◌, ◌-◌, ◌*◌, ◌/◌, ◌%◌, ◌^◌, Bool, true, false, ◌&&◌, not, List, [], ◌∷◌, ◌++◌,
  map, Option, none, some, if◌then◌else◌, ltb, ◌==◌, update,
}

-- TIME_SLOT and TIME_LEVEL, and the first mask of the levels
abbrev pub time_slot : ℕ
time_slot = 2 ^ 8

abbrev pub time_level : ℕ
time_level = 2 ^ 6

-- struct timeHandle with its struct timeEvent
pub record Handle : Type 0 where
  pub expire : ℕ
  pub id : ℕ
  pub session : ℕ

-- An event that the timer sends: at once, or for a handle at a time of the wheel. The session of the
-- second is not set by the source.
pub data Outgoing : Type 0 where
  at_once : ℕ → ℕ → Outgoing
  expired : Handle → ℕ → Outgoing

-- `slots__` and `ts__`, the clocks, and what was sent
pub record Timer : Type 0 where
  pub slots : ℕ → List Handle
  pub levels : ℕ → ℕ → List Handle
  pub time : ℕ
  pub current : ℕ
  pub current_point : ℕ
  pub sent : List Outgoing

-- `a | (m - 1)` for a power `m` of two, and `a | TIME_SLOT`
abbrev pub fill : ℕ → ℕ → ℕ
fill m a = a / m * m + (m - 1)

abbrev pub with_slot : ℕ → ℕ
with_slot a = if a / time_slot % 2 == 0 then a + time_slot else a

-- the test for the current round, as it is written
abbrev pub in_round : ℕ → ℕ → Bool
in_round time current = with_slot time == fill time_slot current

abbrev pub same_block : ℕ → ℕ → ℕ → Bool
same_block m time current = fill m time == fill m current

-- the loop of `local_append` over the masks
unfoldable pub level_of : ℕ → ℕ → ℕ
level_of time current =
    if same_block (2 ^ 14) time current
    then 0
    else if same_block (2 ^ 20) time current
    then 1
    else if same_block (2 ^ 26) time current
    then 2
    else 3

abbrev pub index_of : ℕ → ℕ → ℕ
index_of time level = time / 2 ^ (8 + level * 6) % time_level

abbrev pub push_slot : ℕ → Handle → Timer → Timer
push_slot i h v = record v { slots = update v.slots i (v.slots i ++ h ∷ []) }

abbrev pub set_level : ℕ → ℕ → List Handle → Timer → Timer
set_level level i l v = record v { levels = update v.levels level (update (v.levels level) i l) }

abbrev pub push_level : ℕ → ℕ → Handle → Timer → Timer
push_level level i h v = set_level level i (v.levels level i ++ h ∷ []) v

unfoldable pub local_append : Handle → Timer → Timer
local_append h v =
    let level = level_of h.expire v.time in
    if in_round h.expire v.time
    then push_slot (h.expire % time_level) h v
    else push_level level (index_of h.expire level) h v

-- `local_pop` and what follows it in `local_move`: the list without its first handle, which is appended
abbrev pub moved : ℕ → ℕ → List Handle → Timer → Timer
moved level i [] v = v
moved level i (h ∷ hs) v = local_append h (set_level level i hs v)

abbrev pub no_handles : List Handle → Bool
no_handles [] = true
no_handles (h ∷ hs) = false

-- The loop of `local_move` for `n` rounds; none where they are not enough.
unfoldable pub local_move : ℕ → ℕ → ℕ → Timer → Option Timer
local_move zero level i v = none
local_move (suc n) level i v =
    let rest = local_move n level i (moved level i (v.levels level i) v) in
    if no_handles (v.levels level i) then some v else rest

-- The loop of `local_shift`: the list that is moved. Four rounds are enough below 2^32, since the last
-- index is 0 for 0 only.
unfoldable pub shift_rounds : ℕ → ℕ → ℕ → Option (ℕ × ℕ)
shift_rounds zero i ct = none
shift_rounds (suc n) i ct =
    let later = shift_rounds n (suc i) ct in
    if ct % 2 ^ (8 + i * 6) == 0
    then if index_of ct i == 0 then later else some (i, index_of ct i)
    else none

abbrev pub to_move : ℕ → Option (ℕ × ℕ)
to_move ct = if ct == 0 then some (3, 0) else shift_rounds 4 0 ct

abbrev pub move_if : ℕ → Option (ℕ × ℕ) → Timer → Option Timer
move_if n none v = some v
move_if n (some (level, i)) v = local_move n level i v

unfoldable pub local_shift : ℕ → Timer → Option Timer
local_shift n v = let ct = (v.time + 1) % 2 ^ 32 in move_if n (to_move ct) (record v { time = ct })

abbrev pub expired_at : ℕ → List Handle → List Outgoing
expired_at t [] = []
expired_at t (h ∷ hs) = expired h t ∷ expired_at t hs

-- `local_execute` with `local_process` and `local_dispatch`
unfoldable pub local_execute : Timer → Timer
local_execute v =
    let i = v.time % time_slot in
    record v { slots = update v.slots i []; sent = v.sent ++ expired_at v.time (v.slots i) }

abbrev pub execute_if : Option Timer → Option Timer
execute_if none = none
execute_if (some v) = some (local_execute v)

-- `update`
unfoldable pub update_wheel : ℕ → Timer → Option Timer
update_wheel n v = execute_if (local_shift n (local_execute v))

abbrev pub update_if : ℕ → Option Timer → Option Timer
update_if n none = none
update_if n (some v) = update_wheel n v

-- the loop of `tick`
unfoldable pub updates : ℕ → ℕ → Timer → Option Timer
updates n zero v = some v
updates n (suc k) v = update_if n (updates n k v)

-- `tick`, where `now` is what `getTime` returns
unfoldable pub tick : ℕ → ℕ → Timer → Option Timer
tick n now v =
    let diff = (now - v.current_point) % 2 ^ 32 in
    let w = record v { current_point = now; current = (v.current + diff) % 2 ^ 64 } in
    let later = updates n diff w in
    if ltb now v.current_point
    then some (record v { current_point = now })
    else if now == v.current_point
    then some v
    else later

-- `timeOut`, with 0 for a time that is not positive
unfoldable pub time_out : ℕ → ℕ → ℕ → Timer → Timer
time_out id time session v =
    if time == 0
    then record v { sent = v.sent ++ at_once id session ∷ [] }
    else local_append (record { expire = (time + v.time) % 2 ^ 32; id = id; session = session }) v
