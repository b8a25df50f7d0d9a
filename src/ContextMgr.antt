-- ===== src/ContextMgr.antt =====
-- rednet-src/ucontext.h and ucontext.cc: the table of the running services, by id and by name.
pub mod Grab
pub mod Register
pub mod Jam
pub mod Names
pub mod Retire
pub mod Session
pub mod Tests
use rednet.Common.{
  ℕ, zero, suc, ◌+◌, ◌*◌, ◌-◌, ◌%◌, ◌^◌, Bool, true, false, ◌&&◌, List, [], ◌∷◌, ◌++◌, Option, none,
  some, if◌then◌else◌, leb, ◌==◌, length, get_or, set, replicate,
}

-- A context by its address and the id that `ucontext::init` stores in it, which is what `registerId`
-- returned.
pub record Context : Type 0 where
  pub address : ℕ
  pub id : ℕ

-- A name is the list of its bytes. `names` are the entries of `ctxsName__` in the order in which its
-- iterator meets them; `group` is `serverGroupID__` before the shift.
pub record ContextMgr : Type 0 where
  pub group : ℕ
  pub ctxs : List (Option Context)
  pub names : List (List ℕ × ℕ)
  pub ser : ℕ
  pub cap : ℕ

-- one more than ID_MARK
abbrev pub id_span : ℕ
id_span = 2 ^ 24

-- the constructor and `init`
unfoldable pub start : ℕ → ContextMgr
start group = record { group = group % 256; ctxs = replicate 4 none; names = []; ser = 1; cap = 4 }

abbrev pub slot : List (Option Context) → ℕ → Option Context
slot ctxs i = get_or ctxs i none

abbrev pub is_none : Option Context → Bool
is_none none = true
is_none (some c) = false

-- The inner loop of `registerId` from `i` on, for `n` rounds: the id without the server group whose
-- place is free. The capacity is a power of two, so that `id & (cap - 1)` is `id % cap`.
unfoldable pub find_place : ContextMgr → ℕ → ℕ → Option ℕ
find_place m zero i = none
find_place m (suc n) i =
    let id = (i + m.ser) % id_span in
    let later = find_place m n (i + 1) in
    if is_none (slot m.ctxs (id % m.cap)) then some id else later

-- The body of the loop over the resized table, for the entry at `i`: the capacity is set only where
-- an entry moves, and the entry stays in its old place too.
unfoldable pub move_one : ℕ → ℕ → ContextMgr → Option Context → ContextMgr
move_one nwcap i m none = m
move_one nwcap i m (some c) =
    if c.id % nwcap == i
    then m
    else record m { ctxs = set m.ctxs (c.id % nwcap) (some c); cap = nwcap }

-- that loop, for `n` rounds from `i` on
unfoldable pub move_entries : ℕ → ℕ → ℕ → ContextMgr → ContextMgr
move_entries nwcap zero i m = m
move_entries nwcap (suc n) i m = move_entries nwcap n (i + 1) (move_one nwcap i m (slot m.ctxs i))

-- `resize` to `n` entries, of which the table has no more
abbrev pub resize : ℕ → List (Option Context) → List (Option Context)
resize n ctxs = ctxs ++ replicate (n - length ctxs) none

unfoldable pub expand : ContextMgr → ContextMgr
expand m = move_entries (m.cap * 2) (m.cap * 2) 0 (record m { ctxs = resize (m.cap * 2) m.ctxs })

-- `full` is the failing assertion; `waiting` is a loop that goes on when the fuel is gone.
pub data Registered : Type 0 where
  registered : ℕ → ContextMgr → Registered
  full waiting : Registered

-- the write to a free place, with the id that `init` then stores in the context
unfoldable pub occupy : ℕ → ℕ → ContextMgr → Registered
occupy address id m =
    let whole = id + m.group * id_span in
    registered whole (record m {
      ctxs = set m.ctxs (id % m.cap) (some (record { address = address; id = whole }));
      ser = id + 1;
    })

-- the end of a round of the outer loop, from what the inner loop found
abbrev pub place : ℕ → ContextMgr → Registered → Option ℕ → Registered
place address m again (some id) = occupy address id m
place address m again none = if leb (m.cap * 2) id_span then again else full

-- `registerId`: a round of the outer loop costs a unit of fuel.
unfoldable pub register_id : ℕ → ℕ → ContextMgr → Registered
register_id zero address m = waiting
register_id (suc f) address m =
    let again = register_id f address (expand m) in place address m again (find_place m m.cap 0)

abbrev pub if_id : ℕ → Option Context → Option Context
if_id id none = none
if_id id (some c) = if c.id == id then some c else none

unfoldable pub grab : ContextMgr → ℕ → Option Context
grab m id = if_id id (slot m.ctxs (id % m.cap))

unfoldable pub same_name : List ℕ → List ℕ → Bool
same_name [] [] = true
same_name (a ∷ xs) (b ∷ ys) = (a == b) && same_name xs ys
same_name _ _ = false

-- `ctxsName__.find(name)`, 0 where it is `end()`, as `convertId` returns it
unfoldable pub find_name : List ℕ → List (List ℕ × ℕ) → ℕ
find_name name [] = 0
find_name name ((key, id) ∷ names) =
    let later = find_name name names in if same_name name key then id else later

unfoldable pub convert_id : List ℕ → ContextMgr → ℕ
convert_id name m = find_name name m.names

-- the loop of `convertName`
unfoldable pub find_id : ℕ → List (List ℕ × ℕ) → Option (List ℕ)
find_id id [] = none
find_id id ((key, other) ∷ names) =
    let later = find_id id names in if other == id then some key else later

unfoldable pub convert_name : ℕ → ContextMgr → Option (List ℕ)
convert_name id m = find_id id m.names

-- `registerName` sets the id of an entry with the name, or inserts one.
unfoldable pub put_name : ℕ → List ℕ → List (List ℕ × ℕ) → List (List ℕ × ℕ)
put_name id name [] = (name, id) ∷ []
put_name id name ((key, other) ∷ names) =
    let later = (key, other) ∷ put_name id name names in
    if same_name name key then (key, id) ∷ names else later

unfoldable pub register_name : ℕ → List ℕ → ContextMgr → ContextMgr
register_name id name m = record m { names = put_name id name m.names }

-- `local_erase_name`: the first entry with the id
unfoldable pub erase_name : ℕ → List (List ℕ × ℕ) → List (List ℕ × ℕ)
erase_name id [] = []
erase_name id ((key, other) ∷ names) =
    let later = (key, other) ∷ erase_name id names in if other == id then names else later

-- `unRegister`, from what the test of the place found
abbrev pub remove : ℕ → ContextMgr → Option Context → Bool × ContextMgr
remove id m none = (false, m)
remove id m (some c) =
    (true, record m { ctxs = set m.ctxs (id % m.cap) none; names = erase_name id m.names })

unfoldable pub unregister : ℕ → ContextMgr → Bool × ContextMgr
unregister id m = remove id m (grab m id)

-- `ucontext::session` on the `int` before, a 32-bit pattern that wraps: never 0 or negative.
unfoldable pub session : ℕ → ℕ
session before =
    let next = (before + 1) % 2 ^ 32 in
    if next == 0 then 1 else if leb (2 ^ 31) next then 1 else next
