-- ===== src/LuaSeri/Unpack.antt =====
-- The methods of `lReadBlock`. What `buffer__`, `ptr__` and `len__` leave to read is a list of
-- bytes, and what is pushed on the Lua stack is returned.
pub mod Reads
pub mod Sized
pub mod Short
pub mod RoundTrip
pub mod Total
pub mod Ends
pub mod Fuel
use rednet.Common.{
  ℕ, zero, suc, ◌+◌, ◌-◌, ◌*◌, ◌/◌, ◌%◌, ◌^◌, Bool, true, false, List, [], ◌∷◌, if◌then◌else◌, ltb,
  leb, ◌==◌, length, take, drop,
}
use rednet.LuaSeri.Value.{
  Value, Items, Pairs, nil, boolean, integer, real, userdata, string, table, no_items, item,
  no_pairs, pair, lnil, lboolean, lnumber, luserdata, lsstring, llstring, ltable, lzero, lbyte,
  lword, ldword, lqword, lreal, ls_max_cookie,
}
use rednet.LuaSeri.Word.{from_bytes}
use rednet.LuaSeri.Pack.{sign_extend32}

-- `invalid` is `invalidStream`, which does not return. `fault` is a read with a negative length,
-- outside the buffer. `out_of_fuel` has no counterpart in the program.
pub data Result {ℓ} (A : Type ℓ) : Type ℓ where
  ok : A → Result A
  invalid fault out_of_fuel : Result A

abbrev pub bind {ℓ κ} : {A : Type ℓ} {B : Type κ} → Result A → (A → Result B) → Result B
bind (ok a) f = f a
bind invalid f = invalid
bind fault f = fault
bind out_of_fuel f = out_of_fuel

abbrev pub Reader : Type 0 → Type 0
Reader A = List ℕ → Result (A × List ℕ)

abbrev pub pure : {A : Type 0} → A → Reader A
pure a buf = ok (a, buf)

abbrev pub stop : {A : Type 0} → Result (A × List ℕ) → Reader A
stop r buf = r

infixl 1 ◌>>=◌
abbrev pub ◌>>=◌ : {A B : Type 0} → Reader A → (A → Reader B) → Reader B
p >>= f = λ buf. bind (p buf) λ (a, rest). f a rest

-- `read`, and the check of its result for NULL that follows it
unfoldable pub read : ℕ → Reader (List ℕ)
read sz buf = if ltb (length buf) sz then invalid else ok (take sz buf, drop sz buf)

unfoldable pub read_word : ℕ → Reader ℕ
read_word k = do bytes ← read k; pure (from_bytes bytes)

unfoldable pub read_int : ℕ → Reader ℕ
read_int cookie =
    if cookie == lzero
    then pure 0
    else if cookie == lbyte
    then read_word 1
    else if cookie == lword
    then read_word 2
    else if cookie == ldword
    then (do n ← read_word 4; pure (sign_extend32 n))
    else if cookie == lqword
    then read_word 8
    else stop invalid

-- The length is an `int`: from 2 ^ 31 on it is negative, and passes the test of `read`.
unfoldable pub read_buffer : ℕ → Reader Value
read_buffer len =
    if ltb len (2 ^ 31) then (do bytes ← read len; pure (string bytes)) else stop fault

unfoldable pub read_string : ℕ → Reader Value
read_string cookie =
    if cookie == 2
    then (do n ← read_word 2; read_buffer n)
    else if cookie == 4
    then (do n ← read_word 4; read_buffer n)
    else stop invalid

-- `(int)readInt(cookie)` as a number of rounds: a negative count makes none
unfoldable pub rounds : ℕ → ℕ
rounds x = if ltb (x % 2 ^ 32) (2 ^ 31) then x % 2 ^ 32 else 0

-- the size of a long array part, after the type byte `t` that follows the header
unfoldable pub read_long_size : ℕ → Reader ℕ
read_long_size t =
    if t % 8 == ltable
    then (if t / 8 == lreal then stop invalid else (do n ← read_int (t / 8); pure (rounds n)))
    else stop invalid

-- the size of the array part, from the cookie of the table
unfoldable pub read_array_size : ℕ → Reader ℕ
read_array_size cookie =
    if cookie == ls_max_cookie - 1 then (do t ← read_word 1; read_long_size t) else pure cookie

-- the two loops of `readTable` are arguments
unfoldable pub read_table : (ℕ → Reader Items) → Reader Pairs → ℕ → Reader Value
read_table items pairs cookie = do
  n ← read_array_size cookie
  xs ← items n
  ps ← pairs
  pure (table xs ps)

unfoldable pub push_value : (ℕ → Reader Value) → ℕ → ℕ → Reader Value
push_value on_table type cookie =
    if type == lnil
    then pure nil
    else if type == lboolean
    then pure (boolean (if cookie == 0 then false else true))
    else if type == lnumber
    then (if cookie == lreal
        then (do x ← read_word 8; pure (real x))
        else (do n ← read_int cookie; pure (integer n)))
    else if type == luserdata
    then (do p ← read_word 8; pure (userdata p))
    else if type == lsstring
    then read_buffer cookie
    else if type == llstring
    then read_string cookie
    else if type == ltable
    then on_table cookie
    else stop invalid

-- `lua_isnil` ends the second loop of `readTable`
unfoldable pub end_or_pair : Value → Reader Pairs → Reader Pairs
end_or_pair nil more = pure no_pairs
end_or_pair _ more = more

-- Every call costs a unit of fuel, and reads a byte or ends a loop.
unfoldable mutual
  pub unpack_one : ℕ → Reader Value
  unpack_one zero = stop out_of_fuel
  unpack_one (suc f) = do
    t ← read_word 1
    push_value (read_table (read_items f) (read_pairs f)) (t % 8) (t / 8)

  pub read_items : ℕ → ℕ → Reader Items
  read_items zero n = stop out_of_fuel
  read_items (suc f) n =
      let more : Reader Items = (do
        v ← unpack_one f
        xs ← read_items f (n - 1)
        pure (item v xs)) in
      if n == 0 then pure no_items else more

  pub read_pairs : ℕ → Reader Pairs
  read_pairs zero = stop out_of_fuel
  read_pairs (suc f) = do
    k ← unpack_one f
    end_or_pair k (do v ← unpack_one f; ps ← read_pairs f; pure (pair k v ps))

-- the loop of the constructor: it stops where `read` of the type finds no byte
pub unpack_all : ℕ → List ℕ → Result (List Value)
unpack_all zero buf = out_of_fuel
unpack_all (suc f) [] = ok []
unpack_all (suc f) (b ∷ buf) =
    bind (unpack_one f (b ∷ buf)) λ (v, rest). bind (unpack_all f rest) λ vs. ok (v ∷ vs)

-- The arguments of the Lua call, with the bytes that they stand for. `null_pointer` comes with a
-- length that is not 0; with the length 0 it is `bytes []`.
pub data Source : Type 0 where
  none_or_nil null_pointer : Source
  bytes : List ℕ → Source

pub data Unpacked : Type 0 where
  values : List Value → Unpacked
  null_error stream_error overrun no_fuel : Unpacked

pub luaseri_unpack : Source → Unpacked
luaseri_unpack none_or_nil = values []
luaseri_unpack null_pointer = null_error
luaseri_unpack (bytes []) = values []
luaseri_unpack (bytes (b ∷ buf)) = elim (unpack_all (2 * length (b ∷ buf) + 2) (b ∷ buf)) [
  | ok vs ↦ values vs
  | invalid ↦ stream_error
  | fault ↦ overrun
  | out_of_fuel ↦ no_fuel
]
