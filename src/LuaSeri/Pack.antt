-- ===== src/LuaSeri/Pack.antt =====
-- The `push*` and `pack*` methods of `lWriteBlock`.
pub mod Encode
pub mod Correct
pub mod Errors
pub mod Total
use rednet.Common.{
  ℕ, zero, suc, ◌+◌, ◌-◌, ◌*◌, ◌%◌, ◌^◌, Bool, true, false, ◌&&◌, List, [], ◌∷◌, Option, none, some,
  if◌then◌else◌, ltb, leb, ◌==◌, length, take,
}
use rednet.LuaSeri.Value.{
  Value, Items, Pairs, nil, boolean, integer, real, userdata, string, table, other, no_items, item,
  no_pairs, pair, count, lnil, lboolean, lnumber, luserdata, lsstring, llstring, ltable, lzero,
  lbyte, lword, ldword, lqword, lreal, ls_max_cookie, ls_max_depth, ls_combine_type,
}
use rednet.LuaSeri.Word.{to_bytes}
use rednet.LuaSeri.Block.{Writer, fresh, push, serialize}

-- `too_deep` and `unsupported` are the two calls of `luaL_error`, which do not return.
pub data Outcome : Type 0 where
  packed : Writer → Outcome
  too_deep unsupported : Outcome

infixl 5 ◌>>=◌
abbrev pub ◌>>=◌ : Outcome → (Writer → Outcome) → Outcome
packed w >>= f = f w
too_deep >>= f = too_deep
unsupported >>= f = unsupported

-- `(lua_Integer)(int32_t)v` on 64-bit patterns
abbrev pub sign_extend32 : ℕ → ℕ
sign_extend32 v = if ltb (v % 2 ^ 32) (2 ^ 31) then v % 2 ^ 32 else v % 2 ^ 32 + 2 ^ 64 - 2 ^ 32

-- `v < 0` on a 64-bit pattern
abbrev pub is_negative : ℕ → Bool
is_negative v = leb (2 ^ 63) v

pub push_nil : Writer → Writer
push_nil = push (lnil ∷ [])

pub push_bool : Bool → Writer → Writer
push_bool b = push (ls_combine_type lboolean (if b then 1 else 0) ∷ [])

pub push_int : ℕ → Writer → Writer
push_int v w =
    let tagged = λ (t k x : ℕ). push (to_bytes k x) (push (ls_combine_type lnumber t ∷ []) w) in
    if v == 0
    then push (ls_combine_type lnumber lzero ∷ []) w
    else if not_int32
    then tagged lqword 8 v
    else if is_negative v
    then tagged ldword 4 (v % 2 ^ 32)
    else if ltb v 0x100
    then tagged lbyte 1 v
    else if ltb v 0x1_0000
    then tagged lword 2 v
    else tagged ldword 4 v
  where
    not_int32 : Bool
    not_int32 = if v == sign_extend32 v then false else true

pub push_real : ℕ → Writer → Writer
push_real v w = push (to_bytes 8 v) (push (ls_combine_type lnumber lreal ∷ []) w)

pub push_pointer : ℕ → Writer → Writer
push_pointer v w = push (to_bytes 8 v) (push (luserdata ∷ []) w)

-- `len` is an `int` as its 32-bit pattern. A negative one is below LS_MAX_COOKIE and not above 0, so that
-- nothing follows the type, of which a byte is kept.
pub push_string : List ℕ → ℕ → Writer → Writer
push_string str len w =
    if leb (2 ^ 31) len
    then short w
    else if ltb len ls_max_cookie
    then (if ltb 0 len then push (take len str) (short w) else short w)
    else if ltb len 0x1_0000
    then push (take len str) (push (to_bytes 2 len) (long 2 w))
    else push (take len str) (push (to_bytes 4 len) (long 4 w))
  where
    short : Writer → Writer
    short = push (ls_combine_type lsstring len % 256 ∷ [])

    long : ℕ → Writer → Writer
    long n = push (ls_combine_type llstring n ∷ [])

-- the header that `pushTableArray` writes before the items
pub push_array_size : ℕ → Writer → Writer
push_array_size n w =
    if leb (ls_max_cookie - 1) n
    then push_int n (push (ls_combine_type ltable (ls_max_cookie - 1) ∷ []) w)
    else push (ls_combine_type ltable n ∷ []) w

-- the test that makes `pushTableHash` skip a key: an integer in 1 .. arraySize
unfoldable pub in_array : Value → ℕ → Bool
in_array (integer x) n = (ltb 0 x && ltb x (2 ^ 63)) && leb x n
in_array _ n = false

-- Tables without a `__pairs` metamethod, with less than 2^31 values in their array parts. The length of
-- a string is cast to `int`.
unfoldable mutual
  pub pack_one : Value → ℕ → Writer → Outcome
  pack_one nil depth w = if ltb ls_max_depth depth then too_deep else packed (push_nil w)
  pack_one (boolean b) depth w = if ltb ls_max_depth depth then too_deep else packed (push_bool b w)
  pack_one (integer v) depth w = if ltb ls_max_depth depth then too_deep else packed (push_int v w)
  pack_one (real v) depth w = if ltb ls_max_depth depth then too_deep else packed (push_real v w)
  pack_one (userdata v) depth w =
      if ltb ls_max_depth depth then too_deep else packed (push_pointer v w)
  pack_one (string s) depth w =
      if ltb ls_max_depth depth then too_deep else packed (push_string s (length s % 2 ^ 32) w)
  pack_one (table xs ps) depth w =
      let body =
        pack_items xs (depth + 1) (push_array_size (count xs) w)
        >>= pack_pairs ps (depth + 1) (count xs) in
      if ltb ls_max_depth depth then too_deep else body
  pack_one other depth w = if ltb ls_max_depth depth then too_deep else unsupported

  pub pack_items : Items → ℕ → Writer → Outcome
  pack_items no_items depth w = packed w
  pack_items (item v xs) depth w = pack_one v depth w >>= pack_items xs depth

  pub pack_pairs : Pairs → ℕ → ℕ → Writer → Outcome
  pack_pairs no_pairs depth n w = packed (push_nil w)
  pack_pairs (pair k v ps) depth n w =
      let both = pack_one k depth w >>= pack_one v depth >>= pack_pairs ps depth n in
      let skip = pack_pairs ps depth n w in if in_array k n then skip else both

pub pack_from : List Value → Writer → Outcome
pack_from [] w = packed w
pack_from (v ∷ vs) w = pack_one v 0 w >>= pack_from vs

pub data Packed : Type 0 where
  stream : List ℕ → Packed
  failed_assert depth_error type_error len_overflow : Packed

-- what `serialize` delivers
abbrev pub delivered : Option (List ℕ) → Packed
delivered none = failed_assert
delivered (some out) = stream out

-- The constructor of `lWriteBlock`, which `luaseri_pack` calls on the arguments of the Lua call. `len__` is
-- an `int`: `len_overflow` is a run in which it passes 2^31 - 1, from where C++ leaves open what happens.
pub luaseri_pack : List Value → Packed
unfolding pack_from pack_one
luaseri_pack vs = elim (pack_from vs fresh) [
  | packed w ↦ if leb (2 ^ 31) w.len then len_overflow else delivered (serialize w)
  | too_deep ↦ depth_error
  | unsupported ↦ type_error
]
