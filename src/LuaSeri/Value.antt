-- ===== src/LuaSeri/Value.antt =====
-- Lua values as the serialiser sees them, and the constants of uluaseri.h.
use rednet.Common.{ℕ, suc, ◌+◌, ◌*◌, Bool, List}

-- A `lua_Integer` and a `double` are their 64-bit patterns, a light userdata is its address.
-- `table xs ps` has rawlen values `xs` at 1, 2, ..., and `ps` is what `lua_next` walks through, the
-- keys of the array part included. `other` is a function, a thread or a full userdata.
mutual
  pub data Value : Type 0 where
    nil : Value
    boolean : Bool → Value
    integer : ℕ → Value
    real : ℕ → Value
    userdata : ℕ → Value
    string : List ℕ → Value
    table : Items → Pairs → Value
    other : Value

  pub data Items : Type 0 where
    no_items : Items
    item : Value → Items → Items

  pub data Pairs : Type 0 where
    no_pairs : Pairs
    pair : Value → Value → Pairs → Pairs

abbrev pub count : Items → ℕ
count no_items = 0
count (item v xs) = suc (count xs)

-- luaValueType
abbrev pub lnil : ℕ
lnil = 0

abbrev pub lboolean : ℕ
lboolean = 1

abbrev pub lnumber : ℕ
lnumber = 2

abbrev pub luserdata : ℕ
luserdata = 3

abbrev pub lsstring : ℕ
lsstring = 4

abbrev pub llstring : ℕ
llstring = 5

abbrev pub ltable : ℕ
ltable = 6

-- luaNumberType
abbrev pub lzero : ℕ
lzero = 0

abbrev pub lbyte : ℕ
lbyte = 1

abbrev pub lword : ℕ
lword = 2

abbrev pub ldword : ℕ
ldword = 4

abbrev pub lqword : ℕ
lqword = 6

abbrev pub lreal : ℕ
lreal = 8

abbrev pub ls_max_cookie : ℕ
ls_max_cookie = 32

abbrev pub ls_block_size : ℕ
ls_block_size = 128

abbrev pub ls_max_depth : ℕ
ls_max_depth = 32

-- `t | v << 3`, where `t < 8`
abbrev pub ls_combine_type : ℕ → ℕ → ℕ
ls_combine_type t v = t + v * 8
