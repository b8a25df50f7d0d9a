-- ===== src/LuaSeri/Pack/Encode.antt =====
-- The bytes that each value is packed to, independent of the block chain.
use rednet.Common.{
  ℕ, ◌+◌, ◌*◌, ◌%◌, ◌^◌, Bool, true, false, ◌&&◌, List, [], ◌∷◌, ◌++◌, if◌then◌else◌, ltb, leb,
  ◌==◌, length,
}
use rednet.LuaSeri.Value.{
  Value, Items, Pairs, nil, boolean, integer, real, userdata, string, table, other, no_items, item,
  no_pairs, pair, count, ls_max_depth,
}
use rednet.LuaSeri.Word.{to_bytes}
use rednet.LuaSeri.Block.{Writer}
use rednet.LuaSeri.Block.Append.{Appended}
use rednet.LuaSeri.Pack.{
  Outcome, packed, too_deep, unsupported, sign_extend32, is_negative, in_array,
}

unfoldable pub encode_int : ℕ → List ℕ
encode_int v =
    if v == 0
    then 2 ∷ []
    else if v == sign_extend32 v
    then (if is_negative v
        then 34 ∷ to_bytes 4 (v % 2 ^ 32)
        else if ltb v 0x100
        then 10 ∷ to_bytes 1 v
        else if ltb v 0x1_0000
        then 18 ∷ to_bytes 2 v
        else 34 ∷ to_bytes 4 v)
    else 50 ∷ to_bytes 8 v

unfoldable pub encode_string : List ℕ → List ℕ
encode_string str =
    if ltb (length str) 32
    then (4 + length str * 8) ∷ str
    else if ltb (length str) 0x1_0000
    then 21 ∷ to_bytes 2 (length str) ++ str
    else 37 ∷ to_bytes 4 (length str) ++ str

unfoldable pub encode_array_size : ℕ → List ℕ
encode_array_size n = if leb 31 n then 254 ∷ encode_int n else (6 + n * 8) ∷ []

unfoldable mutual
  pub encode : Value → List ℕ
  encode nil = 0 ∷ []
  encode (boolean b) = (if b then 9 else 1) ∷ []
  encode (integer v) = encode_int v
  encode (real v) = 66 ∷ to_bytes 8 v
  encode (userdata v) = 3 ∷ to_bytes 8 v
  encode (string s) = encode_string s
  encode (table xs ps) =
      encode_array_size (count xs) ++ encode_items xs ++ encode_pairs ps (count xs)
  encode other = []

  pub encode_items : Items → List ℕ
  encode_items no_items = []
  encode_items (item v xs) = encode v ++ encode_items xs

  pub encode_pairs : Pairs → ℕ → List ℕ
  encode_pairs no_pairs n = 0 ∷ []
  encode_pairs (pair k v ps) n =
      if in_array k n then encode_pairs ps n else encode k ++ (encode v ++ encode_pairs ps n)

unfoldable pub encode_all : List Value → List ℕ
encode_all [] = []
encode_all (v ∷ vs) = encode v ++ encode_all vs

-- What `pack_one` accepts at a depth: no table under more than 32 others, no value of a type that
-- has no encoding.
unfoldable mutual
  pub packable : Value → ℕ → Bool
  packable (table xs ps) d =
      leb d ls_max_depth && (packable_items xs (d + 1) && packable_pairs ps (d + 1) (count xs))
  packable other d = false
  packable v d = leb d ls_max_depth

  pub packable_items : Items → ℕ → Bool
  packable_items no_items d = true
  packable_items (item v xs) d = packable v d && packable_items xs d

  pub packable_pairs : Pairs → ℕ → ℕ → Bool
  packable_pairs no_pairs d n = true
  packable_pairs (pair k v ps) d n =
      let rest = packable_pairs ps d n in
      let all = packable k d && (packable v d && rest) in if in_array k n then rest else all

unfoldable pub all_packable : List Value → Bool
all_packable [] = true
all_packable (x ∷ xs) = packable x 0 && all_packable xs

-- Every string has a length that an `int` holds, and so has every array part. Walked pairs that lie in an
-- array part do not count.
unfoldable mutual
  pub short : Value → Bool
  short (string s) = ltb (length s) (2 ^ 31)
  short (table xs ps) = ltb (count xs) (2 ^ 31) && (short_items xs && short_pairs ps (count xs))
  short _ = true

  pub short_items : Items → Bool
  short_items no_items = true
  short_items (item v xs) = short v && short_items xs

  pub short_pairs : Pairs → ℕ → Bool
  short_pairs no_pairs n = true
  short_pairs (pair k v ps) n =
      let rest = short_pairs ps n in
      let all = short k && (short v && rest) in if in_array k n then rest else all

unfoldable pub all_short : List Value → Bool
all_short [] = true
all_short (x ∷ xs) = short x && all_short xs

-- A packing step appends `bytes`, or stops at an error.
abbrev pub Packs : Writer → List ℕ → Outcome → Type 0
Packs w bytes (packed v) = Appended w bytes v
Packs w bytes too_deep = ⊥
Packs w bytes unsupported = ⊥
