-- ===== src/LuaSeri/Tests.antt =====
-- The serialiser of rednet-src/lua/uluaseri.cc at concrete values.
use rednet.Common.{
  ◌≢◌, ℕ, ◌+◌, ◌*◌, ◌<◌, ◌≤◌, ◌≡◌, ◌≢◌, ◌↔◌, ◌⊎◌, refl, true, List, [], ◌∷◌, ◌++◌, arith, map, some,
  none, take, drop, replicate, length, ◌^◌,
}
use rednet.Common as C
use rednet.LuaSeri.Value.{
  Value, Items, integer, string, boolean, table, item, no_items, pair, no_pairs,
}
use rednet.LuaSeri.Pack.{stream, in_array, luaseri_pack}
use rednet.LuaSeri.Pack.Encode.{
  encode_all, all_packable, all_short, short, encode, packable, encode_int, encode_string,
  encode_array_size,
}
use rednet.LuaSeri.Word.{to_bytes}
use rednet.LuaSeri.Pack.Total.{luaseri_pack-eq_iff}
use rednet.LuaSeri.Unpack.{bytes, values, stream_error, luaseri_unpack, no_fuel}
use rednet.LuaSeri.Unpack.Sized.{stored, all_sized, sized, is_nil}
use rednet.LuaSeri.Unpack.Fuel.{luaseri_unpack-ne}
use rednet.LuaSeri.Unpack.Total.{luaseri_unpack-luaseri_pack, luaseri_unpack-long}

-- 300, "hi", {true, [1] = true, ["a"] = 7}
abbrev sample : List Value
sample =
    integer 300
    ∷ string (104 ∷ 105 ∷ [])
    ∷ table (item (boolean true) no_items)
        (pair (integer 1) (boolean true) (pair (string (97 ∷ [])) (integer 7) no_pairs))
    ∷ []

abbrev sample_bytes : List ℕ
sample_bytes = 18 ∷ 44 ∷ 1 ∷ 20 ∷ 104 ∷ 105 ∷ 14 ∷ 9 ∷ 12 ∷ 97 ∷ 10 ∷ 7 ∷ 0 ∷ []

sample_packs : luaseri_pack sample ≡ stream sample_bytes
unfolding encode_all all_packable encode packable in_array encode_int to_bytes encode_string
    encode_array_size short all_short
sample_packs = (luaseri_pack-eq_iff sample sample_bytes refl).1 (refl, refl, omega arith)

luaseri_pack-eq_iff_example :
    (luaseri_pack sample ≡ stream sample_bytes)
    ↔ (all_packable sample ≡ true)
      × (sample_bytes ≡ encode_all sample)
      × (length sample_bytes < 2 ^ 31)
unfolding short all_short in_array
luaseri_pack-eq_iff_example = luaseri_pack-eq_iff sample sample_bytes refl

luaseri_unpack-luaseri_pack_example :
    luaseri_unpack (bytes sample_bytes) ≡ values (map stored sample)
unfolding all_sized sized is_nil in_array
luaseri_unpack-luaseri_pack_example =
    luaseri_unpack-luaseri_pack sample sample_bytes refl sample_packs

-- `n` times `true`
unfoldable trues : ℕ → Items
trues C.zero = no_items
trues (C.suc n) = item (boolean true) (trues n)

abbrev long_table : List Value
long_table = table (trues 31) no_pairs ∷ []

luaseri_unpack-long_example :
    (luaseri_pack long_table ≡ stream (encode_all long_table))
    × (luaseri_unpack (bytes (encode_all long_table)) ≡ stream_error)
unfolding trues all_packable encode_all encode packable short all_short encode_array_size encode_int
    to_bytes
luaseri_unpack-long_example =
    luaseri_unpack-long (trues 31) no_pairs [] (omega arith) refl refl (omega arith)

luaseri_unpack-ne_example : luaseri_unpack (bytes (31 ∷ 255 ∷ [])) ≢ no_fuel
luaseri_unpack-ne_example = luaseri_unpack-ne (bytes (31 ∷ 255 ∷ []))
