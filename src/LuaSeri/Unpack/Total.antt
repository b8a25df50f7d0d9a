-- ===== src/LuaSeri/Unpack/Total.antt =====
-- `luaseri_unpack` on what `luaseri_pack` returns.
use rednet.Common.{
  ℕ, zero, suc, ◌+◌, ◌*◌, ◌^◌, ◌<◌, ◌≤◌, ◌≡◌, refl, true, List, [], ◌∷◌, ◌++◌, leb, length, arith,
  length-append, append_assoc, map,
}
use rednet.LuaSeri.Value.{Value, Items, Pairs, table, count}
use rednet.LuaSeri.Pack.{stream, luaseri_pack}
use rednet.LuaSeri.Pack.Encode.{encode_array_size, encode, encode_all, all_packable, all_short}
use rednet.LuaSeri.Pack.Correct.{and_true}
use rednet.LuaSeri.Unpack.{
  Result, ok, invalid, fault, out_of_fuel, bind, read_table, push_value, unpack_one, unpack_all,
  bytes, Unpacked, values, stream_error, overrun, no_fuel, luaseri_unpack,
}
use rednet.LuaSeri.Unpack.Reads.{read_byte, read_array_size-long}
use rednet.LuaSeri.Unpack.Sized.{stored, all_sized}
use rednet.LuaSeri.Unpack.Short.{all_sized-all_short}
use rednet.LuaSeri.Pack.Total.{luaseri_pack-eq_iff}
use rednet.LuaSeri.Unpack.RoundTrip.{unpack_one-encode, length-encode_pos, length-encode-table_pos}

unpack_all-step :
    (f : ℕ) (buf : List ℕ)
    → 0 < length buf
    → unpack_all (suc f) buf
      ≡ bind (unpack_one f buf) λ (v, rest). bind (unpack_all f rest) λ vs. ok (v ∷ vs)
unfolding unpack_all
unpack_all-step f [] h = absurd (omega arith)
unpack_all-step f (b ∷ buf) h = refl

unpack_all-encode_all :
    (vs : List Value) (f : ℕ)
    → all_sized vs ≡ true
    → 2 * length (encode_all vs) + 1 < f
    → unpack_all f (encode_all vs) ≡ ok (map stored vs)
unfolding encode_all all_sized unpack_all
unpack_all-encode_all vs zero h k = absurd (omega arith)
unpack_all-encode_all [] (suc f) h k = refl
unpack_all-encode_all (v ∷ vs) (suc f) h k =
    let (first, second) = and_true _ _ h in
    let size = length-append (encode v) (encode_all vs) in
    rw (
      unpack_all-step f (encode v ++ encode_all vs)
          (omega (arith, size, length-encode_pos v first)),
      unpack_one-encode v f (encode_all vs) first (omega (arith, size)),
      unpack_all-encode_all vs f second (omega (arith, size, length-encode_pos v first)),
    )

-- what `luaseri_unpack` returns for the outcome of its loop
abbrev outcome : Result (List Value) → Unpacked
outcome (ok vs) = values vs
outcome invalid = stream_error
outcome fault = overrun
outcome out_of_fuel = no_fuel

luaseri_unpack_lem :
    (buf : List ℕ) → luaseri_unpack (bytes buf) ≡ outcome (unpack_all (2 * length buf + 2) buf)
unfolding luaseri_unpack unpack_all
luaseri_unpack_lem [] = refl
luaseri_unpack_lem (b ∷ buf) = ground arith

-- What `luaseri_pack` returns for sized arguments, `luaseri_unpack` reads back: the same values, in
-- order, less the walked pairs that lie in the array parts.
pub luaseri_unpack-luaseri_pack :
    (vs : List Value) (out : List ℕ)
    → all_sized vs ≡ true
    → luaseri_pack vs ≡ stream out
    → luaseri_unpack (bytes out) ≡ values (map stored vs)
luaseri_unpack-luaseri_pack vs out h p =
    let e = ((luaseri_pack-eq_iff vs out (all_sized-all_short vs h)).0 p).1 in
    rw e (
      rw (
        luaseri_unpack_lem,
        unpack_all-encode_all vs (2 * length (encode_all vs) + 2) h (omega arith),
      ))

unpack_one-long :
    (xs : Items) (ps : Pairs) (f : ℕ) (rest : List ℕ)
    → 31 ≤ count xs
    → unpack_one (suc f) (encode (table xs ps) ++ rest) ≡ invalid
unfolding unpack_one push_value read_table encode encode_array_size
unpack_one-long xs ps f rest h =
    let e : leb 31 (count xs) ≡ true = ground arith in
    rw (e, append_assoc, append_assoc, read_byte, read_array_size-long (count xs) _ h)

all_long :
    (xs : Items) (ps : Pairs) (vs : List Value)
    → 31 ≤ count xs
    → let buf = encode_all (table xs ps ∷ vs) in unpack_all (2 * length buf + 2) buf ≡ invalid
unfolding encode_all
all_long xs ps vs h =
    let n = length (encode (table xs ps) ++ encode_all vs) in
    let e : 2 * n + 2 ≡ suc (suc (2 * n)) = omega arith in
    rw (
      e,
      unpack_all-step (suc (2 * n)) (encode (table xs ps) ++ encode_all vs) (
          omega (
            arith,
            length-append (encode (table xs ps)) (encode_all vs),
            length-encode-table_pos xs ps,
          )),
      unpack_one-long xs ps (2 * n) (encode_all vs) h,
    )

-- Let the arguments be packable, each of their strings and array parts shorter than 2^31, their encoding less
-- than 2^31 bytes, and the first one a table with 31 values or more in its array part. Then `luaseri_pack` packs them, and what it returns can
-- never be read back: the reader stops with an error.
pub luaseri_unpack-long :
    (xs : Items) (ps : Pairs) (vs : List Value)
    → 31 ≤ count xs
    → all_packable (table xs ps ∷ vs) ≡ true
    → all_short (table xs ps ∷ vs) ≡ true
    → length (encode_all (table xs ps ∷ vs)) < 2 ^ 31
    → (luaseri_pack (table xs ps ∷ vs) ≡ stream (encode_all (table xs ps ∷ vs)))
      × (luaseri_unpack (bytes (encode_all (table xs ps ∷ vs))) ≡ stream_error)
luaseri_unpack-long xs ps vs h p q l = (
  (luaseri_pack-eq_iff (table xs ps ∷ vs) _ q).1 (p, refl, l),
  rw (luaseri_unpack_lem, all_long xs ps vs h),
)
