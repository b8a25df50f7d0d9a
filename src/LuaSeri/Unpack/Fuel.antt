-- ===== src/LuaSeri/Unpack/Fuel.antt =====
-- The reader ends on every stream: its fuel is enough.
use rednet.Common.{
  ℕ, zero, suc, ◌+◌, ◌*◌, ◌-◌, ◌/◌, ◌%◌, ◌<◌, ◌≢◌, refl, List, [], ◌∷◌, arith, ◌==◌, length,
}
use rednet.LuaSeri.Value.{Value}
use rednet.LuaSeri.Unpack.{
  Result, ok, invalid, fault, out_of_fuel, bind, read_word, read_table, unpack_one, read_items,
  read_pairs, unpack_all, Source, none_or_nil, null_pointer, bytes, Unpacked, values, stream_error,
  overrun, no_fuel, luaseri_unpack,
}
use rednet.LuaSeri.Unpack.Ends.{
  Ends, Ends-bind, Ends-le, Ends-byte, Ends-if, Ends-read_table, Ends-push_value, Ends-end_or_pair,
}

-- With two units of fuel for each byte, and one or two more, the three readers end.
record Enough (f : ℕ) : Type 0 where
  one : (buf : List ℕ) → 2 * length buf < f → Ends (length buf) (unpack_one f buf)
  items :
      (n : ℕ) (buf : List ℕ) → 2 * length buf + 1 < f → Ends (suc (length buf)) (read_items f n buf)
  pairs : (buf : List ℕ) → 2 * length buf + 1 < f → Ends (suc (length buf)) (read_pairs f buf)

enough : (f : ℕ) → Enough f
unfolding unpack_one
enough zero = record {
  one = λ buf h. absurd (omega arith);
  items = λ n buf h. absurd (omega arith);
  pairs = λ buf h. absurd (omega arith);
}
enough (suc f) =
    let e = enough f in
    record {
      one = λ buf h.
          Ends-bind (length buf) (length buf) (read_word 1 buf) _ (Ends-byte buf) (λ t rest l.
            Ends-le (suc (length rest)) (length buf) _ (omega arith) (
              Ends-push_value rest (read_table (read_items f) (read_pairs f)) (t % 8) (t / 8) (
                Ends-read_table rest (read_items f) (read_pairs f) (t / 8)
                  (λ n rest' l'. e.items n rest' (omega arith))
                  (λ rest' l'. e.pairs rest' (omega arith)))));
      items = λ n buf h. Ends-if (suc (length buf)) (n == 0) _ _ buf (omega arith) (
          Ends-bind (length buf) (suc (length buf)) (unpack_one f buf) _ (e.one buf (omega arith))
            (λ v rest l.
              Ends-bind (suc (length rest)) (suc (length buf)) (read_items f (n - 1) rest) _
                (e.items (n - 1) rest (omega arith)) (λ xs rest' l'. omega arith)));
      pairs = λ buf h.
          Ends-bind (length buf) (suc (length buf)) (unpack_one f buf) _ (e.one buf (omega arith))
            (λ k rest l. Ends-end_or_pair k _ (suc (length buf)) rest (omega arith) (
              Ends-bind (length rest) (suc (length buf)) (unpack_one f rest) _
                (e.one rest (omega arith))
                (λ v rest' l'.
                  Ends-bind (suc (length rest')) (suc (length buf)) (read_pairs f rest') _
                    (e.pairs rest' (omega arith)) (λ ps rest'' l''. omega arith))));
    }

all_enough : (f : ℕ) (buf : List ℕ) → 2 * length buf + 1 < f → unpack_all f buf ≢ out_of_fuel
unfolding unpack_all
all_enough zero buf h = absurd (omega arith)
all_enough (suc f) [] h = λ e. cc
all_enough (suc f) (b ∷ buf) h =
    first (λ rest k. all_enough f rest k) (unpack_one f (b ∷ buf))
      ((enough f).one (b ∷ buf) (omega arith))
  where
    last :
        (v : Value) (r : Result (List Value))
        → r ≢ out_of_fuel
        → bind r (λ vs. ok (v ∷ vs)) ≢ out_of_fuel
    last v (ok vs) n e = cc
    last v invalid n e = cc
    last v fault n e = cc
    last v out_of_fuel n e = n refl

    first :
        ((rest : List ℕ) → 2 * length rest + 1 < f → unpack_all f rest ≢ out_of_fuel)
        → (r : Result (Value × List ℕ)) → Ends (length (b ∷ buf)) r
        → bind r (λ (v, rest). bind (unpack_all f rest) λ vs. ok (v ∷ vs)) ≢ out_of_fuel
    first more (ok (v, rest)) l = last v (unpack_all f rest) (more rest (omega arith))
    first more invalid l = λ e. cc
    first more fault l = λ e. cc
    first more out_of_fuel l = absurd l

-- what `luaseri_unpack` returns for the outcome of its loop is a lack of fuel for that only
delivered_ne :
    (r : Result (List Value))
    → r ≢ out_of_fuel
    → (elim r as (λ x. Unpacked) [
      | ok vs ↦ values vs
      | invalid ↦ stream_error
      | fault ↦ overrun
      | out_of_fuel ↦ no_fuel
    ])
      ≢ no_fuel
delivered_ne (ok vs) n e = cc
delivered_ne invalid n e = cc
delivered_ne fault n e = cc
delivered_ne out_of_fuel n e = n refl

-- `luaseri_unpack` ends on every argument, with values, an error, or the access outside the stream
-- that a length from 2 ^ 31 on makes: the fuel is always enough.
pub luaseri_unpack-ne : (s : Source) → luaseri_unpack s ≢ no_fuel
unfolding luaseri_unpack
luaseri_unpack-ne none_or_nil = λ e. cc
luaseri_unpack-ne null_pointer = λ e. cc
luaseri_unpack-ne (bytes []) = λ e. cc
luaseri_unpack-ne (bytes (b ∷ buf)) =
    delivered_ne (unpack_all (2 * length (b ∷ buf) + 2) (b ∷ buf))
      (all_enough (2 * length (b ∷ buf) + 2) (b ∷ buf) (omega arith))
