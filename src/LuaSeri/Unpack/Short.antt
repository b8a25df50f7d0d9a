-- ===== src/LuaSeri/Unpack/Short.antt =====
-- The values that survive a stream have lengths that an `int` holds.
use rednet.Common.{
  ℕ, ◌^◌, ◌≡◌, refl, Bool, true, ◌&&◌, false≢true, List, [], ◌∷◌, ltb, arith, Bool-cases, inl, inr,
}
use rednet.LuaSeri.Value.{
  Value, Items, Pairs, nil, boolean, integer, real, userdata, string, table, other, no_items, item,
  no_pairs, pair, count,
}
use rednet.LuaSeri.Pack.{in_array}
use rednet.LuaSeri.Pack.Encode.{short, short_items, short_pairs, all_short}
use rednet.LuaSeri.Pack.Correct.{and_true}
use rednet.LuaSeri.Unpack.Sized.{sized, sized_items, sized_pairs, all_sized}

and_both : (a b : Bool) → a ≡ true → b ≡ true → (a && b) ≡ true
and_both a b h k = ground arith

few_enough : (n : ℕ) → ltb n 31 ≡ true → ltb n (2 ^ 31) ≡ true
few_enough n h = ground arith

-- Such a value has no string and no array part that an `int` does not measure.
mutual
  unfolding sized short

  sized-short : (v : Value) → sized v ≡ true → short v ≡ true
  sized-short nil h = refl
  sized-short (boolean b) h = refl
  sized-short (integer x) h = refl
  sized-short (real x) h = refl
  sized-short (userdata x) h = refl
  sized-short (string s) h = h
  sized-short (table xs ps) h =
      let (few, parts) = and_true _ _ h in
      let (first, second) = and_true _ _ parts in
      and_both _ _ (few_enough (count xs) few)
        (and_both _ _ (sized_items-short xs first) (sized_pairs-short ps (count xs) second))
  sized-short other h = absurd (false≢true h)

  sized_items-short : (xs : Items) → sized_items xs ≡ true → short_items xs ≡ true
  sized_items-short no_items h = refl
  sized_items-short (item v xs) h =
      let (first, second) = and_true _ _ h in
      and_both _ _ (sized-short v first) (sized_items-short xs second)

  sized_pairs-short : (ps : Pairs) (n : ℕ) → sized_pairs ps n ≡ true → short_pairs ps n ≡ true
  sized_pairs-short no_pairs n h = refl
  sized_pairs-short (pair k v ps) n h = elim (Bool-cases (in_array k n)) [
    | inl s ↦ rw s (sized_pairs-short ps n (rw s at h))
    | inr s ↦
        let (real_key, rest) = and_true _ _ (rw s at h) in
        let (first, more) = and_true _ _ rest in
        let (second, third) = and_true _ _ more in
        rw s (
          and_both _ _ (sized-short k first)
            (and_both _ _ (sized-short v second) (sized_pairs-short ps n third)))
  ]

pub all_sized-all_short : (vs : List Value) → all_sized vs ≡ true → all_short vs ≡ true
unfolding all_sized all_short
all_sized-all_short [] h = refl
all_sized-all_short (v ∷ vs) h =
    let (first, second) = and_true _ _ h in
    and_both _ _ (sized-short v first) (all_sized-all_short vs second)
