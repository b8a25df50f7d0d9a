-- ===== src/LuaSeri/Pack/Errors.antt =====
-- What cannot be packed stops the packing at every depth.
use rednet.Common.{
  ℕ, ◌+◌, ◌≡◌, refl, Bool, true, false, ◌&&◌, List, [], ◌∷◌, ltb, leb, arith, Bool-cases, inl, inr,
}
use rednet.LuaSeri.Value.{
  Value, Items, Pairs, nil, boolean, integer, real, userdata, string, table, other, no_items, item,
  no_pairs, pair, count, ls_max_depth,
}
use rednet.LuaSeri.Block.{Writer}
use rednet.LuaSeri.Pack.{
  Outcome, packed, too_deep, unsupported, ◌>>=◌, in_array, pack_one, pack_items, pack_pairs,
  pack_from,
}
use rednet.LuaSeri.Pack.Encode.{packable, packable_items, packable_pairs, all_packable}

-- A packing step that ends in an error.
abbrev pub Fails : Outcome → Type 0
Fails (packed v) = ⊥
Fails too_deep = Unit {0}
Fails unsupported = Unit {0}

Fails-bind :
    (a b : Bool) (o : Outcome) (f : Writer → Outcome)
    → (a && b) ≡ false
    → (a ≡ false → Fails o)
    → (b ≡ false → (u : Writer) → Fails (f u))
    → Fails (o >>= f)
Fails-bind true b (packed u) f h p q = q h u
Fails-bind false b (packed u) f h p q = absurd (p refl)
Fails-bind a b too_deep f h p q = tt
Fails-bind a b unsupported f h p q = tt

and_regroup : (a b c : Bool) → (a && (b && c)) ≡ false → ((a && b) && c) ≡ false
and_regroup a b c h = ground arith

-- Whatever is not packable stops the packing.
mutual
  unfolding pack_one packable

  pack_one-Fails : (x : Value) (d : ℕ) (w : Writer) → packable x d ≡ false → Fails (pack_one x d w)
  pack_one-Fails nil d w h = ground arith
  pack_one-Fails (boolean b) d w h = ground arith
  pack_one-Fails (integer x) d w h = ground arith
  pack_one-Fails (real x) d w h = ground arith
  pack_one-Fails (userdata x) d w h = ground arith
  pack_one-Fails (string s) d w h = ground arith
  pack_one-Fails (table xs ps) d w h = elim (Bool-cases (ltb ls_max_depth d)) [
    | inl deep ↦ rw deep tt
    | inr here ↦ rw here (
        Fails-bind _ _ _ _ (inner here) (λ e. pack_items-Fails xs (d + 1) _ e)
          (λ e u. pack_pairs-Fails ps (d + 1) (count xs) u e))
  ]
    where
      inner :
          ltb ls_max_depth d ≡ false
          → (packable_items xs (d + 1) && packable_pairs ps (d + 1) (count xs)) ≡ false
      inner e = let ok : leb d ls_max_depth ≡ true = ground arith in rw ok at h
  pack_one-Fails other d w h = ground arith

  pack_items-Fails :
      (xs : Items) (d : ℕ) (w : Writer) → packable_items xs d ≡ false → Fails (pack_items xs d w)
  pack_items-Fails no_items d w h = cc
  pack_items-Fails (item x xs) d w h =
      Fails-bind _ _ (pack_one x d w) _ h (λ e. pack_one-Fails x d w e)
        (λ e u. pack_items-Fails xs d u e)

  pack_pairs-Fails :
      (ps : Pairs) (d n : ℕ) (w : Writer)
      → packable_pairs ps d n ≡ false
      → Fails (pack_pairs ps d n w)
  pack_pairs-Fails no_pairs d n w h = cc
  pack_pairs-Fails (pair x y ps) d n w h = elim (Bool-cases (in_array x n)) [
    | inl s ↦ rw s (pack_pairs-Fails ps d n w (rw s at h))
    | inr s ↦ rw s (
        Fails-bind _ _ _ _
          (and_regroup (packable x d) (packable y d) (packable_pairs ps d n) (rw s at h))
          (λ e.
            Fails-bind _ _ (pack_one x d w) _ e (λ e. pack_one-Fails x d w e)
              (λ e u. pack_one-Fails y d u e))
          (λ e u. pack_pairs-Fails ps d n u e))
  ]

pub pack_from-Fails :
    (xs : List Value) (w : Writer) → all_packable xs ≡ false → Fails (pack_from xs w)
unfolding pack_from all_packable
pack_from-Fails [] w h = cc
pack_from-Fails (x ∷ xs) w h =
    Fails-bind _ _ (pack_one x 0 w) _ h (λ e. pack_one-Fails x 0 w e)
      (λ e u. pack_from-Fails xs u e)
