-- ===== src/LuaSeri/Unpack/Sized.antt =====
-- The values that survive a stream, and what is left of them.
use rednet.Common.{ℕ, ◌^◌, Bool, true, false, ◌&&◌, List, [], ◌∷◌, if◌then◌else◌, ltb, length}
use rednet.LuaSeri.Value.{
  Value, Items, Pairs, nil, integer, real, userdata, string, table, other, no_items, item, no_pairs,
  pair, count,
}
use rednet.LuaSeri.Pack.{in_array}

unfoldable pub is_nil : Value → Bool
is_nil nil = true
is_nil _ = false

-- Within the ranges of the machine, with at most 30 values in an array part and no nil as a key.
unfoldable mutual
  pub sized : Value → Bool
  sized (integer x) = ltb x (2 ^ 64)
  sized (real x) = ltb x (2 ^ 64)
  sized (userdata x) = ltb x (2 ^ 64)
  sized (string s) = ltb (length s) (2 ^ 31)
  sized (table xs ps) = ltb (count xs) 31 && (sized_items xs && sized_pairs ps (count xs))
  sized other = false
  sized _ = true

  pub sized_items : Items → Bool
  sized_items no_items = true
  sized_items (item v xs) = sized v && sized_items xs

  pub sized_pairs : Pairs → ℕ → Bool
  sized_pairs no_pairs n = true
  sized_pairs (pair k v ps) n =
      let rest = sized_pairs ps n in
      let all = (if is_nil k then false else true) && (sized k && (sized v && rest)) in
      if in_array k n then rest else all

-- The value without the walked pairs that lie in the array part, which is all that a stream keeps.
unfoldable mutual
  pub stored : Value → Value
  stored (table xs ps) = table (stored_items xs) (stored_pairs ps (count xs))
  stored v = v

  pub stored_items : Items → Items
  stored_items no_items = no_items
  stored_items (item v xs) = item (stored v) (stored_items xs)

  pub stored_pairs : Pairs → ℕ → Pairs
  stored_pairs no_pairs n = no_pairs
  stored_pairs (pair k v ps) n =
      let rest = stored_pairs ps n in
      let kept = pair (stored k) (stored v) rest in if in_array k n then rest else kept

unfoldable pub all_sized : List Value → Bool
all_sized [] = true
all_sized (v ∷ vs) = sized v && all_sized vs
