-- ===== src/LuaSeri/Unpack/RoundTrip.antt =====
-- What was packed is read back, unless a table has a long array part.
use rednet.Common.{
  ℕ, zero, suc, ◌+◌, ◌-◌, ◌*◌, ◌/◌, ◌%◌, ◌<◌, ◌≡◌, refl, true, false, List, [], ◌∷◌, ◌++◌, ltb,
  ◌==◌, length, arith, Bool-cases, inl, inr, length-append, append_assoc, ap, false≢true,
}
use rednet.LuaSeri.Value.{
  Value, Items, Pairs, nil, boolean, integer, real, userdata, string, table, other, no_items, item,
  no_pairs, pair, count,
}
use rednet.LuaSeri.Pack.{in_array}
use rednet.LuaSeri.Pack.Encode.{
  encode_int, encode_string, encode_array_size, encode, encode_items, encode_pairs,
}
use rednet.LuaSeri.Pack.Correct.{and_true}
use rednet.LuaSeri.Unpack.{
  ok, Reader, read_table, push_value, end_or_pair, unpack_one, read_items, read_pairs,
}
use rednet.LuaSeri.Unpack.Reads.{
  read_byte, after_type-encode_int, after_type-encode_string, after_type-word,
  read_array_size-short,
}
use rednet.LuaSeri.Unpack.Sized.{
  is_nil, sized, sized_items, sized_pairs, stored, stored_items, stored_pairs,
}

length-encode_array_size_pos : (n : ℕ) → 0 < length (encode_array_size n)
unfolding encode_array_size
length-encode_array_size_pos n = ground arith

pub length-encode-table_pos : (xs : Items) (ps : Pairs) → 0 < length (encode (table xs ps))
unfolding encode
length-encode-table_pos xs ps = omega (
  arith,
  length-append (encode_array_size (count xs) ++ encode_items xs) (encode_pairs ps (count xs)),
  length-append (encode_array_size (count xs)) (encode_items xs),
  length-encode_array_size_pos (count xs),
)

pub length-encode_pos : (v : Value) → sized v ≡ true → 0 < length (encode v)
unfolding encode encode_int encode_string sized
length-encode_pos nil h = omega arith
length-encode_pos (boolean b) h = omega arith
length-encode_pos (integer v) h = ground arith
length-encode_pos (real v) h = omega arith
length-encode_pos (userdata v) h = omega arith
length-encode_pos (string s) h = ground arith
length-encode_pos (table xs ps) h = length-encode-table_pos xs ps
length-encode_pos other h = absurd (false≢true h)

end_or_pair-nil :
    (more : Reader Pairs) (buf : List ℕ) → end_or_pair nil more buf ≡ ok (no_pairs, buf)
unfolding end_or_pair
end_or_pair-nil more buf = refl

end_or_pair-stored :
    (x : Value) (more : Reader Pairs) → is_nil x ≡ false → end_or_pair (stored x) more ≡ more
unfolding end_or_pair stored is_nil
end_or_pair-stored nil more h = cc
end_or_pair-stored _ more h = refl

suc_sub : (n : ℕ) → suc n - 1 ≡ n
suc_sub n = omega arith

length_parts : (a b c : List ℕ) → length (a ++ b ++ c) ≡ length a + length b + length c
length_parts a b c = omega (arith, length-append (a ++ b) c, length-append a b)

sized_parts :
    (x y : Value) (ps : Pairs) (n : ℕ)
    → sized_pairs (pair x y ps) n ≡ true
    → in_array x n ≡ false
    → (is_nil x ≡ false) × (sized x ≡ true) × (sized y ≡ true) × (sized_pairs ps n ≡ true)
unfolding sized
sized_parts x y ps n h s = ground arith

abbrev table_reader : ℕ → ℕ → Reader Value
table_reader f = read_table (read_items f) (read_pairs f)

nonzero : (n : ℕ) → (suc n == 0) ≡ false
nonzero n = ground arith

-- the header of a short array part
short_header :
    (n : ℕ)
    → ltb n 31 ≡ true
    → (encode_array_size n ≡ (6 + n * 8) ∷ [])
      × ((6 + n * 8) % 8 ≡ 6)
      × ((6 + n * 8) / 8 ≡ n)
      × (n < 31)
unfolding encode_array_size
short_header n h = ground arith

mutual
  unfolding unpack_one encode sized stored read_table push_value

  pub unpack_one-encode :
      (v : Value) (f : ℕ) (rest : List ℕ)
      → sized v ≡ true
      → 2 * length (encode v) < f
      → unpack_one f (encode v ++ rest) ≡ ok (stored v, rest)
  unpack_one-encode v zero rest h k = absurd (omega arith)
  unpack_one-encode nil (suc f) rest h k = rw read_byte
  unpack_one-encode (boolean true) (suc f) rest h k = rw read_byte
  unpack_one-encode (boolean false) (suc f) rest h k = rw read_byte
  unpack_one-encode (integer x) (suc f) rest h k =
      after_type-encode_int (table_reader f) x rest (ground arith)
  unpack_one-encode (real x) (suc f) rest h k =
      (after_type-word (table_reader f) x rest (ground arith)).0
  unpack_one-encode (userdata x) (suc f) rest h k =
      (after_type-word (table_reader f) x rest (ground arith)).1
  unpack_one-encode (string s) (suc f) rest h k =
      after_type-encode_string (table_reader f) s rest (ground arith)
  unpack_one-encode (table xs ps) (suc f) rest h k =
      let (short, below) = and_true _ _ h in
      let (first, second) = and_true _ _ below in
      let (header, six, size, long) = short_header (count xs) short in
      let n = count xs in
      let bound = length_parts (encode_array_size n) (encode_items xs) (encode_pairs ps n) in
      let one : length (encode_array_size n) ≡ 1 = ap length header in
      rw (
        header,
        append_assoc,
        append_assoc,
        read_byte,
        six,
        size,
        read_array_size-short n _ long,
        read_items-encode xs f (encode_pairs ps n ++ rest) first (omega (arith, bound, one)),
        read_pairs-encode ps n f rest second (omega (arith, bound, one)),
      )
  unpack_one-encode other (suc f) rest h k = absurd (false≢true h)

  read_items-encode :
      (xs : Items) (f : ℕ) (rest : List ℕ)
      → sized_items xs ≡ true
      → suc (2 * length (encode_items xs)) < f
      → read_items f (count xs) (encode_items xs ++ rest) ≡ ok (stored_items xs, rest)
  read_items-encode xs zero rest h k = absurd (omega arith)
  read_items-encode no_items (suc f) rest h k = refl
  read_items-encode (item v xs) (suc f) rest h k =
      let (first, second) = and_true _ _ h in
      let size = length-append (encode v) (encode_items xs) in
      rw (
        nonzero (count xs),
        append_assoc,
        unpack_one-encode v f (encode_items xs ++ rest) first (omega (arith, size)),
        suc_sub (count xs),
        read_items-encode xs f rest second (omega (arith, size, length-encode_pos v first)),
      )

  read_pairs-encode :
      (ps : Pairs) (n f : ℕ) (rest : List ℕ)
      → sized_pairs ps n ≡ true
      → suc (2 * length (encode_pairs ps n)) < f
      → read_pairs f (encode_pairs ps n ++ rest) ≡ ok (stored_pairs ps n, rest)
  read_pairs-encode ps n zero rest h k = absurd (omega arith)
  read_pairs-encode no_pairs n (suc f) rest h k =
      let e : unpack_one f (0 ∷ rest) ≡ ok (nil, rest) =
        unpack_one-encode nil f rest refl (omega arith) in
      rw (e, end_or_pair-nil)
  read_pairs-encode (pair x y ps) n (suc f) rest h k = elim (Bool-cases (in_array x n)) [
    | inl s ↦ rw s (read_pairs-encode ps n (suc f) rest (rw s at h) (rw s at k))
    | inr s ↦
        let bound = length_parts (encode x) (encode y) (encode_pairs ps n) in
        let regroup = ap length (append_assoc (encode x) (encode y) (encode_pairs ps n)) in
        let large : suc (2 * length (encode x ++ (encode y ++ encode_pairs ps n))) < suc f =
          rw s at k in
        let (not_nil, first, second, third) = sized_parts x y ps n h s in
        rw
          (
            s,
            append_assoc (encode x) (encode y ++ encode_pairs ps n) rest,
            append_assoc (encode y) (encode_pairs ps n) rest,
            unpack_one-encode x f (encode y ++ (encode_pairs ps n ++ rest)) first
                (omega (arith, bound, regroup, large)),
          )
          (rw (
            end_or_pair-stored x _ not_nil,
            unpack_one-encode y f (encode_pairs ps n ++ rest) second
                (omega (arith, bound, regroup, large)),
            read_pairs-encode ps n f rest third
                (omega (arith, bound, regroup, large, length-encode_pos x first)),
          ))
  ]
