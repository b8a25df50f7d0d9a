-- ===== src/LuaSeri/Pack/Correct.antt =====
-- `luaseri_pack` writes exactly the encoding, or stops at the error that the values call for.
use rednet.Common.{
  ℕ, ◌+◌, ◌≡◌, refl, Bool, true, false, ◌&&◌, List, [], ◌∷◌, ◌++◌, ltb, leb, ◌==◌, length, arith,
  append_assoc, append-nil, Bool-cases, inl, inr, nil_of_length, take, take_all, ◌<◌, ◌*◌, ◌%◌, ◌^◌,
}
use rednet.LuaSeri.Value.{
  Value, Items, Pairs, nil, boolean, integer, real, userdata, string, table, other, no_items, item,
  no_pairs, pair, count, ls_max_depth,
}
use rednet.LuaSeri.Word.{to_bytes}
use rednet.LuaSeri.Block.{Writer, push}
use rednet.LuaSeri.Block.Append.{IsValid, Appended, push-Appended, Appended-trans}
use rednet.LuaSeri.Pack.{
  Outcome, packed, too_deep, unsupported, ◌>>=◌, sign_extend32, is_negative, push_nil, push_bool,
  push_int, push_real, push_pointer, push_string, push_array_size, in_array, pack_one, pack_items,
  pack_pairs, pack_from,
}
use rednet.LuaSeri.Pack.Encode.{
  encode_int, encode_string, encode_array_size, encode, encode_items, encode_pairs, encode_all,
  packable, packable_items, packable_pairs, all_packable, short, short_items, short_pairs,
  all_short, Packs,
}

module _ (w : Writer) (v : IsValid w) where
  push_twice : (a b c : List ℕ) → a ++ b ≡ c → Appended w c (push b (push a w))
  push_twice a b c e =
      Appended-trans w (push a w) _ a b c (push-Appended a w v)
        (push-Appended b (push a w) (push-Appended a w v).valid) e

  push_thrice : (a b c : List ℕ) → Appended w (a ++ b ++ c) (push c (push b (push a w)))
  push_thrice a b c =
      let two = push_twice a b (a ++ b) refl in
      Appended-trans w _ _ (a ++ b) c _ two (push-Appended c _ two.valid) refl

  push_int-Appended : (x : ℕ) → Appended w (encode_int x) (push_int x w)
  unfolding push_int encode_int
  push_int-Appended x = elim (Bool-cases (x == 0)) [
    | inl z ↦ rw z (push-Appended (2 ∷ []) w v)
    | inr z ↦ elim (Bool-cases (x == sign_extend32 x)) [
      | inl s ↦ elim (Bool-cases (is_negative x)) [
        | inl n ↦ rw (z, s, n) (push_twice _ _ _ refl)
        | inr n ↦ elim (Bool-cases (ltb x 0x100)) [
          | inl b ↦ rw (z, s, n, b) (push_twice _ _ _ refl)
          | inr b ↦ elim (Bool-cases (ltb x 0x1_0000)) [
            | inl h ↦ rw (z, s, n, b, h) (push_twice _ _ _ refl)
            | inr h ↦ rw (z, s, n, b, h) (push_twice _ _ _ refl)
          ]
        ]
      ]
      | inr s ↦ rw (z, s) (push_twice _ _ _ refl)
    ]
  ]

  push_string-Appended :
      (s : List ℕ)
      → length s < 2 ^ 31
      → Appended w (encode_string s) (push_string s (length s % 2 ^ 32) w)
  unfolding push_string encode_string
  push_string-Appended s l =
      let len : length s % 2 ^ 32 ≡ length s = omega arith in
      let above : leb (2 ^ 31) (length s) ≡ false = ground arith in
      let whole : take (length s) s ≡ s = take_all (length s) s (omega arith) in
      rw (len, above, whole)
        (elim (Bool-cases (ltb (length s) 32)) [
          | inl h ↦
              let small : length s < 32 = ground arith in
              let byte : (4 + length s * 8) % 256 ≡ 4 + length s * 8 = omega (arith, small) in
              elim (Bool-cases (ltb 0 (length s))) [
                | inl k ↦ rw (h, k, byte) (push_twice _ _ _ refl)
                | inr k ↦ rw (h, k, nil_of_length s (ground arith)) (push-Appended _ w v)
              ]
          | inr h ↦ elim (Bool-cases (ltb (length s) 0x1_0000)) [
            | inl k ↦ rw (h, k) (push_thrice (21 ∷ []) (to_bytes 2 (length s)) s)
            | inr k ↦ rw (h, k) (push_thrice (37 ∷ []) (to_bytes 4 (length s)) s)
          ]
        ])

push_array_size-Appended :
    (w : Writer) → IsValid w → (n : ℕ) → Appended w (encode_array_size n) (push_array_size n w)
unfolding push_array_size encode_array_size
push_array_size-Appended w v n = elim (Bool-cases (leb 31 n)) [
  | inl h ↦ rw h (
      let first = push-Appended (254 ∷ []) w v in
      Appended-trans w (push (254 ∷ []) w) _ (254 ∷ []) (encode_int n) _ first
        (push_int-Appended (push (254 ∷ []) w) first.valid n) refl)
  | inr h ↦ rw h (push-Appended _ w v)
]

Packs-bind :
    (w : Writer) (a b c : List ℕ) (o : Outcome) (f : Writer → Outcome)
    → a ++ b ≡ c
    → Packs w a o
    → ((u : Writer) → IsValid u → Packs u b (f u))
    → Packs w c (o >>= f)
Packs-bind w a b c (packed u) f e p k = Packs-trans (f u) (k u p.valid)
  where
    Packs-trans : (o : Outcome) → Packs u b o → Packs w c o
    Packs-trans (packed t) q = Appended-trans w u t a b c p q e
    Packs-trans too_deep q = q
    Packs-trans unsupported q = q
Packs-bind w a b c too_deep f e p k = p
Packs-bind w a b c unsupported f e p k = p

-- below the limit the guard of `packOne` lets the value through
pub shallow : (d : ℕ) → leb d ls_max_depth ≡ true → ltb ls_max_depth d ≡ false
shallow d h = ground arith

pub and_true : (a b : Bool) → (a && b) ≡ true → (a ≡ true) × (b ≡ true)
and_true a b h = ground arith

mutual
  unfolding pack_one encode packable short push_nil push_bool push_real push_pointer

  pack_one-Packs :
      (x : Value) (d : ℕ) (w : Writer)
      → IsValid w
      → packable x d ≡ true
      → short x ≡ true
      → Packs w (encode x) (pack_one x d w)
  pack_one-Packs nil d w v h q = rw (shallow d h) (push-Appended (0 ∷ []) w v)
  pack_one-Packs (boolean true) d w v h q = rw (shallow d h) (push-Appended (9 ∷ []) w v)
  pack_one-Packs (boolean false) d w v h q = rw (shallow d h) (push-Appended (1 ∷ []) w v)
  pack_one-Packs (integer x) d w v h q = rw (shallow d h) (push_int-Appended w v x)
  pack_one-Packs (real x) d w v h q = rw (shallow d h) (push_twice w v (66 ∷ []) _ _ refl)
  pack_one-Packs (userdata x) d w v h q = rw (shallow d h) (push_twice w v (3 ∷ []) _ _ refl)
  pack_one-Packs (string s) d w v h q = rw (shallow d h) (push_string-Appended w v s (ground arith))
  pack_one-Packs (table xs ps) d w v h q =
      let size = push_array_size-Appended w v (count xs) in
      let (here, below) = and_true _ _ h in
      let (first, second) = and_true _ _ below in
      let (few, parts) = and_true _ _ q in
      let (first_short, second_short) = and_true _ _ parts in
      rw (shallow d here) (
        Packs-bind w (encode_array_size (count xs) ++ encode_items xs) _ _ _ _ refl
          (Packs-bind w (encode_array_size (count xs)) (encode_items xs) _ (packed _)
            (λ u. pack_items xs (d + 1) u) refl size
            (λ u k. pack_items-Packs xs (d + 1) u k first first_short))
          (λ u k. pack_pairs-Packs ps (d + 1) (count xs) u k second second_short))
  pack_one-Packs other d w v h q = cc

  pack_items-Packs :
      (xs : Items) (d : ℕ) (w : Writer)
      → IsValid w
      → packable_items xs d ≡ true
      → short_items xs ≡ true
      → Packs w (encode_items xs) (pack_items xs d w)
  pack_items-Packs no_items d w v h q = record { valid = v; bytes = rw append-nil }
  pack_items-Packs (item x xs) d w v h q =
      let (first, second) = and_true _ _ h in
      let (first_short, second_short) = and_true _ _ q in
      Packs-bind w (encode x) (encode_items xs) _ (pack_one x d w) (pack_items xs d) refl
        (pack_one-Packs x d w v first first_short)
        (λ u k. pack_items-Packs xs d u k second second_short)

  pack_pairs-Packs :
      (ps : Pairs) (d n : ℕ) (w : Writer)
      → IsValid w
      → packable_pairs ps d n ≡ true
      → short_pairs ps n ≡ true
      → Packs w (encode_pairs ps n) (pack_pairs ps d n w)
  pack_pairs-Packs no_pairs d n w v h q = push-Appended (0 ∷ []) w v
  pack_pairs-Packs (pair x y ps) d n w v h q = elim (Bool-cases (in_array x n)) [
    | inl s ↦ rw s (pack_pairs-Packs ps d n w v (kept s) (kept_short s))
    | inr s ↦
        let (first, rest) = and_true _ _ (taken s) in
        let (second, third) = and_true _ _ rest in
        let (first_short, rest_short) = and_true _ _ (taken_short s) in
        let (second_short, third_short) = and_true _ _ rest_short in
        rw s (
          Packs-bind w (encode x ++ encode y) (encode_pairs ps n) _ _ _
            (append_assoc (encode x) (encode y) (encode_pairs ps n))
            (Packs-bind w (encode x) (encode y) _ (pack_one x d w) (pack_one y d) refl
              (pack_one-Packs x d w v first first_short)
              (λ u k. pack_one-Packs y d u k second second_short))
            (λ u k. pack_pairs-Packs ps d n u k third third_short))
  ]
    where
      kept : in_array x n ≡ true → packable_pairs ps d n ≡ true
      kept s = rw s at h

      taken :
          in_array x n ≡ false → (packable x d && (packable y d && packable_pairs ps d n)) ≡ true
      taken s = rw s at h

      kept_short : in_array x n ≡ true → short_pairs ps n ≡ true
      kept_short s = rw s at q

      taken_short : in_array x n ≡ false → (short x && (short y && short_pairs ps n)) ≡ true
      taken_short s = rw s at q

pub pack_from-Packs :
    (xs : List Value) (w : Writer)
    → IsValid w
    → all_packable xs ≡ true
    → all_short xs ≡ true
    → Packs w (encode_all xs) (pack_from xs w)
unfolding pack_from encode_all all_packable all_short
pack_from-Packs [] w v h q = record { valid = v; bytes = rw append-nil }
pack_from-Packs (x ∷ xs) w v h q =
    let (first, second) = and_true _ _ h in
    let (first_short, second_short) = and_true _ _ q in
    Packs-bind w (encode x) (encode_all xs) _ (pack_one x 0 w) (pack_from xs) refl
      (pack_one-Packs x 0 w v first first_short) (λ u k. pack_from-Packs xs u k second second_short)
