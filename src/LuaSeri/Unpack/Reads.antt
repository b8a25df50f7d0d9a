-- ===== src/LuaSeri/Unpack/Reads.antt =====
-- What each reader takes off the front of its encoding.
use rednet.Common.{
  ℕ, ◌+◌, ◌*◌, ◌/◌, ◌%◌, ◌^◌, ◌<◌, ◌≤◌, ◌≡◌, refl, Bool, true, false, List, [], ◌∷◌, ◌++◌,
  if◌then◌else◌, ltb, ◌==◌, length, arith, Bool-cases, inl, inr, take-append, drop-append,
  length-append, append_assoc, ap, sym,
}
use rednet.LuaSeri.Value.{Value, integer, real, userdata, string}
use rednet.LuaSeri.Word.{to_bytes, from_bytes, span, from_bytes-to_bytes, length-to_bytes}
use rednet.LuaSeri.Pack.{sign_extend32, is_negative}
use rednet.LuaSeri.Pack.Encode.{encode_int, encode_string}
use rednet.LuaSeri.Unpack.{
  ok, invalid, Reader, ◌>>=◌, read, read_word, read_int, read_buffer, read_string, read_array_size,
  read_long_size, push_value,
}

pub read-append : (n : ℕ) (xs rest : List ℕ) → n ≡ length xs → read n (xs ++ rest) ≡ ok (xs, rest)
unfolding read
read-append n xs rest h = rw (enough, take-append n xs rest h, drop-append n xs rest h)
  where
    enough : ltb (length (xs ++ rest)) n ≡ false
    enough = ground (arith, length-append xs rest)

pub read_word-to_bytes :
    (k x : ℕ) (rest : List ℕ) → x < span k → read_word k (to_bytes k x ++ rest) ≡ ok (x, rest)
unfolding read_word
read_word-to_bytes k x rest h =
    rw (read-append k (to_bytes k x) rest (sym (length-to_bytes k x)), from_bytes-to_bytes k x h)

pub read_byte : (b : ℕ) (rest : List ℕ) → read_word 1 (b ∷ rest) ≡ ok (b, rest)
unfolding read_word from_bytes
read_byte b rest = rw (read-append 1 (b ∷ []) rest refl) (ap (λ k. ok (k, rest)) (omega arith))

-- The sign extension brings back the low half of a number that it leaves alone.
restore : (v : ℕ) → v < 2 ^ 64 → (v == sign_extend32 v) ≡ true → sign_extend32 (v % 2 ^ 32) ≡ v
restore v h e = ground arith

extend : (v : ℕ) → (v == sign_extend32 v) ≡ true → sign_extend32 v ≡ v
extend v s = ground arith

below_half : (v : ℕ) → is_negative v ≡ false → (v == sign_extend32 v) ≡ true → v < 2 ^ 31
below_half v n e = ground arith

-- the value after its type byte
abbrev pub after_type : (ℕ → Reader Value) → Reader Value
after_type t = read_word 1 >>= λ b. push_value t (b % 8) (b / 8)

module _ (t : ℕ → Reader Value) where
  pub after_type-encode_int :
      (v : ℕ) (rest : List ℕ)
      → v < 2 ^ 64
      → after_type t (encode_int v ++ rest) ≡ ok (integer v, rest)
  unfolding push_value read_int encode_int
  after_type-encode_int v rest h = elim (Bool-cases (v == 0)) [
    | inl z ↦ rw (z, read_byte) (ap (λ k. ok (integer k, rest)) (ground arith))
    | inr z ↦ elim (Bool-cases (v == sign_extend32 v)) [
      | inl s ↦ elim (Bool-cases (is_negative v)) [
        | inl n ↦ rw (
          z,
          s,
          n,
          read_byte,
          read_word-to_bytes 4 (v % 2 ^ 32) rest (omega arith),
          restore v h s,
        )
        | inr n ↦ elim (Bool-cases (ltb v 0x100)) [
          | inl b ↦ rw (z, s, n, b, read_byte, read_word-to_bytes 1 v rest (ground arith))
          | inr b ↦ elim (Bool-cases (ltb v 0x1_0000)) [
            | inl k ↦ rw (z, s, n, b, k, read_byte, read_word-to_bytes 2 v rest (ground arith))
            | inr k ↦
                rw
                  (
                    z,
                    s,
                    n,
                    b,
                    k,
                    read_byte,
                    read_word-to_bytes 4 v rest (omega (arith, below_half v n s)),
                  )
                  (ap (λ k. ok (integer k, rest)) (extend v s))
          ]
        ]
      ]
      | inr s ↦ rw (z, s, read_byte, read_word-to_bytes 8 v rest (omega arith))
    ]
  ]

  read_buffer-append :
      (s rest : List ℕ)
      → length s < 2 ^ 31
      → read_buffer (length s) (s ++ rest) ≡ ok (string s, rest)
  unfolding read_buffer
  read_buffer-append s rest h =
      let short : ltb (length s) (2 ^ 31) ≡ true = ground arith in
      rw (short, read-append (length s) s rest refl)

  pub after_type-encode_string :
      (s rest : List ℕ)
      → length s < 2 ^ 31
      → after_type t (encode_string s ++ rest) ≡ ok (string s, rest)
  unfolding push_value read_string encode_string
  after_type-encode_string s rest h = elim (Bool-cases (ltb (length s) 32)) [
    | inl k ↦
        let e : (4 + length s * 8) % 8 ≡ 4 = omega arith in
        let q : (4 + length s * 8) / 8 ≡ length s = omega arith in
        rw (k, read_byte, e, q, read_buffer-append s rest h)
    | inr k ↦ elim (Bool-cases (ltb (length s) 0x1_0000)) [
      | inl j ↦ rw (
        k,
        j,
        read_byte,
        append_assoc,
        read_word-to_bytes 2 (length s) (s ++ rest) (ground arith),
        read_buffer-append s rest h,
      )
      | inr j ↦ rw (
        k,
        j,
        read_byte,
        append_assoc,
        read_word-to_bytes 4 (length s) (s ++ rest) (omega arith),
        read_buffer-append s rest h,
      )
    ]
  ]

  pub after_type-word :
      (x : ℕ) (rest : List ℕ)
      → x < 2 ^ 64
      → (after_type t (66 ∷ to_bytes 8 x ++ rest) ≡ ok (real x, rest))
        × (after_type t (3 ∷ to_bytes 8 x ++ rest) ≡ ok (userdata x, rest))
  unfolding push_value
  after_type-word x rest h = (
    rw (read_byte, read_word-to_bytes 8 x rest (omega arith)),
    rw (read_byte, read_word-to_bytes 8 x rest (omega arith)),
  )

-- A short array part is announced by the cookie of the table.
pub read_array_size-short : (n : ℕ) (buf : List ℕ) → n < 31 → read_array_size n buf ≡ ok (n, buf)
unfolding read_array_size
read_array_size-short n buf h = let k : (n == 31) ≡ false = ground arith in rw k

-- a string of bytes that starts with the type byte of a number
abbrev HasTag : List ℕ → Type 0
HasTag bytes = (b : ℕ) × (t : List ℕ) × (bytes ≡ b ∷ t) × (b % 8 ≡ 2)

HasTag-if : (c : Bool) {x y : List ℕ} → HasTag x → HasTag y → HasTag (if c then x else y)
HasTag-if true hx hy = hx
HasTag-if false hx hy = hy

encode_int-HasTag : (n : ℕ) → HasTag (encode_int n)
unfolding encode_int
encode_int-HasTag n =
    HasTag-if (n == 0) (2, _, refl, refl)
      (HasTag-if (n == sign_extend32 n)
        (HasTag-if (is_negative n) (34, _, refl, refl)
          (HasTag-if (ltb n 0x100) (10, _, refl, refl)
            (HasTag-if (ltb n 0x1_0000) (18, _, refl, refl) (34, _, refl, refl))))
        (50, _, refl, refl))

-- A long one is announced by an integer, which the reader takes for a broken stream: the type that it
-- wants there is that of a table.
pub read_array_size-long :
    (n : ℕ) (buf : List ℕ) → 31 ≤ n → read_array_size 31 (encode_int n ++ buf) ≡ invalid
unfolding read_array_size read_long_size
read_array_size-long n buf h = let (b, t, e, two) = encode_int-HasTag n in rw (e, read_byte, two)
