-- ===== src/LuaSeri/Unpack/Ends.antt =====
-- Each part of the reader ends, if the loops of its tables do.
use rednet.Common.{
  ℕ, suc, ◌-◌, ◌/◌, ◌%◌, ◌^◌, ◌<◌, ◌≤◌, ◌≡◌, Bool, true, false, List, [], ◌∷◌, arith, Bool-cases,
  inl, inr, if◌then◌else◌, ltb, ◌==◌, length, length-drop,
}
use rednet.LuaSeri.Value.{
  Value, Items, Pairs, nil, ls_max_cookie, lzero, lbyte, lword, ldword, lqword, lreal, lnil,
  lboolean, lnumber, luserdata, lsstring, llstring, ltable,
}
use rednet.LuaSeri.Unpack.{
  Result, ok, invalid, fault, out_of_fuel, bind, Reader, read, read_word, read_int, read_buffer,
  read_string, read_long_size, read_array_size, read_table, push_value, end_or_pair,
}

-- A result other than the lack of fuel, which leaves less than `n` bytes if it is a value.
abbrev pub Ends : {A : Type 0} → ℕ → Result (A × List ℕ) → Type 0
Ends n (ok (a, rest)) = length rest < n
Ends n invalid = Unit
Ends n fault = Unit
Ends n out_of_fuel = ⊥

pub Ends-bind :
    {A B : Type 0} (n m : ℕ) (r : Result (A × List ℕ)) (g : A × List ℕ → Result (B × List ℕ))
    → Ends n r
    → ((a : A) (rest : List ℕ) → length rest < n → Ends m (g (a, rest)))
    → Ends m (bind r g)
Ends-bind n m (ok (a, rest)) g h k = k a rest h
Ends-bind n m invalid g h k = tt
Ends-bind n m fault g h k = tt
Ends-bind n m out_of_fuel g h k = absurd h

pub Ends-le : {A : Type 0} (n m : ℕ) (r : Result (A × List ℕ)) → n ≤ m → Ends n r → Ends m r
Ends-le n m (ok (a, rest)) l h = omega arith
Ends-le n m invalid l h = tt
Ends-le n m fault l h = tt
Ends-le n m out_of_fuel l h = absurd h

Ends-read : (k : ℕ) (buf : List ℕ) → Ends (suc (length buf)) (read k buf)
unfolding read
Ends-read k buf = elim (Bool-cases (ltb (length buf) k)) [
  | inl e ↦ rw e tt
  | inr e ↦ rw e (omega (arith, length-drop k buf))
]

Ends-read_word : (k : ℕ) (buf : List ℕ) → Ends (suc (length buf)) (read_word k buf)
unfolding read_word
Ends-read_word k buf =
    Ends-bind (suc (length buf)) (suc (length buf)) (read k buf) _ (Ends-read k buf) (λ a rest h. h)

pub Ends-byte : (buf : List ℕ) → Ends (length buf) (read_word 1 buf)
unfolding read_word read
Ends-byte [] = tt
Ends-byte (b ∷ buf) = let e : ltb (suc (length buf)) 1 ≡ false = ground arith in rw e (omega arith)

-- a branch of a test
pub Ends-if :
    {A : Type 0} (n : ℕ) (b : Bool) (p q : Reader A) (buf : List ℕ)
    → Ends n (p buf)
    → Ends n (q buf)
    → Ends n ((if b then p else q) buf)
Ends-if n true p q buf h k = h
Ends-if n false p q buf h k = k

module _ (buf : List ℕ) where
  abbrev size : ℕ
  size = suc (length buf)

  Ends-read_int : (cookie : ℕ) → Ends size (read_int cookie buf)
  unfolding read_int
  Ends-read_int cookie = Ends-if size (cookie == lzero) _ _ buf (omega arith) (
      Ends-if size (cookie == lbyte) _ _ buf (Ends-read_word 1 buf) (
        Ends-if size (cookie == lword) _ _ buf (Ends-read_word 2 buf) (
          Ends-if size (cookie == ldword) _ _ buf
            (Ends-bind size size (read_word 4 buf) _ (Ends-read_word 4 buf) (λ a rest h. h))
            (Ends-if size (cookie == lqword) _ _ buf (Ends-read_word 8 buf) tt))))

  Ends-read_buffer : (n : ℕ) → Ends size (read_buffer n buf)
  unfolding read_buffer
  Ends-read_buffer n =
      Ends-if size (ltb n (2 ^ 31)) _ _ buf
        (Ends-bind size size (read n buf) _ (Ends-read n buf) (λ a rest h. h)) tt

  Ends-then :
      {A B : Type 0} (p : Reader A) (g : A → Reader B)
      → Ends size (p buf)
      → ((a : A) (rest : List ℕ) → length rest < size → Ends (suc (length rest)) (g a rest))
      → Ends size (bind (p buf) (λ (a, rest). g a rest))
  Ends-then p g h k =
      Ends-bind size size (p buf) (λ (a, rest). g a rest) h
        (λ a rest l. Ends-le (suc (length rest)) size (g a rest) (omega arith) (k a rest l))

module _ (buf : List ℕ) where
  Ends-read_string : (cookie : ℕ) → Ends (size buf) (read_string cookie buf)
  unfolding read_string
  Ends-read_string cookie =
      Ends-if (size buf) (cookie == 2) _ _ buf
        (Ends-then buf (read_word 2) read_buffer (Ends-read_word 2 buf)
          (λ n rest l. Ends-read_buffer rest n))
        (Ends-if (size buf) (cookie == 4) _ _ buf
          (Ends-then buf (read_word 4) read_buffer (Ends-read_word 4 buf)
            (λ n rest l. Ends-read_buffer rest n))
          tt)

  Ends-read_long_size : (t : ℕ) → Ends (size buf) (read_long_size t buf)
  unfolding read_long_size
  Ends-read_long_size t =
      Ends-if (size buf) (t % 8 == ltable) _ _ buf
        (Ends-if (size buf) (t / 8 == lreal) _ _ buf tt (
          Ends-bind (size buf) (size buf) (read_int (t / 8) buf) _ (Ends-read_int buf (t / 8))
            (λ a rest l. l)))
        tt

module _ (buf : List ℕ) where
  Ends-read_array_size : (cookie : ℕ) → Ends (size buf) (read_array_size cookie buf)
  unfolding read_array_size
  Ends-read_array_size cookie =
      Ends-if (size buf) (cookie == ls_max_cookie - 1) _ _ buf
        (Ends-then buf (read_word 1) read_long_size (Ends-read_word 1 buf)
          (λ t rest l. Ends-read_long_size rest t))
        (omega arith)

  -- a table, if its loops end on what is left
  pub Ends-read_table :
      (items : ℕ → Reader Items) (pairs : Reader Pairs) (cookie : ℕ)
      → ((n : ℕ) (rest : List ℕ)
          → length rest < (size buf)
          → Ends (suc (length rest)) (items n rest))
      → ((rest : List ℕ) → length rest < (size buf) → Ends (suc (length rest)) (pairs rest))
      → Ends (size buf) (read_table items pairs cookie buf)
  unfolding read_table
  Ends-read_table items pairs cookie h k =
      Ends-bind (size buf) (size buf) (read_array_size cookie buf) _ (Ends-read_array_size cookie)
        (λ n rest l.
          Ends-bind (suc (length rest)) (size buf) (items n rest) _ (h n rest l) (λ xs rest' l'.
            Ends-bind (suc (length rest')) (size buf) (pairs rest') _ (k rest' (omega arith))
              (λ ps rest'' l''. omega arith)))

  pub Ends-push_value :
      (on_table : ℕ → Reader Value) (type cookie : ℕ)
      → Ends (size buf) (on_table cookie buf)
      → Ends (size buf) (push_value on_table type cookie buf)
  unfolding push_value
  Ends-push_value on_table type cookie h = Ends-if (size buf) (type == lnil) _ _ buf (omega arith) (
      Ends-if (size buf) (type == lboolean) _ _ buf (omega arith) (
        Ends-if (size buf) (type == lnumber) _ _ buf
          (Ends-if (size buf) (cookie == lreal) _ _ buf
            (Ends-bind (size buf) (size buf) (read_word 8 buf) _ (Ends-read_word 8 buf)
              (λ a rest l. l))
            (Ends-bind (size buf) (size buf) (read_int cookie buf) _ (Ends-read_int buf cookie)
              (λ a rest l. l)))
          (Ends-if (size buf) (type == luserdata) _ _ buf
            (Ends-bind (size buf) (size buf) (read_word 8 buf) _ (Ends-read_word 8 buf)
              (λ a rest l. l))
            (Ends-if (size buf) (type == lsstring) _ _ buf (Ends-read_buffer buf cookie) (
              Ends-if (size buf) (type == llstring) _ _ buf (Ends-read_string buf cookie)
                (Ends-if (size buf) (type == ltable) _ _ buf h tt))))))

pub Ends-end_or_pair :
    (k : Value) (more : Reader Pairs) (n : ℕ) (buf : List ℕ)
    → length buf < n
    → Ends n (more buf)
    → Ends n (end_or_pair k more buf)
unfolding end_or_pair
Ends-end_or_pair nil more n buf l h = l
Ends-end_or_pair (Value.boolean b) more n buf l h = h
Ends-end_or_pair (Value.integer x) more n buf l h = h
Ends-end_or_pair (Value.real x) more n buf l h = h
Ends-end_or_pair (Value.userdata x) more n buf l h = h
Ends-end_or_pair (Value.string x) more n buf l h = h
Ends-end_or_pair (Value.table xs ps) more n buf l h = h
Ends-end_or_pair Value.other more n buf l h = h
