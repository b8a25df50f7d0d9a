-- ===== src/Ini/Lines.antt =====
-- `local_read_line` reads a line whatever its length.
use rednet.Common.{
  ℕ, zero, suc, ◌+◌, ◌<◌, ◌≡◌, refl, ap, sym, true, false, false≢true, ◌||◌, List, [], ◌∷◌, ◌++◌,
  arith, Bool-cases, inl, inr, if◌then◌else◌, ◌==◌, length, append_assoc, append-nil,
}
use rednet.Ini.{newline, is_empty, ends_line, Chunk, and_before, fgets, read_rounds, read_line}

-- the bytes up to and with the first newline, or all of them, and what is left
unfoldable pub first_line : List ℕ → List ℕ × List ℕ
first_line [] = ([], [])
first_line (b ∷ bytes) =
    let (line, rest) = first_line bytes in
    if b == newline then (b ∷ [], bytes) else (b ∷ line, rest)

-- what the first line is, from a chunk that was read of it
abbrev line_from : Chunk → List ℕ × List ℕ
line_from c =
    if ends_line c.text || c.eof
    then (c.text, c.rest)
    else (c.text ++ (first_line c.rest).0, (first_line c.rest).1)

ends_line-cons : (b : ℕ) (bs : List ℕ) → (b == newline) ≡ false → ends_line (b ∷ bs) ≡ ends_line bs
unfolding ends_line
ends_line-cons b [] h = h
ends_line-cons b (c ∷ bs) h = refl

line_from-before :
    (b : ℕ) (c : Chunk)
    → (b == newline) ≡ false
    → line_from (and_before b c) ≡ (b ∷ (line_from c).0, (line_from c).1)
line_from-before b c h =
    rw (ends_line-cons b c.text h)
      (elim (Bool-cases (ends_line c.text || c.eof)) [ inl e ↦ rw e | inr e ↦ rw e ])

first_line-fgets : (n : ℕ) (bytes : List ℕ) → first_line bytes ≡ line_from (fgets n bytes)
unfolding first_line fgets ends_line
first_line-fgets zero bytes = refl
first_line-fgets (suc n) [] = refl
first_line-fgets (suc n) (b ∷ bytes) = elim (Bool-cases (b == newline)) [
  | inl e ↦ rw (e, e)
  | inr e ↦ rw (e, line_from-before b (fgets n bytes) e, first_line-fgets n bytes)
]

fgets-shorter :
    (n : ℕ) (bytes : List ℕ)
    → length (fgets n bytes).text + length (fgets n bytes).rest ≡ length bytes
unfolding fgets
fgets-shorter zero bytes = omega arith
fgets-shorter (suc n) [] = refl
fgets-shorter (suc n) (b ∷ bytes) = elim (Bool-cases (b == newline)) [
  | inl e ↦ rw e (omega arith)
  | inr e ↦ rw e (omega (arith, fgets-shorter n bytes))
]

fgets_empty : (n : ℕ) (bytes : List ℕ) → is_empty (fgets (suc n) bytes).text ≡ true → bytes ≡ []
unfolding fgets
fgets_empty n [] h = refl
fgets_empty n (b ∷ bytes) h = elim (Bool-cases (b == newline)) [
  | inl e ↦ absurd (false≢true (simp e at h))
  | inr e ↦ absurd (false≢true (simp e at h))
]

nonempty : (xs : List ℕ) → is_empty xs ≡ false → 0 < length xs
nonempty [] h = absurd (false≢true (sym h))
nonempty (x ∷ xs) h = omega arith

-- a round of the loop, from what it does with a line that goes on
one_round :
    (buf bytes : List ℕ) (c : Chunk) (again : List ℕ × List ℕ)
    → first_line bytes ≡ line_from c
    → (is_empty c.text ≡ true → (bytes ≡ []) × (c.rest ≡ []))
    → (is_empty c.text ≡ false
        → again ≡ ((buf ++ c.text) ++ (first_line c.rest).0, (first_line c.rest).1))
    → (if is_empty c.text
        then (buf, c.rest)
        else if ends_line c.text || c.eof
        then (buf ++ c.text, c.rest)
        else again)
      ≡ (buf ++ (first_line bytes).0, (first_line bytes).1)
unfolding first_line
one_round buf bytes c again from nil more = elim (Bool-cases (is_empty c.text)) [
  | inl e ↦
      let (none, gone) = nil e in rw (e, none, gone) (ap (λ k. (k, [])) (sym (append-nil buf)))
  | inr e ↦ elim (Bool-cases (ends_line c.text || c.eof)) [
    | inl k ↦ let here : first_line bytes ≡ (c.text, c.rest) = simp k at from in rw (e, k, here)
    | inr k ↦
        let here : first_line bytes ≡ (c.text ++ (first_line c.rest).0, (first_line c.rest).1) =
          simp k at from in
        rw (e, k, here, more e)
          (ap (λ x. (x, (first_line c.rest).1)) (append_assoc buf c.text (first_line c.rest).0))
  ]
]

fgets_end :
    (n : ℕ) (bytes : List ℕ)
    → is_empty (fgets (suc n) bytes).text ≡ true
    → (fgets (suc n) bytes).rest ≡ []
unfolding fgets
fgets_end n [] h = refl
fgets_end n (b ∷ bytes) h = elim (Bool-cases (b == newline)) [
  | inl e ↦ absurd (false≢true (simp e at h))
  | inr e ↦ absurd (false≢true (simp e at h))
]

read_rounds_lem :
    (f : ℕ) (buf bytes : List ℕ)
    → length bytes < f
    → read_rounds f buf bytes ≡ (buf ++ (first_line bytes).0, (first_line bytes).1)
unfolding read_rounds
read_rounds_lem zero buf bytes h = absurd (omega arith)
read_rounds_lem (suc f) buf bytes h =
    let c = fgets 1023 bytes in
    one_round buf bytes c (read_rounds f (buf ++ c.text) c.rest) (first_line-fgets 1023 bytes)
      (λ e. (fgets_empty 1022 bytes e, fgets_end 1022 bytes e))
      (λ e.
        read_rounds_lem f (buf ++ c.text) c.rest
          (omega (arith, fgets-shorter 1023 bytes, nonempty c.text e)))

-- `local_read_line` returns the file up to and with its first newline, or all of it, and leaves what
-- follows, whatever the size of the buffer that `fgets` fills.
pub read_line-first_line : (bytes : List ℕ) → read_line bytes ≡ first_line bytes
unfolding read_line
read_line-first_line bytes = read_rounds_lem (length bytes + 1) [] bytes (omega arith)
