-- ===== src/Ini/Parse.antt =====
-- A line `key=value` is read as that pair.
use rednet.Common.{
  ℕ, zero, suc, ◌+◌, ◌<◌, ◌≡◌, refl, ap, sym, ◌∙◌, Bool, true, false, false≢true, ◌&&◌, not, List,
  [], ◌∷◌, ◌++◌, arith, Bool-cases, inl, inr, some, ◌==◌, length, get_or, take_all, take-append,
  length-append,
}
use rednet.Ini.{
  newline, is_empty, isspace, drop_left, kept, drop_right, trim_right, trim, starts_with, flags,
  is_comment, split_at, parse, put_value, clean, take_line,
}

-- no space at either end, and not empty
unfoldable pub tight : List ℕ → Bool
tight [] = false
tight (b ∷ str) = not (isspace b) && not (isspace (get_or (b ∷ str) (length str) 0))

-- no byte `c`
unfoldable pub without : ℕ → List ℕ → Bool
without c [] = true
without c (b ∷ str) = not (b == c) && without c str

-- a key that starts no comment, and does not hold `=` or a newline
unfoldable pub is_key : List ℕ → Bool
is_key str = not (is_comment flags str) && (tight str && (without 61 str && without newline str))

unfoldable pub is_value : List ℕ → Bool
is_value str = tight str && without newline str

abbrev pub entry_text : List ℕ → List ℕ → List ℕ
entry_text key value = key ++ 61 ∷ value

kept-length :
    (p : ℕ → Bool) (str : List ℕ) (n : ℕ) → p (get_or str n 0) ≡ false → kept p str (suc n) ≡ suc n
unfolding kept
kept-length p str n h = rw h refl

drop_right_none :
    (p : ℕ → Bool) (str : List ℕ) (n : ℕ)
    → length str ≡ suc n
    → p (get_or str n 0) ≡ false
    → drop_right p str ≡ str
unfolding drop_right
drop_right_none p str n e h = rw (e, kept-length p str n h) (take_all (suc n) str (omega arith))

get_or-append_left :
    (xs ys : List ℕ) (i : ℕ) → i < length xs → get_or (xs ++ ys) i 0 ≡ get_or xs i 0
get_or-append_left [] ys i h = absurd (omega arith)
get_or-append_left (x ∷ xs) ys zero h = refl
get_or-append_left (x ∷ xs) ys (suc i) h = get_or-append_left xs ys i (omega arith)

get_or-append_at : (xs : List ℕ) (b : ℕ) (ys : List ℕ) → get_or (xs ++ b ∷ ys) (length xs) 0 ≡ b
get_or-append_at [] b ys = refl
get_or-append_at (x ∷ xs) b ys = get_or-append_at xs b ys

get_or-append_right : (xs ys : List ℕ) (i : ℕ) → get_or (xs ++ ys) (length xs + i) 0 ≡ get_or ys i 0
get_or-append_right [] ys i = ap (λ k. get_or ys k 0) (omega arith)
get_or-append_right (x ∷ xs) ys i =
    let e : suc (length xs) + i ≡ suc (length xs + i) = omega arith in
    ap (λ k. get_or (x ∷ xs ++ ys) k 0) e ∙ get_or-append_right xs ys i

-- the newline at the end of a line goes
drop_right_one :
    (p : ℕ → Bool) (str : List ℕ) (b n : ℕ)
    → length str ≡ suc n
    → p b ≡ true
    → p (get_or str n 0) ≡ false
    → drop_right p (str ++ b ∷ []) ≡ str
unfolding drop_right kept
drop_right_one p str b n e y h =
    let size : length (str ++ b ∷ []) ≡ suc (suc n) = omega (arith, length-append str (b ∷ [])) in
    let at : get_or (str ++ b ∷ []) (suc n) 0 ≡ b =
      ap (λ k. get_or (str ++ b ∷ []) k 0) (sym e) ∙ get_or-append_at str b [] in
    let before : get_or (str ++ b ∷ []) n 0 ≡ get_or str n 0 =
      get_or-append_left str (b ∷ []) n (omega arith) in
    rw (size, at, y, before, h) (take-append (suc n) str (b ∷ []) (sym e))

pub and_true : (a b : Bool) → (a && b) ≡ true → (a ≡ true) × (b ≡ true)
and_true true b h = (refl, h)
and_true false b h = absurd (false≢true h)

pub not-true : (a : Bool) → not a ≡ true → a ≡ false
not-true true h = absurd (false≢true h)
not-true false h = refl

trim-tight : (str : List ℕ) → tight str ≡ true → trim str ≡ str
unfolding tight trim drop_left
trim-tight [] h = absurd (false≢true h)
trim-tight (b ∷ str) h =
    let (first, end) = and_true (not (isspace b)) _ h in
    rw (not-true (isspace b) first)
      (drop_right_none isspace (b ∷ str) (length str) refl (not-true _ end))

split_at-entry :
    (c : ℕ) (key value : List ℕ)
    → without c key ≡ true
    → split_at c (key ++ c ∷ value) ≡ some (key, value)
unfolding without split_at
split_at-entry c [] value h = let same : (c == c) ≡ true = ground arith in rw same refl
split_at-entry c (b ∷ key) value h =
    let (first, rest) = and_true (not (b == c)) _ h in
    rw (not-true _ first, split_at-entry c key value rest)

isspace_ne : (b c : ℕ) → isspace b ≡ false → isspace c ≡ true → (b == c) ≡ false
isspace_ne b c h k = elim (Bool-cases (b == c)) [
  | inl e ↦ let same : b ≡ c = ground arith in absurd (false≢true (sym h ∙ ap isspace same ∙ k))
  | inr e ↦ e
]

isspace-newline : isspace newline ≡ true
unfolding isspace
isspace-newline = refl

isspace-return : isspace 13 ≡ true
unfolding isspace
isspace-return = refl

clean-tight :
    (b : ℕ) (str : List ℕ) → tight (b ∷ str) ≡ true → clean ((b ∷ str) ++ newline ∷ []) ≡ b ∷ str
unfolding clean trim_right tight
clean-tight b str h =
    let end = not-true _ (and_true (not (isspace b)) _ h).1 in
    rw
      (
        drop_right_one (λ c. c == newline) (b ∷ str) newline (length str) refl refl
            (isspace_ne _ newline end isspace-newline),
        drop_right_none (λ c. c == 13) (b ∷ str) (length str) refl
            (isspace_ne _ 13 end isspace-return),
      )
      (trim-tight (b ∷ str) h)

tight-entry :
    (key value : List ℕ)
    → tight key ≡ true
    → tight value ≡ true
    → tight (entry_text key value) ≡ true
unfolding tight
tight-entry [] value h k = absurd (false≢true h)
tight-entry (b ∷ key) [] h k = absurd (false≢true k)
tight-entry (b ∷ key) (v ∷ value) h k =
    let at : length (key ++ 61 ∷ v ∷ value) ≡ length (b ∷ key) + suc (length value) =
      omega (arith, length-append key (61 ∷ v ∷ value)) in
    let end : get_or (b ∷ (key ++ 61 ∷ v ∷ value)) (length (key ++ 61 ∷ v ∷ value)) 0
        ≡ get_or (v ∷ value) (length value) 0 =
      ap (λ n. get_or (b ∷ (key ++ 61 ∷ v ∷ value)) n 0) at
      ∙ get_or-append_right (b ∷ key) (61 ∷ v ∷ value) (suc (length value)) in
    rw ((and_true (not (isspace b)) _ h).0, end) ((and_true (not (isspace v)) _ k).1)

is_comment-entry :
    (key value : List ℕ)
    → tight key ≡ true
    → is_comment flags (entry_text key value) ≡ is_comment flags key
unfolding is_comment starts_with tight
is_comment-entry [] value h = absurd (false≢true h)
is_comment-entry (b ∷ key) value h = refl

clean-entry :
    (key value : List ℕ)
    → tight key ≡ true
    → tight value ≡ true
    → clean (entry_text key value ++ newline ∷ []) ≡ entry_text key value
unfolding tight
clean-entry [] value h k = absurd (false≢true h)
clean-entry (b ∷ key) value h k =
    clean-tight b (key ++ 61 ∷ value) (tight-entry (b ∷ key) value h k)

is_empty-entry : (key value : List ℕ) → is_empty (entry_text key value) ≡ false
is_empty-entry [] value = refl
is_empty-entry (b ∷ key) value = refl

-- A line of a key, `=` and a value, where the key starts no comment and holds no `=`, and neither has
-- a space at an end, sets the key to the value.
pub take_line-entry :
    (key value : List ℕ) (sections : List (List ℕ × List ℕ))
    → is_key key ≡ true
    → is_value value ≡ true
    → take_line (entry_text key value ++ newline ∷ []) sections ≡ put_value key value sections
unfolding take_line is_key is_value parse
take_line-entry key value sections h k =
    let (plain, more) = and_true (not (is_comment flags key)) _ h in
    let (shape, bytes) = and_true (tight key) _ more in
    let (shape', bytes') = and_true (tight value) _ k in
    rw (
      clean-entry key value shape shape',
      is_comment-entry key value shape,
      not-true _ plain,
      trim-tight (entry_text key value) (tight-entry key value shape shape'),
      is_empty-entry key value,
      split_at-entry 61 key value (and_true (without 61 key) _ bytes).0,
      trim-tight key shape,
      trim-tight value shape',
    )
