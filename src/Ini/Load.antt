-- ===== src/Ini/Load.antt =====
-- `load` on a file of entries, and the lookups in what it read.
use rednet.Common.{
  ℕ, zero, suc, ◌+◌, ◌<◌, ◌≡◌, refl, ap, sym, ◌∙◌, Bool, true, false, false≢true, ◌&&◌, not, List,
  [], ◌∷◌, ◌++◌, arith, Bool-cases, inl, inr, if◌then◌else◌, ◌==◌, length, length-append,
}
use rednet.Ini.{newline, is_empty, put_value, get_value, same_key, load_rounds, load}
use rednet.Ini.Lines.{first_line, read_line-first_line}
use rednet.Ini.Parse.{
  without, is_key, is_value, tight, entry_text, and_true, not-true, take_line-entry,
}

-- a file with an entry in each line
unfoldable pub print : List (List ℕ × List ℕ) → List ℕ
print [] = []
print ((key, value) ∷ entries) = (entry_text key value ++ newline ∷ []) ++ print entries

unfoldable pub all_entries : List (List ℕ × List ℕ) → Bool
all_entries [] = true
all_entries ((key, value) ∷ entries) = is_key key && (is_value value && all_entries entries)

-- the entries set one after the other
unfoldable pub put_all : List (List ℕ × List ℕ) → List (List ℕ × List ℕ) → List (List ℕ × List ℕ)
put_all [] sections = sections
put_all ((key, value) ∷ entries) sections = put_all entries (put_value key value sections)

first_line-append :
    (text rest : List ℕ)
    → without newline text ≡ true
    → first_line ((text ++ newline ∷ []) ++ rest) ≡ (text ++ newline ∷ [], rest)
unfolding first_line without
first_line-append [] rest h = refl
first_line-append (b ∷ text) rest h =
    let (first, more) = and_true (not (b == newline)) _ h in
    rw (not-true _ first, first_line-append text rest more)

without-append :
    (c : ℕ) (xs ys : List ℕ)
    → without c xs ≡ true
    → without c ys ≡ true
    → without c (xs ++ ys) ≡ true
unfolding without
without-append c [] ys h k = k
without-append c (x ∷ xs) ys h k =
    let (first, more) = and_true (not (x == c)) _ h in
    rw (first, without-append c xs ys more k) refl

without-entry :
    (key value : List ℕ)
    → is_key key ≡ true
    → is_value value ≡ true
    → without newline (entry_text key value) ≡ true
unfolding is_key is_value without
without-entry key value h k =
    let (plain, more) = and_true _ _ h in
    let (shape, bytes) = and_true (tight key) _ more in
    without-append newline key (61 ∷ value) (and_true (without 61 key) _ bytes).1
      (and_true (tight value) _ k).1

is_empty-line : (text : List ℕ) → is_empty (text ++ newline ∷ []) ≡ false
is_empty-line [] = refl
is_empty-line (b ∷ text) = refl

length-line_pos : (text : List ℕ) → 0 < length (text ++ newline ∷ [])
length-line_pos text = omega (arith, length-append text (newline ∷ []))

load_rounds-print :
    (entries sections : List (List ℕ × List ℕ)) (f : ℕ)
    → all_entries entries ≡ true
    → length (print entries) < f
    → load_rounds f (print entries) sections ≡ put_all entries sections
unfolding load_rounds print all_entries put_all first_line
load_rounds-print entries sections zero h l = absurd (omega arith)
load_rounds-print [] sections (suc f) h l = rw (read_line-first_line [])
load_rounds-print ((key, value) ∷ entries) sections (suc f) h l =
    let (k, more) = and_true (is_key key) _ h in
    let (v, all) = and_true (is_value value) _ more in
    let line = entry_text key value ++ newline ∷ [] in
    rw
      (
        read_line-first_line (line ++ print entries),
        first_line-append (entry_text key value) (print entries) (without-entry key value k v),
        is_empty-line (entry_text key value),
        take_line-entry key value sections k v,
      )
      (load_rounds-print entries (put_value key value sections) f all
        (omega (arith, length-append line (print entries), length-line_pos (entry_text key value))))

-- `load` of a file with an entry in each line sets the entries one after the other, however long the
-- lines are.
pub load-print :
    (entries : List (List ℕ × List ℕ))
    → all_entries entries ≡ true
    → load (print entries) ≡ put_all entries []
unfolding load
load-print entries h = load_rounds-print entries [] (length (print entries) + 1) h (omega arith)

pub same_key_refl : (a : List ℕ) → same_key a a ≡ true
unfolding same_key
same_key_refl [] = refl
same_key_refl (x ∷ xs) = let e : (x == x) ≡ true = ground arith in rw (e, same_key_refl xs)

pub same_key-eq : (a b : List ℕ) → same_key a b ≡ true → a ≡ b
unfolding same_key
same_key-eq [] [] h = refl
same_key-eq [] (b ∷ ys) h = absurd (false≢true h)
same_key-eq (a ∷ xs) [] h = absurd (false≢true h)
same_key-eq (a ∷ xs) (b ∷ ys) h =
    let (first, rest) = and_true (a == b) _ h in
    let same : a ≡ b = ground arith in let tails : xs ≡ ys = same_key-eq xs ys rest in cc

-- After a key was set, looking it up gives the value, and any other key gives what it gave before.
pub get_value-put_value :
    (other key value : List ℕ) (sections : List (List ℕ × List ℕ))
    → get_value other (put_value key value sections)
      ≡ (if same_key key other then value else get_value other sections)
unfolding get_value put_value
get_value-put_value other key value [] = refl
get_value-put_value other key value ((k, v) ∷ sections) = elim (Bool-cases (same_key k key)) [
  | inl e ↦ let same = same_key-eq k key e in rw (e, same) (go (same_key key other))
  | inr e ↦
      rw (e, get_value-put_value other key value sections)
        (elim (Bool-cases (same_key k other)) [
          | inl p ↦
              let same = same_key-eq k other p in
              let differ : same_key key other ≡ false = not_same e same in rw (p, differ)
          | inr p ↦ rw p
        ])
]
  where
    not_same : {k : List ℕ} → same_key k key ≡ false → k ≡ other → same_key key other ≡ false
    not_same {k} e same = elim (Bool-cases (same_key key other)) [
      | inl q ↦
          let both : k ≡ key = same ∙ sym (same_key-eq key other q) in
          absurd (false≢true (sym e ∙ ap (λ x. same_key x key) both ∙ same_key_refl key))
      | inr q ↦ q
    ]

    go :
        (b : Bool)
        → (if b then value else get_value other sections)
          ≡ (if b then value else (if b then v else get_value other sections))
    go true = refl
    go false = refl
