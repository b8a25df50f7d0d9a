-- ===== src/ContextMgr/Names.antt =====
-- The names of the services: `registerName`, `convertId`, `convertName` and `local_erase_name`.
use rednet.Common.{
  ℕ, ◌≡◌, ◌≢◌, refl, sym, ◌∙◌, ap, Bool, true, false, List, [], ◌∷◌, Option, none, some,
  if◌then◌else◌, ◌==◌, arith, Bool-cases, inl, inr, false≢true,
}
use rednet.ContextMgr.{
  Context, ContextMgr, same_name, find_name, convert_id, find_id, convert_name, put_name,
  register_name, erase_name, unregister, grab,
}

-- `strcmp` of two names is 0 exactly where the names are equal.
pub same_name_refl : (a : List ℕ) → same_name a a ≡ true
unfolding same_name
same_name_refl [] = refl
same_name_refl (x ∷ xs) = let e : (x == x) ≡ true = ground arith in rw (e, same_name_refl xs)

same_name-eq : (a b : List ℕ) → same_name a b ≡ true → a ≡ b
unfolding same_name
same_name-eq [] [] h = refl
same_name-eq [] (b ∷ ys) h = absurd (false≢true h)
same_name-eq (a ∷ xs) [] h = absurd (false≢true h)
same_name-eq (a ∷ xs) (b ∷ ys) h = elim (Bool-cases (a == b)) [
  | inl e ↦
      let same : a ≡ b = ground arith in let rest : xs ≡ ys = same_name-eq xs ys (simp e at h) in cc
  | inr e ↦ absurd (false≢true (simp e at h))
]

same_name_of : (a b : List ℕ) → a ≡ b → same_name a b ≡ true
same_name_of a b e = rw (← e) (same_name_refl a)

pub same_name-ne : (a b : List ℕ) → a ≢ b → same_name a b ≡ false
same_name-ne a b n = elim (Bool-cases (same_name a b)) [
  | inl e ↦ absurd (n (same_name-eq a b e))
  | inr e ↦ e
]

true≢false : true ≢ false
true≢false e = false≢true (sym e)

find_name-put_name :
    (other name : List ℕ) (id : ℕ) (names : List (List ℕ × ℕ))
    → find_name other (put_name id name names)
      ≡ (if same_name other name then id else find_name other names)
unfolding find_name put_name
find_name-put_name other name id [] = refl
find_name-put_name other name id ((key, old) ∷ names) = elim (Bool-cases (same_name name key)) [
  | inl e ↦ let same = same_name-eq name key e in rw (e, same) (go (same_name other key))
  | inr e ↦
      rw (e, find_name-put_name other name id names)
        (elim (Bool-cases (same_name other key)) [
          | inl k ↦
              let same : other ≡ key = same_name-eq other key k in
              let differ : same_name other name ≡ false =
                same_name-ne other name
                  (λ z. true≢false (sym (same_name_of name key (sym z ∙ same)) ∙ e)) in
              rw (k, differ)
          | inr k ↦ rw k
        ])
]
  where
    go :
        (b : Bool)
        → (if b then id else find_name other names)
          ≡ (if b then id else (if b then old else find_name other names))
    go true = refl
    go false = refl

-- After `registerName` the name gives the id, and every other name gives what it gave before.
pub convert_id-register_name :
    (other name : List ℕ) (id : ℕ) (m : ContextMgr)
    → convert_id other (register_name id name m)
      ≡ (if same_name other name then id else convert_id other m)
unfolding convert_id register_name
convert_id-register_name other name id m = find_name-put_name other name id m.names

-- the names of an id, in order
unfoldable pub names_of : ℕ → List (List ℕ × ℕ) → List (List ℕ)
names_of id [] = []
names_of id ((key, other) ∷ names) =
    let later = names_of id names in if other == id then key ∷ later else later

unfoldable pub tail : List (List ℕ) → List (List ℕ)
tail [] = []
tail (x ∷ xs) = xs

unfoldable pub first : List (List ℕ) → Option (List ℕ)
first [] = none
first (x ∷ xs) = some x

find_id_lem : (id : ℕ) (names : List (List ℕ × ℕ)) → find_id id names ≡ first (names_of id names)
unfolding find_id names_of first
find_id_lem id [] = refl
find_id_lem id ((key, other) ∷ names) = elim (Bool-cases (other == id)) [
  | inl e ↦ rw e refl
  | inr e ↦ rw e (find_id_lem id names)
]

module _ (id : ℕ) where
  names_of-erase_self :
      (names : List (List ℕ × ℕ)) → names_of id (erase_name id names) ≡ tail (names_of id names)
  unfolding names_of erase_name tail
  names_of-erase_self [] = refl
  names_of-erase_self ((key, owner) ∷ names) = elim (Bool-cases (owner == id)) [
    | inl e ↦ rw e refl
    | inr e ↦ rw (e, e) (names_of-erase_self names)
  ]

  names_of-erase_other :
      (other : ℕ) (names : List (List ℕ × ℕ))
      → other ≢ id
      → names_of other (erase_name id names) ≡ names_of other names
  unfolding names_of erase_name
  names_of-erase_other other [] n = refl
  names_of-erase_other other ((key, owner) ∷ names) n = elim (Bool-cases (owner == id)) [
    | inl e ↦ let differ : (owner == other) ≡ false = ground (arith, n) in rw (e, differ) refl
    | inr e ↦ rw (e, names_of-erase_other other names n) refl
  ]

names_of-erase :
    (id other : ℕ) (names : List (List ℕ × ℕ))
    → names_of other (erase_name id names)
      ≡ (if other == id then tail (names_of id names) else names_of other names)
names_of-erase id other names = elim (Bool-cases (other == id)) [
  | inl e ↦ let same : other ≡ id = ground arith in rw (e, same) (names_of-erase_self id names)
  | inr e ↦ rw e (names_of-erase_other id other names (ground arith))
]

-- Retiring a registered id takes away the first of its names and keeps its other names, and all names of
-- every other id, in their order; and `convertName` of an id returns the first of the names that it has
-- then, if any.
pub convert_name-unregister :
    (id other : ℕ) (m : ContextMgr) (c : Context)
    → grab m id ≡ some c
    → let after = if other == id then tail (names_of id m.names) else names_of other m.names in
      (names_of other (unregister id m).1.names ≡ after)
      × (convert_name other (unregister id m).1 ≡ first after)
unfolding convert_name unregister
convert_name-unregister id other m c h =
    let e = names_of-erase id other m.names in
    rw h (e, find_id_lem other (erase_name id m.names) ∙ ap first e)
