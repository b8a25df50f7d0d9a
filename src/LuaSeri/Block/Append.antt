-- ===== src/LuaSeri/Block/Append.antt =====
-- The block chain is a byte string that `push` appends to and `serialize` copies out.
use rednet.Common.{
  ℕ, zero, suc, ◌+◌, ◌-◌, ◌≤◌, ◌<◌, ◌≡◌, refl, ap, List, [], ◌∷◌, ◌++◌, Option, none, some, arith,
  append_assoc, append-nil, length, take, drop, length-append, length-take, length-drop,
  take-append-drop, leb, ◌==◌, if◌then◌else◌, Bool-cases, inl, inr, take_all, nil_of_length, true,
  false,
}
use rednet.LuaSeri.Value.{ls_block_size}
use rednet.LuaSeri.Block.{
  Writer, fresh, bytes_of, chain_of, ensure_head, next_block, store, write, push, copy_blocks,
  serialize,
}

abbrev pub concat : List (List ℕ) → List ℕ
concat [] = []
concat (b ∷ bs) = b ++ concat bs

-- every block before the current one is full
abbrev pub AllFull : List (List ℕ) → Type 0
AllFull [] = Unit {0}
AllFull (b ∷ bs) = (length b ≡ ls_block_size) × AllFull bs

-- the bytes that a writer holds
abbrev pub contents : Writer → List ℕ
contents w = concat w.filled ++ bytes_of w.current

pub record IsValid (w : Writer) : Type 0 where
  pub full : AllFull w.filled
  pub at : w.ptr ≡ length (bytes_of w.current)
  pub room : w.ptr ≤ ls_block_size
  pub total : w.len ≡ length (contents w)

concat-append : (xs ys : List (List ℕ)) → concat (xs ++ ys) ≡ concat xs ++ concat ys
concat-append [] ys = refl
concat-append (b ∷ xs) ys = rw (concat-append xs ys, append_assoc)

concat-chain :
    (xs : List (List ℕ)) (o : Option (List ℕ)) → concat (xs ++ chain_of o) ≡ concat xs ++ bytes_of o
concat-chain xs none = rw (append-nil xs, append-nil (concat xs))
concat-chain xs (some b) = rw (concat-append xs (b ∷ []), append-nil b)

AllFull-append :
    (xs : List (List ℕ)) (o : Option (List ℕ))
    → AllFull xs
    → length (bytes_of o) ≡ ls_block_size
    → AllFull (xs ++ chain_of o)
AllFull-append [] none h e = tt
AllFull-append [] (some b) h e = (e, tt)
AllFull-append (x ∷ xs) o h e = (h.0, AllFull-append xs o h.1 e)

-- What a step of the writer promises: the bytes are appended, and the invariant is kept.
pub record Appended (w : Writer) (buf : List ℕ) (v : Writer) : Type 0 where
  pub valid : IsValid v
  pub bytes : contents v ≡ contents w ++ buf

store-Appended :
    (buf : List ℕ) (w : Writer)
    → IsValid w
    → w.ptr + length buf ≤ ls_block_size
    → Appended w buf (store buf w)
unfolding store
store-Appended buf w v h = record {
  valid = record {
    full = v.full;
    at = omega (arith, length-append (bytes_of w.current) buf);
    room = h;
    total = rw e (omega (arith, v.total, length-append (contents w) buf));
  };
  bytes = e;
}
  where
    e : concat w.filled ++ (bytes_of w.current ++ buf) ≡ contents w ++ buf
    e = rw append_assoc

-- Moving on from a full block changes nothing of the contents.
next_block-IsValid : (w : Writer) → IsValid w → w.ptr ≡ ls_block_size → Appended w [] (next_block w)
unfolding next_block
next_block-IsValid w v h = record {
  valid = record {
    full = AllFull-append w.filled w.current v.full (omega arith);
    at = refl;
    room = omega arith;
    total = rw e (omega (arith, v.total));
  };
  bytes = rw (e, append-nil);
}
  where
    e : concat (w.filled ++ chain_of w.current) ++ [] ≡ contents w
    e = rw (append-nil, concat-chain w.filled w.current)

pub Appended-trans :
    (u v w : Writer) (a b c : List ℕ)
    → Appended u a v
    → Appended v b w
    → a ++ b ≡ c
    → Appended u c w
Appended-trans u v w a b c p q e = record {
  valid = q.valid;
  bytes = rw (q.bytes, p.bytes, append_assoc, e);
}

write-Appended :
    (f : ℕ) (buf : List ℕ) (w : Writer)
    → IsValid w
    → w.ptr < ls_block_size
    → length buf < f
    → Appended w buf (write f buf w)
unfolding write
write-Appended zero buf w v h k = absurd (omega arith)
write-Appended (suc f) buf w v h k = elim (Bool-cases (leb (w.ptr + length buf) ls_block_size)) [
  | inl e ↦ rw e (store-Appended buf w v (ground arith))
  | inr e ↦ rw e (
      Appended-trans w mid _ (take room buf) (drop room buf) buf
        (Appended-trans w full mid (take room buf) [] (take room buf) stored
          (next_block-IsValid full stored.valid (filled_up e)) (append-nil (take room buf)))
        (write-Appended f (drop room buf) mid
          (next_block-IsValid full stored.valid (filled_up e)).valid (omega arith)
          (omega (arith, length-drop room buf, leb_false e)))
        (take-append-drop room buf))
]
  where
    room : ℕ
    room = ls_block_size - w.ptr

    full : Writer
    full = store (take room buf) w

    mid : Writer
    mid = next_block full

    stored : Appended w (take room buf) full
    stored = store-Appended (take room buf) w v (omega (arith, length-take room buf))

    leb_false : leb (w.ptr + length buf) ls_block_size ≡ false → ls_block_size < w.ptr + length buf
    leb_false e = ground arith

    filled_up : leb (w.ptr + length buf) ls_block_size ≡ false → full.ptr ≡ ls_block_size
    filled_up e = omega (arith, length-take room buf, leb_false e)

ensure_head-Appended : (w : Writer) → IsValid w → Appended w [] (ensure_head w)
unfolding ensure_head
ensure_head-Appended w v = record {
  valid = record { full = v.full; at = v.at; room = v.room; total = v.total };
  bytes = rw append-nil;
}

ready : Writer → Writer
unfolding ensure_head next_block
ready w = let v = ensure_head w in if v.ptr == ls_block_size then next_block v else v

ready-Appended :
    (w : Writer) → IsValid w → Appended w [] (ready w) × ((ready w).ptr < ls_block_size)
unfolding ready ensure_head
ready-Appended w v = elim (Bool-cases (w.ptr == ls_block_size)) [
  | inl e ↦ rw e (
    Appended-trans w (ensure_head w) (next_block (ensure_head w)) [] [] []
        (ensure_head-Appended w v)
        (next_block-IsValid (ensure_head w) (ensure_head-Appended w v).valid (ground arith)) refl,
    omega arith,
  )
  | inr e ↦ rw e (ensure_head-Appended w v, ground arith)
]

-- `push` appends its bytes, whatever their number, and keeps the invariant.
pub push-Appended : (buf : List ℕ) (w : Writer) → IsValid w → Appended w buf (push buf w)
unfolding push ready
push-Appended buf w v =
    Appended-trans w (ready w) _ [] buf buf (ready-Appended w v).0
      (write-Appended (length buf + 1) buf (ready w) (ready-Appended w v).0.valid
        (ready-Appended w v).1 (omega arith))
      refl

copy_blocks_lem :
    (bs : List (List ℕ)) (o : Option (List ℕ)) (n : ℕ)
    → AllFull bs
    → length (bytes_of o) ≤ ls_block_size
    → n ≡ length (concat bs ++ bytes_of o)
    → copy_blocks (bs ++ chain_of o) n ≡ some (concat bs ++ bytes_of o)
unfolding copy_blocks
copy_blocks_lem [] none n h k e = rw e
copy_blocks_lem [] (some b) n h k e =
    ground (arith, take_all n b, take_all ls_block_size b, nil_of_length b, append-nil b, left)
  where
    left : n ≡ ls_block_size → copy_blocks [] (n - ls_block_size) ≡ some []
    left e = let z : n - ls_block_size ≡ 0 = omega arith in rw z
copy_blocks_lem (x ∷ bs) o n h k e =
    rw (some_left, full_left, copy_blocks_lem bs o (n - ls_block_size) h.1 k (omega (arith, bound)))
      (rw (take_all ls_block_size x (omega arith)) (ap some assoc))
  where
    assoc : x ++ (concat bs ++ bytes_of o) ≡ x ++ concat bs ++ bytes_of o
    assoc = rw append_assoc

    bound : n ≡ ls_block_size + length (concat bs ++ bytes_of o)
    bound = omega (arith, ap length assoc, length-append x (concat bs ++ bytes_of o))

    some_left : (n == 0) ≡ false
    some_left = ground (arith, bound)

    full_left : leb ls_block_size n ≡ true
    full_left = ground (arith, bound)

-- `serialize` never fails its assertion, and copies out the bytes written.
pub serialize-contents : (w : Writer) → IsValid w → serialize w ≡ some (contents w)
unfolding serialize
serialize-contents w v = copy_blocks_lem w.filled w.current w.len v.full (omega arith) v.total

pub fresh-IsValid : IsValid fresh
fresh-IsValid = record { full = tt; at = refl; room = omega arith; total = refl }
