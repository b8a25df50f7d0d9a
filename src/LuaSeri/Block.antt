-- ===== src/LuaSeri/Block.antt =====
-- The chain of blocks that `lWriteBlock` writes into. A block is the bytes written to it so far;
-- `filled` are the blocks before `current__`, from `head__` on, and `current` is none before the
-- first write.
pub mod Append
use rednet.Common.{
  ℕ, zero, suc, ◌+◌, ◌-◌, List, [], ◌∷◌, ◌++◌, Option, none, some, if◌then◌else◌, leb, ◌==◌, length,
  take, drop,
}
use rednet.LuaSeri.Value.{ls_block_size}

pub record Writer : Type 0 where
  pub filled : List (List ℕ)
  pub current : Option (List ℕ)
  pub len : ℕ
  pub ptr : ℕ

abbrev pub fresh : Writer
fresh = record { filled = []; current = none; len = 0; ptr = 0 }

abbrev pub bytes_of : Option (List ℕ) → List ℕ
bytes_of none = []
bytes_of (some b) = b

abbrev pub chain_of : Option (List ℕ) → List (List ℕ)
chain_of none = []
chain_of (some b) = b ∷ []

-- `if (head__ == NULL || current__ == NULL) head__ = current__ = new lBlock()`
pub ensure_head : Writer → Writer
ensure_head w = record w { current = some (bytes_of w.current) }

-- `_again: current__ = current__->next__ = new lBlock(); ptr__ = 0`
pub next_block : Writer → Writer
next_block w = record w { filled = w.filled ++ chain_of w.current; current = some []; ptr = 0 }

-- the `memcpy` to `current__->buffer__ + ptr__`, with the two counters
pub store : List ℕ → Writer → Writer
store buf w = record w {
  current = some (bytes_of w.current ++ buf);
  ptr = w.ptr + length buf;
  len = w.len + length buf;
}

-- From the second `if` of `push` on; the jump back to `_again` costs a unit of fuel.
pub write : ℕ → List ℕ → Writer → Writer
unfolding next_block store
write zero buf w = w
write (suc f) buf w =
    let room = ls_block_size - w.ptr in
    let rest = write f (drop room buf) (next_block (store (take room buf) w)) in
    if leb (w.ptr + length buf) ls_block_size then store buf w else rest

pub push : List ℕ → Writer → Writer
unfolding ensure_head next_block write
push buf w =
    let v = ensure_head w in
    write (length buf + 1) buf (if v.ptr == ls_block_size then next_block v else v)

-- The loop of `serialize`; `none` is the failing `assert(b)`.
pub copy_blocks : List (List ℕ) → ℕ → Option (List ℕ)
copy_blocks [] zero = some []
copy_blocks [] (suc n) = none
copy_blocks (b ∷ bs) n =
    let rest = copy_blocks bs (n - ls_block_size) in
    if n == 0
    then some []
    else if leb ls_block_size n
    then (elim rest [ none ↦ none | some out ↦ some (take ls_block_size b ++ out) ])
    else some (take n b)

pub serialize : Writer → Option (List ℕ)
unfolding copy_blocks
serialize w = copy_blocks (w.filled ++ chain_of w.current) w.len
