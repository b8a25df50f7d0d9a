-- ===== src/Locks/Exclusive.antt =====
-- At most one counter has the lock.
use rednet.Common.{
  ℕ, zero, suc, ◌+◌, ◌≤◌, ◌≡◌, refl, List, [], ◌∷◌, ◌++◌, some, if◌then◌else◌, ◌==◌, arith,
}
use rednet.Locks.{
  try_spin, spin, lock, trylock, unlock, Method, lock_it, try_it, unlock_it, call, System, after,
  called, Reach, here, next, no_holds, new_locks,
}

abbrev pub holds : ℕ → ℕ
holds count = if count == 0 then 0 else 1

unfoldable pub holders : List ℕ → ℕ
holders [] = 0
holders (c ∷ cs) = holds c + holders cs

split :
    (before : List ℕ) (c : ℕ) (rest : List ℕ)
    → holders (before ++ c ∷ rest) ≡ holders before + holders rest + holds c
unfolding holders
split [] c rest = omega arith
split (b ∷ before) c rest = omega (arith, split before c rest)

-- The word counts the holders, with one more or one less.
call-holds :
    (m : Method) (count k n l others : ℕ)
    → k ≡ others + holds count
    → k ≤ 1
    → after count (call m count k) ≡ some (n, l)
    → (l ≡ others + holds n) × (l ≤ 1)
unfolding call lock trylock unlock spin try_spin
call-holds lock_it count k n l others e b h = (ground arith, ground arith)
call-holds try_it count k n l others e b h = (ground arith, ground arith)
call-holds unlock_it count k n l others e b h = (ground arith, ground arith)

none_hold : (n : ℕ) → holders (no_holds n) ≡ 0
unfolding holders no_holds
none_hold zero = refl
none_hold (suc n) = omega (arith, none_hold n)

-- In every state that `n` threads reach, whatever they call in whatever order: the word is 1 exactly if
-- some counter is not 0, and at most one is not.
pub word-holders :
    (n : ℕ) (s : System) → Reach (new_locks n) s → (s.word ≡ holders s.counts) × (s.word ≤ 1)
unfolding new_locks
word-holders n _ here = (omega (arith, none_hold n), omega arith)
word-holders n _ (next r (called k before count rest m n' l e)) =
    let (h, b) = word-holders n _ r in
    let (x, y) =
      call-holds m count k n' l (holders before + holders rest)
        (omega (arith, h, split before count rest)) b e in
    (omega (arith, x, split before n' rest), y)
