-- ===== src/Locks.antt =====
-- rednet-src/uspinlock.h and urecursivelock.h: a lock that is one word, taken by an atomic exchange,
-- and the counters by which a thread takes it several times. Each thread has a counter of its own, an
-- object urecuresivelock, over the one word.
pub mod Exclusive
pub mod Nested
pub mod Tests
use rednet.Common.{
  ℕ, zero, suc, ◌+◌, ◌-◌, ◌≡◌, Bool, true, false, List, [], ◌∷◌, ◌++◌, Option, none, some,
  if◌then◌else◌, ◌==◌,
}

-- `__sync_lock_test_and_set(&k__, 1)`: the word before and after
abbrev pub test_and_set : ℕ → ℕ × ℕ
test_and_set k = (k, 1)

-- `uspinlock::trylock`
unfoldable pub try_spin : ℕ → Bool × ℕ
try_spin k = let (old, k') = test_and_set k in (old == 0, k')

-- one round of the loop of `uspinlock::lock`, which goes on while the word was set
unfoldable pub spin : ℕ → Bool × ℕ
spin k = let (old, k') = test_and_set k in (old == 0, k')

-- `uspinlock::unlock`
abbrev pub release : ℕ → ℕ
release k = 0

-- What a method of a counter comes to, with the counter and the word after it. `spins`: a round of
-- `lock` that did not get the word. `refused`: `trylock` gives 0. `aborts`: the assertion of `unlock`.
pub data Locking : Type 0 where
  entered left : ℕ → ℕ → Locking
  spins refused : ℕ → Locking
  aborts : Locking

-- with the word, or without it
abbrev pub got : (ℕ → Locking) → ℕ → Bool × ℕ → Locking
got busy count (true, k) = entered (count + 1) k
got busy count (false, k) = busy k

unfoldable pub lock : ℕ → ℕ → Locking
lock count k = if count == 0 then got spins count (spin k) else entered (count + 1) k

unfoldable pub trylock : ℕ → ℕ → Locking
trylock count k = if count == 0 then got refused count (try_spin k) else entered (count + 1) k

-- `--count__` gives -1 where the counter was 0.
unfoldable pub unlock : ℕ → ℕ → Locking
unlock count k =
    if count == 0 then aborts else if count == 1 then left 0 (release k) else left (count - 1) k

pub data Method : Type 0 where
  lock_it try_it unlock_it : Method

unfoldable pub call : Method → ℕ → ℕ → Locking
call lock_it count k = lock count k
call try_it count k = trylock count k
call unlock_it count k = unlock count k

-- The word, and the counter of each thread.
pub record System : Type 0 where
  pub word : ℕ
  pub counts : List ℕ

-- the counter and the word after a method; none where the process has ended
abbrev pub after : ℕ → Locking → Option (ℕ × ℕ)
after count (entered n k) = some (n, k)
after count (left n k) = some (n, k)
after count (spins k) = some (count, k)
after count (refused k) = some (count, k)
after count aborts = none

-- A thread calls a method, or goes one more round.
pub data LockStep : System → System → Type 0 where
  called :
      (k : ℕ) (before : List ℕ) (count : ℕ) (rest : List ℕ) (m : Method) (n l : ℕ)
      → after count (call m count k) ≡ some (n, l)
      → LockStep
          (record { word = k; counts = before ++ count ∷ rest })
          (record { word = l; counts = before ++ n ∷ rest })

pub data Reach (s : System) : System → Type 0 where
  here : Reach s s
  next : {t u : System} → Reach s t → LockStep t u → Reach s u

unfoldable pub no_holds : ℕ → List ℕ
no_holds zero = []
no_holds (suc n) = 0 ∷ no_holds n

-- a new word, and the counters of `n` threads
unfoldable pub new_locks : ℕ → System
new_locks n = record { word = 0; counts = no_holds n }
