-- ===== src/Locks/Nested.antt =====
-- A thread that takes the lock several times.
use rednet.Common.{ℕ, zero, suc, ◌+◌, ◌≡◌, refl, ap, ◌∙◌, false, ◌==◌, arith}
use rednet.Locks.{Locking, entered, left, aborts, unlock, lock, spin}

-- what follows a method that has got the lock, and one that has given it up
abbrev pub then_in : Locking → (ℕ → ℕ → Locking) → Locking
then_in (entered n k) f = f n k
then_in o f = o

abbrev pub then_out : Locking → (ℕ → ℕ → Locking) → Locking
then_out (left n k) f = f n k
then_out o f = o

-- `n` calls of `lock`, or of `unlock`
pub locks : ℕ → ℕ → ℕ → Locking
locks zero c k = entered c k
locks (suc n) c k = then_in (lock c k) (locks n)

pub unlocks : ℕ → ℕ → ℕ → Locking
unlocks zero c k = left c k
unlocks (suc n) c k = then_out (unlock c k) (unlocks n)

locks_held : (n c k : ℕ) → (c == 0) ≡ false → locks n c k ≡ entered (c + n) k
unfolding locks lock
locks_held zero c k h = ground arith
locks_held (suc n) c k h = rw h (locks_held n (c + 1) k (ground arith) ∙ ground arith)

unlock_inner : (c k : ℕ) → unlock (suc (suc c)) k ≡ left (suc c) k
unfolding unlock
unlock_inner c k = ground arith

unlocks_held : (n k : ℕ) → unlocks (suc n) (suc n) k ≡ left 0 0
unfolding unlocks
unlocks_held zero k = unfold unlock in refl
unlocks_held (suc n) k = rw (unlock_inner n k) (unlocks_held n k)

unlocks_more : (n k : ℕ) → unlocks (suc (suc n)) (suc n) k ≡ aborts
unfolding unlocks
unlocks_more zero k = unfold unlock in refl
unlocks_more (suc n) k = rw (unlock_inner n k) (unlocks_more n k)

locks_all : (n : ℕ) → locks (suc n) 0 0 ≡ entered (suc n) 1
unfolding locks lock spin
locks_all n = locks_held n 1 1 refl ∙ ap (λ c. entered c 1) (omega arith)

-- With the word free, a thread takes the lock by one call of `lock` or more, and as many calls of
-- `unlock` give it up with the last one only: the assertion does not fail, and the word is free again.
-- One call more ends the process.
pub unlocks-locks :
    (n : ℕ)
    → (locks (suc n) 0 0 ≡ entered (suc n) 1)
      × (then_in (locks (suc n) 0 0) (unlocks (suc n)) ≡ left 0 0)
      × (then_in (locks (suc n) 0 0) (unlocks (suc (suc n))) ≡ aborts)
unlocks-locks n =
    (locks_all n, rw (locks_all n) (unlocks_held n 1), rw (locks_all n) (unlocks_more n 1))
