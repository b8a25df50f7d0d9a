-- ===== src/Locks/Tests.antt =====
-- The locks of rednet-src/urecursivelock.h in a run of two threads.
use rednet.Common.{◌≤◌, ◌≡◌, refl, [], ◌∷◌}
use rednet.Locks.{
  spin, try_spin, lock, trylock, lock_it, try_it, call, System, called, Reach, here, next, no_holds,
  new_locks,
}
use rednet.Locks.Exclusive.{holders, word-holders}

-- the first thread has the lock twice, and the second was refused
abbrev twice : System
twice = record { word = 1; counts = 2 ∷ 0 ∷ [] }

twice_reached : Reach (new_locks 2) twice
unfolding new_locks no_holds call lock trylock spin try_spin
twice_reached =
    next
      (next (next here (called 0 [] 0 (0 ∷ []) lock_it 1 1 refl))
        (called 1 [] 1 (0 ∷ []) try_it 2 1 refl))
      (called 1 (2 ∷ []) 0 [] try_it 0 1 refl)

word-holders_example : (twice.word ≡ holders twice.counts) × (twice.word ≤ 1)
word-holders_example = word-holders 2 twice twice_reached
