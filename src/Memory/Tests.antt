-- ===== src/Memory/Tests.antt =====
-- The counters of rednet-src/umemory_hook.cc with the blocks of two contexts.
use Prim.{tt}
use rednet.Common.{refl, [], ◌∷◌, arith}
use rednet.Memory.{clean_prefix, Block, Heap, malloc, allocated, freed, empty_heap}
use rednet.Memory.Owned.{StepsBeside, IsOwned, StepsBeside-IsOwned}

abbrev small : Block
small = record { owner = 7; size = 24 }

abbrev big : Block
big = record { owner = 8; size = 4096 }

abbrev both : Heap
both = malloc big (malloc small empty_heap)

abbrev one_left : Heap
one_left = record { memory = clean_prefix small.owner small.size both.memory; live = big ∷ [] }

beside_steps : StepsBeside 8 empty_heap one_left
unfolding malloc
beside_steps =
    StepsBeside.more
      (StepsBeside.more
        (StepsBeside.more StepsBeside.begin (allocated empty_heap small (omega arith))
          ((λ e. absurd (omega arith)), tt))
        (allocated (malloc small empty_heap) big (omega arith))
        ((λ e. refl), ((λ e. absurd (omega arith)), tt)))
      (freed both.memory (big ∷ []) small [] (omega arith)) ((λ e. refl), tt)

StepsBeside-IsOwned_example : IsOwned 8 one_left.memory one_left.live
StepsBeside-IsOwned_example = StepsBeside-IsOwned 8 beside_steps
