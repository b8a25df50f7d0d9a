-- ===== src/Memory/Totals.antt =====
-- The counters of all memory are exact.
use rednet.Common.{ℕ, ◌+◌, ◌%◌, ◌^◌, ◌<◌, ◌≡◌, List, [], ◌∷◌, ◌++◌, arith}
use rednet.Memory.{
  Memory, fill_prefix, clean_prefix, Block, Heap, malloc, HeapStep, allocated, freed, moved,
  empty_heap,
}

unfoldable pub total : (Block → ℕ) → List Block → ℕ
total f [] = 0
total f (b ∷ bs) = f b + total f bs

pub total_split :
    (f : Block → ℕ) (before : List Block) (b : Block) (after : List Block)
    → total f (before ++ b ∷ after) ≡ total f (before ++ after) + f b
unfolding total
total_split f [] b after = omega arith
total_split f (x ∷ before) b after = omega (arith, total_split f before b after)

-- Steps of any contexts in any order.
pub data Steps (h : Heap) : Heap → Type 0 where
  begin : Steps h h
  more : {t u : Heap} → Steps h t → HeapStep t u → Steps h u

pub record IsCounted (h : Heap) : Type 0 where
  pub bytes : h.memory.used_memory ≡ total (λ b. b.size) h.live % 2 ^ 64
  pub blocks : h.memory.used_block ≡ total (λ b. 1) h.live % 2 ^ 64

malloc-IsCounted : (b : Block) (h : Heap) → IsCounted h → IsCounted (malloc b h)
unfolding malloc fill_prefix total
malloc-IsCounted b h c = record { bytes = omega (arith, c.bytes); blocks = omega (arith, c.blocks) }

clean-IsCounted :
    (m : Memory) (before : List Block) (b : Block) (after : List Block)
    → b.size < 2 ^ 64
    → IsCounted (record { memory = m; live = before ++ b ∷ after })
    → IsCounted (record { memory = clean_prefix b.owner b.size m; live = before ++ after })
unfolding clean_prefix
clean-IsCounted m before b after s c = record {
  bytes = omega (arith, c.bytes, s, total_split (λ x. x.size) before b after);
  blocks = omega (arith, c.blocks, total_split (λ x. 1) before b after);
}

-- After any steps of any contexts, the counters tell the sizes of all blocks in use together and how many
-- they are, as a `size_t`.
pub Steps-IsCounted : {h : Heap} → Steps empty_heap h → IsCounted h
unfolding total
Steps-IsCounted begin = record { bytes = omega arith; blocks = omega arith }
Steps-IsCounted (more r (allocated h b s)) = malloc-IsCounted b h (Steps-IsCounted r)
Steps-IsCounted (more r (freed m before b after s)) =
    clean-IsCounted m before b after s (Steps-IsCounted r)
Steps-IsCounted (more r (moved m before b c after s l)) =
    malloc-IsCounted c _ (clean-IsCounted m before b after s (Steps-IsCounted r))
