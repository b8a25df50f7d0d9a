-- ===== src/Memory.antt =====
-- rednet-src/umemory_hook.cc: the counters of the memory in use, in all and by context. The allocator is
-- a library's: the usable size of a block that it returns is an argument. Each method is one step; no other
-- thread changes the entry of a context between its reads and writes.
pub mod Totals
pub mod Owned
pub mod Tests
use rednet.Common.{
  ℕ, zero, suc, ◌+◌, ◌-◌, ◌%◌, ◌^◌, ◌<◌, ◌||◌, List, [], ◌∷◌, ◌++◌, Bool, true, false,
  if◌then◌else◌, ◌==◌, update,
}
use rednet.Common.Int.{ℤ, pos, negsuc, ◌+ℤ◌, ◌-ℤ◌}

-- mem_info
pub record MemInfo : Type 0 where
  pub context_id : ℕ
  pub memory_used : ℤ

pub record Memory : Type 0 where
  pub used_memory : ℕ
  pub used_block : ℕ
  pub memory_blocks : ℕ → MemInfo

abbrev pub memory_black_max : ℕ
memory_black_max = 2 ^ 16

-- the entry of a context
abbrev pub hash : ℕ → ℕ
hash context_id = context_id % memory_black_max

abbrev pub is_positive : ℤ → Bool
is_positive (pos zero) = false
is_positive (pos (suc n)) = true
is_positive (negsuc n) = false

abbrev pub at_least_zero : ℤ → ℤ
at_least_zero (pos n) = pos n
at_least_zero (negsuc n) = pos 0

-- The entry as `get_meminfo` leaves it: one that nobody uses goes to the context.
unfoldable pub claim : ℕ → MemInfo → MemInfo
claim id info =
    if info.context_id == 0
    then record { context_id = id; memory_used = at_least_zero info.memory_used }
    else if is_positive info.memory_used
    then info
    else record { context_id = id; memory_used = at_least_zero info.memory_used }

-- `get_meminfo`, with the change of the counter if the entry is that of the context
unfoldable pub count_in : (ℤ → ℤ) → ℕ → MemInfo → MemInfo
count_in change id info =
    let own = claim id info in
    if own.context_id == id then record own { memory_used = change own.memory_used } else own

abbrev pub with_info : (ℤ → ℤ) → ℕ → Memory → Memory
with_info change id m = record m {
  memory_blocks = update m.memory_blocks (hash id) (count_in change id (m.memory_blocks (hash id)));
}

-- the counters of all memory
abbrev pub count_up : ℕ → Memory → Memory
count_up sz m = record m {
  used_memory = (m.used_memory + sz) % 2 ^ 64;
  used_block = (m.used_block + 1) % 2 ^ 64;
}

abbrev pub count_down : ℕ → Memory → Memory
count_down sz m = record m {
  used_memory = (m.used_memory + 2 ^ 64 - sz) % 2 ^ 64;
  used_block = (m.used_block + 2 ^ 64 - 1) % 2 ^ 64;
}

-- `fill_prefix` with `update_meminfo`, for a block of the context
unfoldable pub fill_prefix : ℕ → ℕ → Memory → Memory
fill_prefix id sz m = with_info (λ u. u +ℤ pos sz) id (count_up sz m)

unfoldable pub clean_prefix : ℕ → ℕ → Memory → Memory
clean_prefix id sz m = with_info (λ u. u -ℤ pos sz) id (count_down sz m)

-- a block in use, with the context of its cookie
pub record Block : Type 0 where
  pub owner : ℕ
  pub size : ℕ

pub record Heap : Type 0 where
  pub memory : Memory
  pub live : List Block

-- `malloc`, which `calloc` and `strdup` are but for the bytes, by a context
unfoldable pub malloc : Block → Heap → Heap
malloc b h = record { memory = fill_prefix b.owner b.size h.memory; live = b ∷ h.live }

-- `malloc` by any context, `free` of any block, and `realloc` of any block to one of another size
pub data HeapStep : Heap → Heap → Type 0 where
  allocated : (h : Heap) (b : Block) → b.size < 2 ^ 64 → HeapStep h (malloc b h)
  freed :
      (m : Memory) (before : List Block) (b : Block) (after : List Block)
      → b.size < 2 ^ 64
      → HeapStep
          (record { memory = m; live = before ++ b ∷ after })
          (record { memory = clean_prefix b.owner b.size m; live = before ++ after })
  moved :
      (m : Memory) (before : List Block) (b c : Block) (after : List Block)
      → b.size < 2 ^ 64
      → c.size < 2 ^ 64
      → HeapStep
          (record { memory = m; live = before ++ b ∷ after })
          (malloc c (record { memory = clean_prefix b.owner b.size m; live = before ++ after }))

-- the static counters
abbrev pub no_memory : Memory
no_memory = record {
  used_memory = 0;
  used_block = 0;
  memory_blocks = λ i. record { context_id = 0; memory_used = pos 0 };
}

abbrev pub empty_heap : Heap
empty_heap = record { memory = no_memory; live = [] }
