-- ===== src/Memory/Owned.antt =====
-- The counter of a context whose entry no other context shares is exact.
use Prim.{Unit, tt}
use rednet.Common.{
  ℕ, zero, suc, ◌+◌, ◌<◌, ◌≡◌, refl, ap, sym, subst, ◌∙◌, true, false, List, [], ◌∷◌, ◌++◌, arith,
  Bool-cases, inl, inr, if◌then◌else◌, ◌==◌, update_self, update_ne,
}
use rednet.Common.Int.{ℤ, pos, ◌+ℤ◌, ◌-ℤ◌}
use rednet.Memory.{
  MemInfo, Memory, hash, claim, count_in, with_info, count_up, count_down, fill_prefix,
  clean_prefix, Block, Heap, malloc, HeapStep, allocated, freed, moved, empty_heap,
}
use rednet.Memory.Totals.{total, total_split}

-- the part of a context in the blocks
abbrev pub mine : ℕ → Block → ℕ
mine k b = if b.owner == k then b.size else 0

-- the blocks at the entry of the context are its own
abbrev pub AllAlone : ℕ → List Block → Type 0
AllAlone k [] = Unit
AllAlone k (b ∷ bs) = (hash b.owner ≡ hash k → b.owner ≡ k) × AllAlone k bs

-- Steps of any contexts, none of which shares the entry of `k`.
pub data StepsBeside (k : ℕ) (h : Heap) : Heap → Type 0 where
  begin : StepsBeside k h h
  more : {t u : Heap} → StepsBeside k h t → HeapStep t u → AllAlone k u.live → StepsBeside k h u

abbrev entry : ℕ → ℕ → MemInfo
entry ctx n = record { context_id = ctx; memory_used = pos n }

claim_lem : (k ctx n : ℕ) → (0 < n → ctx ≡ k) → claim k (entry ctx n) ≡ entry k n
unfolding claim
claim_lem k ctx zero h = elim (Bool-cases (ctx == 0)) [ inl e ↦ rw e refl | inr e ↦ rw e refl ]
claim_lem k ctx (suc n) h =
    let own : ctx ≡ k = h (omega arith) in
    elim (Bool-cases (ctx == 0)) [
      | inl e ↦ rw e refl
      | inr e ↦ rw e (ap (λ c. entry c (suc n)) own)
    ]

count_in_lem :
    (change : ℤ → ℤ) (k ctx n r : ℕ)
    → (0 < n → ctx ≡ k)
    → change (pos n) ≡ pos r
    → count_in change k (entry ctx n) ≡ entry k r
unfolding count_in
count_in_lem change k ctx n r h e =
    let same : (k == k) ≡ true = ground arith in
    rw (claim_lem k ctx n h, same) (ap (λ u. record { context_id = k; memory_used = u }) e)

pub record IsOwned (k : ℕ) (m : Memory) (live : List Block) : Type 0 where
  pub used : (m.memory_blocks (hash k)).memory_used ≡ pos (total (mine k) live)
  pub owner : 0 < total (mine k) live → (m.memory_blocks (hash k)).context_id ≡ k

plus_pos : (a b : ℕ) → pos a +ℤ pos b ≡ pos (a + b)
unfolding ◌+ℤ◌
plus_pos a b = ground arith

minus_pos : (a b : ℕ) → pos (a + b) -ℤ pos b ≡ pos a
unfolding ◌-ℤ◌
minus_pos a b = ground arith

-- a change of the entry of `k` itself
own_change :
    (change : ℤ → ℤ) (k r : ℕ) (m : Memory) (live : List Block)
    → IsOwned k m live
    → change (pos (total (mine k) live)) ≡ pos r
    → (with_info change k m).memory_blocks (hash k) ≡ entry k r
own_change change k r m live o e =
    let info = m.memory_blocks (hash k) in
    let shown : entry info.context_id (total (mine k) live) ≡ info =
      λ i. record { context_id = info.context_id; memory_used = sym o.used i } in
    update_self m.memory_blocks (hash k) (count_in change k info)
    ∙ ap (count_in change k) (sym shown)
    ∙ count_in_lem change k info.context_id (total (mine k) live) r o.owner e

entry-IsOwned :
    (k r : ℕ) (m : Memory) (live : List Block)
    → m.memory_blocks (hash k) ≡ entry k r
    → r ≡ total (mine k) live
    → IsOwned k m live
entry-IsOwned k r m live e s = record {
  used = ap (λ (i : MemInfo). i.memory_used) e ∙ ap (λ n. pos n) s;
  owner = λ h. ap (λ (i : MemInfo). i.context_id) e;
}

-- a change of another entry
other_change :
    (change : ℤ → ℤ) (k j : ℕ) (m : Memory) (live rest : List Block)
    → (hash j == hash k) ≡ false
    → total (mine k) rest ≡ total (mine k) live
    → IsOwned k m live
    → IsOwned k (with_info change j m) rest
other_change change k j m live rest n e o =
    let kept =
      update_ne m.memory_blocks (hash j) (count_in change j (m.memory_blocks (hash j))) (hash k)
        n in
    record {
      used = ap (λ (i : MemInfo). i.memory_used) kept ∙ o.used ∙ ap (λ n. pos n) (sym e);
      owner = λ h. ap (λ (i : MemInfo). i.context_id) kept ∙ o.owner (omega (arith, e));
    }

apart : (k : ℕ) (b : Block) → (hash b.owner == hash k) ≡ false → mine k b ≡ 0
apart k b n = elim (Bool-cases (b.owner == k)) [
  | inr e ↦ rw e refl
  | inl e ↦
      let at : b.owner ≡ k = ground arith in
      let same : hash b.owner ≡ hash k = ap hash at in absurd (ground arith)
]

own_size : (k : ℕ) (b : Block) → b.owner ≡ k → mine k b ≡ b.size
own_size k b e = let h : (b.owner == k) ≡ true = ground arith in rw h refl

filled :
    (k sz : ℕ) (m : Memory) (live : List Block)
    → IsOwned k m live
    → (fill_prefix k sz m).memory_blocks (hash k) ≡ entry k (total (mine k) live + sz)
unfolding fill_prefix
filled k sz m live o =
    own_change (λ u. u +ℤ pos sz) k (total (mine k) live + sz) (count_up sz m) live
      (record { used = o.used; owner = o.owner }) (plus_pos (total (mine k) live) sz)

cleaned :
    (k sz n : ℕ) (m : Memory) (live : List Block)
    → total (mine k) live ≡ n + sz
    → IsOwned k m live
    → (clean_prefix k sz m).memory_blocks (hash k) ≡ entry k n
unfolding clean_prefix
cleaned k sz n m live e o =
    own_change (λ u. u -ℤ pos sz) k n (count_down sz m) live
      (record { used = o.used; owner = o.owner }) (ap (λ t. pos t -ℤ pos sz) e ∙ minus_pos n sz)

malloc-IsOwned :
    (k : ℕ) (b : Block) (h : Heap)
    → (hash b.owner ≡ hash k → b.owner ≡ k)
    → IsOwned k h.memory h.live
    → IsOwned k (malloc b h).memory (malloc b h).live
unfolding malloc fill_prefix total
malloc-IsOwned k b h alone o = elim (Bool-cases (hash b.owner == hash k)) [
  | inr n ↦
      other_change (λ u. u +ℤ pos b.size) k b.owner (count_up b.size h.memory) h.live (b ∷ h.live) n
        (omega (arith, apart k b n)) (record { used = o.used; owner = o.owner })
  | inl y ↦
      let at : b.owner ≡ k = alone (ground arith) in
      entry-IsOwned k (total (mine k) h.live + b.size) _ (b ∷ h.live)
        (subst
          (λ j.
            (fill_prefix j b.size h.memory).memory_blocks (hash k)
            ≡ entry k (total (mine k) h.live + b.size))
          (sym at) (filled k b.size h.memory h.live o))
        (omega (arith, own_size k b at))
]

free-IsOwned :
    (k : ℕ) (m : Memory) (before : List Block) (b : Block) (after : List Block)
    → (hash b.owner ≡ hash k → b.owner ≡ k)
    → IsOwned k m (before ++ b ∷ after)
    → IsOwned k (clean_prefix b.owner b.size m) (before ++ after)
unfolding clean_prefix
free-IsOwned k m before b after alone o = elim (Bool-cases (hash b.owner == hash k)) [
  | inr n ↦
      other_change (λ u. u -ℤ pos b.size) k b.owner (count_down b.size m) (before ++ b ∷ after)
        (before ++ after) n (omega (arith, apart k b n, total_split (mine k) before b after))
        (record { used = o.used; owner = o.owner })
  | inl y ↦
      let at : b.owner ≡ k = alone (ground arith) in
      let sum : total (mine k) (before ++ b ∷ after) ≡ total (mine k) (before ++ after) + b.size =
        omega (arith, own_size k b at, total_split (mine k) before b after) in
      entry-IsOwned k (total (mine k) (before ++ after)) _ (before ++ after)
        (subst
          (λ j.
            (clean_prefix j b.size m).memory_blocks (hash k)
            ≡ entry k (total (mine k) (before ++ after)))
          (sym at)
          (cleaned k b.size (total (mine k) (before ++ after)) m (before ++ b ∷ after) sum o))
        refl
]

alone_at :
    (k : ℕ) (before : List Block) (b : Block) (after : List Block)
    → AllAlone k (before ++ b ∷ after)
    → hash b.owner ≡ hash k
    → b.owner ≡ k
alone_at k [] b after a = a.0
alone_at k (x ∷ before) b after a = alone_at k before b after a.1

-- the owners of the blocks before a step
was_alone : {k : ℕ} {h t : Heap} → StepsBeside k h t → AllAlone k h.live → AllAlone k t.live
was_alone begin a = a
was_alone (more r s b) a = b

-- After any steps of any contexts, none of which has the entry of the context `k`: its counter tells the
-- sizes of its blocks in use together, and while there are any the entry is its own.
pub StepsBeside-IsOwned :
    (k : ℕ) {h : Heap} → StepsBeside k empty_heap h → IsOwned k h.memory h.live
unfolding total malloc
StepsBeside-IsOwned k begin = record { used = refl; owner = λ h. absurd (omega arith) }
StepsBeside-IsOwned k (more r (allocated h b s) a) =
    malloc-IsOwned k b h a.0 (StepsBeside-IsOwned k r)
StepsBeside-IsOwned k (more r (freed m before b after s) a) =
    free-IsOwned k m before b after (alone_at k before b after (was_alone r tt))
      (StepsBeside-IsOwned k r)
StepsBeside-IsOwned k (more r (moved m before b c after s l) a) = malloc-IsOwned k c _ a.0 (
    free-IsOwned k m before b after (alone_at k before b after (was_alone r tt))
      (StepsBeside-IsOwned k r))
