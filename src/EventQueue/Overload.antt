-- ===== src/EventQueue/Overload.antt =====
-- The overload threshold: doubling it ends, above the length and below its double.
use rednet.Common.{ℕ, zero, suc, ◌+◌, ◌*◌, ◌<◌, ◌≤◌, ◌≡◌, ◌⊎◌, arith, inl, refl}
use rednet.EventQueue.{EventQueue, length, raise_threshold, note_overload}

-- The threshold ends at or above the length. Either it was there before, and nothing is noted, or
-- the length is noted and the threshold stays below twice the length.
pub raise_threshold_lem :
    (f n overload threshold : ℕ)
    → 0 < threshold
    → n < threshold + f
    → let (o, t) = raise_threshold f n overload threshold in
      (n ≤ t)
      × ((n ≤ threshold) × (t ≡ threshold) × (o ≡ overload)
          ⊎ (threshold < n) × (t < 2 * n) × (o ≡ n))
unfolding raise_threshold
raise_threshold_lem zero n overload threshold p h = (omega arith, inl (omega arith, refl, refl))
raise_threshold_lem (suc f) n overload threshold p h =
    ground (arith, raise_threshold_lem f n n (threshold * 2) (omega arith))

-- After a `pop` that took an event the threshold is at or above the number of events left, and what
-- `overload()` will report is that number if it went beyond the threshold, and what was noted before
-- otherwise.
pub note_overload_lem :
    (q : EventQueue)
    → 0 < q.overload_threshold
    → let r = note_overload q in
      (length q ≤ r.overload_threshold)
      × ((length q ≤ q.overload_threshold)
            × (r.overload_threshold ≡ q.overload_threshold)
            × (r.overload ≡ q.overload)
          ⊎ (q.overload_threshold < length q)
            × (r.overload_threshold < 2 * length q)
            × (r.overload ≡ length q))
unfolding note_overload
note_overload_lem q h =
    raise_threshold_lem (length q + 1) (length q) q.overload q.overload_threshold h (omega arith)
