-- ===== src/LuaSeri/Pack/Total.antt =====
-- `luaseri_pack` as a whole.
use native.Mathlib.Decide.{dec_le}
use rednet.Common.{
  ◌^◌, ◌<◌, ◌≤◌, length, leb, false, if◌then◌else◌, arith, ℕ, ◌≡◌, ap, true, List, ◌≢◌, ◌↔◌,
  Bool-cases, inl, inr,
}
use rednet.LuaSeri.Value.{Value}
use rednet.LuaSeri.Block.{fresh, serialize}
use rednet.LuaSeri.Block.Append.{serialize-contents, fresh-IsValid}
use rednet.LuaSeri.Pack.{
  Outcome, packed, too_deep, unsupported, Packed, stream, depth_error, type_error, len_overflow,
  delivered, luaseri_pack,
}
use rednet.LuaSeri.Pack.Encode.{encode_all, all_packable, all_short, Packs}
use rednet.LuaSeri.Pack.Correct.{pack_from-Packs}
use rednet.LuaSeri.Pack.Errors.{Fails, pack_from-Fails}

-- what `luaseri_pack` returns for the outcome of `packFrom`
deliver : Outcome → Packed
deliver o = elim o [
  | packed w ↦ if leb (2 ^ 31) w.len then len_overflow else delivered (serialize w)
  | too_deep ↦ depth_error
  | unsupported ↦ type_error
]

deliver-stream :
    (bytes : List ℕ) (o : Outcome)
    → Packs fresh bytes o
    → length bytes < 2 ^ 31
    → deliver o ≡ stream bytes
unfolding deliver
deliver-stream bytes (packed w) p l =
    let inside : leb (2 ^ 31) w.len ≡ false = ground (arith, p.valid.total, ap length p.bytes) in
    rw (inside, serialize-contents w p.valid) (ap stream p.bytes)
deliver-stream bytes too_deep p l = absurd p
deliver-stream bytes unsupported p l = absurd p

deliver-long :
    (bytes out : List ℕ) (o : Outcome)
    → Packs fresh bytes o
    → 2 ^ 31 ≤ length bytes
    → deliver o ≢ stream out
unfolding deliver
deliver-long bytes out (packed w) p l e =
    let above : leb (2 ^ 31) w.len ≡ true = ground (arith, p.valid.total, ap length p.bytes) in
    let no : len_overflow ≡ stream out = simp above at e in absurd cc
deliver-long bytes out too_deep p l e = absurd p
deliver-long bytes out unsupported p l e = absurd p

deliver-ne : (bytes : List ℕ) (o : Outcome) → Fails o → deliver o ≢ stream bytes
unfolding deliver
deliver-ne bytes (packed w) p = absurd p
deliver-ne bytes too_deep p = λ e. cc
deliver-ne bytes unsupported p = λ e. cc

-- Let every string of the arguments, and every array part, be shorter than 2^31. Then `luaseri_pack`
-- returns a stream exactly when every argument is packable and their encoding has less than 2^31 bytes,
-- and the stream is the encoding.
pub luaseri_pack-eq_iff :
    (xs : List Value) (bytes : List ℕ)
    → all_short xs ≡ true
    → (luaseri_pack xs ≡ stream bytes)
      ↔ (all_packable xs ≡ true) × (bytes ≡ encode_all xs) × (length bytes < 2 ^ 31)
unfolding luaseri_pack deliver
luaseri_pack-eq_iff xs bytes q = elim (Bool-cases (all_packable xs)) [
  | inl ok ↦
      let all = pack_from-Packs xs fresh fresh-IsValid ok q in
      elim (dec_le (2 ^ 31) (length (encode_all xs))) [
        | yes long ↦ (
          λ h. absurd (deliver-long _ bytes _ all long h),
          λ h. absurd (omega (arith, long, ap length h.1, h.2)),
        )
        | no fits ↦
            let p = deliver-stream _ _ all (omega (arith, fits)) in
            (
              λ h.
                  let same : bytes ≡ encode_all xs = cc in
                  (ok, same, omega (arith, fits, ap length same)),
              λ h. rw h.1 p,
            )
      ]
  | inr bad ↦ (λ h. absurd (deliver-ne bytes _ (pack_from-Fails xs fresh bad) h), λ h. cc)
]
