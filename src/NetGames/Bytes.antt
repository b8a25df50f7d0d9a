-- ===== src/NetGames/Bytes.antt =====
-- The bytes of a buffer after a write.

use rednet.Common.{
  ℕ, zero, suc, ◌+◌, ◌≤◌, ◌<◌, ◌≡◌, refl, ap, ◌∙◌, List, [], ◌∷◌, length, take, drop, get_or, arith,
}
use rednet.NetGames.Replies.{overlay, put_at}

length-overlay : (bs mem : List ℕ) → length (overlay bs mem) ≡ length mem
unfolding overlay
length-overlay [] mem = refl
length-overlay (b ∷ bs) [] = refl
length-overlay (b ∷ bs) (m ∷ mem) = ap (λ n. suc n) (length-overlay bs mem)

pub length-put_at : (n : ℕ) (bs mem : List ℕ) → length (put_at n bs mem) ≡ length mem
unfolding put_at
length-put_at zero bs mem = length-overlay bs mem
length-put_at (suc n) bs [] = refl
length-put_at (suc n) bs (m ∷ mem) = ap (λ n. suc n) (length-put_at n bs mem)

get_or-overlay :
    (bs mem : List ℕ) (i : ℕ)
    → i < length bs
    → length bs ≤ length mem
    → get_or (overlay bs mem) i 0 ≡ get_or bs i 0
unfolding overlay
get_or-overlay [] mem i h l = absurd (omega arith)
get_or-overlay (b ∷ bs) [] i h l = absurd (omega arith)
get_or-overlay (b ∷ bs) (m ∷ mem) zero h l = refl
get_or-overlay (b ∷ bs) (m ∷ mem) (suc i) h l = get_or-overlay bs mem i (omega arith) (omega arith)

-- a byte of what was written
pub get_or-put_at :
    (n : ℕ) (bs mem : List ℕ) (i : ℕ)
    → i < length bs
    → n + length bs ≤ length mem
    → get_or (put_at n bs mem) (n + i) 0 ≡ get_or bs i 0
unfolding put_at
get_or-put_at zero bs mem i h l =
    ap (λ j. get_or (overlay bs mem) j 0) (omega arith) ∙ get_or-overlay bs mem i h (omega arith)
get_or-put_at (suc n) bs [] i h l = absurd (omega arith)
get_or-put_at (suc n) bs (m ∷ mem) i h l =
    ap (λ j. get_or (m ∷ put_at n bs mem) j 0) {x = suc n + i} {y = suc (n + i)} (omega arith)
    ∙ get_or-put_at n bs mem i h (omega arith)

-- a byte before it
pub put_at-before :
    (n : ℕ) (bs mem : List ℕ) (i : ℕ) → i < n → get_or (put_at n bs mem) i 0 ≡ get_or mem i 0
unfolding put_at
put_at-before zero bs mem i h = absurd (omega arith)
put_at-before (suc n) bs [] i h = refl
put_at-before (suc n) bs (m ∷ mem) zero h = refl
put_at-before (suc n) bs (m ∷ mem) (suc i) h = put_at-before n bs mem i (omega arith)

pub get_or-take : (n : ℕ) (xs : List ℕ) (i : ℕ) → i < n → get_or (take n xs) i 0 ≡ get_or xs i 0
get_or-take zero xs i h = absurd (omega arith)
get_or-take (suc n) [] i h = refl
get_or-take (suc n) (x ∷ xs) zero h = refl
get_or-take (suc n) (x ∷ xs) (suc i) h = get_or-take n xs i (omega arith)

pub get_or-drop : (n : ℕ) (xs : List ℕ) (i : ℕ) → get_or (drop n xs) i 0 ≡ get_or xs (n + i) 0
get_or-drop zero xs i = ap (λ j. get_or xs j 0) (omega arith)
get_or-drop (suc n) [] i = refl
get_or-drop (suc n) (x ∷ xs) i =
    get_or-drop n xs i
    ∙ ap (λ j. get_or (x ∷ xs) j 0) {x = suc (n + i)} {y = suc n + i} (omega arith)
