-- ===== src/LuaSeri/Word.antt =====
-- The `memcpy` of an unsigned word to and from the stream, on a little-endian machine.
use rednet.Common.{
  ℕ, zero, suc, ◌+◌, ◌*◌, ◌/◌, ◌%◌, ◌<◌, ◌≡◌, refl, ap, List, [], ◌∷◌, arith, length,
}

unfoldable pub to_bytes : ℕ → ℕ → List ℕ
to_bytes zero x = []
to_bytes (suc k) x = (x % 256) ∷ to_bytes k (x / 256)

unfoldable pub from_bytes : List ℕ → ℕ
from_bytes [] = 0
from_bytes (b ∷ bs) = b + 256 * from_bytes bs

-- the number of values of a word of `k` bytes
abbrev pub span : ℕ → ℕ
span zero = 1
span (suc k) = 256 * span k

pub length-to_bytes : (k x : ℕ) → length (to_bytes k x) ≡ k
unfolding to_bytes
length-to_bytes zero x = refl
length-to_bytes (suc k) x = ap suc (length-to_bytes k (x / 256))

pub from_bytes-to_bytes : (k x : ℕ) → x < span k → from_bytes (to_bytes k x) ≡ x
unfolding to_bytes from_bytes
from_bytes-to_bytes zero x h = omega arith
from_bytes-to_bytes (suc k) x h = omega (arith, from_bytes-to_bytes k (x / 256) (omega arith))
