-- ===== src/Common/Tables.antt =====
-- Tables as functions of an index.
use Prim.Native.Nat.{ℕ}
use mathlib.Core.Path.{◌≡◌}
use mathlib.Core.Bool.{true, false}
use native.Mathlib.Omega.{arith}
use rednet.Common.Tests.{◌==◌, if◌then◌else◌}

unfoldable pub update {ℓ} : {A : Type ℓ} → (ℕ → A) → ℕ → A → ℕ → A
update f i a j = if j == i then a else f j

pub update_self {ℓ} : {A : Type ℓ} (f : ℕ → A) (i : ℕ) (a : A) → update f i a i ≡ a
unfolding update
update_self f i a = let e : (i == i) ≡ true = ground arith in rw e

pub update_ne {ℓ} :
    {A : Type ℓ} (f : ℕ → A) (i : ℕ) (a : A) (j : ℕ) → (i == j) ≡ false → update f i a j ≡ f j
unfolding update
update_ne f i a j h = let e : (j == i) ≡ false = ground arith in rw e
