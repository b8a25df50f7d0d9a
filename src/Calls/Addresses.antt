-- ===== src/Calls/Addresses.antt =====
-- rednet-src/ucall.h and ucall.cc: `toAddr` and `addrTo`.
use rednet.Common.{
  ℕ, ◌+◌, ◌*◌, ◌/◌, ◌%◌, ◌^◌, ◌≤◌, ◌<◌, ◌≡◌, refl, ap, ◌∙◌, List, [], ◌∷◌, map, arith, length,
}
use rednet.ContextMgr.{ContextMgr}
use rednet.Calls.{hex, hex_digits, to_addr, addr_to}

-- the number with the digits in base 16, after those that make `n`
abbrev pub value : ℕ → List ℕ → ℕ
value n [] = n
value n (d ∷ ds) = value (n * 16 + d) ds

abbrev pub AreDigits : List ℕ → Type 0
AreDigits [] = ◌≡◌ {A = ℕ} 0 0
AreDigits (d ∷ ds) = (d < 16) × AreDigits ds

small : (n : ℕ) → n % 16 < 16
small n = omega arith

module _ (strtoul : List ℕ → ℕ)
    (reads : (ds : List ℕ)
      → AreDigits ds
      → length ds ≤ 16
      → strtoul (map hex ds) ≡ value 0 ds) where
  -- Where `strtoul` reads texts of up to 16 digits in base 16, `addrTo` gives the id of the address that
  -- `toAddr` writes, for any id of 32 bits.
  pub addr_to-to_addr :
      (id : ℕ) (m : ContextMgr) → id < 2 ^ 32 → addr_to strtoul (to_addr id) m ≡ id
  unfolding addr_to to_addr hex_digits
  addr_to-to_addr id m l =
      let ds =
        id / 2 ^ 28 % 16
        ∷ id / 2 ^ 24 % 16
        ∷ id / 2 ^ 20 % 16
        ∷ id / 2 ^ 16 % 16
        ∷ id / 2 ^ 12 % 16
        ∷ id / 2 ^ 8 % 16
        ∷ id / 2 ^ 4 % 16
        ∷ id / 2 ^ 0 % 16
        ∷ [] in
      let digits : AreDigits ds = (
        small (id / 2 ^ 28),
        (
          small (id / 2 ^ 24),
          (
            small (id / 2 ^ 20),
            (
              small (id / 2 ^ 16),
              (
                small (id / 2 ^ 12),
                (small (id / 2 ^ 8), (small (id / 2 ^ 4), (small (id / 2 ^ 0), refl))),
              ),
            ),
          ),
        ),
      ) in
      ap (λ k. k % 2 ^ 32) (reads ds digits (omega arith)) ∙ omega arith
