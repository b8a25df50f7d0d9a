-- ===== src/SocketServer/Reserve.antt =====
-- The ids that `reserveId` gives.
use rednet.Common.{
  ℕ, zero, suc, ◌+◌, ◌-◌, ◌%◌, ◌^◌, ◌<◌, ◌≡◌, refl, ap, sym, ◌∙◌, true, false, Option, none, some,
  arith, Bool-cases, inl, inr, update,
}
use rednet.Socket.{reserve, is_null, protocol_unknown}
use rednet.SocketServer.{Server, max_socket, place_of, sock_of, is_invalid}
use rednet.SocketServer.Calls.{next_id, reserve_rounds, reserve_id}

next_lt : (a : ℕ) → next_id a < 2 ^ 31
next_lt a = grind arith

-- the ids go through the places one after the other, also where the counter wraps
next_place : (a : ℕ) → place_of (next_id a) ≡ (a + 1) % 2 ^ 16
next_place a = grind arith

-- What `reserveId` comes to: an id below 2^31 whose place was free, and is now reserved for it, while no
-- other place changed; or no place changed.
abbrev pub Reserved : Server → Option ℕ × Server → Type 0
Reserved v (none, w) = w.socks ≡ v.socks
Reserved v (some id, w) =
    (id < 2 ^ 31)
    × (is_invalid (sock_of v id).status ≡ true)
    × (w.socks
        ≡ update v.socks (place_of id) (record (sock_of v id) {
          id = id;
          protocol = protocol_unknown;
          sck = none;
          status = reserve;
        }))

rounds-Reserved : (n : ℕ) (v : Server) → Reserved v (reserve_rounds n v)
unfolding reserve_rounds
rounds-Reserved zero v = refl
rounds-Reserved (suc n) v =
    let later = rounds-Reserved n (record v { alloc = next_id v.alloc }) in
    elim (Bool-cases (is_invalid (sock_of v (next_id v.alloc)).status)) [
      | inl e ↦ rw e (next_lt v.alloc, e, refl)
      | inr e ↦ rw e later
    ]

-- `reserveId` changes the place of its id only, which was free.
pub reserve_id-Reserved : (v : Server) → Reserved v (reserve_id v)
unfolding reserve_id
reserve_id-Reserved v = rounds-Reserved max_socket v

rounds_find :
    (n k : ℕ) (v : Server)
    → k < n
    → is_invalid (v.socks ((v.alloc + 1 + k) % 2 ^ 16)).status ≡ true
    → is_null (reserve_rounds n v).0 ≡ false
unfolding reserve_rounds
rounds_find zero k v l h = absurd (omega arith)
rounds_find (suc n) zero v l h =
    let near : (v.alloc + 1 + zero) % 2 ^ 16 ≡ place_of (next_id v.alloc) =
      omega (arith, next_place v.alloc) in
    let free : is_invalid (sock_of v (next_id v.alloc)).status ≡ true =
      ap (λ q. is_invalid (v.socks q).status) (sym near) ∙ h in
    rw free refl
rounds_find (suc n) (suc k) v l h =
    let w = record v { alloc = next_id v.alloc } in
    let near : (next_id v.alloc + 1 + k) % 2 ^ 16 ≡ (v.alloc + 1 + suc k) % 2 ^ 16 =
      grind (arith, next_place v.alloc) in
    let later =
      rounds_find n k w (omega arith) (ap (λ q. is_invalid (v.socks q).status) near ∙ h) in
    elim (Bool-cases (is_invalid (sock_of v (next_id v.alloc)).status)) [
      | inl e ↦ rw e refl
      | inr e ↦ rw e later
    ]

-- `reserveId` gives an id whenever a place is free, whatever the counter is: its 65,536 rounds come by
-- every place.
pub reserve_id-finds :
    (v : Server) (p : ℕ)
    → p < 2 ^ 16
    → is_invalid (v.socks p).status ≡ true
    → is_null (reserve_id v).0 ≡ false
unfolding reserve_id
reserve_id-finds v p l h =
    let k = (p + 2 ^ 16 - (v.alloc + 1) % 2 ^ 16) % 2 ^ 16 in
    let at : (v.alloc + 1 + k) % 2 ^ 16 ≡ p = omega arith in
    rounds_find max_socket k v (omega arith) (ap (λ q. is_invalid (v.socks q).status) at ∙ h)
