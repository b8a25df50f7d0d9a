-- ===== src/NetDrive/Tests.antt =====
-- The sockets of rednet-src/unetdrive.cc in concrete runs.
use rednet.Common.{
  ℕ, ◌≡◌, ◌≢◌, refl, true, List, [], ◌∷◌, none, some, arith, replicate, length, length-replicate,
}
use rednet.NetDrive.{
  NetSocket, NetDrive, new_socket, insert, grab, erase, copied, read, clone, end_accept, on_open,
  on_close, check, waiting, overread, on_data,
}
use rednet.NetDrive.Sockets.{read_lem}
use rednet.NetDrive.Receive.{on_data-overread, on_data-waiting}

abbrev linked : List ℕ → ℕ → NetSocket
linked bytes recv = record (new_socket 3 0) { connected = true; buffer = bytes; on_recv = recv }

abbrev seven : ℕ
seven = 7

abbrev many : List ℕ
many = replicate 5000 seven

many_size : length many ≡ 5000
many_size = length-replicate 5000 seven

-- four bytes wait, and the caller has room for two
read_lem_example :
    (after : NetDrive) × (read 3 2 (linked (1 ∷ 2 ∷ 3 ∷ 4 ∷ []) 0 ∷ [])
      ≡ copied (1 ∷ 2 ∷ 3 ∷ 4 ∷ []) after)
    × (grab after 3 ≡ some (linked [] 0))
    × ((other : ℕ) → other ≢ 3 → grab after other ≡ grab (linked (1 ∷ 2 ∷ 3 ∷ 4 ∷ []) 0 ∷ []) other)
unfolding grab
read_lem_example =
    read_lem 3 2 (linked (1 ∷ 2 ∷ 3 ∷ 4 ∷ []) 0 ∷ []) (linked (1 ∷ 2 ∷ 3 ∷ 4 ∷ []) 0) refl
      (omega arith) (omega arith) (omega arith) (omega arith)

on_data-overread_example : on_data 2 clone 3 many (linked [] 1 ∷ []) ≡ overread
unfolding grab insert clone
on_data-overread_example =
    on_data-overread clone 3 many (linked [] 1 ∷ []) (linked [] 1) refl refl 0 (linked [] 1) refl
      (λ e. absurd (omega arith)) (omega (arith, many_size)) (omega (arith, many_size)) refl refl
      refl

on_data-waiting_example : on_data 1000 clone 3 many (linked [] 0 ∷ []) ≡ waiting
unfolding grab
on_data-waiting_example =
    on_data-waiting clone 3 many 1000 (linked [] 0 ∷ []) (linked [] 0) refl refl refl (omega arith)
      (omega (arith, many_size))

-- a connection that opens, gets bytes and closes
session_run : check 3 (on_open (λ f d. d) 3 (end_accept 3 9 [])) ≡ none
unfolding check on_open end_accept grab insert
session_run = refl

closed_run : grab (on_close (λ f d. d) 3 (linked [] 0 ∷ [])) 3 ≡ none
unfolding on_close grab insert erase
closed_run = refl
