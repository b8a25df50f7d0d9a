-- ===== src/NetGames/Heads.antt =====
-- The head of each reply, and the user's id in that of a login.

use rednet.Common.{
  ℕ, ◌+◌, ◌*◌, ◌%◌, ◌^◌, ◌≤◌, ◌<◌, ◌≡◌, refl, ap₂, ◌∙◌, List, length, take, drop, get_or,
  length-take, length-drop, arith,
}
use rednet.NetGames.{word_at}
use rednet.NetGames.Replies.{
  reply_size, nc_login, int_at, word_bytes, put_at, login_code, with_head, login_back, room_back,
}
use rednet.NetGames.Bytes.{length-put_at, get_or-put_at, put_at-before, get_or-take, get_or-drop}

-- the command and the code of a reply, whose struct begins with them
pub record Headed (cmd code : ℕ) (bytes : List ℕ) : Type 0 where
  pub size : length bytes ≡ reply_size
  pub cmd_is : word_at bytes 0 ≡ cmd % 2 ^ 16
  pub code_is : word_at bytes 2 ≡ code % 2 ^ 16

pub head_bytes :
    (cmd code : ℕ) (mem : List ℕ)
    → length mem ≡ 256
    → (word_at (with_head cmd code mem) 0 ≡ cmd % 2 ^ 16)
      × (word_at (with_head cmd code mem) 2 ≡ code % 2 ^ 16)
head_bytes cmd code mem l =
    let first = put_at 0 (word_bytes cmd) mem in
    let second = word_bytes code in
    let m = length-put_at 0 (word_bytes cmd) mem in
    (
      omega (
        arith,
        put_at-before 2 second first 0 (omega arith),
        put_at-before 2 second first 1 (omega arith),
        get_or-put_at 0 (word_bytes cmd) mem 0 (omega arith) (omega arith),
        get_or-put_at 0 (word_bytes cmd) mem 1 (omega arith) (omega arith),
      ),
      omega (
        arith,
        get_or-put_at 2 second first 0 (omega arith) (omega (arith, m)),
        get_or-put_at 2 second first 1 (omega arith) (omega (arith, m)),
      ),
    )

-- writes from the fifth byte on leave the head
pub kept_word :
    (k i : ℕ) (bs mem : List ℕ) → i + 1 < k → word_at (put_at k bs mem) i ≡ word_at mem i
kept_word k i bs mem h =
    ap₂ (λ a b. a + b * 2 ^ 8) (put_at-before k bs mem i (omega arith))
      (put_at-before k bs mem (i + 1) (omega arith))

taken_word :
    (i : ℕ) (mem : List ℕ) → i + 1 < reply_size → word_at (take reply_size mem) i ≡ word_at mem i
taken_word i mem h =
    ap₂ (λ a b. a + b * 2 ^ 8) (get_or-take reply_size mem i (omega arith))
      (get_or-take reply_size mem (i + 1) (omega arith))

size_of_reply : (mem : List ℕ) → length mem ≡ 256 → length (take reply_size mem) ≡ reply_size
size_of_reply mem l = omega (arith, length-take reply_size mem)

pub take-Headed :
    (cmd code : ℕ) (mem : List ℕ)
    → length mem ≡ 256
    → word_at mem 0 ≡ cmd % 2 ^ 16
    → word_at mem 2 ≡ code % 2 ^ 16
    → Headed cmd code (take reply_size mem)
take-Headed cmd code mem l a b = record {
  size = size_of_reply mem l;
  cmd_is = taken_word 0 mem (omega arith) ∙ a;
  code_is = taken_word 2 mem (omega arith) ∙ b;
}

pub length-with_head : (cmd code : ℕ) (mem : List ℕ) → length (with_head cmd code mem) ≡ length mem
length-with_head cmd code mem =
    length-put_at 2 (word_bytes code) (put_at 0 (word_bytes cmd) mem)
    ∙ length-put_at 0 (word_bytes cmd) mem

-- the four bytes of the user's id
user_bytes :
    (bytes mem : List ℕ) (i : ℕ)
    → length mem ≡ 256
    → 8 ≤ length bytes
    → i < 4
    → get_or (take reply_size (put_at 4 (take 4 (drop 4 bytes)) mem)) (4 + i) 0
      ≡ get_or bytes (4 + i) 0
user_bytes bytes mem i l h j =
    let four : length (take 4 (drop 4 bytes)) ≡ 4 =
      omega (arith, length-take 4 (drop 4 bytes), length-drop 4 bytes) in
    get_or-take reply_size (put_at 4 (take 4 (drop 4 bytes)) mem) (4 + i) (omega arith)
    ∙ get_or-put_at 4 (take 4 (drop 4 bytes)) mem i (omega (arith, four)) (omega (arith, four))
    ∙ get_or-take 4 (drop 4 bytes) i j
    ∙ get_or-drop 4 bytes i

pub login_back-user :
    (mem bytes : List ℕ)
    → length mem ≡ 256
    → 8 ≤ length bytes
    → int_at (login_back mem bytes).bytes 4 ≡ int_at bytes 4
unfolding login_back
login_back-user mem bytes l h =
    let full = with_head nc_login (login_code (int_at bytes 4)) mem in
    let m = length-with_head nc_login (login_code (int_at bytes 4)) mem ∙ l in
    omega (
      arith,
      user_bytes bytes full 0 m h (omega arith),
      user_bytes bytes full 1 m h (omega arith),
      user_bytes bytes full 2 m h (omega arith),
      user_bytes bytes full 3 m h (omega arith),
    )

pub login_back-Headed :
    (mem bytes : List ℕ)
    → length mem ≡ 256
    → Headed nc_login (login_code (int_at bytes 4)) (login_back mem bytes).bytes
unfolding login_back
login_back-Headed mem bytes l =
    let code = login_code (int_at bytes 4) in
    let user = take 4 (drop 4 bytes) in
    let full = with_head nc_login code mem in
    let (a, b) = head_bytes nc_login code mem l in
    take-Headed nc_login code (put_at 4 user full)
      (length-put_at 4 user full ∙ length-with_head nc_login code mem ∙ l)
      (kept_word 4 0 user full (omega arith) ∙ a) (kept_word 4 2 user full (omega arith) ∙ b)

pub room_back-Headed :
    (cmd : ℕ) (mem bytes : List ℕ) → length mem ≡ 256 → Headed cmd 0 (room_back cmd mem bytes).bytes
unfolding room_back
room_back-Headed cmd mem bytes l =
    let (a, b) = head_bytes cmd 0 mem l in
    take-Headed cmd 0 (with_head cmd 0 mem) (length-with_head cmd 0 mem ∙ l) a b

pub socket_of_login : (mem bytes : List ℕ) → (login_back mem bytes).socket ≡ int_at bytes 0
unfolding login_back
socket_of_login mem bytes = refl

pub socket_of_room :
    (cmd : ℕ) (mem bytes : List ℕ) → (room_back cmd mem bytes).socket ≡ int_at bytes 0
unfolding room_back
socket_of_room cmd mem bytes = refl
