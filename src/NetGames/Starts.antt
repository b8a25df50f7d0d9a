-- ===== src/NetGames/Starts.antt =====
-- The reply to a start, where the answer is whole and its texts end inside their fields.
use rednet.Common.{
  ℕ, ◌+◌, ◌≤◌, ◌<◌, ◌≡◌, refl, ◌∙◌, List, length, take, drop, get_or, length-take, length-drop,
  arith, ap, sym, true, false, [], ◌∷◌, Option, none, some, leb, ◌==◌, Bool-cases, inl, inr, zero,
  suc,
}
use rednet.NetGames.Replies.{
  reply_size, pge_start, int_at, put_at, c_string, with_head, start_back, Reply, and_char, write_at,
  start_back_size,
}
use rednet.NetGames.Heads.{Headed, head_bytes, kept_word, take-Headed, length-with_head}
use rednet.NetGames.Bytes.{length-put_at, get_or-put_at, put_at-before, get_or-take, get_or-drop}

-- a text that ends within the first bytes ends there for `strcpy` too
c_string-take :
    (n : ℕ) (bs text : List ℕ)
    → c_string (take n bs) ≡ some text
    → (c_string bs ≡ some text) × (length text ≤ n)
unfolding c_string
c_string-take zero bs text e = absurd cc
c_string-take (suc n) [] text e = absurd cc
c_string-take (suc n) (b ∷ bs) text e = elim (Bool-cases (b == 0)) [
  | inl z ↦
      let here : some (b ∷ []) ≡ some text = simp z at e in
      let same : b ∷ [] ≡ text = cc in (rw z here, omega (arith, ap length same))
  | inr z ↦
      let later : and_char b (c_string (take n bs)) ≡ some text = simp z at e in
      let (rest, whole, copied) = after_byte b (c_string (take n bs)) text later in
      let (found, size) = c_string-take n bs rest whole in
      (rw (z, found, copied) refl, omega (arith, size, ap length copied))
]
  where
    after_byte :
        (b : ℕ) (o : Option (List ℕ)) (text : List ℕ)
        → and_char b o ≡ some text
        → (rest : List ℕ) × (o ≡ some rest) × (text ≡ b ∷ rest)
    after_byte b none text e = absurd cc
    after_byte b (some rest) text e = let same : b ∷ rest ≡ text = cc in (rest, refl, sym same)

write_at-inside :
    (n : ℕ) (bs mem : List ℕ)
    → n + length bs ≤ length mem
    → write_at n bs mem ≡ some (put_at n bs mem)
unfolding write_at
write_at-inside n bs mem h =
    let fits : leb (n + length bs) (length mem) ≡ true = ground arith in rw fits

-- The reply to a start: its head, the socket and the port are those of the answer.
pub record Started (bytes : List ℕ) (r : Reply) : Type 0 where
  pub socket : r.socket ≡ int_at bytes 0
  pub head : Headed pge_start (int_at bytes 91) r.bytes
  pub port : int_at r.bytes 23 ≡ int_at bytes 23

-- the buffer after the writes of `startBackProc`
module _ (mem bytes ip session : List ℕ) (l : length mem ≡ 256) (n : start_back_size ≤ length bytes)
    (few : length ip ≤ 19) (some_few : length session ≤ 64) where
  abbrev code : ℕ
  code = int_at bytes 91

  abbrev port : List ℕ
  port = take 4 (drop 23 bytes)

  abbrev m0 : List ℕ
  m0 = with_head pge_start code mem

  abbrev m1 : List ℕ
  m1 = put_at 4 ip m0

  abbrev m2 : List ℕ
  m2 = put_at 23 port m1

  abbrev m3 : List ℕ
  m3 = put_at 27 session m2

  length-m0 : length m0 ≡ 256
  length-m0 = length-with_head pge_start code mem ∙ l

  length-m1 : length m1 ≡ 256
  length-m1 = length-put_at 4 ip m0 ∙ length-m0

  length-m2 : length m2 ≡ 256
  length-m2 = length-put_at 23 port m1 ∙ length-m1

  length-port : length port ≡ 4
  length-port = omega (arith, length-take 4 (drop 23 bytes), length-drop 23 bytes)

  abbrev start_answer : Reply
  start_answer = record { socket = int_at bytes 0; bytes = take reply_size m3 }

  start_back-reply :
      c_string (drop 4 bytes) ≡ some ip
      → c_string (drop 27 bytes) ≡ some session
      → start_back mem bytes ≡ some start_answer
  unfolding start_back
  start_back-reply e1 e2 =
      let whole : leb start_back_size (length bytes) ≡ true = ground arith in
      rw
        (
          e1,
          e2,
          write_at-inside 4 ip m0 (omega (arith, length-m0, few)),
          write_at-inside 23 port m1 (omega (arith, length-m1, length-port)),
          write_at-inside 27 session m2 (omega (arith, length-m2, some_few)),
          whole,
        )
        refl

  port_at : (i : ℕ) → i < 4 → get_or (take reply_size m3) (23 + i) 0 ≡ get_or bytes (23 + i) 0
  port_at i h =
      get_or-take reply_size m3 (23 + i) (omega arith)
      ∙ put_at-before 27 session m2 (23 + i) (omega arith)
      ∙ get_or-put_at 23 port m1 i (omega (arith, length-port))
          (omega (arith, length-m1, length-port))
      ∙ get_or-take 4 (drop 23 bytes) i h
      ∙ get_or-drop 23 bytes i

  start_answer-Started : Started bytes start_answer
  start_answer-Started = record {
    socket = refl;
    head =
        let (a, b) = head_bytes pge_start code mem l in
        take-Headed pge_start code m3 (length-put_at 27 session m2 ∙ length-m2)
          (kept_word 27 0 session m2 (omega arith)
            ∙ kept_word 23 0 port m1 (omega arith)
            ∙ kept_word 4 0 ip m0 (omega arith)
            ∙ a)
          (kept_word 27 2 session m2 (omega arith)
            ∙ kept_word 23 2 port m1 (omega arith)
            ∙ kept_word 4 2 ip m0 (omega arith)
            ∙ b);
    port = omega (
      arith,
      port_at 0 (omega arith),
      port_at 1 (omega arith),
      port_at 2 (omega arith),
      port_at 3 (omega arith),
    );
  }

-- an answer whose texts end inside their fields
pub start_back-Started :
    (mem bytes ip session : List ℕ)
    → length mem ≡ 256
    → start_back_size ≤ length bytes
    → c_string (take 19 (drop 4 bytes)) ≡ some ip
    → c_string (take 64 (drop 27 bytes)) ≡ some session
    → (r : Reply) × (start_back mem bytes ≡ some r) × Started bytes r
start_back-Started mem bytes ip session l n e1 e2 =
    let (i, few) = c_string-take 19 (drop 4 bytes) ip e1 in
    let (s, some_few) = c_string-take 64 (drop 27 bytes) session e2 in
    (
      start_answer mem bytes ip session l n few some_few,
      start_back-reply mem bytes ip session l n few some_few i s,
      start_answer-Started mem bytes ip session l n few some_few,
    )

pub start_back-short :
    (mem bytes : List ℕ) → length bytes < start_back_size → start_back mem bytes ≡ none
unfolding start_back
start_back-short mem bytes h =
    let no : leb start_back_size (length bytes) ≡ false = ground arith in rw no
