-- ===== src/Socket/Answers.antt =====
-- What `onRecv` answers, and the size of its reads.
use rednet.Common.{
  ℕ, zero, suc, ◌*◌, ◌/◌, ◌^◌, ◌<◌, ◌≡◌, refl, sym, subst, ◌&&◌, arith, Bool-cases, inl, inr, ltb,
  ◌==◌, length, take,
}
use rednet.Socket.{
  Status, invalid, reserve, Answer, close_answer, err_answer, Socket, is_halfclose, close_in,
  on_close, min_read_buffer, Received, got, read_interrupted, read_would_block, read_broken,
  next_size, closing, on_recv,
}

-- the sizes that the reads have: 64 bytes, and twice that any number of times
abbrev pub IsReadSize : ℕ → Type 0
IsReadSize sz = (k : ℕ) × (sz ≡ 64 * 2 ^ k)

half : (k : ℕ) → 64 < 64 * 2 ^ k → IsReadSize (64 * 2 ^ k / 2)
half zero l = absurd (omega arith)
half (suc k) l = (k, grind arith)

next_size-IsReadSize : (sz n : ℕ) → IsReadSize sz → IsReadSize (next_size sz n)
unfolding next_size
next_size-IsReadSize sz n (k, e) = elim (Bool-cases (n == sz)) [
  | inl h ↦ rw h (suc k, grind arith)
  | inr h ↦ rw h (elim (Bool-cases (ltb min_read_buffer sz && ltb sz (n * 2))) [
    | inl m ↦ rw m (subst (λ z. IsReadSize (z / 2)) (sym e) (half k (grind arith)))
    | inr m ↦ rw m (k, e)
  ])
]

closing-size :
    (a : Answer) (s : Socket) (st : Status)
    → (closing a s (close_in st s)).socket.read_size ≡ s.read_size
closing-size a s invalid = refl
closing-size a s reserve = refl
closing-size a s _ = refl

-- The size of the next read is 64 times a power of two after any `onRecv`, where it was one before, so
-- that it never gets below 64.
pub on_recv-IsReadSize :
    (input : Received) (s : Socket)
    → IsReadSize s.read_size
    → IsReadSize (on_recv input s).socket.read_size
unfolding on_recv on_close
on_recv-IsReadSize read_interrupted s h = h
on_recv-IsReadSize read_would_block s h = h
on_recv-IsReadSize read_broken s h = subst IsReadSize (sym (closing-size err_answer s s.status)) h
on_recv-IsReadSize (got bytes) s h =
    let n = length (take s.read_size bytes) in
    elim (Bool-cases (n == 0)) [
      | inl z ↦ rw z (subst IsReadSize (sym (closing-size close_answer s s.status)) h)
      | inr z ↦ rw z (elim (Bool-cases (is_halfclose s.status)) [
        | inl c ↦ rw c h
        | inr c ↦ rw c (next_size-IsReadSize s.read_size n h)
      ])
    ]
