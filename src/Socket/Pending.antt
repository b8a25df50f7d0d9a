-- ===== src/Socket/Pending.antt =====
-- The bytes that wait to be written, as one stream.
use rednet.Common.{
  ℕ, zero, suc, ◌-◌, ◌≡◌, ◌≢◌, refl, ap, sym, ◌∙◌, Bool, true, false, false≢true, List, [], ◌∷◌,
  ◌++◌, Option, none, some, arith, Bool-cases, inl, inr, leb, ltb, ◌==◌, length, take, drop,
  take-append-drop, length-append, append_assoc, append-nil,
}
use rednet.Socket.{
  Status, invalid, reserve, plisten, listen, connecting, connected, halfclose, paccept, bind,
  Answer, go_on, close_answer, warning_answer, assert_failed, Socket, is_empty, Written, wrote,
  interrupted, would_block, broken, send_list, Done, protocol_tcp, begin_forward_tcp,
  begin_forward_list, is_close, is_halfclose, drained, begin_forward, closed_socket, close_in,
  on_close, requeue, on_forward,
}

abbrev pub joined : List (List ℕ) → List ℕ
joined [] = []
joined (b ∷ bs) = b ++ joined bs

abbrev pub rest_of : Option (List ℕ × ℕ) → List ℕ
rest_of none = []
rest_of (some (buffer, offset)) = drop offset buffer

-- all bytes that wait, in the order in which they go out
abbrev pub pending : Socket → List ℕ
pending s = rest_of s.forward_buffer ++ joined s.forward_list

-- `forwardSize__` counts the bytes of the list
abbrev pub IsCounted : Socket → Type 0
IsCounted s = s.forward_size ≡ length (joined s.forward_list)

pub joined-append : (xs ys : List (List ℕ)) → joined (xs ++ ys) ≡ joined xs ++ joined ys
joined-append [] ys = refl
joined-append (b ∷ xs) ys = rw (joined-append xs ys, append_assoc)

send_list_lem :
    (ws : List Written) (l : List (List ℕ))
    → (send_list ws l).bytes ++ joined (send_list ws l).left ≡ joined l
unfolding send_list
send_list_lem [] [] = refl
send_list_lem (w ∷ ws) [] = refl
send_list_lem [] (b ∷ bs) = refl
send_list_lem (interrupted ∷ ws) (b ∷ bs) = send_list_lem ws (b ∷ bs)
send_list_lem (would_block ∷ ws) (b ∷ bs) = refl
send_list_lem (broken ∷ ws) (b ∷ bs) = refl
send_list_lem (wrote n ∷ ws) (b ∷ bs) = elim (Bool-cases (leb (length b) n)) [
  | inl e ↦ rw e (
      append_assoc b (send_list ws bs).bytes (joined (send_list ws bs).left)
      ∙ ap (λ k. b ++ k) (send_list_lem ws bs))
  | inr e ↦ rw e (
      sym (append_assoc (take n b) (drop n b) (joined bs))
      ∙ ap (λ k. k ++ joined bs) (take-append-drop n b))
]

drop-length : (n : ℕ) (xs : List ℕ) → length (drop n xs) ≡ length xs - n
drop-length zero xs = omega arith
drop-length (suc n) [] = omega arith
drop-length (suc n) (x ∷ xs) = omega (arith, drop-length n xs)

-- A socket whose buffers are all in the list, with the bytes that waited before.
record Listed (s : Socket) (t : Socket) : Type 0 where
  buffer : t.forward_buffer ≡ none
  stream : joined t.forward_list ≡ pending s
  counted : IsCounted s → IsCounted t
  status : t.status ≡ s.status

requeue-Listed :
    (o : Option (List ℕ × ℕ)) (s : Socket) → s.forward_buffer ≡ o → Listed s (requeue o s)
requeue-Listed none s e = record { buffer = e; stream = rw e refl; counted = λ c. c; status = refl }
requeue-Listed (some (b, offset)) s e = record {
  buffer = refl;
  stream = rw e refl;
  counted = λ c.
      omega (arith, drop-length offset b, length-append (drop offset b) (joined s.forward_list));
  status = refl;
}

-- What a run of the writer does to a socket whose buffers are all in the list.
record Wrote (s : Socket) (r : Done) : Type 0 where
  stream : r.bytes ++ joined r.socket.forward_list ≡ joined s.forward_list
  counted : IsCounted r.socket
  buffer : r.socket.forward_buffer ≡ s.forward_buffer
  status : r.socket.status ≡ s.status

begin_forward_list_lem :
    (ws : List Written) (s : Socket) → IsCounted s → Wrote s (begin_forward_list ws s)
unfolding begin_forward_list begin_forward_tcp
begin_forward_list_lem ws s c = elim (Bool-cases (s.protocol == protocol_tcp)) [
  | inl e ↦
      let l = send_list_lem ws s.forward_list in
      rw e (record {
        stream = l;
        counted = omega (
          arith,
          ap length l,
          length-append (send_list ws s.forward_list).bytes
              (joined (send_list ws s.forward_list).left),
        );
        buffer = refl;
        status = refl;
      })
  | inr e ↦ rw e (record { stream = refl; counted = c; buffer = refl; status = refl })
]

pub is_empty-nil : (l : List (List ℕ)) → is_empty l ≡ true → l ≡ []
is_empty-nil [] h = refl
is_empty-nil (b ∷ l) h = absurd (false≢true h)

-- the answers of `onForward`
abbrev pub settles : Answer → Bool
settles go_on = true
settles close_answer = true
settles warning_answer = true
settles _ = false

pub is_close_answer : (a : Answer) → is_close a ≡ true → a ≡ close_answer
is_close_answer close_answer h = refl
is_close_answer _ h = absurd (false≢true h)

not_assert : (a : Answer) → settles a ≡ true → a ≢ assert_failed
not_assert a h k = false≢true (ap settles (sym k) ∙ h)

drained_lem :
    (s : Socket) (r : Done)
    → Wrote s r
    → is_empty r.socket.forward_list ≡ true
    → Wrote s (drained r) × (settles (drained r).answer ≡ true)
drained_lem s r w e =
    let none_left : r.socket.forward_size ≡ 0 =
      w.counted ∙ ap (λ l. length (joined l)) (is_empty-nil r.socket.forward_list e) in
    let zero_size : (r.socket.forward_size == 0) ≡ true = ground arith in
    rw zero_size (elim (Bool-cases (is_halfclose r.socket.status)) [
      | inl h ↦ rw h (keep, refl)
      | inr h ↦ rw h (elim (Bool-cases (ltb 0 r.socket.forward_warn_size)) [
        | inl v ↦ rw v (keep, refl)
        | inr v ↦ rw v (keep, refl)
      ])
    ])
  where
    keep :
        {a : Answer} {n : ℕ}
        → Wrote s (record {
          answer = a;
          socket = record r.socket { watched = false; forward_warn_size = n };
          bytes = r.bytes;
        })
    keep = record { stream = w.stream; counted = w.counted; buffer = w.buffer; status = w.status }

begin_forward_lem :
    (ws : List Written) (s : Socket)
    → IsCounted s
    → Wrote s (begin_forward ws s) × (settles (begin_forward ws s).answer ≡ true)
unfolding begin_forward
begin_forward_lem ws s c =
    let w = begin_forward_list_lem ws s c in
    let r = begin_forward_list ws s in
    elim (Bool-cases (is_close r.answer)) [
      | inl e ↦ rw e (w, ap settles (is_close_answer r.answer e))
      | inr e ↦ rw e (elim (Bool-cases (is_empty r.socket.forward_list)) [
        | inl h ↦ rw h (drained_lem s r w h)
        | inr h ↦ rw h (
          record { stream = w.stream; counted = w.counted; buffer = w.buffer; status = w.status },
          refl,
        )
      ])
    ]

close_in_lem :
    (st : Status) (s : Socket)
    → s.status ≡ st
    → st ≢ reserve
    → s.forward_buffer ≡ none
    → (t : Socket) × (close_in st s ≡ some t)
      × (t.status ≡ invalid)
      × ((lost : List ℕ) × (pending t ++ lost ≡ joined s.forward_list))
close_in_lem invalid s e n f = (s, refl, e, ([], rw f (append-nil (joined s.forward_list))))
close_in_lem reserve s e n f = absurd (n refl)
close_in_lem plisten s e n f = (closed_socket s, refl, refl, (joined s.forward_list, refl))
close_in_lem listen s e n f = (closed_socket s, refl, refl, (joined s.forward_list, refl))
close_in_lem connecting s e n f = (closed_socket s, refl, refl, (joined s.forward_list, refl))
close_in_lem connected s e n f = (closed_socket s, refl, refl, (joined s.forward_list, refl))
close_in_lem halfclose s e n f = (closed_socket s, refl, refl, (joined s.forward_list, refl))
close_in_lem paccept s e n f = (closed_socket s, refl, refl, (joined s.forward_list, refl))
close_in_lem bind s e n f = (closed_socket s, refl, refl, (joined s.forward_list, refl))

-- What `onForward` comes to: it wrote the first of the bytes that waited, and the others wait on,
-- counted, in a socket of the same status, or else it closed the socket. The answer is to go on, to
-- close, or a warning, so that no assertion fails.
pub record Forwarded (s : Socket) (r : Done) : Type 0 where
  pub lost : List ℕ
  pub stream : r.bytes ++ (pending r.socket ++ lost) ≡ pending s
  pub stays :
      is_close r.answer ≡ false → (lost ≡ []) × IsCounted r.socket × (r.socket.status ≡ s.status)
  pub gone : is_close r.answer ≡ true → r.socket.status ≡ invalid
  pub settled : settles r.answer ≡ true
  pub no_assert : r.answer ≢ assert_failed

-- `onForward` on a socket that is not reserved and whose list is counted, whatever `write` returns,
-- writes a prefix of the bytes that wait, loses bytes only by closing the socket, and keeps the
-- count; its assertions do not fail.
pub on_forward_lem :
    (locked : Bool) (ws : List Written) (s : Socket)
    → IsCounted s
    → s.status ≢ reserve
    → Forwarded s (on_forward locked ws s)
unfolding on_forward on_close
on_forward_lem false ws s c n = record {
  lost = [];
  stream = append-nil (pending s);
  stays = λ e. (refl, c, refl);
  gone = λ e. absurd (false≢true e);
  settled = refl;
  no_assert = λ e. cc;
}
on_forward_lem true ws s c n =
    let t = requeue s.forward_buffer s in
    let q = requeue-Listed s.forward_buffer s refl in
    let (w, fine) = begin_forward_lem ws t (q.counted c) in
    let r = begin_forward ws t in
    let none_left : r.socket.forward_buffer ≡ none = w.buffer ∙ q.buffer in
    elim (Bool-cases (is_close r.answer)) [
      | inl e ↦
          let (u, closed, gone, (lost, kept)) =
            close_in_lem r.socket.status r.socket refl (λ k. n (sym (w.status ∙ q.status) ∙ k))
              none_left in
          rw (e, closed)
            (record {
              lost = lost;
              stream = ap (λ k. r.bytes ++ k) kept ∙ w.stream ∙ q.stream;
              stays = λ k. absurd (false≢true (sym k ∙ e));
              gone = λ k. gone;
              settled = fine;
              no_assert = not_assert r.answer fine;
            })
      | inr e ↦ rw e (record {
        lost = [];
        stream =
            ap (λ k. r.bytes ++ k)
              (append-nil (pending r.socket)
                ∙ ap (λ k. rest_of k ++ joined r.socket.forward_list) none_left)
            ∙ w.stream
            ∙ q.stream;
        stays = λ k. (refl, w.counted, w.status ∙ q.status);
        gone = λ k. absurd (false≢true (sym e ∙ k));
        settled = fine;
        no_assert = not_assert r.answer fine;
      })
    ]
