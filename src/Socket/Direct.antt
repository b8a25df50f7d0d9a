-- ===== src/Socket/Direct.antt =====
-- `onForwardData`: the bytes of a direct write.
use rednet.Common.{
  ℕ, ◌≡◌, refl, ap, ◌∙◌, List, [], ◌++◌, none, Bool-cases, inl, inr, if◌then◌else◌, ◌==◌, length,
  take, drop, take-append-drop, append-nil,
}
use rednet.Socket.{Socket, Written, Done, protocol_tcp, count_of, leave, on_forward_data}
use rednet.Socket.Pending.{joined, pending}

-- What a direct write comes to: the bytes that it wrote and those that wait after it are the buffer.
pub record Direct (buffer : List ℕ) (s : Socket) (r : Done) : Type 0 where
  pub stream : r.bytes ++ pending r.socket ≡ buffer
  pub list : r.socket.forward_list ≡ s.forward_list
  pub size : r.socket.forward_size ≡ s.forward_size
  pub status : r.socket.status ≡ s.status
  pub id : r.socket.id ≡ s.id
  pub forward_in : r.socket.forward_in ≡ s.forward_in
  pub protocol : r.socket.protocol ≡ s.protocol

leave-Direct :
    (n : ℕ) (buffer : List ℕ) (s : Socket)
    → s.forward_list ≡ []
    → s.forward_buffer ≡ none
    → Direct buffer s (leave n buffer s)
leave-Direct n buffer s e f = elim (Bool-cases (n == length buffer)) [
  | inl h ↦ rw h (record {
    stream = rw (f, e) (append-nil buffer);
    list = refl;
    size = refl;
    status = refl;
    id = refl;
    forward_in = refl;
    protocol = refl;
  })
  | inr h ↦ rw h (record {
    stream =
        ap (λ k. take n buffer ++ (drop n buffer ++ joined k)) e
        ∙ ap (λ k. take n buffer ++ k) (append-nil (drop n buffer))
        ∙ take-append-drop n buffer;
    list = refl;
    size = refl;
    status = refl;
    id = refl;
    forward_in = refl;
    protocol = refl;
  })
]

-- `onForwardData` where nothing waits writes the first of the bytes, which may be all or none, and
-- lets the others wait in the buffer.
pub on_forward_data-Direct :
    (w : Written) (buffer : List ℕ) (s : Socket)
    → s.forward_list ≡ []
    → s.forward_buffer ≡ none
    → Direct buffer s (on_forward_data w buffer s)
unfolding on_forward_data
on_forward_data-Direct w buffer s e f =
    leave-Direct (if s.protocol == protocol_tcp then count_of w (length buffer) else 0) buffer s e f
