-- ===== src/NetDrive/Sockets.antt =====
-- The map of sockets, and `read`.
use rednet.Common.{
  ℕ, ◌^◌, ◌<◌, ◌≡◌, ◌≢◌, refl, ap, sym, ◌∙◌, true, false, [], ◌∷◌, some, arith, Bool-cases, inl,
  inr, ◌==◌, length, take_all, drop, nil_of_length, length-drop,
}
use rednet.NetDrive.{NetSocket, NetDrive, insert, grab, read_size, copied, read}

pub grab-insert_self : (s : NetSocket) (d : NetDrive) → grab (insert s d) s.socket_id ≡ some s
unfolding grab insert
grab-insert_self s [] = let e : (s.socket_id == s.socket_id) ≡ true = ground arith in rw e
grab-insert_self s (t ∷ d) = elim (Bool-cases (t.socket_id == s.socket_id)) [
  | inl e ↦ let own : (s.socket_id == s.socket_id) ≡ true = ground arith in rw (e, own)
  | inr e ↦ rw (e, e) (grab-insert_self s d)
]

pub grab-insert_ne :
    (s : NetSocket) (id : ℕ) (d : NetDrive) → s.socket_id ≢ id → grab (insert s d) id ≡ grab d id
unfolding grab insert
grab-insert_ne s id [] n = let e : (s.socket_id == id) ≡ false = ground (arith, n) in rw e
grab-insert_ne s id (t ∷ d) n = elim (Bool-cases (t.socket_id == s.socket_id)) [
  | inl e ↦
      let own : (s.socket_id == id) ≡ false = ground (arith, n) in
      let old : (t.socket_id == id) ≡ false = ground (arith, n) in rw (e, own, old)
  | inr e ↦ rw (e, grab-insert_ne s id d n) refl
]

pub grab-id : (d : NetDrive) (id : ℕ) (s : NetSocket) → grab d id ≡ some s → s.socket_id ≡ id
unfolding grab
grab-id [] id s h = absurd cc
grab-id (t ∷ d) id s h = elim (Bool-cases (t.socket_id == id)) [
  | inl e ↦
      let found : some t ≡ some s = simp e at h in
      let same : t ≡ s = cc in ap (λ k. k.socket_id) (sym same) ∙ ground arith
  | inr e ↦ grab-id d id s (simp e at h)
]

-- The test of `read` is on an unsigned difference: the size is that of the buffer, even where the
-- caller's buffer is smaller.
read_size_lem : (max sz : ℕ) → max < 2 ^ 31 → sz < 2 ^ 31 → read_size max sz ≡ sz
unfolding read_size
read_size_lem max sz h k = ground arith

-- `read` takes all the bytes that wait, whatever the room that the caller gave, leaves the socket
-- without any, and does not touch the other sockets.
pub read_lem :
    (id max : ℕ) (d : NetDrive) (s : NetSocket)
    → grab d id ≡ some s
    → 0 < max
    → max < 2 ^ 31
    → 0 < length s.buffer
    → length s.buffer < 2 ^ 31
    → (after : NetDrive) × (read id max d ≡ copied s.buffer after)
      × (grab after id ≡ some (record s { buffer = [] }))
      × ((other : ℕ) → other ≢ id → grab after other ≡ grab d other)
unfolding read
read_lem id max d s h p small more fits =
    let none_left : drop (length s.buffer) s.buffer ≡ [] =
      nil_of_length _ (omega (arith, length-drop (length s.buffer) s.buffer)) in
    let room : (max == 0) ≡ false = ground arith in
    let some_left : (length s.buffer == 0) ≡ false = ground arith in
    let same = grab-id d id s h in
    let left : NetSocket = record s { buffer = [] } in
    (
      insert left d,
      rw
          (
            h,
            room,
            some_left,
            read_size_lem max (length s.buffer) small fits,
            none_left,
            take_all (length s.buffer) s.buffer (omega arith),
          )
          refl,
      ap (grab (insert left d)) (sym same) ∙ grab-insert_self left d,
      λ other n. grab-insert_ne left other d (λ e. n (sym e ∙ same)),
    )
