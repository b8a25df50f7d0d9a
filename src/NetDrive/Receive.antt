-- ===== src/NetDrive/Receive.antt =====
-- `onData`: what fits is delivered, and what does not fit is not.
use rednet.Common.{
  ap₂, ℕ, zero, suc, ◌+◌, ◌-◌, ◌*◌, ◌<◌, ◌≤◌, ◌≡◌, ◌≢◌, refl, ap, sym, ◌∙◌, Bool, true, false, List,
  [], ◌++◌, some, arith, if◌then◌else◌, ltb, leb, ◌==◌, length, take, take_all, drop, length-append,
  length-take, length-drop,
}
use rednet.NetDrive.{
  socket_buffer_max, share, NetSocket, NetDrive, insert, grab, Delivered, done, waiting, overread,
  deliver, data_rounds, on_data,
}
use rednet.NetDrive.Sockets.{grab-insert_self, grab-id}

share_all : (sz space : ℕ) → sz ≤ space → share sz 0 space ≡ sz
share_all sz space h = ground arith

share_full : (sz write space : ℕ) → space ≤ sz + write → share sz write space ≡ space
share_full sz write space h = ground arith

ltb_ge : (a b : ℕ) → b ≤ a → ltb a b ≡ false
ltb_ge a b h = ground arith

ltb_of : (a b : ℕ) → a < b → ltb a b ≡ true
ltb_of a b h = ground arith

leb_of : (a b : ℕ) → a ≤ b → leb a b ≡ true
leb_of a b h = ground arith

leb_gt : (a b : ℕ) → b < a → leb a b ≡ false
leb_gt a b h = ground arith

eq_ne : (a : ℕ) → a ≢ 0 → (a == 0) ≡ false
eq_ne a h = ground (arith, h)

if_true {ℓ} : {A : Type ℓ} (x y : A) (b : Bool) → b ≡ true → (if b then x else y) ≡ x
if_true x y b h = ap (λ k. if k then x else y) h

-- the end of a round of which `w` bytes are delivered then
abbrev settle : ℕ → ℕ → NetDrive → Delivered → Delivered
settle sz w after next = if ltb sz w then overread else if leb sz w then done after else next

-- a round on a connected socket that reads `n` bytes; `q` tells that it has no `onRecv`
deliver_linked :
    (recv : ℕ → NetDrive → NetDrive) (id : ℕ) (bytes : List ℕ) (write : ℕ) (d : NetDrive)
    (again : ℕ → NetDrive → Delivered) (s : NetSocket) (q : Bool) (n : ℕ)
    → s.connected ≡ true
    → (s.on_recv == 0) ≡ q
    → share (length bytes) write (socket_buffer_max - length s.buffer) ≡ n
    → let filled = insert (record s { buffer = s.buffer ++ take n (drop write bytes) }) d in
      let after = if q then filled else recv id filled in
      deliver recv id bytes write d again (some s)
      ≡ settle (length bytes) (write + n) after (again (write + n) after)
deliver_linked recv id bytes write d again s q n linked quiet size =
    if_true _ _ s.connected linked
    ∙ ap₂
        (λ k b.
          let filled = insert (record s { buffer = s.buffer ++ take k (drop write bytes) }) d in
          let after = if b then filled else recv id filled in
          settle (length bytes) (write + k) after (again (write + k) after))
        size quiet

module _ (recv : ℕ → NetDrive → NetDrive) (id : ℕ) (bytes : List ℕ) (d : NetDrive) (s : NetSocket)
    (found : grab d id ≡ some s) (linked : s.connected ≡ true) where
  -- the sockets once the bytes of the first round are in the buffer
  abbrev pub filled : ℕ → NetDrive
  filled n = insert (record s { buffer = s.buffer ++ take n bytes }) d

  -- Bytes that fit the buffer of a connected socket are appended to it in one round, and then the
  -- callback runs, if there is one.
  pub on_data_fits :
      (f : ℕ)
      → length s.buffer + length bytes ≤ socket_buffer_max
      → on_data (suc f) recv id bytes d
        ≡ done (
            if s.on_recv == 0
            then insert (record s { buffer = s.buffer ++ bytes }) d
            else recv id (insert (record s { buffer = s.buffer ++ bytes }) d))
  unfolding on_data data_rounds
  on_data_fits f fits =
      let sz = length bytes in
      let room = socket_buffer_max - length s.buffer in
      rw
        (
          found,
          found,
          share_all sz room (omega arith),
          linked,
          ltb_ge sz (0 + sz) (omega arith),
          leb_of sz (0 + sz) (omega arith),
          take_all sz bytes (omega arith),
        )
        refl

  -- Where more bytes come than the empty buffer of a connected socket holds, and less than twice as many,
  -- and the callback takes all that wait and leaves the socket connected, the second round copies from
  -- behind the end of the bytes.
  pub on_data-overread :
      (f : ℕ) (t : NetSocket)
      → s.buffer ≡ []
      → s.on_recv ≢ 0
      → socket_buffer_max < length bytes
      → length bytes < 2 * socket_buffer_max
      → grab (recv id (filled socket_buffer_max)) id ≡ some t
      → t.connected ≡ true
      → t.buffer ≡ []
      → on_data (suc (suc f)) recv id bytes d ≡ overread
  unfolding on_data data_rounds
  on_data-overread f t empty calls many few again stays drained =
      let sz = length bytes in
      let full = socket_buffer_max in
      let size : length s.buffer ≡ 0 = ap length empty in
      let size' : length t.buffer ≡ 0 = ap length drained in
      let room : share sz 0 (full - length s.buffer) ≡ full =
        share_full sz 0 (full - length s.buffer) (omega arith) ∙ omega arith in
      let room' : share sz (0 + full) (full - length t.buffer) ≡ full =
        share_full sz (0 + full) (full - length t.buffer) (omega arith) ∙ omega arith in
      rw
        (
          found,
          found,
          deliver_linked recv id bytes 0 d (data_rounds (suc f) recv id bytes) s false full linked
              (eq_ne s.on_recv calls) room,
          ltb_ge sz (0 + full) (omega arith),
          leb_gt sz (0 + full) (omega arith),
          again,
          deliver_linked recv id bytes (0 + full) (recv id (filled full))
              (data_rounds f recv id bytes) t (t.on_recv == 0) full stays refl room',
          ltb_of sz (0 + full + full) (omega arith),
        )
        refl

-- a full buffer, no `onRecv`, and bytes left: the loop goes on
module _ (recv : ℕ → NetDrive → NetDrive) (id : ℕ) (bytes : List ℕ) where
  rounds-waiting :
      (f write : ℕ) (d : NetDrive) (s : NetSocket)
      → grab d id ≡ some s
      → s.connected ≡ true
      → s.on_recv ≡ 0
      → length s.buffer ≤ socket_buffer_max
      → write + (socket_buffer_max - length s.buffer) < length bytes
      → data_rounds f recv id bytes write d ≡ waiting
  unfolding data_rounds
  rounds-waiting zero write d s found linked quiet inside many = refl
  rounds-waiting (suc f) write d s found linked quiet inside many =
      let sz = length bytes in
      let room = socket_buffer_max - length s.buffer in
      let t : NetSocket = record s { buffer = s.buffer ++ take room (drop write bytes) } in
      let size : length t.buffer ≡ socket_buffer_max = omega (
        arith,
        length-append s.buffer (take room (drop write bytes)),
        length-take room (drop write bytes),
        length-drop write bytes,
      ) in
      let no_call : (s.on_recv == 0) ≡ true = ground (arith, quiet) in
      rw
        (
          found,
          deliver_linked recv id bytes write d (data_rounds f recv id bytes) s true room linked
              no_call (share_full sz write room (omega arith)),
          ltb_ge sz (write + room) (omega arith),
          leb_gt sz (write + room) (omega arith),
        )
        (rounds-waiting f (write + room) (insert t d) t
          (ap (grab (insert t d)) (sym (grab-id d id s found)) ∙ grab-insert_self t d) linked quiet
          (omega arith) (omega arith))

  -- Where more bytes come than fit, and the connected socket has no `onRecv`, `onData` does not
  -- return, whatever the fuel: the buffer stays full.
  pub on_data-waiting :
      (f : ℕ) (d : NetDrive) (s : NetSocket)
      → grab d id ≡ some s
      → s.connected ≡ true
      → s.on_recv ≡ 0
      → length s.buffer ≤ socket_buffer_max
      → socket_buffer_max < length s.buffer + length bytes
      → on_data f recv id bytes d ≡ waiting
  unfolding on_data
  on_data-waiting f d s found linked quiet inside many =
      rw found (rounds-waiting f 0 d s found linked quiet inside (omega arith))
