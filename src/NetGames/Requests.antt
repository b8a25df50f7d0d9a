-- ===== src/NetGames/Requests.antt =====
-- service-src/service_netgames.cc: what becomes of the packets that wait, and of the requests.
use rednet.Common.{
  ℕ, suc, ◌^◌, ◌≤◌, ◌<◌, ◌≡◌, refl, true, false, not, List, [], ◌∷◌, Option, none, some, ltb, ◌==◌,
  length, arith, Bool-cases, inl, inr,
}
use rednet.NetDrive.{NetSocket, NetDrive, grab, check}
use rednet.NetDrive.Sockets.{read_lem}
use rednet.Calls.{Node, posted, send_to, addr_to}
use rednet.NetGames.{
  Command, login, enter_room, exit_room, start_room, proto_analyze, command_of, game_manage,
  stopped, undefined, and_ran, submit, perform, on_recv,
}

proto_analyze-le : (bytes : List ℕ) (k : ℕ) → proto_analyze bytes ≡ some k → k ≤ 2048
unfolding proto_analyze
proto_analyze-le bytes k e = grind arith

check_waiting :
    (id : ℕ) (d : NetDrive) (s : NetSocket)
    → grab d id ≡ some s
    → s.connected ≡ true
    → 0 < length s.buffer
    → check id d ≡ some s.buffer
unfolding check
check_waiting id d s e c l =
    let more : (length s.buffer == 0) ≡ false = ground arith in rw (e, c, more) refl

check_emptied :
    (id : ℕ) (d : NetDrive) (s : NetSocket)
    → grab d id ≡ some (record s { buffer = [] })
    → s.connected ≡ true
    → check id d ≡ none
unfolding check
check_emptied id d s e c = rw (e, c) refl

abbrev pub listed : Option Command → List Command
listed none = []
listed (some c) = c ∷ []

module _ (strtoul : List ℕ → ℕ) (self data_ptr : ℕ) where
  lost :
      (type sz : ℕ) (n : Node)
      → send_to strtoul self game_manage type 0 data_ptr sz none n
        ≡ posted none (not (data_ptr == 0)) n
  unfolding send_to addr_to
  lost type sz n = elim (Bool-cases (self == 0)) [ inl e ↦ rw e refl | inr e ↦ rw e refl ]

  -- The request of a command does not reach any service: its address has neither form that `addrTo` knows,
  -- so that the answer is -1, the data are freed, and every queue is as it was.
  pub submit-lost :
      (c : Command) (n : Node)
      → submit strtoul self data_ptr c n ≡ posted none (not (data_ptr == 0)) n
  unfolding submit
  submit-lost (login id bytes) n = lost 9 128 n
  submit-lost (enter_room id bytes) n = lost 10 64 n
  submit-lost (exit_room id bytes) n = lost 11 64 n
  submit-lost (start_room id bytes) n = lost 12 64 n

  perform_lem : (c : Option Command) (n : Node) → perform strtoul self data_ptr c n ≡ n
  unfolding perform
  perform_lem none n = refl
  perform_lem (some c) n = rw (submit-lost c n) refl

  rest_lem :
      (f id : ℕ) (d : NetDrive) (s : NetSocket) (n : Node)
      → grab d id ≡ some (record s { buffer = [] })
      → s.connected ≡ true
      → on_recv strtoul self data_ptr (suc f) id d n ≡ stopped [] false d n
  unfolding on_recv
  rest_lem f id d s n e c = rw (check_emptied id d s e c) refl

  ran :
      (c : Option Command) (d : NetDrive) (n : Node)
      → and_ran c (stopped [] false d n) ≡ stopped (listed c) false d n
  ran none d n = refl
  ran (some c) d n = refl

  -- Where the bytes that wait for a connected socket begin with a whole packet, and are 2048 at most,
  -- `onRecv` runs the command of that packet only, takes all the bytes away, also those of the packets
  -- behind it, and returns; no request reaches a service.
  pub on_recv_lem :
      (f id k : ℕ) (d : NetDrive) (s : NetSocket) (n : Node)
      → grab d id ≡ some s
      → s.connected ≡ true
      → length s.buffer ≤ 2048
      → 0 < length s.buffer
      → proto_analyze s.buffer ≡ some (suc k)
      → (after : NetDrive) × (on_recv strtoul self data_ptr (suc (suc f)) id d n
          ≡ stopped (listed (command_of id s.buffer)) false after n)
        × (grab after id ≡ some (record s { buffer = [] }))
  unfolding on_recv
  on_recv_lem f id k d s n e c l l2 p =
      let size = proto_analyze-le s.buffer (suc k) p in
      let (after, took, left, others) =
        read_lem id (suc k) d s e (omega arith) (omega arith) l2 (omega arith) in
      let fits : ltb 2048 (length s.buffer) ≡ false = ground arith in
      (
        after,
        rw
            (
              check_waiting id d s e c l2,
              p,
              took,
              fits,
              perform_lem (command_of id s.buffer) n,
              rest_lem f id after s n left c,
            )
            (ran (command_of id s.buffer) after n),
        left,
      )

  -- Where more than 2048 bytes wait and they begin with a whole packet, `onRecv` writes all of them to its
  -- buffer of 2048 bytes.
  pub on_recv-overflow :
      (f id k : ℕ) (d : NetDrive) (s : NetSocket) (n : Node)
      → grab d id ≡ some s
      → s.connected ≡ true
      → 2048 < length s.buffer
      → length s.buffer < 2 ^ 31
      → proto_analyze s.buffer ≡ some (suc k)
      → on_recv strtoul self data_ptr (suc f) id d n ≡ undefined
  unfolding on_recv
  on_recv-overflow f id k d s n e c l l2 p =
      let size = proto_analyze-le s.buffer (suc k) p in
      let (after, took, left, others) =
        read_lem id (suc k) d s e (omega arith) (omega arith) (omega arith) l2 in
      let over : ltb 2048 (length s.buffer) ≡ true = ground arith in
      rw (check_waiting id d s e c (omega arith), p, took, over) refl
