-- ===== src/SocketServer/Closing.antt =====
-- The commands that close, for a connected socket.
use rednet.Common.{
  ℕ, ◌≡◌, ◌≢◌, ap, sym, ◌∙◌, Bool, false, ◌||◌, List, [], Bool-cases, inl, inr, ◌==◌, update_self,
}
use rednet.Socket.{
  Status, invalid, connected, halfclose, Answer, Written, is_close, is_forward, on_close,
  on_forward,
}
use rednet.SocketServer.{
  Server, place_of, sock_of, put_done, is_gone, closed_with, goes_on, on_forward_message,
  finish_close, oper_close,
}
use rednet.Socket.Pending.{on_forward_lem}
use rednet.SocketServer.Close.{goes, closed_by_writer, on_forward_message-open, connected≢reserve}
use rednet.SocketServer.Live.{IsLive}
use rednet.SocketServer.Apart.{Apart, Apart-refl, Apart-trans, put-Apart, done-Apart}
use rednet.SocketServer.Others.{IsCalm, noted, closed-Apart, gone, here, own_or_other, either_way}

finish_close-Apart :
    (shutdown : Bool) (id k opaque : ℕ) (v : Server)
    → (place_of k == place_of id) ≡ false
    → Apart id v (finish_close shutdown k opaque v).1
finish_close-Apart shutdown id k opaque v h =
    elim (Bool-cases (shutdown || is_forward (sock_of v k))) [
      | inl e ↦ rw e (closed-Apart id k opaque _ (on_close (sock_of v k)) v h)
      | inr e ↦ rw e (put-Apart id k _ v h)
    ]

pub forward_message-Apart :
    (locked : Bool) (ws : List Written) (id k : ℕ) (v : Server)
    → (place_of k == place_of id) ≡ false
    → Apart id v (on_forward_message locked ws k v).1
unfolding on_forward_message
forward_message-Apart locked ws id k v h =
    elim (Bool-cases (is_close (on_forward locked ws (sock_of v k)).answer)) [
      | inl d ↦ rw d (
          noted _ (sock_of v k).id (sock_of v k).opaque 0 []
            (done-Apart id k (on_forward locked ws (sock_of v k)) v h))
      | inr d ↦ rw d (done-Apart id k (on_forward locked ws (sock_of v k)) v h)
    ]

close_other :
    (locked : Bool) (ws : List Written) (shutdown : Bool) (id k opaque : ℕ) (v : Server)
    → k ≢ id
    → IsLive id v
    → Apart id v (oper_close locked ws shutdown k opaque v).1
unfolding oper_close
close_other locked ws shutdown id k opaque v n o = elim (Bool-cases (place_of k == place_of id)) [
  | inl h ↦ rw (gone id k v n o h) (noted _ k opaque 0 [] Apart-refl)
  | inr h ↦
      let p = on_forward_message locked ws k v in
      let first = forward_message-Apart locked ws id k v h in
      let last = finish_close-Apart shutdown id k opaque v h in
      let P : Answer × Server → Type 0 = λ r. Apart id v r.1 in
      either_way P (is_gone k (sock_of v k)) _ _ (noted _ k opaque 0 [] Apart-refl) (
        either_way P (is_forward (sock_of v k)) _ _ last (
          either_way P (goes_on p.0) _ _
            (Apart-trans first (finish_close-Apart shutdown id k opaque p.1 h)) first))
]

-- `onClose` of an open socket
closed_status :
    (a : Answer) (id opaque : ℕ) (v : Server)
    → (sock_of v id).status ≡ connected
    → (sock_of (closed_with a id opaque (on_close (sock_of v id)) v).1 id).status ≡ invalid
unfolding on_close
closed_status a id opaque v e = rw e (ap (λ s. s.status) (update_self v.socks (place_of id) _))

-- the socket of the id is not connected any more
abbrev IsOver : ℕ → Answer × Server → Type 0
IsOver id r = (sock_of r.1 id).status ≢ connected

pub over : (st : Status) → st ≡ invalid → st ≢ connected
over st e c = cc

finish_close-IsOver :
    (shutdown : Bool) (id opaque : ℕ) (v : Server)
    → (sock_of v id).status ≡ connected
    → IsOver id (finish_close shutdown id opaque v)
finish_close-IsOver shutdown id opaque v e =
    either_way (IsOver id) (shutdown || is_forward (sock_of v id)) _ _
      (over _ (closed_status _ id opaque v e))
      (λ c. half (sym (ap (λ s. s.status) (update_self v.socks (place_of id) _)) ∙ c))
  where
    half : halfclose ≢ connected
    half c = cc c

close_own :
    (locked : Bool) (ws : List Written) (shutdown : Bool) (id opaque : ℕ) (v : Server)
    → IsLive id v
    → IsOver id (oper_close locked ws shutdown id opaque v)
unfolding oper_close
close_own locked ws shutdown id opaque v o =
    let s = sock_of v id in
    let p = on_forward_message locked ws id v in
    rw (here id v o) (
      either_way (IsOver id) (is_forward s) _ _ (finish_close-IsOver shutdown id opaque v o.status)
        (elim (Bool-cases (is_close (on_forward locked ws s).answer)) [
          | inl c ↦
              let x = closed_by_writer locked ws id _ v o c in
              let stop : goes_on p.0 ≡ false = ap goes_on x.answer in rw stop (over _ x.status)
          | inr c ↦
              let f =
                on_forward_lem locked ws s o.counted (λ e. connected≢reserve (sym o.status ∙ e)) in
              let (none_lost, counted, status) = f.stays c in
              let r = on_forward locked ws s in
              let still : (sock_of (put_done id r v) id).status ≡ connected =
                ap (λ t. t.status) (update_self v.socks (place_of id) r.socket)
                ∙ status
                ∙ o.status in
              rw (on_forward_message-open locked ws id v c, goes r.answer f.settled c)
                (finish_close-IsOver shutdown id opaque (put_done id r v) still)
        ]))

pub oper_close-IsCalm :
    (locked : Bool) (ws : List Written) (shutdown : Bool) (id k opaque : ℕ) (v : Server)
    → IsLive id v
    → IsCalm id v (oper_close locked ws shutdown k opaque v).1
oper_close-IsCalm locked ws shutdown id k opaque v o =
    own_or_other id k v (λ j. (oper_close locked ws shutdown j opaque v).1) o
      (λ c. absurd (close_own locked ws shutdown id opaque v o c))
      (λ n. close_other locked ws shutdown id k opaque v n o)
