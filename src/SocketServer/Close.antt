-- ===== src/SocketServer/Close.antt =====
-- What becomes of a socket that a service closes.
use rednet.Common.{
  ℕ, ◌≡◌, ◌≢◌, refl, ap, sym, ◌∙◌, Bool, true, false, false≢true, ◌||◌, List, [], ◌∷◌, ◌++◌,
  Bool-cases, inl, inr, if◌then◌else◌, update_self,
}
use rednet.Socket.{
  invalid, connected, reserve, Answer, go_on, close_answer, warning_answer, Written, is_forward,
  is_close, on_forward, on_close,
}
use rednet.Socket.Pending.{settles, is_close_answer, on_forward_lem}
use rednet.SocketServer.{
  Report, Server, place_of, sock_of, put_done, closed_with, goes_on, on_forward_message,
  finish_close, oper_close,
}
use rednet.SocketServer.Live.{IsOpen, IsLive}
use rednet.SocketServer.HalfClose.{here}

-- a socket that is closed, with one report of it after the old ones
pub record IsClosed (id : ℕ) (old : List Report) (r : Answer × Server) : Type 0 where
  pub answer : r.0 ≡ close_answer
  pub status : (sock_of r.1 id).status ≡ invalid
  pub opaque : ℕ
  pub reports :
      r.1.reports
      ≡ old ++ record { type = close_answer; id = id; opaque = opaque; ud = 0; bytes = [] } ∷ []

pub goes : (a : Answer) → settles a ≡ true → is_close a ≡ false → goes_on a ≡ true
goes go_on h c = refl
goes warning_answer h c = refl
goes close_answer h c = absurd (false≢true (sym c))
goes _ h c = absurd (false≢true h)

closes :
    (id opaque : ℕ) (w : Server)
    → (sock_of w id).status ≡ connected
    → IsClosed id w.reports (closed_with close_answer id opaque (on_close (sock_of w id)) w)
unfolding on_close
closes id opaque w e = rw e (record {
  answer = refl;
  status = ap (λ s. s.status) (update_self w.socks (place_of id) _);
  opaque = opaque;
  reports = refl;
})

pub connected≢reserve : connected ≢ reserve
connected≢reserve e = cc e

-- `onForward` closed the socket
pub closed_by_writer :
    (locked : Bool) (ws : List Written) (id n : ℕ) (v : Server)
    → IsOpen id n (sock_of v id)
    → is_close (on_forward locked ws (sock_of v id)).answer ≡ true
    → IsClosed id v.reports (on_forward_message locked ws id v)
unfolding on_forward_message
closed_by_writer locked ws id n v o c =
    let s = sock_of v id in
    let f = on_forward_lem locked ws s o.counted (λ e. connected≢reserve (sym o.status ∙ e)) in
    rw c (record {
      answer = is_close_answer (on_forward locked ws s).answer c;
      status =
          ap (λ t. t.status) (update_self v.socks (place_of id) (on_forward locked ws s).socket)
          ∙ f.gone c;
      opaque = s.opaque;
      reports =
          ap
            (λ k.
              v.reports
              ++ record { type = close_answer; id = k; opaque = s.opaque; ud = 0; bytes = [] } ∷ [])
            o.own;
    })

kept :
    (locked : Bool) (ws : List Written) (shutdown : Bool) (id opaque : ℕ) (v : Server)
    → IsClosed id v.reports (on_forward_message locked ws id v)
    → IsClosed id v.reports (
        let (a, w) = on_forward_message locked ws id v in
        if goes_on a then finish_close shutdown id opaque w else (a, w))
kept locked ws shutdown id opaque v x =
    let stop : goes_on (on_forward_message locked ws id v).0 ≡ false = ap goes_on x.answer in
    rw stop x

pub on_forward_message-open :
    (locked : Bool) (ws : List Written) (id : ℕ) (v : Server)
    → is_close (on_forward locked ws (sock_of v id)).answer ≡ false
    → on_forward_message locked ws id v ≡ (
      (on_forward locked ws (sock_of v id)).answer,
      put_done id (on_forward locked ws (sock_of v id)) v,
    )
unfolding on_forward_message
on_forward_message-open locked ws id v c = rw c refl

either : (b : Bool) → (b || true) ≡ true
either true = refl
either false = refl

or_false : (b : Bool) → (b || false) ≡ b
or_false true = refl
or_false false = refl

-- A close of a connected socket closes it, and reports that once, with its id, where it is a shutdown or
-- nothing waits by the test of `isForward`, whatever `write` returns.
pub oper_close-closes :
    (locked : Bool) (ws : List Written) (shutdown : Bool) (id opaque : ℕ) (v : Server)
    → IsLive id v
    → (shutdown || is_forward (sock_of v id)) ≡ true
    → IsClosed id v.reports (oper_close locked ws shutdown id opaque v)
unfolding oper_close
oper_close-closes locked ws shutdown id opaque v o h =
    let s = sock_of v id in
    rw (here id _ s o) (elim (Bool-cases (is_forward s)) [
      | inl i ↦ rw (i, either shutdown) (closes id opaque v o.status)
      | inr i ↦
          let down : shutdown ≡ true =
            sym (or_false shutdown) ∙ ap (λ k. shutdown || k) (sym i) ∙ h in
          rw i (elim (Bool-cases (is_close (on_forward locked ws s).answer)) [
            | inl c ↦ kept locked ws shutdown id opaque v (closed_by_writer locked ws id _ v o c)
            | inr c ↦
                let f =
                  on_forward_lem locked ws s o.counted
                    (λ e. connected≢reserve (sym o.status ∙ e)) in
                let (none_lost, counted, status) = f.stays c in
                let r = on_forward locked ws s in
                let still : (sock_of (put_done id r v) id).status ≡ connected =
                  ap (λ t. t.status) (update_self v.socks (place_of id) r.socket)
                  ∙ status
                  ∙ o.status in
                rw (on_forward_message-open locked ws id v c, goes r.answer f.settled c, down)
                  (closes id opaque (put_done id r v) still)
          ])
    ])
