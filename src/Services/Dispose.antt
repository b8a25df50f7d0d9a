-- ===== src/Services/Dispose.antt =====
-- `disponseAll` hands all events to the callback, in order.
use rednet.Common.{
  ℕ, zero, suc, ◌<◌, ◌≡◌, refl, ap, sym, subst, ◌∙◌, Bool, true, false, List, [], ◌∷◌, ◌++◌, Option,
  none, some, if◌then◌else◌, length, arith, append_assoc, append-nil,
}
use rednet.EventQueue.{Event, EventQueue, pop}
use rednet.EventQueue.Ring.{contents, IsValid}
use rednet.EventQueue.Fifo.{Popped, pop_lem}
use rednet.Services.{
  Answered, Service, Disposed, disposed, push_all, answered, execute, and_on, with_event,
  disponse_all,
}

module _ {ℓ} {S : Type ℓ} where
  -- the user data after a callback has had all events of a list
  unfoldable pub ud_after : (S → Event → Answered S) → S → List Event → S
  ud_after f ud [] = ud
  ud_after f ud (e ∷ es) = ud_after f (f ud e).ud es

  -- the data of the events that it does not keep
  unfoldable pub not_kept : (S → Event → Answered S) → S → List Event → List ℕ
  not_kept f ud [] = []
  not_kept f ud (e ∷ es) =
      (if (f ud e).keeps then [] else e.data_ptr ∷ []) ++ not_kept f (f ud e).ud es

  -- the service when all events of `es` were handed over
  pub record Drained (f : S → Event → Answered S) (s : Service S) (es : List Event) (t : Service S)
      : Type ℓ where
    pub valid : IsValid t.queue
    pub empty : contents t.queue ≡ []
    pub idle : t.queue.inglobal ≡ 0
    pub ud : t.ud ≡ ud_after f s.ud es
    pub freed : t.freed ≡ s.freed ++ not_kept f s.ud es

  abbrev pub Ends : (S → Event → Answered S) → Service S → List Event → Disposed S → Type ℓ
  Ends f s es o = (t : Service S) × (o ≡ disposed t) × Drained f s es t

  -- what `execute` leaves of the service where the callback sends nothing
  record Executed (e : Event) (a : Answered S) (s : Service S) (u : Service S) : Type ℓ where
    queue : u.queue ≡ s.queue
    inited : u.inited ≡ s.inited
    ud : u.ud ≡ a.ud
    freed : u.freed ≡ s.freed ++ (if a.keeps then [] else e.data_ptr ∷ [])

  executed :
      (e : Event) (keeps : Bool) (ud : S) (s : Service S)
      → Executed e
          (record { keeps = keeps; ud = ud; sends = [] })
          s
          (answered e (record { keeps = keeps; ud = ud; sends = [] }) s)
  unfolding push_all
  executed e true ud s = record {
    queue = refl;
    inited = refl;
    ud = refl;
    freed = sym (append-nil s.freed);
  }
  executed e false ud s = record { queue = refl; inited = refl; ud = refl; freed = refl }

  silent-Executed :
      (e : Event) (a : Answered S) (s : Service S) → a.sends ≡ [] → Executed e a s (answered e a s)
  silent-Executed e a s h =
      let b : Answered S = record a { sends = [] } in
      let same : b ≡ a = λ i. record a { sends = sym h i } in
      subst (λ (c : Answered S). Executed e c s (answered e c s)) same (executed e a.keeps a.ud s)

  module _ (f : S → Event → Answered S) (silent : (ud : S) (e : Event) → (f ud e).sends ≡ []) where
    go_on :
        (e : Event) (s u : Service S) (es : List Event) (o : Disposed S)
        → u.ud ≡ (f s.ud e).ud
        → u.freed ≡ s.freed ++ (if (f s.ud e).keeps then [] else e.data_ptr ∷ [])
        → Ends f u es o
        → Ends f s (e ∷ es) o
    unfolding ud_after not_kept
    go_on e s u es o ud freed (t, end, d) = (
      t,
      end,
      record {
        valid = d.valid;
        empty = d.empty;
        idle = d.idle;
        ud = d.ud ∙ ap (λ y. ud_after f y es) ud;
        freed =
            d.freed
            ∙ ap (λ x. x ++ not_kept f u.ud es) freed
            ∙ append_assoc s.freed _ (not_kept f u.ud es)
            ∙ ap
                (λ y.
                  s.freed
                  ++ ((if (f s.ud e).keeps then [] else e.data_ptr ∷ []) ++ not_kept f y es))
                ud;
      },
    )

    -- the assertion holds
    runs :
        (go : Service S → Disposed S) (e : Event) (s : Service S)
        → s.inited ≡ true
        → and_on go (execute (some f) e s) ≡ go (answered e (f s.ud e) s)
    unfolding execute
    runs go e s i = ap (λ b. and_on go (if b then some (answered e (f s.ud e) s) else none)) i

    handed :
        (n : ℕ) (s : Service S) (r : Option Event × EventQueue) (es : List Event)
        → s.inited ≡ true
        → Popped s.queue r
        → contents s.queue ≡ es
        → length es < suc n
        → ((u : Service S) (ks : List Event)
            → u.inited ≡ true
            → IsValid u.queue
            → contents u.queue ≡ ks
            → length ks < n
            → Ends f u ks (disponse_all n (some f) u))
        → Ends f s es (with_event (disponse_all n (some f)) (some f) s r)
    unfolding ud_after not_kept
    handed n s (none, q) es i p c l ih =
        let none_left : es ≡ [] = sym c ∙ p.1 in
        (
          record s { queue = q },
          refl,
          rw none_left (record {
            valid = p.0;
            empty = p.2;
            idle = p.3;
            ud = refl;
            freed = sym (append-nil s.freed);
          }),
        )
    handed n s (some e, q) es i p c l ih =
        let u = answered e (f s.ud e) (record s { queue = q }) in
        let x = silent-Executed e (f s.ud e) (record s { queue = q }) (silent s.ud e) in
        let more : es ≡ e ∷ contents q = sym c ∙ p.1 in
        let shorter : length (contents q) < n = omega (arith, ap length more) in
        let rest =
          ih u (contents q) (x.inited ∙ i) (subst IsValid (sym x.queue) p.0) (ap contents x.queue)
            shorter in
        let (t, end, d) = go_on e s u (contents q) (disponse_all n (some f) u) x.ud x.freed rest in
        (
          t,
          runs (disponse_all n (some f)) e (record s { queue = q }) i ∙ end,
          subst (λ ks. Drained f s ks t) (sym more) d,
        )

    all_handed :
        (n : ℕ) (s : Service S) (es : List Event)
        → s.inited ≡ true
        → IsValid s.queue
        → contents s.queue ≡ es
        → length es < n
        → Ends f s es (disponse_all n (some f) s)
    unfolding disponse_all
    all_handed zero s es i v c l = absurd (omega arith)
    all_handed (suc n) s es i v c l =
        handed n s (pop s.queue) es i (pop_lem s.queue v) c l (all_handed n)

  -- Let a service be set up, its ring valid, and let its callback send it nothing. Then `disponseAll` ends:
  -- all events of the queue go to the callback once, in their order, each with the user data that the one
  -- before left; the data of exactly those that it does not keep is freed, in order; and the queue is
  -- empty, with its flag `inglobal` at 0.
  pub disponse_all-Drained :
      (f : S → Event → Answered S) (n : ℕ) (s : Service S)
      → ((ud : S) (e : Event) → (f ud e).sends ≡ [])
      → s.inited ≡ true
      → IsValid s.queue
      → length (contents s.queue) < n
      → (t : Service S) × (disponse_all n (some f) s ≡ disposed t)
        × Drained f s (contents s.queue) t
  disponse_all-Drained f n s silent i v l = all_handed f silent n s (contents s.queue) i v refl l
