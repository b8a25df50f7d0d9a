-- ===== src/Calls/Tests.antt =====
-- The calls of rednet-src/ucall.cc in concrete runs.
use rednet.Common.{
  ℕ, ◌+◌, ◌-◌, ◌*◌, ◌<◌, ◌≡◌, refl, ap, ◌∙◌, List, [], ◌∷◌, map, none, some, false, if◌then◌else◌,
  ltb, arith,
}
use rednet.EventQueue.{init}
use rednet.EventQueue.Ring.{IsValid}
use rednet.ContextMgr.{start}
use rednet.Calls.{hex, to_addr, addr_to, Node, send_from}
use rednet.Calls.Addresses.{value, AreDigits, addr_to-to_addr}
use rednet.Calls.Delivery.{IsAnswered, send_from-IsAnswered}

-- a reader of numbers in base 16, for upper-case digits
abbrev digit : ℕ → ℕ
digit c = if ltb c 58 then c - 48 else c - 55

abbrev parse : ℕ → List ℕ → ℕ
parse n [] = n
parse n (c ∷ cs) = parse (n * 16 + digit c) cs

digit-hex : (d : ℕ) → d < 16 → digit (hex d) ≡ d
digit-hex d l = grind arith

parse-hex : (n : ℕ) (ds : List ℕ) → AreDigits ds → parse n (map hex ds) ≡ value n ds
parse-hex n [] h = refl
parse-hex n (d ∷ ds) (l, h) =
    ap (λ k. parse (n * 16 + k) (map hex ds)) (digit-hex d l) ∙ parse-hex (n * 16 + d) ds h

addr_to-to_addr_example : addr_to (parse 0) (to_addr 16777217) (start 1) ≡ 16777217
addr_to-to_addr_example =
    addr_to-to_addr (parse 0) (λ ds h l. parse-hex 0 ds h) 16777217 (start 1) (omega arith)

init-IsValid : (i : ℕ) → IsValid (init i)
unfolding init
init-IsValid i = record { array = omega arith; head_in = omega arith; tail_in = omega arith }

-- one service, with id 1
abbrev node : Node
node = record {
  mgr = record (start 0) {
    ctxs = none ∷ some (record { address = 4096; id = 1 }) ∷ none ∷ none ∷ [];
  };
  shared = record { queues = λ i. init i; global = []; registered = λ i. false };
}

send_from-IsAnswered_example :
    IsAnswered
      (record { source = 2; session = 5; data_ptr = 9; type = 3; sz = 16 })
      1
      node
      (send_from 2 1 3 5 9 16 none node)
send_from-IsAnswered_example =
    send_from-IsAnswered 2 1 3 5 9 16 node (λ e. absurd (omega (arith, e))) (init-IsValid 1)
