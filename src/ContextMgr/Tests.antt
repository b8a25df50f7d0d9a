-- ===== src/ContextMgr/Tests.antt =====
-- The table of rednet-src/ucontext.cc in concrete runs.
use rednet.Common.{
  ℕ, zero, suc, ap, sym, false, ◌+◌, ◌*◌, ◌%◌, ◌<◌, ◌≡◌, refl, List, [], ◌∷◌, Option, none, some,
  arith, if◌then◌else◌, ◌==◌,
}
use rednet.ContextMgr.{
  slot, is_none, Context, ContextMgr, id_span, start, find_place, move_one, move_entries, expand,
  registered, full, waiting, occupy, register_id, grab, same_name, convert_name, put_name,
  register_name, erase_name, unregister,
}
use rednet.ContextMgr.Register.{IsSized, grab-register_id, grab-register_id_free}
use rednet.ContextMgr.Jam.{IsJammed, register_id-waiting}
use rednet.ContextMgr.Grab.{grab-unregister}
use rednet.ContextMgr.Retire.{retire_all, grab-retire_all}
use rednet.ContextMgr.Names.{convert_name-unregister, names_of, first, tail}

-- `registerId` at the address `a`, with fuel for two expansions
abbrev after : ContextMgr → ContextMgr
after m = elim (register_id 3 0x100 m) [ registered id r ↦ r | full ↦ m | waiting ↦ m ]

-- four services, and with the last retired a fifth in its place
abbrev four : ContextMgr
four = after (after (after (after (start 1))))

start-IsSized : IsSized (start 1)
unfolding start
start-IsSized = record { exponent = 2; power = refl; small = omega arith; places = omega arith }

first_id : register_id 1 0x100 (start 1) ≡ registered 0x100_0001 (after (start 1))
unfolding register_id find_place occupy start
first_id = refl

grab-register_id_example :
    (grab (after (start 1)) 0x100_0001 ≡ some (record { address = 0x100; id = 0x100_0001 }))
    × IsSized (after (start 1))
grab-register_id_example =
    grab-register_id 1 0x100 0x100_0001 (start 1) (after (start 1)) start-IsSized first_id

grab-register_id_free_example :
    (m : ContextMgr) × (register_id 1 0x100 (start 1) ≡ registered (1 + 1 * id_span) m)
    × (grab m 7 ≡ (
        if 7 == 1 + 1 * id_span
        then some (record { address = 0x100; id = 1 + 1 * id_span })
        else grab (start 1) 7))
unfolding start find_place
grab-register_id_free_example = grab-register_id_free 0 0x100 1 7 (start 1) start-IsSized refl

grab-unregister_example : grab (unregister 0x100_0001 (after (start 1))).1 0x100_0001 ≡ none
grab-unregister_example = grab-unregister 0x100_0001 0x100_0001 (after (start 1))

four_places : 0 < four.cap
unfolding register_id find_place occupy start
four_places = omega arith

grab-retire_all_example : grab (retire_all 2 four) 0x100_0004 ≡ none
grab-retire_all_example = grab-retire_all 1 0x100_0004 four four_places (omega arith)

abbrev logger : List ℕ
logger = 108 ∷ 111 ∷ 103 ∷ []

abbrev two_names : ContextMgr
two_names = register_name 0x100_0001 [] (register_name 0x100_0001 logger (after (start 1)))

grab-two_names : grab two_names 0x100_0001 ≡ some (record { address = 0x100; id = 0x100_0001 })
unfolding grab register_name register_id find_place occupy start
grab-two_names = refl

convert_name-unregister_example :
    (names_of 0x100_0001 (unregister 0x100_0001 two_names).1.names ≡ [] ∷ [])
    × (convert_name 0x100_0001 (unregister 0x100_0001 two_names).1 ≡ some [])
unfolding names_of first tail put_name register_name same_name register_id find_place occupy start
convert_name-unregister_example =
    convert_name-unregister 0x100_0001 0x100_0001 two_names _ grab-two_names

abbrev jam : ContextMgr
jam = after (unregister 0x100_0004 four).1

jam_taken : (i : ℕ) → i < 4 → is_none (slot jam.ctxs i) ≡ false
unfolding register_id find_place occupy start unregister grab erase_name
jam_taken zero h = refl
jam_taken (suc zero) h = refl
jam_taken (suc (suc zero)) h = refl
jam_taken (suc (suc (suc zero))) h = refl
jam_taken (suc (suc (suc (suc i)))) h = absurd (omega arith)

abbrev place_of : Option Context → ℕ
place_of none = 0
place_of (some c) = c.id % 8

jam_settled : (i : ℕ) (c : Context) → slot jam.ctxs i ≡ some c → c.id % 8 ≡ i
unfolding register_id find_place occupy start unregister grab erase_name
jam_settled zero c e = sym (ap place_of e)
jam_settled (suc zero) c e = sym (ap place_of e)
jam_settled (suc (suc zero)) c e = sym (ap place_of e)
jam_settled (suc (suc (suc zero))) c e = sym (ap place_of e)
jam_settled (suc (suc (suc (suc i)))) c e = absurd cc

jam-IsJammed : IsJammed jam
unfolding register_id find_place occupy start unregister grab erase_name
jam-IsJammed = record {
  some_place = omega arith;
  small = omega arith;
  taken = jam_taken;
  settled = jam_settled;
}

register_id-waiting_example : register_id 1000 0x100 jam ≡ waiting
register_id-waiting_example = register_id-waiting 1000 0x100 jam jam-IsJammed

-- Seven services after an expansion, of which 4 and then 12 were registered at one place of the table:
-- the old entry of the retired 4 is moved over that of 12 in the next expansion.
abbrev seven : ContextMgr
seven = after (after (after four))

abbrev twelve : ContextMgr
twelve = after (unregister 0x100_0004 seven).1

-- registering one more id loses the context 12 and gives the retired context 4 again
abbrev lost : ContextMgr
lost = after twelve

grab-twelve : grab twelve 0x100_000C ≡ some (record { address = 0x100; id = 0x100_000C })
unfolding register_id find_place occupy start unregister grab erase_name expand move_one
    move_entries
grab-twelve = refl

grab-lost :
    (grab lost 0x100_000C ≡ none)
    × (grab lost 0x100_0004 ≡ some (record { address = 0x100; id = 0x100_0004 }))
unfolding register_id find_place occupy start unregister grab erase_name expand move_one
    move_entries
grab-lost = (refl, refl)
