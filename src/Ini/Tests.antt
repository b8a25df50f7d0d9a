-- ===== src/Ini/Tests.antt =====
-- The configuration file of rednet-src/uini.cc at a concrete one.
use rednet.Common.{ℕ, ◌≡◌, refl, true, List, [], ◌∷◌}
use rednet.Ini.{
  isspace, starts_with, is_comment, put_value, get_value, same_key, load, get_boolean_value,
  tolower,
}
use rednet.Ini.Parse.{tight, without, is_key, is_value}
use rednet.Ini.Load.{print, all_entries, put_all, load-print}

abbrev host : List ℕ
host = 104 ∷ 111 ∷ 115 ∷ 116 ∷ []

abbrev debug : List ℕ
debug = 100 ∷ 98 ∷ 103 ∷ []

abbrev yes_word : List ℕ
yes_word = 84 ∷ 114 ∷ 117 ∷ 101 ∷ []

-- host=db1, dbg=True
abbrev entries : List (List ℕ × List ℕ)
entries = (host, 100 ∷ 98 ∷ 49 ∷ []) ∷ (debug, yes_word) ∷ []

load-print_example : load (print entries) ≡ put_all entries []
unfolding all_entries is_key is_value tight without isspace is_comment starts_with
load-print_example = load-print entries refl

get_boolean_value-debug : get_boolean_value debug true (put_all entries []) ≡ true
unfolding get_boolean_value put_all put_value get_value same_key tolower
get_boolean_value-debug = refl
