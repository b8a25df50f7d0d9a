-- ===== src/Env/Tests.antt =====
-- The settings of rednet-src/uenv.cc on a table for the Lua state.
use rednet.Common.{
  ℕ, ◌+◌, ◌-◌, ◌≡◌, refl, true, false, List, [], ◌∷◌, Option, none, some, if◌then◌else◌,
}
use rednet.ContextMgr.{same_name}
use rednet.ContextMgr.Names.{same_name-ne, same_name_refl}
use rednet.Env.{
  Lua, IsLua, Digits, set_env, get_env, get_boolean, load_deploy, split_space, lua_set_env,
  getting_boolean, setting_from_lua, run_call, run_calls,
}
use rednet.Env.Once.{get_env-run_calls}

abbrev Globals : Type 0
Globals = List (List ℕ × List ℕ)

abbrev look : List ℕ → Globals → Option (List ℕ)
look key [] = none
look key ((other, value) ∷ globals) =
    let later = look key globals in if same_name key other then some value else later

abbrev lua : Lua Globals
lua = record { global = look; set_global = λ key value globals. (key, value) ∷ globals }

lua-IsLua : IsLua lua
lua-IsLua = record {
  global_self = λ key value s. rw (same_name_refl key) refl;
  global_ne = λ key other value s n. rw (same_name-ne other key n) refl;
}

-- numbers of one digit
abbrev digit : List ℕ → ℕ
digit [] = 0
digit (b ∷ rest) = b - 48

abbrev digits : Digits
digits = record { sprintf = λ n. (n + 48) ∷ []; strtol = digit }

-- a file with `a` at `1`, the default of `p`, and `b 2` from Lua
abbrev loaded : Globals
loaded = (98 ∷ [], 50 ∷ []) ∷ (112 ∷ [], 102 ∷ 97 ∷ 108 ∷ 115 ∷ 101 ∷ []) ∷ (97 ∷ [], 49 ∷ []) ∷ []

one_run :
    run_calls lua digits
      (getting_boolean (112 ∷ []) false
        ∷ setting_from_lua (98 ∷ 32 ∷ 50 ∷ [])
        ∷ getting_boolean (112 ∷ []) true
        ∷ [])
      ((97 ∷ [], 49 ∷ []) ∷ [])
    ≡ some loaded
unfolding run_calls run_call set_env get_env get_boolean lua_set_env split_space same_name
one_run = refl

get_env-run_calls_example : get_env lua (97 ∷ []) loaded ≡ some (49 ∷ [])
unfolding get_env same_name
get_env-run_calls_example =
    get_env-run_calls lua lua-IsLua digits
      (getting_boolean (112 ∷ []) false
        ∷ setting_from_lua (98 ∷ 32 ∷ 50 ∷ [])
        ∷ getting_boolean (112 ∷ []) true
        ∷ [])
      ((97 ∷ [], 49 ∷ []) ∷ []) loaded (97 ∷ []) (49 ∷ []) one_run refl

-- a second entry of one key, and a key that was read with a default before, fail the assertion
twice : load_deploy lua ((97 ∷ [], []) ∷ (97 ∷ [], []) ∷ []) [] ≡ none
unfolding load_deploy set_env same_name
twice = refl
