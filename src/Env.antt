-- ===== src/Env.antt =====
-- rednet-src/uenv.h and uenv.cc: the settings, which stand in the globals of a Lua state, with the
-- callers that write them: `loadDeploy` of rednet-src/uframework.cc and `luaSetEnv` of ucall.cc.
pub mod Once
pub mod Tests
use rednet.Common.{
  ℕ, ◌≡◌, ◌≢◌, Bool, true, false, List, [], ◌∷◌, Option, none, some, if◌then◌else◌, ◌==◌,
}
use rednet.ContextMgr.{same_name}

-- The calls of the Lua library: `global` is `lua_getglobal` with `lua_tostring`, none at nil, and
-- `set_global` is `lua_pushstring` with `lua_setglobal`. A text is the list of its bytes.
pub record Lua {ℓ} (S : Type ℓ) : Type ℓ where
  pub global : List ℕ → S → Option (List ℕ)
  pub set_global : List ℕ → List ℕ → S → S

-- what the manual of Lua says of the two
pub record IsLua {ℓ} {S : Type ℓ} (l : Lua S) : Type ℓ where
  pub global_self :
      (key value : List ℕ) (s : S) → l.global key (l.set_global key value s) ≡ some value
  pub global_ne :
      (key other value : List ℕ) (s : S)
      → other ≢ key
      → l.global other (l.set_global key value s) ≡ l.global other s

-- `sprintf` with "%d" and `strtol` in base 10, on an `int` as its 32-bit pattern
pub record Digits : Type 0 where
  pub sprintf : ℕ → List ℕ
  pub strtol : List ℕ → ℕ

-- "true", "false" and the space
abbrev pub true_text : List ℕ
true_text = 116 ∷ 114 ∷ 117 ∷ 101 ∷ []

abbrev pub false_text : List ℕ
false_text = 102 ∷ 97 ∷ 108 ∷ 115 ∷ 101 ∷ []

abbrev pub space : ℕ
space = 32

-- The loop of `luaSetEnv`: the key up to the first space, and the value behind it. Without a space it
-- returns.
abbrev pub and_key_byte : ℕ → Option (List ℕ × List ℕ) → Option (List ℕ × List ℕ)
and_key_byte b none = none
and_key_byte b (some (key, value)) = some (b ∷ key, value)

unfoldable pub split_space : List ℕ → Option (List ℕ × List ℕ)
split_space [] = none
split_space (b ∷ rest) =
    let later = and_key_byte b (split_space rest) in if b == space then some ([], rest) else later

-- a call of the settings with its arguments
pub data EnvCall : Type 0 where
  getting : List ℕ → EnvCall
  setting : List ℕ → List ℕ → EnvCall
  getting_int : List ℕ → ℕ → EnvCall
  getting_boolean : List ℕ → Bool → EnvCall
  getting_string : List ℕ → Option (List ℕ) → EnvCall
  loading : List (List ℕ × List ℕ) → EnvCall
  setting_from_lua : List ℕ → EnvCall

module _ {ℓ} {S : Type ℓ} (l : Lua S) where
  -- the assertion of `setEnv` on what the global was, and the write: none where the assertion fails
  abbrev pub if_nil : List ℕ → List ℕ → S → Option (List ℕ) → Option S
  if_nil key value s none = some (l.set_global key value s)
  if_nil key value s (some old) = none

  unfoldable pub set_env : List ℕ → List ℕ → S → Option S
  set_env key value s = if_nil key value s (l.global key s)

  unfoldable pub get_env : List ℕ → S → Option (List ℕ)
  get_env key s = l.global key s

  -- a result with the state that `setEnv` left
  abbrev pub with_state {ℓ'} : {R : Type ℓ'} → R → Option S → Option (R × S)
  with_state r none = none
  with_state r (some t) = some (r, t)

  -- `__getInt`, from what `getEnv` returned
  abbrev pub int_of : Digits → List ℕ → ℕ → S → Option (List ℕ) → Option (ℕ × S)
  int_of d key opt s none = with_state opt (set_env key (d.sprintf opt) s)
  int_of d key opt s (some str) = some (d.strtol str, s)

  unfoldable pub get_int : Digits → List ℕ → ℕ → S → Option (ℕ × S)
  get_int d key opt s = int_of d key opt s (get_env key s)

  -- `__getBoolean`, from what `getEnv` returned
  abbrev pub boolean_of : List ℕ → Bool → S → Option (List ℕ) → Option (Bool × S)
  boolean_of key opt s none = with_state opt (set_env key (if opt then true_text else false_text) s)
  boolean_of key opt s (some str) = some (same_name str true_text, s)

  unfoldable pub get_boolean : List ℕ → Bool → S → Option (Bool × S)
  get_boolean key opt s = boolean_of key opt s (get_env key s)

  -- the second `getEnv` of `__getString`
  abbrev pub read_again : List ℕ → Option S → Option (Option (List ℕ) × S)
  read_again key none = none
  read_again key (some t) = some (get_env key t, t)

  -- `__getString`, from what `getEnv` returned; `none` for a default is NULL
  abbrev pub string_of :
      List ℕ → Option (List ℕ) → S → Option (List ℕ) → Option (Option (List ℕ) × S)
  string_of key none s none = some (none, s)
  string_of key (some opt) s none = read_again key (set_env key opt s)
  string_of key opt s (some str) = some (some str, s)

  unfoldable pub get_string : List ℕ → Option (List ℕ) → S → Option (Option (List ℕ) × S)
  get_string key opt s = string_of key opt s (get_env key s)

  -- a failing assertion ends the program
  abbrev pub or_end : Option S → (S → Option S) → Option S
  or_end none next = none
  or_end (some t) next = next t

  -- the loop of `loadDeploy` over the entries of the file
  unfoldable pub load_deploy : List (List ℕ × List ℕ) → S → Option S
  load_deploy [] s = some s
  load_deploy ((key, value) ∷ entries) s = or_end (set_env key value s) (load_deploy entries)

  abbrev pub set_split : S → Option (List ℕ × List ℕ) → Option S
  set_split s none = some s
  set_split s (some (key, value)) = set_env key value s

  unfoldable pub lua_set_env : List ℕ → S → Option S
  lua_set_env param s = set_split s (split_space param)

  -- the state after a call that returns a result
  abbrev pub state_of {ℓ'} : {R : Type ℓ'} → Option (R × S) → Option S
  state_of none = none
  state_of (some (r, t)) = some t

  unfoldable pub run_call : Digits → EnvCall → S → Option S
  run_call d (getting key) s = some s
  run_call d (setting key value) s = set_env key value s
  run_call d (getting_int key opt) s = state_of (get_int d key opt s)
  run_call d (getting_boolean key opt) s = state_of (get_boolean key opt s)
  run_call d (getting_string key opt) s = state_of (get_string key opt s)
  run_call d (loading entries) s = load_deploy entries s
  run_call d (setting_from_lua param) s = lua_set_env param s

  -- calls one after another, up to an assertion that fails
  unfoldable pub run_calls : Digits → List EnvCall → S → Option S
  run_calls d [] s = some s
  run_calls d (c ∷ calls) s = or_end (run_call d c s) (run_calls d calls)
