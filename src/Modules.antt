-- ===== src/Modules.antt =====
-- rednet-src/umodule.h and umodule.cc: the modules of the services, shared objects that are searched
-- along a path of templates and kept by their names. A text is a list of bytes, with no byte 0 among
-- them. `dlopen` and `dlsym` are parameters.
pub mod Templates
pub mod Search
pub mod Cached
pub mod Tests
use rednet.Common.{
  ℕ, zero, suc, ◌+◌, Bool, true, false, List, [], ◌∷◌, ◌++◌, Option, none, some, if◌then◌else◌,
  ◌==◌, length,
}
use rednet.Ini.{same_key}

abbrev pub semicolon : ℕ
semicolon = b';'

abbrev pub question : ℕ
question = b'?'

abbrev pub full_stop : ℕ
full_stop = b'.'

-- umodule; none is NULL
pub record Module : Type 0 where
  pub lib : ℕ
  pub create_cb : Option ℕ
  pub release_cb : Option ℕ

pub record ModMgr : Type 0 where
  pub mods : List (List ℕ × Module)
  pub modp : List ℕ

-- `while (*path == ';') path++`
unfoldable pub skip : List ℕ → List ℕ
skip [] = []
skip (c ∷ cs) = let rest = skip cs in if c == semicolon then rest else c ∷ cs

-- what stands before the next ';', and from it on
unfoldable pub template : List ℕ → List ℕ
template [] = []
template (c ∷ cs) = if c == semicolon then [] else c ∷ template cs

unfoldable pub after_template : List ℕ → List ℕ
after_template [] = []
after_template (c ∷ cs) = let rest = after_template cs in if c == semicolon then c ∷ cs else rest

abbrev pub and_byte : ℕ → Option (List ℕ) → Option (List ℕ)
and_byte c none = none
and_byte c (some t) = some (c ∷ t)

-- `tmp`: the template with the name for its first '?'; none where it has none
unfoldable pub fill_in : List ℕ → List ℕ → Option (List ℕ)
fill_in name [] = none
fill_in name (c ∷ cs) =
    let more = and_byte c (fill_in name cs) in if c == question then some (name ++ cs) else more

-- what `local_opendl` comes to; `exits` ends the process
pub data Opened : Type 0 where
  opened : ℕ → Opened
  missing exits : Opened

abbrev pub is_empty : List ℕ → Bool
is_empty [] = true
is_empty (c ∷ cs) = false

-- a candidate for `dlopen`, with what follows if there is no such object
abbrev pub or_else : Option ℕ → Opened → Opened
or_else (some h) o = opened h
or_else none o = o

abbrev pub try_at : (List ℕ → Option ℕ) → Option (List ℕ) → Opened → Opened
try_at dlopen none o = exits
try_at dlopen (some t) o = or_else (dlopen t) o

-- The loop of `local_opendl`; every round takes a byte of the path or is the last.
unfoldable pub open_rounds : (List ℕ → Option ℕ) → List ℕ → ℕ → List ℕ → Opened
open_rounds dlopen name zero path = missing
open_rounds dlopen name (suc f) path =
    let p = skip path in
    let more = open_rounds dlopen name f (after_template p) in
    if is_empty p then missing else try_at dlopen (fill_in name (template p)) more

unfoldable pub local_opendl : (List ℕ → Option ℕ) → List ℕ → ModMgr → Opened
local_opendl dlopen name m = open_rounds dlopen name (length m.modp + 1) m.modp

-- what follows the last '.', or the whole text; `best` is the last one so far
unfoldable pub last_part : List ℕ → List ℕ → List ℕ
last_part best [] = best
last_part best (c ∷ cs) = last_part (if c == full_stop then cs else best) cs

-- `get_api`: the symbol that `dlsym` is asked for
unfoldable pub api_symbol : List ℕ → List ℕ → List ℕ
api_symbol name api_name = last_part (name ++ api_name) (name ++ api_name)

-- "_create" and "_release"
abbrev pub create_api : List ℕ
create_api = b'_' ∷ b'c' ∷ b'r' ∷ b'e' ∷ b'a' ∷ b't' ∷ b'e' ∷ []

abbrev pub release_api : List ℕ
release_api = b'_' ∷ b'r' ∷ b'e' ∷ b'l' ∷ b'e' ∷ b'a' ∷ b's' ∷ b'e' ∷ []

-- the constructor and `open`
unfoldable pub open_module : (ℕ → List ℕ → Option ℕ) → List ℕ → ℕ → Module
open_module dlsym name lib = record {
  lib = lib;
  create_cb = dlsym lib (api_symbol name create_api);
  release_cb = dlsym lib (api_symbol name release_api);
}

unfoldable pub find_module : List ℕ → List (List ℕ × Module) → Option Module
find_module name [] = none
find_module name ((k, m) ∷ ms) =
    let rest = find_module name ms in if same_key k name then some m else rest

abbrev pub local_query : List ℕ → ModMgr → Option Module
local_query name m = find_module name m.mods

-- What `query` comes to: the module or NULL, with the modules after it, or the end of the process.
pub data Queried : Type 0 where
  queried : Option Module → ModMgr → Queried
  ended : Queried

-- `open` gives whether there is a `create_cb`; a module is kept only then.
abbrev pub keep_if : Option ℕ → List ℕ → Module → ModMgr → Queried
keep_if none name new m = queried none m
keep_if (some c) name new m = queried (some new) (record m { mods = (name, new) ∷ m.mods })

abbrev pub register_opened : (ℕ → List ℕ → Option ℕ) → List ℕ → Opened → ModMgr → Queried
register_opened dlsym name exits m = ended
register_opened dlsym name missing m = queried none m
register_opened dlsym name (opened h) m =
    let new = open_module dlsym name h in keep_if new.create_cb name new m

abbrev pub or_register : Option Module → ModMgr → Queried → Queried
or_register (some r) m q = queried (some r) m
or_register none m q = q

-- With the write lock, the modules are searched once more.
unfoldable pub local_register :
    (List ℕ → Option ℕ) → (ℕ → List ℕ → Option ℕ) → List ℕ → ModMgr → Queried
local_register dlopen dlsym name m =
    or_register (find_module name m.mods) m
      (register_opened dlsym name (local_opendl dlopen name m) m)

unfoldable pub query : (List ℕ → Option ℕ) → (ℕ → List ℕ → Option ℕ) → List ℕ → ModMgr → Queried
query dlopen dlsym name m = or_register (local_query name m) m (local_register dlopen dlsym name m)

-- `local_clear`
abbrev pub local_clear : ModMgr → ModMgr
local_clear m = record m { mods = [] }

-- `init`
abbrev pub init_path : List ℕ → ModMgr
init_path cpath = record { mods = []; modp = cpath }
