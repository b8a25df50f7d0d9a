-- ===== src/Modules/Tests.antt =====
-- The modules of rednet-src/umodule.cc with a path of two templates.
use Prim.{tt}
use rednet.Common.{ℕ, ◌+◌, ◌≡◌, refl, List, [], ◌∷◌, Option, none, some, if◌then◌else◌, length}
use rednet.Ini.{same_key}
use rednet.Modules.{
  skip, template, after_template, fill_in, opened, open_rounds, local_opendl, last_part, api_symbol,
  query, init_path,
}
use rednet.Modules.Templates.{templates}
use rednet.Modules.Search.{first_open, local_opendl-first_open, AllFit, templates-AllFit}
use rednet.Modules.Cached.{IsKept, query-IsKept}

-- "a?;;?.so"
abbrev path : List ℕ
path = b'a' ∷ b'?' ∷ b';' ∷ b';' ∷ b'?' ∷ b'.' ∷ b's' ∷ b'o' ∷ []

-- "x.db"
abbrev name : List ℕ
name = b'x' ∷ b'.' ∷ b'd' ∷ b'b' ∷ []

-- only "x.db.so" is there
abbrev dlopen : List ℕ → Option ℕ
dlopen t = if same_key t (b'x' ∷ b'.' ∷ b'd' ∷ b'b' ∷ b'.' ∷ b's' ∷ b'o' ∷ []) then some 7 else none

-- every symbol is there
abbrev dlsym : ℕ → List ℕ → Option ℕ
dlsym h s = some (length s)

found : local_opendl dlopen name (init_path path) ≡ opened 7
unfolding local_opendl open_rounds skip template after_template fill_in same_key
found = refl

-- the symbol of "x.db" is "db_create"
symbol : length (api_symbol name (b'_' ∷ b'c' ∷ [])) ≡ 4
unfolding api_symbol last_part
symbol = refl

local_opendl-first_open_example :
    local_opendl dlopen name (init_path path) ≡ first_open dlopen name (templates path)
local_opendl-first_open_example = local_opendl-first_open dlopen name (init_path path)

templates-AllFit_example : AllFit (length path + length name) name (templates path)
templates-AllFit_example = templates-AllFit name (init_path path)

query-IsKept_example : IsKept name (init_path path) (query dlopen dlsym name (init_path path))
query-IsKept_example = query-IsKept dlopen dlsym name (init_path path) tt
