-- ===== src/Modules/Cached.antt =====
-- The modules that are kept.
use Prim.{Unit, tt}
use rednet.Common.{ℕ, ◌≡◌, refl, sym, subst, false, List, [], ◌∷◌, Option, none, some, either_way}
use rednet.Ini.{same_key}
use rednet.Ini.Load.{same_key_refl}
use rednet.Modules.{
  Module, ModMgr, Opened, opened, missing, exits, open_module, find_module, local_opendl, Queried,
  queried, ended, keep_if, register_opened, or_register, local_register, query,
}

-- A module that can create its components.
abbrev pub CanCreate : Option ℕ → Type 0
CanCreate none = ⊥
CanCreate (some c) = Unit

abbrev pub AllCreate : List (List ℕ × Module) → Type 0
AllCreate [] = Unit
AllCreate ((k, m) ∷ ms) = CanCreate m.create_cb × AllCreate ms

-- What is left of the modules where `query` gave `r`: the same ones, with `r` what was kept under the name,
-- or one more where none was.
abbrev pub IsKeptOnce : List ℕ → ModMgr → Module → ModMgr → Option Module → Type 0
IsKeptOnce name m r m' none = m' ≡ record m { mods = (name, r) ∷ m.mods }
IsKeptOnce name m r m' (some old) = (r ≡ old) × (m' ≡ m)

-- What `query` of a name leaves, where it gives a module: the module can create, it is the one that was
-- kept, if there was one, every later `query` of the name gives it again and changes nothing, whatever
-- `dlopen` and `dlsym` answer then, the other names are as they were, and all modules can create.
pub record Kept (name : List ℕ) (m : ModMgr) (r : Module) (m' : ModMgr) : Type 0 where
  pub creates : CanCreate r.create_cb
  pub once : IsKeptOnce name m r m' (find_module name m.mods)
  pub again :
      (dlopen : List ℕ → Option ℕ) (dlsym : ℕ → List ℕ → Option ℕ)
      → query dlopen dlsym name m' ≡ queried (some r) m'
  pub others : (k : List ℕ) → same_key name k ≡ false → find_module k m'.mods ≡ find_module k m.mods
  pub all : AllCreate m'.mods

abbrev pub IsKept : List ℕ → ModMgr → Queried → Type 0
IsKept name m (queried (some r) m') = Kept name m r m'
IsKept name m (queried none m') = (m' ≡ m) × (find_module name m.mods ≡ none)
IsKept name m ended = find_module name m.mods ≡ none

abbrev IfAnyCreates : Option Module → Type 0
IfAnyCreates none = Unit
IfAnyCreates (some m) = CanCreate m.create_cb

find_module-creates :
    (name : List ℕ) (ms : List (List ℕ × Module))
    → AllCreate ms
    → IfAnyCreates (find_module name ms)
unfolding find_module
find_module-creates name [] a = tt
find_module-creates name ((k, m) ∷ ms) (c, a) =
    either_way IfAnyCreates (same_key k name) _ _ c (find_module-creates name ms a)

-- a module that is kept is given without a search
query-kept :
    (dlopen : List ℕ → Option ℕ) (dlsym : ℕ → List ℕ → Option ℕ) (name : List ℕ) (r : Module)
    (m : ModMgr)
    → find_module name m.mods ≡ some r
    → query dlopen dlsym name m ≡ queried (some r) m
unfolding query
query-kept dlopen dlsym name r m e = rw e refl

keep_if-IsKept :
    (o : Option ℕ) (name : List ℕ) (new : Module) (m : ModMgr)
    → find_module name m.mods ≡ none
    → new.create_cb ≡ o
    → AllCreate m.mods
    → IsKept name m (keep_if o name new m)
unfolding find_module
keep_if-IsKept none name new m n e a = (refl, n)
keep_if-IsKept (some c) name new m n e a = record {
  creates = subst CanCreate (sym e) tt;
  once = subst (IsKeptOnce name m new (record m { mods = (name, new) ∷ m.mods })) (sym n) refl;
  again = λ dlopen dlsym.
      query-kept dlopen dlsym name new (record m { mods = (name, new) ∷ m.mods })
        (rw (same_key_refl name) refl);
  others = λ k h. rw h refl;
  all = (subst CanCreate (sym e) tt, a);
}

register-IsKept :
    (dlsym : ℕ → List ℕ → Option ℕ) (name : List ℕ) (o : Opened) (m : ModMgr)
    → find_module name m.mods ≡ none
    → AllCreate m.mods
    → IsKept name m (register_opened dlsym name o m)
register-IsKept dlsym name exits m n a = n
register-IsKept dlsym name missing m n a = (refl, n)
register-IsKept dlsym name (opened h) m n a =
    keep_if-IsKept _ name (open_module dlsym name h) m n refl a

or_register-IsKept :
    (o : Option Module) (name : List ℕ) (m : ModMgr) (q : Queried)
    → find_module name m.mods ≡ o
    → AllCreate m.mods
    → (find_module name m.mods ≡ none → IsKept name m q)
    → IsKept name m (or_register o m q)
or_register-IsKept none name m q e a h = h e
or_register-IsKept (some r) name m q e a h = record {
  creates = subst IfAnyCreates e (find_module-creates name m.mods a);
  once = subst (IsKeptOnce name m r m) (sym e) (refl, refl);
  again = λ dlopen dlsym. query-kept dlopen dlsym name r m e;
  others = λ k n. refl;
  all = a;
}

-- Let all modules that are kept be able to create their components. Then `query` of a name gives the module
-- that is kept under it, where there is one, and changes nothing; else it gives a module that can create
-- and keeps it in front of the others, or gives none and changes nothing, or ends the process. Every later
-- `query` of the name gives the module again and changes nothing, whatever `dlopen` and `dlsym` answer,
-- and the modules of other names are as they were.
pub query-IsKept :
    (dlopen : List ℕ → Option ℕ) (dlsym : ℕ → List ℕ → Option ℕ) (name : List ℕ) (m : ModMgr)
    → AllCreate m.mods
    → IsKept name m (query dlopen dlsym name m)
unfolding query local_register
query-IsKept dlopen dlsym name m a =
    or_register-IsKept (find_module name m.mods) name m _ refl a λ n.
      or_register-IsKept (find_module name m.mods) name m _ refl a
        λ k. register-IsKept dlsym name (local_opendl dlopen name m) m k a
