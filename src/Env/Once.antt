-- ===== src/Env/Once.antt =====
-- The settings are written once.
use rednet.Common.{
  ℕ, ◌≡◌, ◌≢◌, refl, ap, sym, ◌∙◌, Bool, true, false, List, [], ◌∷◌, Option, none, some,
  Option-cases, inl, inr, if◌then◌else◌,
}
use rednet.ContextMgr.{same_name}
use rednet.Env.{
  Lua, IsLua, Digits, true_text, false_text, set_env, get_env, or_end, with_state, int_of, get_int,
  boolean_of, get_boolean, read_again, string_of, get_string, load_deploy, set_split, split_space,
  lua_set_env, state_of, EnvCall, getting, setting, getting_int, getting_boolean, getting_string,
  loading, setting_from_lua, run_call, run_calls,
}

reads_back {ℓ} :
    {S : Type ℓ} (b : Bool) (t : S)
    → ◌≡◌ {A = Option (Bool × S)}
        (some (same_name (if b then true_text else false_text) true_text, t))
        (some (b, t))
unfolding same_name
reads_back true t = refl
reads_back false t = refl

module _ {ℓ} {S : Type ℓ} (l : Lua S) (laws : IsLua l) where
  -- what an optional state keeps: each setting with a value, if the state is there
  abbrev Keeps : S → Option S → Type ℓ
  Keeps s o =
      (t : S) (key value : List ℕ)
      → o ≡ some t
      → l.global key s ≡ some value
      → l.global key t ≡ some value

  same-Keeps : (s : S) → Keeps s (some s)
  same-Keeps s t key value e h = let same : s ≡ t = cc in ap (l.global key) (sym same) ∙ h

  none-Keeps : (s : S) → Keeps s none
  none-Keeps s t key value e h = absurd cc

  set_env-Keeps : (key value : List ℕ) (s : S) → Keeps s (set_env l key value s)
  unfolding set_env
  set_env-Keeps key value s t k v e h = elim (Option-cases (l.global key s)) [
    | inl n ↦
        let done : some (l.set_global key value s) ≡ some t = simp n at e in
        let same : l.set_global key value s ≡ t = cc in
        let other : k ≢ key =
          λ p. let bad : some v ≡ none = sym h ∙ ap (λ x. l.global x s) p ∙ n in absurd cc in
        ap (l.global k) (sym same) ∙ laws.global_ne key k value s other ∙ h
    | inr (old, n) ↦ let bad : none ≡ some t = simp n at e in absurd cc
  ]

  with_state-Keeps {ℓ'} :
      {R : Type ℓ'} (s : S) (r : R) (o : Option S)
      → Keeps s o
      → Keeps s (state_of l (with_state l r o))
  with_state-Keeps s r none k = none-Keeps s
  with_state-Keeps s r (some t) k = k

  int_of-Keeps :
      (d : Digits) (key : List ℕ) (opt : ℕ) (s : S) (o : Option (List ℕ))
      → Keeps s (state_of l (int_of l d key opt s o))
  int_of-Keeps d key opt s none =
      with_state-Keeps s opt (set_env l key (d.sprintf opt) s) (set_env-Keeps key _ s)
  int_of-Keeps d key opt s (some str) = same-Keeps s

  boolean_of-Keeps :
      (key : List ℕ) (opt : Bool) (s : S) (o : Option (List ℕ))
      → Keeps s (state_of l (boolean_of l key opt s o))
  boolean_of-Keeps key opt s none =
      with_state-Keeps s opt (set_env l key (if opt then true_text else false_text) s)
        (set_env-Keeps key _ s)
  boolean_of-Keeps key opt s (some str) = same-Keeps s

  read_again-Keeps :
      (key : List ℕ) (s : S) (o : Option S) → Keeps s o → Keeps s (state_of l (read_again l key o))
  read_again-Keeps key s none k = none-Keeps s
  read_again-Keeps key s (some t) k = k

  string_of-Keeps :
      (key : List ℕ) (opt : Option (List ℕ)) (s : S) (o : Option (List ℕ))
      → Keeps s (state_of l (string_of l key opt s o))
  string_of-Keeps key none s none = same-Keeps s
  string_of-Keeps key (some opt) s none =
      read_again-Keeps key s (set_env l key opt s) (set_env-Keeps key opt s)
  string_of-Keeps key none s (some str) = same-Keeps s
  string_of-Keeps key (some opt) s (some str) = same-Keeps s

  set_split-Keeps : (s : S) (o : Option (List ℕ × List ℕ)) → Keeps s (set_split l s o)
  set_split-Keeps s none = same-Keeps s
  set_split-Keeps s (some (key, value)) = set_env-Keeps key value s

  or_end-Keeps :
      (s : S) (o : Option S) (next : S → Option S)
      → Keeps s o
      → ((u : S) → Keeps u (next u))
      → Keeps s (or_end l o next)
  or_end-Keeps s none next k n = none-Keeps s
  or_end-Keeps s (some u) next k n = λ t key value e h. n u t key value e (k u key value refl h)

  load_deploy-Keeps : (entries : List (List ℕ × List ℕ)) (s : S) → Keeps s (load_deploy l entries s)
  unfolding load_deploy
  load_deploy-Keeps [] s = same-Keeps s
  load_deploy-Keeps ((k, v) ∷ entries) s =
      or_end-Keeps s (set_env l k v s) (load_deploy l entries) (set_env-Keeps k v s)
        (load_deploy-Keeps entries)

  run_call-Keeps : (d : Digits) (c : EnvCall) (s : S) → Keeps s (run_call l d c s)
  unfolding run_call get_int get_boolean get_string get_env lua_set_env
  run_call-Keeps d (getting key) s = same-Keeps s
  run_call-Keeps d (setting key value) s = set_env-Keeps key value s
  run_call-Keeps d (getting_int key opt) s = int_of-Keeps d key opt s (l.global key s)
  run_call-Keeps d (getting_boolean key opt) s = boolean_of-Keeps key opt s (l.global key s)
  run_call-Keeps d (getting_string key opt) s = string_of-Keeps key opt s (l.global key s)
  run_call-Keeps d (loading entries) s = load_deploy-Keeps entries s
  run_call-Keeps d (setting_from_lua param) s = set_split-Keeps s (split_space param)

  run_calls-Keeps : (d : Digits) (calls : List EnvCall) (s : S) → Keeps s (run_calls l d calls s)
  unfolding run_calls
  run_calls-Keeps d [] s = same-Keeps s
  run_calls-Keeps d (c ∷ calls) s =
      or_end-Keeps s (run_call l d c s) (run_calls l d calls) (run_call-Keeps d c s)
        (run_calls-Keeps d calls)

  -- Where the calls of Lua do what its manual says, a setting that has a value keeps it through any calls
  -- after which the program still runs.
  pub get_env-run_calls :
      (d : Digits) (calls : List EnvCall) (s t : S) (key value : List ℕ)
      → run_calls l d calls s ≡ some t
      → get_env l key s ≡ some value
      → get_env l key t ≡ some value
  unfolding get_env
  get_env-run_calls d calls s t key value e h = run_calls-Keeps d calls s t key value e h

  set_env-nil :
      (key value : List ℕ) (s : S)
      → l.global key s ≡ none
      → set_env l key value s ≡ some (l.set_global key value s)
  unfolding set_env
  set_env-nil key value s n = rw n refl

  -- Where the calls of Lua do what its manual says, `__getBoolean` returns, and a later call with any default
  -- gives the same and changes nothing.
  pub get_boolean-get_boolean :
      (key : List ℕ) (opt later : Bool) (s : S)
      → (b : Bool) × (t : S) × (get_boolean l key opt s ≡ some (b, t))
        × (get_boolean l key later t ≡ some (b, t))
  unfolding get_boolean get_env
  get_boolean-get_boolean key opt later s = elim (Option-cases (l.global key s)) [
    | inl n ↦
        let text : List ℕ = if opt then true_text else false_text in
        let t : S = l.set_global key text s in
        (
          opt,
          t,
          rw (n, set_env-nil key text s n) refl,
          rw (laws.global_self key text s) (reads_back opt t),
        )
    | inr (str, n) ↦ (same_name str true_text, s, rw n refl, rw n refl)
  ]
