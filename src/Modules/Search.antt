-- ===== src/Modules/Search.antt =====
-- The search along the path tries the templates one after the other.
use Prim.{Unit, tt}
use rednet.Common.{
  ℕ, zero, suc, ◌+◌, ◌≤◌, ◌<◌, ◌≡◌, refl, ap, sym, ◌∙◌, List, [], ◌∷◌, Option, none, some, ◌==◌,
  length, length-append, arith, Bool-cases, inl, inr,
}
use rednet.Modules.{
  question, template, after_template, and_byte, fill_in, Opened, missing, try_at, open_rounds,
  local_opendl, ModMgr,
}
use rednet.Modules.Templates.{
  templates, templates-cons, templates-skip, skip-cases, length-template, shorter_tail,
  templates_nil,
}

-- The first template that leads to an object gives it; one without a '?' ends the process if none
-- before it does.
unfoldable pub first_open : (List ℕ → Option ℕ) → List ℕ → List (List ℕ) → Opened
first_open dlopen name [] = missing
first_open dlopen name (t ∷ ts) = try_at dlopen (fill_in name t) (first_open dlopen name ts)

rounds-templates :
    (dlopen : List ℕ → Option ℕ) (name : List ℕ) (f : ℕ) (p : List ℕ)
    → length p < f
    → open_rounds dlopen name f p ≡ first_open dlopen name (templates p)
unfolding open_rounds first_open
rounds-templates dlopen name zero p h = absurd (omega arith)
rounds-templates dlopen name (suc f) p h = elim (skip-cases p) [
  | inl e ↦
      let z : templates p ≡ [] = sym (templates-skip p) ∙ ap templates e ∙ templates_nil in
      rw (e, z) refl
  | inr (c, cs, e, n, l) ↦
      let z : templates p ≡ template (c ∷ cs) ∷ templates (after_template (c ∷ cs)) =
        sym (templates-skip p) ∙ ap templates e ∙ templates-cons c cs n in
      let shorter = shorter_tail c cs n in
      rw (e, z, rounds-templates dlopen name f (after_template (c ∷ cs)) (omega (arith, shorter)))
        refl
]

-- `local_opendl` tries the templates between the ';' of the path in their order: the first that leads to
-- an object gives it, one without a '?' before that ends the process, and otherwise there is none. So
-- its loop ends.
pub local_opendl-first_open :
    (dlopen : List ℕ → Option ℕ) (name : List ℕ) (m : ModMgr)
    → local_opendl dlopen name m ≡ first_open dlopen name (templates m.modp)
unfolding local_opendl
local_opendl-first_open dlopen name m =
    rounds-templates dlopen name (length m.modp + 1) m.modp (omega arith)

-- a text and its end fit into `n` bytes
abbrev pub Fits : ℕ → Option (List ℕ) → Type 0
Fits n none = Unit
Fits n (some t) = length t < n

abbrev pub AllFit : ℕ → List ℕ → List (List ℕ) → Type 0
AllFit n name [] = Unit
AllFit n name (t ∷ ts) = Fits n (fill_in name t) × AllFit n name ts

and_byte-Fits : (n c : ℕ) (o : Option (List ℕ)) → Fits n o → Fits (suc n) (and_byte c o)
and_byte-Fits n c none h = tt
and_byte-Fits n c (some t) h = omega arith

Fits-le : {n k : ℕ} (o : Option (List ℕ)) → n ≤ k → Fits n o → Fits k o
Fits-le none l h = tt
Fits-le (some t) l h = omega arith

fill_in-Fits : (name t : List ℕ) → Fits (length t + length name) (fill_in name t)
unfolding fill_in
fill_in-Fits name [] = tt
fill_in-Fits name (c ∷ cs) = elim (Bool-cases (c == question)) [
  | inl h ↦ rw h (omega (arith, length-append name cs))
  | inr h ↦
      let l : suc (length cs + length name) ≤ suc (length cs) + length name = omega arith in
      rw h (
        Fits-le (and_byte c (fill_in name cs)) l
          (and_byte-Fits (length cs + length name) c (fill_in name cs) (fill_in-Fits name cs)))
]

rounds_fit :
    (name : List ℕ) (n f : ℕ) (p : List ℕ)
    → length p < f
    → length p + length name ≤ n
    → AllFit n name (templates p)
rounds_fit name n zero p h l = absurd (omega arith)
rounds_fit name n (suc f) p h l = elim (skip-cases p) [
  | inl e ↦
      let z : templates p ≡ [] = sym (templates-skip p) ∙ ap templates e ∙ templates_nil in rw z tt
  | inr (c, cs, e, k, s) ↦
      let z : templates p ≡ template (c ∷ cs) ∷ templates (after_template (c ∷ cs)) =
        sym (templates-skip p) ∙ ap templates e ∙ templates-cons c cs k in
      let shorter = shorter_tail c cs k in
      let fit = length-template (c ∷ cs) in
      rw z (
        Fits-le (fill_in name (template (c ∷ cs))) (omega (arith, fit))
            (fill_in-Fits name (template (c ∷ cs))),
        rounds_fit name n f (after_template (c ∷ cs)) (omega (arith, shorter))
            (omega (arith, shorter)),
      )
]

-- Every text that `local_opendl` builds fits, with the byte 0 at its end, into its buffer, whose size is
-- that of the path and of the name together.
pub templates-AllFit :
    (name : List ℕ) (m : ModMgr) → AllFit (length m.modp + length name) name (templates m.modp)
templates-AllFit name m =
    rounds_fit name (length m.modp + length name) (length m.modp + 1) m.modp (omega arith)
      (omega arith)
