-- ===== src/Modules/Templates.antt =====
-- The templates of a path, which stand between its ';'.

use rednet.Common.{
  ℕ, suc, ◌≤◌, ◌<◌, ◌≡◌, ◌⊎◌, refl, ap, sym, ◌∙◌, false, List, [], ◌∷◌, if◌then◌else◌, ◌==◌, length,
  arith, Bool-cases, inl, inr,
}
use rednet.Modules.{semicolon, skip, template, after_template}

abbrev and_first : ℕ → List (List ℕ) → List (List ℕ)
and_first c [] = (c ∷ []) ∷ []
and_first c (p ∷ ps) = (c ∷ p) ∷ ps

-- a text cut at each ';'
pieces : List ℕ → List (List ℕ)
pieces [] = [] ∷ []
pieces (c ∷ cs) = if c == semicolon then [] ∷ pieces cs else and_first c (pieces cs)

nonempties : List (List ℕ) → List (List ℕ)
nonempties [] = []
nonempties ([] ∷ ps) = nonempties ps
nonempties ((c ∷ p) ∷ ps) = (c ∷ p) ∷ nonempties ps

-- the templates of a path: the pieces between ';' that are not empty
pub templates : List ℕ → List (List ℕ)
templates path = nonempties (pieces path)

-- the pieces behind the first
later : List ℕ → List (List ℕ)
later [] = []
later (c ∷ cs) = let rest = later cs in if c == semicolon then pieces cs else rest

pieces-template : (p : List ℕ) → pieces p ≡ template p ∷ later p
unfolding pieces later template
pieces-template [] = refl
pieces-template (c ∷ cs) = elim (Bool-cases (c == semicolon)) [
  | inl h ↦ rw h refl
  | inr h ↦ rw (h, pieces-template cs) refl
]

later-templates : (p : List ℕ) → nonempties (later p) ≡ templates (after_template p)
unfolding later templates pieces nonempties after_template
later-templates [] = refl
later-templates (c ∷ cs) = elim (Bool-cases (c == semicolon)) [
  | inl h ↦ rw (h, h) refl
  | inr h ↦ rw h (later-templates cs)
]

skip-cons : (c : ℕ) (cs : List ℕ) → (c == semicolon) ≡ false → skip (c ∷ cs) ≡ c ∷ cs
unfolding skip
skip-cons c cs h = rw h refl

template-cons :
    (c : ℕ) (cs : List ℕ) → (c == semicolon) ≡ false → template (c ∷ cs) ≡ c ∷ template cs
unfolding template
template-cons c cs h = rw h refl

pub templates-skip : (p : List ℕ) → templates (skip p) ≡ templates p
unfolding templates pieces nonempties skip
templates-skip [] = refl
templates-skip (c ∷ cs) = elim (Bool-cases (c == semicolon)) [
  | inl h ↦ rw h (templates-skip cs)
  | inr h ↦ ap templates (skip-cons c cs h)
]

-- where a path goes on behind its first ';'
pub templates-cons :
    (c : ℕ) (cs : List ℕ)
    → (c == semicolon) ≡ false
    → templates (c ∷ cs) ≡ template (c ∷ cs) ∷ templates (after_template (c ∷ cs))
unfolding templates nonempties
templates-cons c cs h =
    ap nonempties (pieces-template (c ∷ cs))
    ∙ ap (λ t. nonempties (t ∷ later (c ∷ cs))) (template-cons c cs h)
    ∙ ap (λ ts. (c ∷ template cs) ∷ ts) (later-templates (c ∷ cs))
    ∙ ap (λ t. t ∷ templates (after_template (c ∷ cs))) (sym (template-cons c cs h))

-- what `skip` leaves begins with another byte
pub skip-cases :
    (p : List ℕ)
    → (skip p ≡ [])
      ⊎ ((c : ℕ) × (cs : List ℕ) × (skip p ≡ c ∷ cs)
          × ((c == semicolon) ≡ false)
          × (length cs < length p))
unfolding skip
skip-cases [] = inl refl
skip-cases (c ∷ cs) = elim (Bool-cases (c == semicolon)) [
  | inr h ↦ inr (c, cs, skip-cons c cs h, h, omega arith)
  | inl h ↦ rw h (skipped (skip-cases cs))
]
  where
    skipped :
        {q : List ℕ}
        → (q ≡ [])
          ⊎ ((b : ℕ) × (bs : List ℕ) × (q ≡ b ∷ bs)
              × ((b == semicolon) ≡ false)
              × (length bs < length cs))
        → (q ≡ [])
          ⊎ ((b : ℕ) × (bs : List ℕ) × (q ≡ b ∷ bs)
              × ((b == semicolon) ≡ false)
              × (length bs < suc (length cs)))
    skipped (inl e) = inl e
    skipped (inr (b, bs, e, n, l)) = inr (b, bs, e, n, omega arith)

length-after_template : (p : List ℕ) → length (after_template p) ≤ length p
unfolding after_template
length-after_template [] = omega arith
length-after_template (c ∷ cs) = ground (arith, length-after_template cs)

pub length-template : (p : List ℕ) → length (template p) ≤ length p
unfolding template
length-template [] = omega arith
length-template (c ∷ cs) = ground (arith, length-template cs)

pub shorter_tail :
    (c : ℕ) (cs : List ℕ) → (c == semicolon) ≡ false → length (after_template (c ∷ cs)) ≤ length cs
unfolding after_template
shorter_tail c cs h = rw h (length-after_template cs)

pub templates_nil : templates [] ≡ []
unfolding templates pieces nonempties
templates_nil = refl
